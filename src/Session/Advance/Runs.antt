-- ===== src/Session/Advance/Runs.antt =====
-- internal/application/session/service.go: the operations of the service as steps on its state.
use cap_mesh.Prelude.{◌≡◌, some}
use cap_mesh.Text.{Text}
use cap_mesh.Map
use cap_mesh.Domain.{Session}
use cap_mesh.Domain.Lifecycle.{Leads}
use cap_mesh.Session.Targets.{CreateInput}
use cap_mesh.Session.Sources.{Env, Resolver}
use cap_mesh.Session.Service.{World}
use cap_mesh.Session.Create.{create}
use cap_mesh.Session.Stop.{stop_session}
use cap_mesh.Session.Nodes.{agent_connected}
use cap_mesh.Session.Agents.{agent_disconnected, capture_status}
use cap_mesh.Session.Reconcile.{reconcile}
use cap_mesh.Session.Restore.{restore}
use cap_mesh.Session.Advance.{IsKeyed, Advances, Advances-refl, Advances-trans}
use cap_mesh.Session.Advance.Running.{
  agent_connected-Advances, capture_status-Advances, reconcile-Advances,
}
use cap_mesh.Session.Advance.Disconnect.{agent_disconnected-Advances}
use cap_mesh.Session.Advance.Whole.{create-Advances}
use cap_mesh.Session.Advance.Resume.{stop_session-Advances, restore-Advances}

-- One call of the service; what is outside it may differ from call to call.
pub data Call : World → World → Type 0 where
  on_create : (env : Env) (input : CreateInput) (w : World) → Call w (create env input w).0
  on_stop : (env : Env) (id : Text) (w : World) → Call w (stop_session env id w).0
  on_connected : (env : Env) (w : World) → Call w (agent_connected env w)
  on_disconnected : (env : Env) (node : Text) (w : World) → Call w (agent_disconnected env node w)
  on_status :
      (env : Env) (node id source state message : Text) (w : World)
      → Call w (capture_status env node id source state message w)
  on_tick :
      (env : Env) (resolve : Resolver) (id : Text) (w : World) → Call w (reconcile env resolve id w)
  on_restore : (env : Env) (s : Session) (w : World) → Call w (restore env s w).0

-- Any number of calls, one after the other.
pub data Calls : World → World → Type 0 where
  no_calls : {w : World} → Calls w w
  one_more : {u v w : World} → Call u v → Calls v w → Calls u w

Call-Advances : {u v : World} → Call u v → IsKeyed u → Advances u v
Call-Advances (on_create env input w) k = create-Advances env input w
Call-Advances (on_stop env id w) k = stop_session-Advances env id w k
Call-Advances (on_connected env w) k = agent_connected-Advances env w k
Call-Advances (on_disconnected env node w) k = agent_disconnected-Advances env node w k
Call-Advances (on_status env node id source state message w) k =
    capture_status-Advances env node id source state message w k
Call-Advances (on_tick env resolve id w) k = reconcile-Advances env resolve id w k
Call-Advances (on_restore env s w) k = restore-Advances env s w k

Calls-advance : {u w : World} → Calls u w → IsKeyed u → Advances u w
Calls-advance no_calls k = Advances-refl
Calls-advance (one_more c cs) k =
    let first = Call-Advances c k in Advances-trans first (Calls-advance cs (first.keeps_keys k))

-- From a state whose repository has each session once and under its own ID, no sequence of calls,
-- failed ones included, loses a session, and the status of each has only moved along the edges of
-- the state diagram.
pub Calls-Leads :
    {u w : World} (s : Session)
    → Calls u w
    → IsKeyed u
    → Map.lookup s.id u.sessions ≡ some s
    → (t : Session) × (Map.lookup s.id w.sessions ≡ some t) × Leads s.status t.status
Calls-Leads s cs k f = (Calls-advance cs k).leads_on s.id s f

-- Every sequence of calls keeps the repository in order: each session is under its own ID, and no ID
-- is there twice.
Calls-IsKeyed : {u w : World} → Calls u w → IsKeyed u → IsKeyed w
Calls-IsKeyed cs k = (Calls-advance cs k).keeps_keys k
