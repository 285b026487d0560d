-- ===== src/Session/Create/Up.antt =====
-- Create of internal/application/session/service.go: starting sources keeps the pipeline and the runtime.
use cap_mesh.Prelude.{◌≡◌, inl, inr, true, false, List, [], ◌∷◌, none, is_some, arith, Option-cases}
use cap_mesh.Text.{Text, contains}
use cap_mesh.Map
use cap_mesh.Map.{Map, lookup-insert, lookup-insert_self, lookup-delete_self}
use cap_mesh.Ports.{AgentCommand}
use cap_mesh.Domain.{Session, CaptureSource}
use cap_mesh.Session.Sources.{Env}
use cap_mesh.Session.Service.{World, send, start_source, set_runtime_source}
use cap_mesh.Session.Create.{Started, start_one, start_all}

-- The session's pipeline and runtime are there.
abbrev pub IsUp : Text → World → Type 0
IsUp id w = (contains w.opened id ≡ true) × (is_some (Map.lookup id w.runtime) ≡ true)

abbrev pub IsDown : Text → World → Type 0
IsDown id w = (contains w.opened id ≡ false) × (Map.lookup id w.runtime ≡ none)

send-IsUp :
    (env : Env) (node : Text) (c : AgentCommand) (w : World) (id : Text)
    → IsUp id w
    → IsUp id (send env node c w).0
unfolding send
send-IsUp env node c w id h = ground arith

start_source-IsUp :
    (env : Env) (session : Session) (s : CaptureSource) (w : World) (id : Text)
    → IsUp id w
    → IsUp id (start_source env session s w).0
unfolding start_source send
start_source-IsUp env session s w id h = ground arith

set_runtime_source-IsUp :
    (id : Text) (s : CaptureSource) (w : World) → IsUp id w → IsUp id (set_runtime_source id s w)
unfolding set_runtime_source
set_runtime_source-IsUp id s w h = elim (Option-cases (Map.lookup id w.runtime)) [
  | inl e ↦ absurd (ground arith)
  | inr (m, e) ↦ ground (arith, e, lookup-insert_self id (Map.insert s.id s m) w.runtime)
]

start_one-IsUp :
    (env : Env) (session : Session) (s : CaptureSource) (st : Started)
    → IsUp session.id st.world
    → IsUp session.id (start_one env session s st).world
unfolding start_one
start_one-IsUp env session s st h = ground (
  arith,
  start_source-IsUp env session s st.world session.id h,
  set_runtime_source-IsUp session.id s (start_source env session s st.world).0,
)

pub start_all-IsUp :
    (env : Env) (session : Session) (ss : List CaptureSource) (st : Started)
    → IsUp session.id st.world
    → IsUp session.id (start_all env session ss st).world
unfolding start_all
start_all-IsUp env session [] st h = h
start_all-IsUp env session (s ∷ ss) st h =
    start_all-IsUp env session ss (start_one env session s st) (start_one-IsUp env session s st h)
