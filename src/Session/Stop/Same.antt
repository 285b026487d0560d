-- ===== src/Session/Stop/Same.antt =====
-- Stop of internal/application/session/service.go: what its commands leave as it is.
use cap_mesh.Prelude.{
  ◌≡◌, refl, inl, inr, false, List, [], ◌∷◌, Option, none, some, arith, Option-cases,
}
use cap_mesh.Text.{Text, contains}
use cap_mesh.Map
use cap_mesh.Map.{Map, lookup-insert, lookup-delete, lookup-insert_self, lookup-delete_self}
use cap_mesh.Ports.{AgentCommand}
use cap_mesh.Domain.{Session, CaptureSource}
use cap_mesh.Session.Sources.{Env, Desired}
use cap_mesh.Session.Service.{World, set_desired_state, send, stop_command, remove}
use cap_mesh.Session.Stop.{stop_sources, stop_nodes, stop_agents}

pub contains-remove : (t : Text) (ts : List Text) → contains (remove t ts) t ≡ false
unfolding contains
contains-remove t [] = refl
contains-remove t (u ∷ us) = ground (arith, contains-remove t us)

-- What the commands of Stop leave as it is.
abbrev pub SameState : World → World → Type 0
SameState w w' =
    (w'.sessions ≡ w.sessions)
    × (w'.runtime ≡ w.runtime)
    × (w'.opened ≡ w.opened)
    × (w'.loops ≡ w.loops)

send-SameState :
    (env : Env) (node : Text) (c : AgentCommand) (w : World) → SameState w (send env node c w).0
unfolding send
send-SameState env node c w = elim (Option-cases (env.send node c)) [
  | inl e ↦ rw (send, e) (refl, refl, refl, refl)
  | inr (x, e) ↦ rw (send, e) (refl, refl, refl, refl)
]

stop_sources-SameState :
    (env : Env) (id : Text) (ss : List CaptureSource) (w : World)
    → SameState w (stop_sources env id ss w)
unfolding stop_sources
stop_sources-SameState env id [] w = (refl, refl, refl, refl)
stop_sources-SameState env id (s ∷ ss) w = ground (
  arith,
  stop_sources-SameState env id ss (send env s.node_name (stop_command id s.id) w).0,
  send-SameState env s.node_name (stop_command id s.id) w,
)

stop_nodes-SameState :
    (env : Env) (id : Text) (ns : List Text) (w : World) → SameState w (stop_nodes env id ns w)
unfolding stop_nodes
stop_nodes-SameState env id [] w = (refl, refl, refl, refl)
stop_nodes-SameState env id (n ∷ ns) w = ground (
  arith,
  stop_nodes-SameState env id ns (send env n (stop_command id []) w).0,
  send-SameState env n (stop_command id []) w,
)

pub stop_agents-SameState :
    (env : Env) (s : Session) (taken : Option (Map CaptureSource)) (w : World)
    → SameState w (stop_agents env s taken w)
unfolding stop_agents
stop_agents-SameState env s none w = stop_nodes-SameState env s.id s.nodes w
stop_agents-SameState env s (some m) w = stop_sources-SameState env s.id (Map.values m) w

pub set_desired_state-SameState :
    (env : Env) (id : Text) (d : Desired) (w : World) → SameState w (set_desired_state env id d w).0
unfolding set_desired_state
set_desired_state-SameState env id d w = ground arith
