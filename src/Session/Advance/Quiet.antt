-- ===== src/Session/Advance/Quiet.antt =====
-- internal/application/session/service.go: the steps that leave the repository as it is.
use cap_mesh.Prelude.{
  ◌≡◌, refl, ◌∙◌, List, [], ◌∷◌, Option, none, some, if◌then◌else◌, arith, Result, ok, err, if_elim,
}
use cap_mesh.Text.{Text}
use cap_mesh.Map
use cap_mesh.Map.{Map}
use cap_mesh.Ports.{AgentCommand}
use cap_mesh.Domain.{Session, CaptureSource, CaptureTarget, WorkloadTarget}
use cap_mesh.Session.Sources.{Env, Resolver, Desired}
use cap_mesh.Session.Service.{
  World, set_desired_state, send, stop_command, start_source, set_runtime_source,
  delete_runtime_source, has_runtime_source, runtime_of,
}
use cap_mesh.Session.Create.{Started, start_one, start_all}
use cap_mesh.Session.Stop.{stop_sources, stop_nodes, stop_agents}
use cap_mesh.Session.Nodes.{try_start, start_missing}
use cap_mesh.Session.Reconcile.{
  stop_unwanted, start_wanted, by_id, sources_of, reconcile_target, reconcile_one,
  reconcile_targets,
}

send-quiet :
    (env : Env) (node : Text) (c : AgentCommand) (w : World)
    → (send env node c w).0.sessions ≡ w.sessions
unfolding send
send-quiet env node c w = ground arith

pub set_desired_state-quiet :
    (env : Env) (id : Text) (d : Desired) (w : World)
    → (set_desired_state env id d w).0.sessions ≡ w.sessions
unfolding set_desired_state
set_desired_state-quiet env id d w = ground arith

set_runtime_source-quiet :
    (id : Text) (s : CaptureSource) (w : World) → (set_runtime_source id s w).sessions ≡ w.sessions
unfolding set_runtime_source
set_runtime_source-quiet id s w = ground arith

pub delete_runtime_source-quiet :
    (id source : Text) (w : World) → (delete_runtime_source id source w).sessions ≡ w.sessions
unfolding delete_runtime_source
delete_runtime_source-quiet id source w = ground arith

start_source-quiet :
    (env : Env) (session : Session) (s : CaptureSource) (w : World)
    → (start_source env session s w).0.sessions ≡ w.sessions
unfolding start_source
start_source-quiet env session s w =
    ground (arith, λ (c : AgentCommand). send-quiet env s.node_name c w)

start_one-quiet :
    (env : Env) (session : Session) (s : CaptureSource) (st : Started)
    → (start_one env session s st).world.sessions ≡ st.world.sessions
unfolding start_one
start_one-quiet env session s st = ground (
  arith,
  start_source-quiet env session s st.world,
  set_runtime_source-quiet session.id s (start_source env session s st.world).0,
)

pub start_all-quiet :
    (env : Env) (session : Session) (ss : List CaptureSource) (st : Started)
    → (start_all env session ss st).world.sessions ≡ st.world.sessions
unfolding start_all
start_all-quiet env session [] st = refl
start_all-quiet env session (s ∷ ss) st =
    start_all-quiet env session ss (start_one env session s st) ∙ start_one-quiet env session s st

try_start-quiet :
    (env : Env) (session : Session) (s : CaptureSource) (w : World)
    → (try_start env session s w).sessions ≡ w.sessions
unfolding try_start
try_start-quiet env session s w = ground (
  arith,
  start_source-quiet env session s w,
  set_runtime_source-quiet session.id s (start_source env session s w).0,
)

pub start_missing-quiet :
    (env : Env) (session : Session) (ss : List CaptureSource) (w : World)
    → (start_missing env session ss w).sessions ≡ w.sessions
unfolding start_missing
start_missing-quiet env session [] w = refl
start_missing-quiet env session (s ∷ ss) w =
    start_missing-quiet env session ss
      (if has_runtime_source session.id s.id w then w else try_start env session s w)
    ∙ if_elim (λ (v : World). v.sessions ≡ w.sessions) (has_runtime_source session.id s.id w)
        (λ _. refl) (λ _. try_start-quiet env session s w)

start_wanted-quiet :
    (env : Env) (session : Session) (ss : List CaptureSource) (w : World)
    → (start_wanted env session ss w).sessions ≡ w.sessions
unfolding start_wanted
start_wanted-quiet env session [] w = refl
start_wanted-quiet env session (s ∷ ss) w =
    start_wanted-quiet env session ss (try_start env session s w) ∙ try_start-quiet env session s w

stop_unwanted-quiet :
    (env : Env) (id : Text) (desired m : Map CaptureSource) (w : World)
    → (stop_unwanted env id desired m w).0.sessions ≡ w.sessions
unfolding stop_unwanted
stop_unwanted-quiet env id desired [] w = refl
stop_unwanted-quiet env id desired ((k, s) ∷ m) w =
    let told = (send env s.node_name (stop_command id s.id) w).0 in
    ground (
      arith,
      send-quiet env s.node_name (stop_command id s.id) w,
      delete_runtime_source-quiet id s.id told,
      stop_unwanted-quiet env id (Map.delete k desired) m w,
      stop_unwanted-quiet env id desired m (delete_runtime_source id s.id told),
    )

reconcile_target-quiet :
    (env : Env) (session : Session) (t : CaptureTarget) (work : WorkloadTarget)
    (found : List CaptureSource) (w : World)
    → (reconcile_target env session t work found w).sessions ≡ w.sessions
unfolding reconcile_target
reconcile_target-quiet env session t work found w = ground (
  arith,
  stop_unwanted-quiet env session.id (by_id found) old w,
  start_wanted-quiet env session (Map.values wanted) w',
)
  where
    old : Map CaptureSource
    old = sources_of t.id (runtime_of session.id w)

    w' : World
    w' = (stop_unwanted env session.id (by_id found) old w).0

    wanted : Map CaptureSource
    wanted = (stop_unwanted env session.id (by_id found) old w).1

reconcile_one-quiet :
    (env : Env) (resolve : Resolver) (session : Session) (t : CaptureTarget) (w : World)
    → (reconcile_one env resolve session t w).sessions ≡ w.sessions
unfolding reconcile_one
reconcile_one-quiet env resolve session t w = by_workload t.workload
  where
    on_found : WorkloadTarget → Result Text (List CaptureSource) → World
    on_found work r = elim r [ err _ ↦ w | ok found ↦ reconcile_target env session t work found w ]

    on_found-quiet :
        (work : WorkloadTarget) (r : Result Text (List CaptureSource))
        → (on_found work r).sessions ≡ w.sessions
    on_found-quiet work (err e) = refl
    on_found-quiet work (ok found) = reconcile_target-quiet env session t work found w

    on_workload : Option WorkloadTarget → World
    on_workload o = elim o [
      | none ↦ w
      | some work ↦ if work.follow then on_found work (resolve work t.id) else w
    ]

    by_workload : (o : Option WorkloadTarget) → (on_workload o).sessions ≡ w.sessions
    by_workload none = refl
    by_workload (some work) =
        if_elim (λ (v : World). v.sessions ≡ w.sessions) work.follow
          (λ _. on_found-quiet work (resolve work t.id)) (λ _. refl)

pub reconcile_targets-quiet :
    (env : Env) (resolve : Resolver) (session : Session) (ts : List CaptureTarget) (w : World)
    → (reconcile_targets env resolve session ts w).sessions ≡ w.sessions
unfolding reconcile_targets
reconcile_targets-quiet env resolve session [] w = refl
reconcile_targets-quiet env resolve session (t ∷ ts) w =
    reconcile_targets-quiet env resolve session ts (reconcile_one env resolve session t w)
    ∙ reconcile_one-quiet env resolve session t w

stop_sources-quiet :
    (env : Env) (id : Text) (ss : List CaptureSource) (w : World)
    → (stop_sources env id ss w).sessions ≡ w.sessions
unfolding stop_sources
stop_sources-quiet env id [] w = refl
stop_sources-quiet env id (s ∷ ss) w =
    stop_sources-quiet env id ss (send env s.node_name (stop_command id s.id) w).0
    ∙ send-quiet env s.node_name (stop_command id s.id) w

stop_nodes-quiet :
    (env : Env) (id : Text) (ns : List Text) (w : World)
    → (stop_nodes env id ns w).sessions ≡ w.sessions
unfolding stop_nodes
stop_nodes-quiet env id [] w = refl
stop_nodes-quiet env id (n ∷ ns) w =
    stop_nodes-quiet env id ns (send env n (stop_command id []) w).0
    ∙ send-quiet env n (stop_command id []) w

pub stop_agents-quiet :
    (env : Env) (s : Session) (taken : Option (Map CaptureSource)) (w : World)
    → (stop_agents env s taken w).sessions ≡ w.sessions
unfolding stop_agents
stop_agents-quiet env s none w = stop_nodes-quiet env s.id s.nodes w
stop_agents-quiet env s (some m) w = stop_sources-quiet env s.id (Map.values m) w
