-- ===== src/Session/Stop.antt =====
-- internal/application/session/service.go: Stop.
pub mod Same
pub mod Outcome
pub mod Told
use cap_mesh.Prelude.{
  ℕ, zero, suc, ◌+◌, ◌-◌, ◌≡◌, Bool, true, false, not, ◌&&◌, ◌||◌, List, [], ◌∷◌, ◌++◌, Option,
  none, some, ltb, leb, ◌==◌, if◌then◌else◌, length, Result, ok, err, ◌>>=◌, ◌>>◌, fail_if, map_err,
  is_some, pos_part, filter, any, is_ok,
}
use cap_mesh.Text.{Text, text, text_eq, is_empty, contains}
use cap_mesh.Map
use cap_mesh.Map.{Map}
use cap_mesh.Ports.{PortError, unavailable, already_exists, AgentCommand, CommandKind, start, stop}
use cap_mesh.Domain.{
  CaptureTarget, WorkloadTarget, CaptureSource, Session, SessionStatus, Time, no_source, transition,
  transition_or_same, status_eq, mode_eq, normal, continuous,
}
use cap_mesh.Domain
use cap_mesh.Repository
use cap_mesh.Repository.{Repository}
use cap_mesh.Session.Targets.{
  CreateInput, SessionError, not_connected, missing_target, send_failed, capacity_failed,
  recorder_failed, port, store_failed, bad_transition, invalid_persisted, expired,
  normalize_targets, validate,
}
use cap_mesh.Session.Sources.{
  Env, Desired, running, stopped, resolve_initial_sources, source_nodes, has_following_workload,
  find_target, workload_filter,
}
use cap_mesh.Session.Service.{
  World, set_desired_state, want, close_packets, remove_runtime, save, set_runtime_source,
  runtime_of, start_source, stop_command, send, remove,
}

-- The commands of Stop to the sources of the runtime, or to the nodes of the session without one.
unfoldable pub stop_sources : Env → Text → List CaptureSource → World → World
unfolding send
stop_sources env id [] w = w
stop_sources env id (s ∷ rest) w =
    stop_sources env id rest (send env s.node_name (stop_command id s.id) w).0

unfoldable pub stop_nodes : Env → Text → List Text → World → World
unfolding send
stop_nodes env id [] w = w
stop_nodes env id (n ∷ rest) w = stop_nodes env id rest (send env n (stop_command id []) w).0

abbrev pub has_ended : SessionStatus → Bool
has_ended s = status_eq s Domain.stopped || status_eq s Domain.failed

-- The loop over the sources of the runtime that Stop took, or over the nodes where there was none.
unfoldable pub stop_agents : Env → Session → Option (Map CaptureSource) → World → World
unfolding stop_sources stop_nodes
stop_agents env s taken w = elim taken [
  | some sources ↦ stop_sources env s.id (Map.values sources) w
  | none ↦ stop_nodes env s.id s.nodes w
]

-- The end of Stop, once the agents are told.
unfoldable pub conclude_stop : Session → World → World × Result SessionError Session
unfolding Repository.update close_packets transition_or_same
conclude_stop s w =
    let closed = close_packets s.id w in
    let t = transition_or_same Domain.stopped s in
    elim (Repository.update t closed.sessions) [
      | err e ↦ (closed, err (port e))
      | ok r ↦ (record closed { sessions = r }, ok t)
    ]

-- The part of Stop behind the change to STOPPING. The Go code cancels the session's context only where
-- it has found a runtime; the loop of a session without one has already ended.
unfoldable pub finish_stop : Env → Session → World → World × Result SessionError Session
unfolding save Map.lookup remove_runtime stop_agents conclude_stop
finish_stop env s w =
    let w1 = save s w in
    conclude_stop s (stop_agents env s (Map.lookup s.id w1.runtime) (remove_runtime s.id w1))

unfoldable pub stop_session : Env → Text → World → World × Result SessionError Session
unfolding Repository.get status_eq set_desired_state transition finish_stop
stop_session env id w = elim (Repository.get id w.sessions) [
  | err e ↦ (w, err (port e))
  | ok s ↦
      if has_ended s.status
      then (w, ok s)
      else let (w1, r) = set_desired_state env id stopped w in
        elim r [
          | some e ↦ (w1, err (store_failed e))
          | none ↦ elim (transition Domain.stopping s) [
            | err _ ↦ (w1, err bad_transition)
            | ok t ↦ finish_stop env t w1
          ]
        ]
]
