-- ===== src/Session/Create.antt =====
-- internal/application/session/service.go: Create, and the part of it that Restore shares.
pub mod Prepared
pub mod Up
pub mod Outcome
use cap_mesh.Prelude.{
  ℕ, zero, suc, ◌+◌, ◌-◌, ◌≡◌, Bool, true, false, not, ◌&&◌, ◌||◌, List, [], ◌∷◌, ◌++◌, Option,
  none, some, ltb, leb, ◌==◌, if◌then◌else◌, length, Result, ok, err, ◌>>=◌, ◌>>◌, fail_if, map_err,
  is_some, pos_part, filter, any, is_ok,
}
use cap_mesh.Text.{Text, text, text_eq, is_empty, contains}
use cap_mesh.Map
use cap_mesh.Map.{Map}
use cap_mesh.Ports.{PortError, unavailable, already_exists, AgentCommand, CommandKind, start, stop}
use cap_mesh.Domain.{
  CaptureTarget, WorkloadTarget, CaptureSource, Session, SessionStatus, Time, no_source, transition,
  transition_or_same, status_eq, mode_eq, normal, continuous,
}
use cap_mesh.Domain
use cap_mesh.Repository
use cap_mesh.Repository.{Repository}
use cap_mesh.Session.Targets.{
  CreateInput, SessionError, not_connected, missing_target, send_failed, capacity_failed,
  recorder_failed, port, store_failed, bad_transition, invalid_persisted, expired,
  normalize_targets, validate,
}
use cap_mesh.Session.Sources.{
  Env, Desired, running, stopped, resolve_initial_sources, source_nodes, has_following_workload,
  find_target, workload_filter,
}
use cap_mesh.Session.Service.{
  World, set_desired_state, want, close_packets, remove_runtime, save, set_runtime_source,
  runtime_of, start_source, stop_command, send, remove,
}

-- What the loop of Create over the sources leaves: the number started and the texts of the failures.
pub record Started : Type 0 where
  pub world : World
  pub count : ℕ
  pub failures : List Text

unfoldable pub start_one : Env → Session → CaptureSource → Started → Started
unfolding start_source set_runtime_source
start_one env session s st =
    let (w, r) = start_source env session s st.world in
    elim r [
      | some e ↦ record st {
        world = w;
        failures = st.failures ++ (s.id ++ (text ": " ++ env.describe e)) ∷ [];
      }
      | none ↦ record st { world = set_runtime_source session.id s w; count = st.count + 1 }
    ]

unfoldable pub start_all : Env → Session → List CaptureSource → Started → Started
unfolding start_one
start_all env session [] st = st
start_all env session (s ∷ rest) st = start_all env session rest (start_one env session s st)

-- strings.Join(failures, "; ")
unfoldable pub join : List Text → Text
join [] = []
join (t ∷ []) = t
join (t ∷ u ∷ ts) = t ++ (text "; " ++ join (u ∷ ts))

abbrev pub waiting_for_pods : Text
waiting_for_pods = text "waiting for workload pods"

abbrev pub failed_message : List Text → Text
failed_message [] = text "no capture sources resolved"
failed_message (f ∷ fs) = join (f ∷ fs)

abbrev pub running_message : ℕ → List Text → Text → Text
running_message count (f ∷ fs) m = text "partial: " ++ join (f ∷ fs)
running_message zero [] m = waiting_for_pods
running_message (suc n) [] m = m

-- The recorder's check of its capacity, which a continuous session does not need.
abbrev pub check_capacity : Env → CreateInput → Result SessionError (Unit {0})
check_capacity env input = elim (if input.continuous then none else env.capacity) [
  | none ↦ ok tt
  | some e ↦ err (capacity_failed e)
]

-- The session that Create makes of its normalized input.
abbrev pub new_session : Env → CreateInput → List CaptureSource → Session
new_session env input sources = record {
  id = env.new_id;
  nodes = source_nodes sources;
  logical_interface = input.logical_interface;
  filter = input.filter;
  snaplen = input.snaplen;
  reorder_window = pos_part input.reorder_window;
  created_at = env.now;
  expires_at = if input.continuous then 0 else env.now + pos_part input.ttl;
  status = Domain.starting;
  message = [];
  targets = input.targets;
  mode = if input.continuous then continuous else normal;
}

-- What Create prepares before it changes anything: the session and its sources.
unfoldable pub prepare : Env → CreateInput → Result SessionError (Session × List CaptureSource)
unfolding normalize_targets validate resolve_initial_sources source_nodes
prepare env given = do
  n ← normalize_targets given
  let input : CreateInput = record given {
    targets = n.targets;
    logical_interface = n.logical_interface;
  }
  validate input
  check_capacity env input
  sources ← resolve_initial_sources env n.targets
  ok (new_session env input sources, sources)

-- What follows the call of the recorder, whose error is `begun`.
unfoldable pub conclude_open :
    Text → Session → Option Text → World → World × Result SessionError (Unit {0})
unfolding close_packets save transition_or_same
conclude_open what s begun w = elim begun [
  | none ↦ (w, ok tt)
  | some e ↦ (
    save (record (transition_or_same Domain.failed s) { message = what ++ e })
        (close_packets s.id w),
    err (recorder_failed e),
  )
]

-- The steps that Create and Restore share: the repository, the pipeline and the recorder. `what` is
-- the prefix of the message that a recorder's failure leaves.
unfoldable pub open_session : Env → Text → Session → World → World × Result SessionError (Unit {0})
unfolding Repository.create conclude_open contains
open_session env what s w = elim (Repository.create s w.sessions) [
  | err e ↦ (w, err (port e))
  | ok r ↦
      if contains w.opened s.id
      then (record w { sessions = r }, err (port already_exists))
      else (conclude_open what s (elim env.recorder [ none ↦ none | some begin ↦ begin s ])
          (record w { sessions = r; opened = s.id ∷ w.opened }))
]

-- The end of Create when nothing was started and nothing is followed.
unfoldable pub conclude_failed : Env → Session → Started → World × Result SessionError Session
unfolding transition_or_same set_desired_state remove_runtime close_packets save
conclude_failed env s st =
    let t : Session = record (transition_or_same Domain.failed s) {
      message = failed_message st.failures;
    } in
    (save t (close_packets s.id (remove_runtime s.id (want env s.id stopped st.world))), ok t)

-- The end of Create otherwise.
unfoldable pub conclude_running :
    CreateInput → Session → Started → World × Result SessionError Session
unfolding transition_or_same has_following_workload save
conclude_running input s st =
    let t : Session = record (transition_or_same Domain.running s) {
      message = running_message st.count st.failures s.message;
    } in
    let w = save t st.world in
    let looped : World =
      if has_following_workload s.targets then record w { loops = s.id ∷ w.loops } else w in
    (
      if input.continuous
          then looped
          else (record looped { timers = (s.id, pos_part input.ttl) ∷ looped.timers }),
      ok t,
    )

unfoldable pub conclude :
    Env → CreateInput → Session → Started → World × Result SessionError Session
unfolding conclude_failed conclude_running has_following_workload
conclude env input s st =
    if (st.count == 0) && not (has_following_workload s.targets)
    then conclude_failed env s st
    else conclude_running input s st

-- Create. The repository holds the session at the last Update, so that this Update cannot fail.
unfoldable pub create : Env → CreateInput → World → World × Result SessionError Session
unfolding prepare open_session start_all conclude Map.insert
create env input w = elim (prepare env input) [
  | err e ↦ (w, err e)
  | ok (s, sources) ↦
      let (w1, r) = open_session env (text "start recorder: ") s w in
      elim r [
        | err e ↦ (w1, err e)
        | ok _ ↦
            let w2 : World = record w1 { runtime = Map.insert s.id [] w1.runtime } in
            conclude env input s
              (start_all env s sources (record { world = w2; count = 0; failures = [] }))
      ]
]
