-- ===== src/Session/Service.antt =====
-- internal/application/session/service.go: the state of Service and the
-- steps its operations share. Each operation is one step: the calls of
-- one operation are not interleaved with those of another. `sent` is the log of the commands, newest
-- first, with the node that each goes to; `loops` and `timers` are the goroutines and timers that run.
use cap_mesh.Prelude.{
  ℕ, Bool, not, List, [], ◌∷◌, Option, none, some, if◌then◌else◌, length, Result, ok, err, is_some,
  filter,
}
use cap_mesh.Text.{Text, text, text_eq, contains}
use cap_mesh.Map
use cap_mesh.Map.{Map}
use cap_mesh.Ports.{AgentCommand, start, stop}
use cap_mesh.Domain.{CaptureSource, Session, no_source}
use cap_mesh.Repository
use cap_mesh.Repository.{Repository}
use cap_mesh.Session.Targets.{SessionError, not_connected, missing_target, send_failed}
use cap_mesh.Session.Sources.{Env, Desired, find_target, workload_filter}

pub record World : Type 0 where
  pub sessions : Repository
  pub runtime : Map (Map CaptureSource)
  pub opened : List Text
  pub desired : Map Desired
  pub sent : List (Text × AgentCommand)
  pub loops : List Text
  pub timers : List (Text × ℕ)

abbrev pub remove : Text → List Text → List Text
remove t = filter (λ u. not (text_eq u t))

-- setDesiredState
unfoldable pub set_desired_state : Env → Text → Desired → World → World × Option Text
unfolding Map.insert
set_desired_state env id d w = elim env.recovery [
  | none ↦ (w, none)
  | some store ↦ elim (store id d) [
    | some e ↦ (w, some e)
    | none ↦ (record w { desired = Map.insert id d w.desired }, none)
  ]
]

-- `_ = s.setDesiredState(id, d)`
abbrev pub want : Env → Text → Desired → World → World
want env id d w = (set_desired_state env id d w).0

-- packets.CloseSession
unfoldable pub close_packets : Text → World → World
close_packets id w = record w { opened = remove id w.opened }

-- removeRuntime, and the cancellation of the session's context
unfoldable pub remove_runtime : Text → World → World
unfolding Map.delete
remove_runtime id w = record w { runtime = Map.delete id w.runtime; loops = remove id w.loops }

unfoldable pub save : Session → World → World
unfolding Repository.update_or_same
save s w = record w { sessions = Repository.update_or_same s w.sessions }

abbrev on_runtime : Text → (Map CaptureSource → Map CaptureSource) → World → World
on_runtime id f w = elim (Map.lookup id w.runtime) [
  | none ↦ w
  | some sources ↦ record w { runtime = Map.insert id (f sources) w.runtime }
]

unfoldable pub set_runtime_source : Text → CaptureSource → World → World
unfolding Map.lookup Map.insert
set_runtime_source id s w = on_runtime id (Map.insert s.id s) w

unfoldable pub delete_runtime_source : Text → Text → World → World
unfolding Map.lookup Map.insert Map.delete
delete_runtime_source id source w = on_runtime id (Map.delete source) w

-- `s.runtime[sessionID].sources`, empty where there is no runtime
unfoldable pub runtime_of : Text → World → Map CaptureSource
unfolding Map.lookup
runtime_of id w = elim (Map.lookup id w.runtime) [ none ↦ [] | some sources ↦ sources ]

unfoldable pub runtime_source_count : Text → World → ℕ
unfolding runtime_of
runtime_source_count id w = length (runtime_of id w)

unfoldable pub has_runtime_source : Text → Text → World → Bool
unfolding runtime_of
has_runtime_source id source w = is_some (Map.lookup source (runtime_of id w))

-- The filter of a source, which for a workload depends on its direction.
unfoldable pub source_filter : Session → CaptureSource → Result SessionError Text
unfolding find_target workload_filter
source_filter session s =
    if not (text_eq s.target_type (text "workload"))
    then ok session.filter
    else elim (find_target s.target_id session.targets) [
      | none ↦ err (missing_target s.target_id)
      | some t ↦ elim t.workload [
        | none ↦ err (missing_target s.target_id)
        | some w ↦ ok (workload_filter w.direction s.pod_ip session.filter)
      ]
    ]

abbrev pub start_command : Session → CaptureSource → Text → AgentCommand
start_command session s filter = record {
  kind = start;
  session_id = session.id;
  source_id = s.id;
  logical_interface = s.logical_interface;
  filter = filter;
  snaplen = session.snaplen;
  source = s;
}

abbrev pub stop_command : Text → Text → AgentCommand
stop_command id source = record {
  kind = stop;
  session_id = id;
  source_id = source;
  logical_interface = [];
  filter = [];
  snaplen = 0;
  source = no_source;
}

-- agents.Send; a command that is refused leaves no trace.
unfoldable pub send : Env → Text → AgentCommand → World → World × Option Text
send env node c w = elim (env.send node c) [
  | some e ↦ (w, some e)
  | none ↦ (record w { sent = (node, c) ∷ w.sent }, none)
]

unfoldable pub start_source : Env → Session → CaptureSource → World → World × Option SessionError
unfolding contains source_filter send
start_source env session s w =
    if not (contains env.connected s.node_name)
    then (w, some (not_connected s.node_name))
    else elim (source_filter session s) [
      | err e ↦ (w, some e)
      | ok f ↦
          let (w', r) = send env s.node_name (start_command session s f) w in
          (w', elim r [ none ↦ none | some e ↦ some (send_failed e) ])
    ]
