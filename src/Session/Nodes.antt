-- ===== src/Session/Nodes.antt =====
-- internal/application/session/service.go: updateSessionNodes, the reconciliation of the sources of
-- recovered sessions when an agent connects, and the loop that starts single sources.
use cap_mesh.Prelude.{
  not, ◌&&◌, ◌||◌, List, [], ◌∷◌, ◌++◌, none, some, ◌==◌, if◌then◌else◌, length, Result, ok, err,
  filter, is_ok,
}
use cap_mesh.Text.{Text, text, text_eq, is_empty, contains}
use cap_mesh.Map
use cap_mesh.Map.{Map}
use cap_mesh.Domain.{
  CaptureTarget, InterfaceTarget, WorkloadTarget, CaptureSource, Session, SessionStatus,
  SessionMode, Time, transition_or_same, status_eq, mode_eq, normal, continuous,
}
use cap_mesh.Domain
use cap_mesh.Repository
use cap_mesh.Session.Sources.{
  Env, source_nodes, has_following_workload, interface_source, nodes_of, unique_sources,
  validate_source_distribution,
}
use cap_mesh.Session.Service.{
  World, save, set_runtime_source, runtime_of, runtime_source_count, has_runtime_source,
  start_source,
}
use cap_mesh.Session.Create.{waiting_for_pods}

-- The message that updateSessionNodes leaves.
unfoldable pub nodes_message : List Text → Session → Text
unfolding has_following_workload text_eq
nodes_message nodes s =
    if (length nodes == 0)
      && has_following_workload s.targets
      && (is_empty s.message || text_eq s.message waiting_for_pods)
    then waiting_for_pods
    else if text_eq s.message waiting_for_pods
    then []
    else s.message

unfoldable pub update_session_nodes : Text → World → World
unfolding Repository.get runtime_of source_nodes nodes_message save
update_session_nodes id w = elim (Repository.get id w.sessions) [
  | err _ ↦ w
  | ok s ↦
      let nodes = source_nodes (Map.values (runtime_of id w)) in
      save (record s { nodes = nodes; message = nodes_message nodes s }) w
]

-- The sources of an interface target on the nodes that are connected.
unfoldable pub connected_sources :
    List Text → Text → InterfaceTarget → List Text → List CaptureSource
unfolding contains interface_source
connected_sources connected target i [] = []
connected_sources connected target i (n ∷ ns) =
    let rest = connected_sources connected target i ns in
    if contains connected n then interface_source target i n ∷ rest else rest

abbrev pub on_connected : List Text → List CaptureSource → List CaptureSource
on_connected connected = filter (λ s. contains connected s.node_name)

abbrev resolved_or_none : Result Text (List CaptureSource) → List CaptureSource
resolved_or_none (ok found) = found
resolved_or_none (err _) = []

-- What one target wants in reconcileRecovered.
unfoldable pub desired_of : Env → CaptureTarget → List CaptureSource
unfolding connected_sources contains
desired_of env t = elim t.interface [
  | some i ↦ connected_sources env.connected t.id i (nodes_of env.connected i)
  | none ↦ elim t.workload [
    | none ↦ []
    | some w ↦ elim env.resolver [
      | none ↦ []
      | some resolve ↦ on_connected env.connected (resolved_or_none (resolve w t.id))
    ]
  ]
]

unfoldable pub desired_all : Env → List CaptureTarget → List CaptureSource
unfolding desired_of
desired_all env [] = []
desired_all env (t ∷ ts) = desired_of env t ++ desired_all env ts

-- One source of a loop that starts sources and remembers those that started.
unfoldable pub try_start : Env → Session → CaptureSource → World → World
unfolding start_source set_runtime_source
try_start env session s w =
    let (w', r) = start_source env session s w in
    elim r [ some _ ↦ w' | none ↦ set_runtime_source session.id s w' ]

-- The loop of reconcileRecovered: a source that is in the runtime is left alone.
unfoldable pub start_missing : Env → Session → List CaptureSource → World → World
unfolding has_runtime_source try_start
start_missing env session [] w = w
start_missing env session (s ∷ rest) w =
    start_missing env session rest
      (if has_runtime_source session.id s.id w then w else try_start env session s w)

abbrev pub recovering : Text
recovering = text "recovering after server restart"

abbrev pub waiting_for_agents : Text
waiting_for_agents = text "waiting for capture agents after recovery"

-- The messages at the end of reconcileRecovered.
unfoldable pub recovered_message : Text → World → World
unfolding Repository.get runtime_source_count status_eq text_eq save
recovered_message id w = elim (Repository.get id w.sessions) [
  | err _ ↦ w
  | ok s ↦
      if runtime_source_count id w == 0
      then (if status_eq s.status Domain.running
          then save (record s { message = waiting_for_agents }) w
          else w)
      else (if text_eq s.message recovering || text_eq s.message waiting_for_agents
          then save (record s { message = [] }) w
          else w)
]

unfoldable pub reconcile_recovered : Env → Text → World → World
unfolding Repository.get status_eq desired_all unique_sources validate_source_distribution
    start_missing update_session_nodes recovered_message
reconcile_recovered env id w = elim (Repository.get id w.sessions) [
  | err _ ↦ w
  | ok s ↦
      let desired = unique_sources (desired_all env s.targets) in
      if not (status_eq s.status Domain.running)
        || not (is_ok (validate_source_distribution desired))
      then w
      else recovered_message id (update_session_nodes id (start_missing env s desired w))
]

-- The loop of AgentConnected, over the sessions as they were at its start.
unfoldable pub reconcile_each : Env → List Session → World → World
unfolding status_eq reconcile_recovered
reconcile_each env [] w = w
reconcile_each env (s ∷ rest) w =
    reconcile_each env rest
      (if status_eq s.status Domain.running then reconcile_recovered env s.id w else w)

unfoldable pub agent_connected : Env → World → World
unfolding Repository.list reconcile_each
agent_connected env w = reconcile_each env (Repository.list w.sessions) w
