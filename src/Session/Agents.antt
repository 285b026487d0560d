-- ===== src/Session/Agents.antt =====
-- internal/application/session/service.go: AgentDisconnected and CaptureStatus.
use cap_mesh.Prelude.{Bool, not, ◌&&◌, ◌||◌, List, [], ◌∷◌, ◌++◌, ◌==◌, if◌then◌else◌, ok, err, any}
use cap_mesh.Text.{Text, text, text_eq, is_empty, contains}
use cap_mesh.Map.{Map}
use cap_mesh.Domain.{
  CaptureTarget, InterfaceTarget, WorkloadTarget, CaptureSource, Session, SessionStatus,
  SessionMode, Time, transition_or_same, status_eq, mode_eq, normal, continuous,
}
use cap_mesh.Domain
use cap_mesh.Repository
use cap_mesh.Session.Sources.{Env, stopped, has_following_workload}
use cap_mesh.Session.Service.{
  World, set_desired_state, want, close_packets, remove_runtime, save, delete_runtime_source,
  runtime_source_count,
}
use cap_mesh.Session.Nodes.{update_session_nodes}

-- The first loop of AgentDisconnected: the sources of the node leave every runtime.
unfoldable pub drop_node : Text → Map CaptureSource → Map CaptureSource
unfolding text_eq
drop_node node [] = []
drop_node node ((id, s) ∷ rest) =
    if text_eq s.node_name node then drop_node node rest else (id, s) ∷ drop_node node rest

unfoldable pub drop_node_everywhere : Text → Map (Map CaptureSource) → Map (Map CaptureSource)
unfolding drop_node
drop_node_everywhere node [] = []
drop_node_everywhere node ((id, m) ∷ rest) = (id, drop_node node m) ∷ drop_node_everywhere node rest

abbrev pub has_active_node : List Text → Session → Bool
has_active_node connected s = any (contains connected) s.nodes

-- The second loop of AgentDisconnected, on one session that runs and has the node.
unfoldable pub disconnect_session : Env → Text → Session → World → World
unfolding contains has_following_workload mode_eq transition_or_same set_desired_state close_packets
    save
disconnect_session env node s w =
    if has_active_node env.connected s || has_following_workload s.targets
    then save (record s { message = text "partial: agent disconnected: " ++ node }) w
    else if mode_eq s.mode continuous
    then save
        (record s { nodes = []; message = text "waiting for capture agents after disconnect" }) w
    else (save
        (record (transition_or_same Domain.failed s) {
          message = text "all capture agents disconnected";
        })
        (close_packets s.id (want env s.id stopped w)))

unfoldable pub disconnect_each : Env → Text → List Session → World → World
unfolding status_eq contains disconnect_session
disconnect_each env node [] w = w
disconnect_each env node (s ∷ rest) w = disconnect_each env node rest (
    if not (status_eq s.status Domain.running) || not (contains s.nodes node)
    then w
    else disconnect_session env node s w)

-- AgentDisconnected; `env.connected` no longer has the node.
unfoldable pub agent_disconnected : Env → Text → World → World
unfolding drop_node_everywhere Repository.list disconnect_each
agent_disconnected env node w =
    let w' : World = record w { runtime = drop_node_everywhere node w.runtime } in
    disconnect_each env node (Repository.list w'.sessions) w'

-- The part of CaptureStatus behind its checks: a session whose last source failed has failed.
unfoldable pub source_failed : Env → Text → Text → Text → Session → World → World
unfolding runtime_source_count has_following_workload transition_or_same close_packets
    set_desired_state remove_runtime save
source_failed env node source message s w =
    if (runtime_source_count s.id w == 0) && not (has_following_workload s.targets)
    then save
        (record (transition_or_same Domain.failed s) {
          message = text "all capture sources failed: " ++ message;
        })
        (remove_runtime s.id (want env s.id stopped (close_packets s.id w)))
    else save
        (record s {
          message =
              text "partial: source "
              ++ (source ++ (text " on " ++ (node ++ (text " failed: " ++ message))));
        })
        w

unfoldable pub capture_status : Env → Text → Text → Text → Text → Text → World → World
unfolding text_eq delete_runtime_source Repository.get status_eq source_failed update_session_nodes
capture_status env node id source state message w =
    let w' = delete_runtime_source id source w in
    if not (text_eq state (text "FAILED")) || is_empty source
    then w
    else elim (Repository.get id w'.sessions) [
      | err _ ↦ w'
      | ok s ↦
          if status_eq s.status Domain.running
          then update_session_nodes id (source_failed env node source message s w')
          else w'
    ]
