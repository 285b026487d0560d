-- ===== src/Session/Reconcile.antt =====
-- internal/application/session/service.go: reconcile, for the workloads that a session follows.
use cap_mesh.Prelude.{
  ℕ, ◌+◌, Bool, not, ◌&&◌, ◌||◌, List, [], ◌∷◌, ◌++◌, none, some, ltb, if◌then◌else◌, length, ok,
  err, filter, is_ok,
}
use cap_mesh.Text.{Text, text, text_eq}
use cap_mesh.Map
use cap_mesh.Map.{Map}
use cap_mesh.Domain.{
  CaptureTarget, InterfaceTarget, WorkloadTarget, CaptureSource, Session, SessionStatus,
  SessionMode, Time, transition_or_same, status_eq, mode_eq, normal, continuous,
}
use cap_mesh.Domain
use cap_mesh.Repository
use cap_mesh.Session.Targets.{default_max_pods}
use cap_mesh.Session.Sources.{Env, Resolver, validate_source_distribution}
use cap_mesh.Session.Service.{World, delete_runtime_source, runtime_of, stop_command, send}
use cap_mesh.Session.Nodes.{update_session_nodes, try_start}

-- workloadSourceCountExcluding, runtimeSourcesExcluding and runtimeSources, over the runtime's map.
unfoldable pub workload_count_excluding : Text → Map CaptureSource → ℕ
unfolding text_eq
workload_count_excluding target m = length (
    filter (λ s. text_eq s.target_type (text "workload") && not (text_eq s.target_id target))
      (Map.values m))

unfoldable pub sources_excluding : Text → Map CaptureSource → List CaptureSource
unfolding text_eq
sources_excluding target m = filter (λ s. not (text_eq s.target_id target)) (Map.values m)

unfoldable pub sources_of : Text → Map CaptureSource → Map CaptureSource
unfolding text_eq
sources_of target [] = []
sources_of target ((id, s) ∷ rest) =
    if text_eq s.target_id target then (id, s) ∷ sources_of target rest else sources_of target rest

-- `desired[source.ID] = source` over the resolved sources: the last one with an ID stays.
unfoldable pub by_id_from : Map CaptureSource → List CaptureSource → Map CaptureSource
unfolding Map.insert
by_id_from m [] = m
by_id_from m (s ∷ rest) = by_id_from (Map.insert s.id s m) rest

unfoldable pub by_id : List CaptureSource → Map CaptureSource
unfolding by_id_from
by_id found = by_id_from [] found

-- The same pod at the same place.
unfoldable pub same_place : CaptureSource → CaptureSource → Bool
unfolding text_eq
same_place a b =
    text_eq a.node_name b.node_name
    && text_eq a.interface_name b.interface_name
    && text_eq a.pod_ip b.pod_ip

-- The loop over the current sources: a source that is wanted as it is leaves the wish list, any other
-- one is stopped and leaves the runtime.
unfoldable pub stop_unwanted :
    Env → Text → Map CaptureSource → Map CaptureSource → World → World × Map CaptureSource
unfolding same_place send delete_runtime_source
stop_unwanted env id desired [] w = (w, desired)
stop_unwanted env id desired ((k, s) ∷ rest) w =
    let keep = stop_unwanted env id (Map.delete k desired) rest w in
    let halt =
      stop_unwanted env id desired rest
        (delete_runtime_source id s.id (send env s.node_name (stop_command id s.id) w).0) in
    elim (Map.lookup k desired) [
      | none ↦ halt
      | some wanted ↦ if same_place wanted s then keep else halt
    ]

unfoldable pub start_wanted : Env → Session → List CaptureSource → World → World
unfolding try_start
start_wanted env session [] w = w
start_wanted env session (s ∷ rest) w = start_wanted env session rest (try_start env session s w)

-- The body of reconcile's loop for a workload that is followed and resolves to `found`.
unfoldable pub reconcile_target :
    Env → Session → CaptureTarget → WorkloadTarget → List CaptureSource → World → World
unfolding runtime_of workload_count_excluding sources_excluding validate_source_distribution by_id
    sources_of stop_unwanted start_wanted
reconcile_target env session t work found w =
    let m = runtime_of session.id w in
    let (w', wanted) = stop_unwanted env session.id (by_id found) (sources_of t.id m) w in
    if ltb work.max_pods (length found)
      || ltb default_max_pods (workload_count_excluding t.id m + length found)
      || not (is_ok (validate_source_distribution (sources_excluding t.id m ++ found)))
    then w
    else start_wanted env session (Map.values wanted) w'

-- The body of reconcile's loop, which runs only where there is a resolver.
unfoldable pub reconcile_one : Env → Resolver → Session → CaptureTarget → World → World
unfolding reconcile_target
reconcile_one env resolve session t w = elim t.workload [
  | none ↦ w
  | some work ↦
      if work.follow
      then elim (resolve work t.id) [
        | err _ ↦ w
        | ok found ↦ reconcile_target env session t work found w
      ]
      else w
]

unfoldable pub reconcile_targets : Env → Resolver → Session → List CaptureTarget → World → World
unfolding reconcile_one
reconcile_targets env resolve session [] w = w
reconcile_targets env resolve session (t ∷ ts) w =
    reconcile_targets env resolve session ts (reconcile_one env resolve session t w)

unfoldable pub reconcile : Env → Resolver → Text → World → World
unfolding Repository.get status_eq reconcile_targets update_session_nodes
reconcile env resolve id w = elim (Repository.get id w.sessions) [
  | err _ ↦ w
  | ok s ↦
      if status_eq s.status Domain.running
      then update_session_nodes id (reconcile_targets env resolve s s.targets w)
      else w
]
