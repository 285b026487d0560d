-- ===== src/Session/Sources.antt =====
-- internal/application/session/service.go: how targets become capture sources, and the checks of them.
-- What is outside the service enters as the record Env; it does not change during one call.
pub mod Distribution
pub mod Unique
pub mod Nodes
pub mod Resolve
use cap_mesh.Prelude.{
  ℕ, zero, suc, ◌+◌, ◌≡◌, Bool, true, false, not, ◌&&◌, ◌||◌, List, [], ◌∷◌, ◌++◌, Option, none,
  some, ltb, leb, ◌==◌, if◌then◌else◌, length, Result, ok, err, ◌>>=◌, ◌>>◌, fail_if, map_err,
}
use cap_mesh.Text.{Text, text, text_eq, text_lt, is_empty, trim_space, contains}
use cap_mesh.Map
use cap_mesh.Map.{Map}
use cap_mesh.Ports.{PortError, unavailable, AgentCommand}
use cap_mesh.Domain.{
  CaptureTarget, InterfaceTarget, WorkloadTarget, CaptureSource, Session, Time, no_source,
}
use cap_mesh.Session.Targets.{
  SessionError, no_agents, not_connected, no_resolver, resolve_failed, too_many_resolved,
  too_many_session_pods, node_full, max_sources_per_node, default_max_pods,
}

abbrev pub Resolver : Type 0
Resolver = WorkloadTarget → Text → Result Text (List CaptureSource)

pub data Desired : Type 0 where
  running stopped : Desired

-- The ports of the service as one call finds them. An Option of an error is none where the call
-- succeeds; `recovery` is none where the recorder is no CaptureRecoveryStore; `describe` is the
-- text of an error.
pub record Env : Type 0 where
  pub connected : List Text
  pub send : Text → AgentCommand → Option Text
  pub resolver : Option Resolver
  pub capacity : Option Text
  pub recorder : Option (Session → Option Text)
  pub recovery : Option (Text → Desired → Option Text)
  pub describe : SessionError → Text
  pub new_id : Text
  pub now : Time

unfoldable pub interface_source_id : Text → Text → Text → Text
interface_source_id target node alias =
    text "interface:" ++ (target ++ (text ":" ++ (node ++ (text ":" ++ alias))))

-- The source of an interface target on one node.
unfoldable pub interface_source : Text → InterfaceTarget → Text → CaptureSource
unfolding interface_source_id
interface_source target i node = record no_source {
  id = interface_source_id target node i.logical_interface;
  target_id = target;
  target_type = text "interface";
  node_name = node;
  logical_interface = i.logical_interface;
}

unfoldable pub workload_filter : Text → Text → Text → Text
unfolding text_eq trim_space
workload_filter direction pod_ip extra =
    let base =
      if text_eq direction (text "egress")
      then text "src host " ++ pod_ip
      else if text_eq direction (text "ingress")
      then text "dst host " ++ pod_ip
      else text "host " ++ pod_ip in
    if is_empty (trim_space extra)
    then base
    else text "(" ++ (base ++ (text ") and (" ++ (extra ++ text ")")))

unfoldable pub find_target : Text → List CaptureTarget → Option CaptureTarget
find_target id [] = none
find_target id (t ∷ ts) = if text_eq t.id id then some t else find_target id ts

abbrev follows : CaptureTarget → Bool
follows t = elim t.workload [ none ↦ false | some w ↦ w.follow ]

unfoldable pub has_following_workload : List CaptureTarget → Bool
has_following_workload [] = false
has_following_workload (t ∷ ts) = follows t || has_following_workload ts

-- The loop of uniqueSources, with the IDs seen so far.
unfoldable pub unique_from : List Text → List CaptureSource → List CaptureSource
unfolding contains
unique_from seen [] = []
unique_from seen (s ∷ rest) =
    let skip = unique_from seen rest in
    let keep = unique_from (s.id ∷ seen) rest in
    if is_empty s.id || contains seen s.id then skip else s ∷ keep

unfoldable pub unique_sources : List CaptureSource → List CaptureSource
unfolding unique_from
unique_sources sources = unique_from [] sources

-- sort.Strings, by insertion.
unfoldable pub insert_sorted : Text → List Text → List Text
unfolding text_lt
insert_sorted t [] = t ∷ []
insert_sorted t (u ∷ us) = if text_lt u t then u ∷ insert_sorted t us else t ∷ u ∷ us

unfoldable pub sort_texts : List Text → List Text
unfolding insert_sorted
sort_texts [] = []
sort_texts (t ∷ ts) = insert_sorted t (sort_texts ts)

-- The set of the names of the nodes, without the empty one.
unfoldable pub node_set : List CaptureSource → List Text
unfolding contains
node_set [] = []
node_set (s ∷ rest) =
    let seen = node_set rest in
    if is_empty s.node_name || contains seen s.node_name then seen else s.node_name ∷ seen

unfoldable pub source_nodes : List CaptureSource → List Text
unfolding node_set sort_texts
source_nodes sources = sort_texts (node_set sources)

abbrev pub count_of : Text → Map ℕ → ℕ
count_of k m = elim (Map.lookup k m) [ none ↦ 0 | some n ↦ n ]

-- The loop of validateSourceDistribution, with the counts so far.
unfoldable pub distribute : Map ℕ → List CaptureSource → Result SessionError (Unit {0})
distribute counts [] = ok tt
distribute counts (s ∷ rest) =
    let n = count_of s.node_name counts + 1 in
    if ltb max_sources_per_node n
    then err (node_full s.node_name)
    else distribute (Map.insert s.node_name n counts) rest

unfoldable pub validate_source_distribution : List CaptureSource → Result SessionError (Unit {0})
unfolding distribute Map.lookup Map.insert
validate_source_distribution sources = distribute [] sources

-- The loop over the nodes of an interface target.
unfoldable pub interface_sources :
    List Text → Text → InterfaceTarget → List Text → Result SessionError (List CaptureSource)
unfolding contains interface_source
interface_sources connected target i [] = ok []
interface_sources connected target i (n ∷ ns) = do
  fail_if (not (contains connected n)) (not_connected n)
  rest ← interface_sources connected target i ns
  ok (interface_source target i n ∷ rest)

abbrev pub nodes_of : List Text → InterfaceTarget → List Text
nodes_of connected i = if length i.nodes == 0 then connected else i.nodes

-- The branch of a workload target, with the number of pods that earlier ones resolved to.
unfoldable pub workload_sources :
    Env → CaptureTarget → WorkloadTarget → ℕ → Result SessionError (List CaptureSource)
workload_sources env t w pods = elim env.resolver [
  | none ↦ err no_resolver
  | some resolve ↦ elim (resolve w t.id) [
    | err e ↦ err (resolve_failed e)
    | ok found ↦ do
      fail_if (ltb w.max_pods (length found)) (too_many_resolved t.id)
      fail_if (ltb default_max_pods (pods + length found))
          (too_many_session_pods (pods + length found))
      ok found
  ]
]

-- The loop of resolveInitialSources.
unfoldable pub resolve_from :
    Env → ℕ → List CaptureTarget → Result SessionError (List CaptureSource)
unfolding interface_sources workload_sources
resolve_from env pods [] = ok []
resolve_from env pods (t ∷ ts) = elim t.interface [
  | some i ↦ do
    let nodes = nodes_of env.connected i
    fail_if (length nodes == 0) no_agents
    here ← interface_sources env.connected t.id i nodes
    rest ← resolve_from env pods ts
    ok (here ++ rest)
  | none ↦ elim t.workload [
    | none ↦ resolve_from env pods ts
    | some w ↦ do
      here ← workload_sources env t w pods
      rest ← resolve_from env (pods + length here) ts
      ok (here ++ rest)
  ]
]

unfoldable pub resolve_initial_sources :
    Env → List CaptureTarget → Result SessionError (List CaptureSource)
unfolding resolve_from unique_sources validate_source_distribution
resolve_initial_sources env targets = do
  sources ← resolve_from env 0 targets
  validate_source_distribution (unique_sources sources)
  ok (unique_sources sources)
