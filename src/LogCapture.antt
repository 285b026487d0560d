-- ===== src/LogCapture.antt =====
-- internal/application/logcapture/service.go: the targets of a capture of workload logs, and reconcile,
-- which follows the containers of their pods. The source of pods is a parameter. A restart count that
-- a pod does not tell is 0, and none is negative. The goroutine of a stream is not modelled: a stream
-- is the record that it follows.
pub mod Service
pub mod Loop
pub mod Streams
pub mod States
pub mod Starts
pub mod Stops
pub mod Calls
mod Tests
use cap_mesh.Prelude.{
  ℕ, suc, ◌≡◌, Bool, true, false, not, ◌&&◌, ◌||◌, List, [], ◌∷◌, ◌++◌, Option, none, some, is_some,
  if◌then◌else◌, Result, ok, err, ◌>>=◌, ◌>>◌, fail_if, ltb, ◌==◌, length,
}
use cap_mesh.Text.{Text, text, text_eq, is_empty, contains, trim_space, to_lower, decimal}
use cap_mesh.Map
use cap_mesh.Map.{Map}
use cap_mesh.Domain.{Time}
use cap_mesh.Session.Sources.{sort_texts}

-- WorkloadLogTarget and WorkloadPod of internal/core/domain/workload_log.go.
pub record LogTarget : Type 0 where
  pub namespace : Text
  pub kind : Text
  pub name : Text
  pub containers : List Text
  pub max_pods : ℕ

pub record Pod : Type 0 where
  pub name : Text
  pub uid : Text
  pub containers : List Text
  pub restart_count : Map ℕ

-- A LogRecord before its stream sets the time and the data.
pub record Followed : Type 0 where
  pub target : LogTarget
  pub pod_name : Text
  pub pod_uid : Text
  pub container : Text
  pub restart_count : ℕ

pub data LogError : Type 0 where
  already_exists not_configured bad_configuration no_targets bad_recovery : LogError
  bad_target : ℕ → LogError
  duplicate_target : Text → LogError
  resolve_failed : LogTarget → Text → LogError
  too_many_pods : LogTarget → ℕ → ℕ → LogError
  factory_failed not_persisted context_done : Text → LogError

unfoldable pub stream_key : Followed → Text
unfolding decimal
stream_key f =
    f.target.namespace
    ++ (0
        ∷ (f.target.kind
            ++ (0
                ∷ (f.target.name
                    ++ (0 ∷ (f.pod_uid ++ (0 ∷ (f.container ++ (0 ∷ decimal f.restart_count)))))))))

-- The loop of selectedContainers, with the names that are seen.
unfoldable pub select_from : List Text → List Text → List Text → List Text
unfolding contains trim_space
select_from have seen [] = []
select_from have seen (n ∷ ns) =
    let name = trim_space n in
    let rest = select_from have seen ns in
    let more = select_from have (name ∷ seen) ns in
    if not (contains have name) then rest else if contains seen name then rest else name ∷ more

unfoldable pub selected_containers : List Text → List Text → List Text
unfolding select_from sort_texts
selected_containers available [] = available
selected_containers available (n ∷ ns) = sort_texts (select_from available [] (n ∷ ns))

unfoldable pub followed : LogTarget → Pod → Text → Followed
unfolding Map.lookup
followed target pod container = record {
  target = target;
  pod_name = pod.name;
  pod_uid = pod.uid;
  container = container;
  restart_count = elim (Map.lookup container pod.restart_count) [ none ↦ 0 | some n ↦ n ];
}

unfoldable pub want_containers : LogTarget → Pod → List Text → Map Followed → Map Followed
unfolding followed stream_key Map.insert
want_containers target pod [] desired = desired
want_containers target pod (c ∷ cs) desired =
    let f = followed target pod c in
    want_containers target pod cs (Map.insert (stream_key f) f desired)

unfoldable pub want_pods : LogTarget → List Pod → Map Followed → Map Followed
unfolding want_containers selected_containers
want_pods target [] desired = desired
want_pods target (p ∷ ps) desired =
    want_pods target ps
      (want_containers target p (selected_containers p.containers target.containers) desired)

unfoldable pub pod_limit : LogTarget → ℕ
pod_limit t = if t.max_pods == 0 then 100 else t.max_pods

unfoldable pub check_pods : LogTarget → Result Text (List Pod) → Result LogError (List Pod)
unfolding pod_limit
check_pods t (err e) = err (resolve_failed t e)
check_pods t (ok pods) =
    if ltb (pod_limit t) (length pods)
    then err (too_many_pods t (length pods) (pod_limit t))
    else ok pods

-- ResolvePods.
abbrev pub Resolver : Type 0
Resolver = LogTarget → Result Text (List Pod)

unfoldable pub want_targets :
    Resolver → List LogTarget → Map Followed → Result LogError (Map Followed)
unfolding check_pods want_pods
want_targets resolve [] desired = ok desired
want_targets resolve (t ∷ ts) desired =
    check_pods t (resolve t) >>= (λ pods. want_targets resolve ts (want_pods t pods desired))

-- The streams that are no longer desired are cancelled and deleted.
unfoldable pub keep_desired : Map Followed → Map Followed → Map Followed
unfolding Map.lookup
keep_desired desired [] = []
keep_desired desired ((k, f) ∷ streams) =
    let rest = keep_desired desired streams in
    if is_some (Map.lookup k desired) then (k, f) ∷ rest else rest

unfoldable pub start_missing : Map Followed → Map Followed → Map Followed
unfolding Map.lookup Map.insert
start_missing [] streams = streams
start_missing ((k, f) ∷ desired) streams =
    start_missing desired
      (if is_some (Map.lookup k streams) then streams else Map.insert k f streams)

-- reconcile, which gives the streams that run after it.
unfoldable pub reconcile : Resolver → List LogTarget → Map Followed → Result LogError (Map Followed)
unfolding want_targets keep_desired start_missing
reconcile resolve targets streams = do
  desired ← want_targets resolve targets []
  ok (start_missing desired (keep_desired desired streams))
