-- ===== src/Session/Sources/Resolve.antt =====
-- resolveInitialSources of internal/application/session/service.go: what it accepts.
use cap_mesh.Prelude.{
  ℕ, suc, ◌+◌, ◌≤◌, ◌≡◌, refl, ap, List, [], ◌∷◌, ◌++◌, Option, none, some, if◌then◌else◌, arith,
  Result, ok, err, OkThen, OkThen-bind, OkThen-fail_if, ◌==◌, ◌>>=◌, ◌>>◌, fail_if, length, is_ok,
}
use cap_mesh.Text.{Text, text, text_eq}
use cap_mesh.Domain.{CaptureTarget, InterfaceTarget, WorkloadTarget, CaptureSource}
use cap_mesh.Session.Targets.{SessionError, max_sources_per_node, default_max_pods, no_agents}
use cap_mesh.Session.Sources.{
  Env, resolve_from, resolve_initial_sources, interface_sources, interface_source, workload_sources,
  unique_from, unique_sources, nodes_of, validate_source_distribution,
}
use cap_mesh.Session.Sources.Unique.{HasIds, unique_sources-HasIds}
use cap_mesh.Session.Sources.Distribution.{on_node, validate_source_distribution_iff}

-- How many of the sources are pods of workloads, by their type.
abbrev pub pods_in : List CaptureSource → ℕ
pods_in [] = 0
pods_in (s ∷ rest) =
    if text_eq s.target_type (text "workload") then suc (pods_in rest) else pods_in rest

pods_in-append : (xs ys : List CaptureSource) → pods_in (xs ++ ys) ≡ pods_in xs + pods_in ys
pods_in-append [] ys = omega arith
pods_in-append (x ∷ xs) ys = ground (arith, pods_in-append xs ys)

pods_in-length : (xs : List CaptureSource) → pods_in xs ≤ length xs
pods_in-length [] = omega arith
pods_in-length (x ∷ xs) = ground (arith, pods_in-length xs)

interface_sources-pods :
    (connected : List Text) (target : Text) (i : InterfaceTarget) (nodes : List Text)
    → OkThen (λ here. pods_in here ≡ 0) (interface_sources connected target i nodes)
unfolding interface_sources interface_source text_eq
interface_sources-pods connected target i [] = refl
interface_sources-pods connected target i (n ∷ ns) =
    ground (arith, interface_sources-pods connected target i ns)

workload_sources-pods :
    (env : Env) (t : CaptureTarget) (w : WorkloadTarget) (pods : ℕ)
    → OkThen (λ here. pods + length here ≤ 100) (workload_sources env t w pods)
unfolding workload_sources
workload_sources-pods env t w pods = ground arith

unique_from-pods :
    (seen : List Text) (xs : List CaptureSource) → pods_in (unique_from seen xs) ≤ pods_in xs
unfolding unique_from
unique_from-pods seen [] = omega arith
unique_from-pods seen (x ∷ xs) =
    ground (arith, unique_from-pods seen xs, unique_from-pods (x.id ∷ seen) xs)

resolve_from-pods :
    (env : Env) (pods : ℕ) (ts : List CaptureTarget)
    → pods ≤ 100
    → OkThen (λ sources. pods + pods_in sources ≤ 100) (resolve_from env pods ts)
unfolding resolve_from
resolve_from-pods env pods [] h = omega arith
resolve_from-pods env pods (t ∷ ts) h =
    by_type t.interface t.workload (resolve_from-pods env pods ts h)
      (λ n. resolve_from-pods env (pods + n) ts)
  where
    Fits : List CaptureSource → Type 0
    Fits sources = pods + pods_in sources ≤ 100

    resolve_target :
        Option InterfaceTarget → Option WorkloadTarget → Result SessionError (List CaptureSource)
    resolve_target o p = elim o [
      | some i ↦ do
        fail_if (length (nodes_of env.connected i) == 0) no_agents
        here ← interface_sources env.connected t.id i (nodes_of env.connected i)
        rest ← resolve_from env pods ts
        ok (here ++ rest)
      | none ↦ elim p [
        | none ↦ resolve_from env pods ts
        | some w ↦ do
          here ← workload_sources env t w pods
          rest ← resolve_from env (pods + length here) ts
          ok (here ++ rest)
      ]
    ]

    by_type :
        (o : Option InterfaceTarget) (p : Option WorkloadTarget)
        → OkThen Fits (resolve_from env pods ts)
        → ((n : ℕ)
            → pods + n ≤ 100
            → OkThen (λ sources. pods + n + pods_in sources ≤ 100) (resolve_from env (pods + n) ts))
        → OkThen Fits (resolve_target o p)
    by_type (some i) p rest after =
        OkThen-fail_if Fits (length (nodes_of env.connected i) == 0) no_agents _ (λ _.
          OkThen-bind (λ here. pods_in here ≡ 0) Fits
            (interface_sources env.connected t.id i (nodes_of env.connected i)) _
            (interface_sources-pods env.connected t.id i (nodes_of env.connected i))
            (λ here e.
              OkThen-bind Fits Fits (resolve_from env pods ts) _ rest
                (λ r f. omega (arith, e, f, pods_in-append here r))))
    by_type none none rest after = rest
    by_type none (some w) rest after =
        OkThen-bind (λ here. pods + length here ≤ 100) Fits (workload_sources env t w pods) _
          (workload_sources-pods env t w pods)
          (λ here e.
            OkThen-bind (λ r. pods + length here + pods_in r ≤ 100) Fits
              (resolve_from env (pods + length here) ts) _ (after (length here) e)
              (λ r f. omega (arith, f, pods_in-append here r, pods_in-length here)))

-- What Create may start: distinct nonempty IDs, at most fifty sources on a node, at most a hundred
-- pods in all.
abbrev pub IsResolved : List CaptureSource → Type 0
IsResolved sources =
    HasIds sources
    × ((node : Text) → on_node node sources ≤ max_sources_per_node)
    × (pods_in sources ≤ default_max_pods)

-- The sources that resolveInitialSources accepts have distinct nonempty IDs, no node has more than
-- fifty of them, and no more than a hundred of them are pods.
pub resolve_initial_sources-IsResolved :
    (env : Env) (ts : List CaptureTarget) → OkThen IsResolved (resolve_initial_sources env ts)
unfolding resolve_initial_sources unique_sources
resolve_initial_sources-IsResolved env ts =
    OkThen-bind (λ sources. 0 + pods_in sources ≤ 100) IsResolved (resolve_from env 0 ts) _
      (resolve_from-pods env 0 ts (omega arith))
      (λ sources fits.
        checked (unique_sources sources) (unique_sources-HasIds sources)
          (omega (arith, fits, unique_from-pods [] sources)))
  where
    checked :
        (sources : List CaptureSource)
        → HasIds sources
        → pods_in sources ≤ 100
        → OkThen IsResolved (validate_source_distribution sources >> ok sources)
    checked sources ids fits = within (validate_source_distribution sources) refl
      where
        within :
            (r : Result SessionError (Unit {0}))
            → validate_source_distribution sources ≡ r
            → OkThen IsResolved (r >> ok sources)
        within (err e) h = tt
        within (ok x) h = (ids, (validate_source_distribution_iff sources).0 (ap is_ok h), fits)
