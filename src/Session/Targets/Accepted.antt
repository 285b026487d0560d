-- ===== src/Session/Targets/Accepted.antt =====
-- normalizeTargets and validate of internal/application/session/service.go: the targets that pass both.
use cap_mesh.Prelude.{
  ◌≤◌, ◌≡◌, ◌≢◌, ◌⊎◌, true, false, List, [], ◌∷◌, Option, none, some, is_some, is_ok, length, All,
  arith, Result, err, ap, fail_if, ltb,
}
use cap_mesh.Text.{Text, text, text_eq_iff, is_empty, trim_space}
use cap_mesh.Domain.{CaptureTarget, InterfaceTarget, WorkloadTarget}
use cap_mesh.Alias.Canonical.{IsCanonical}
use cap_mesh.Session.Targets.{
  CreateInput, SessionError, validate, validate_all, validate_target, validate_workload, is_kind,
  is_direction, too_many_nodes, nil_pointer,
}
use cap_mesh.Session.Targets.Normal.{HasOneType, AreNormal}
use cap_mesh.Session.Targets.Shaped.{HasAlias, IsTrimmed, IsShaped}

-- A target that Create accepts: an interface with a canonical alias on at most 100 nodes, or a named
-- workload of a known kind and direction with a limit of 1 to 100 pods.
abbrev AcceptsOne : Option InterfaceTarget → Option WorkloadTarget → Type 0
AcceptsOne (some i) none = IsCanonical i.logical_interface × (length i.nodes ≤ 100)
AcceptsOne none (some w) =
    ((w.namespace ≢ []) × (trim_space w.namespace ≡ w.namespace))
    × ((w.name ≢ []) × (trim_space w.name ≡ w.name))
    × ((w.kind ≡ text "statefulset") ⊎ (w.kind ≡ text "deployment"))
    × ((w.direction ≡ text "egress") ⊎ (w.direction ≡ text "ingress") ⊎ (w.direction ≡ text "both"))
    × (1 ≤ w.max_pods)
    × (w.max_pods ≤ 100)
AcceptsOne i w = ⊥

abbrev pub IsAccepted : CaptureTarget → Type 0
IsAccepted t = AcceptsOne t.interface t.workload

is_kind_lem : (k : Text) → is_kind k ≡ true → (k ≡ text "statefulset") ⊎ (k ≡ text "deployment")
unfolding is_kind
is_kind_lem k h =
    ground (arith, h, text_eq_iff k (text "statefulset"), text_eq_iff k (text "deployment"))

is_direction_lem :
    (d : Text)
    → is_direction d ≡ true
    → (d ≡ text "egress") ⊎ (d ≡ text "ingress") ⊎ (d ≡ text "both")
unfolding is_direction
is_direction_lem d h = ground (
  arith,
  h,
  text_eq_iff d (text "egress"),
  text_eq_iff d (text "ingress"),
  text_eq_iff d (text "both"),
)

is_empty-nil : (t : Text) → is_empty t ≡ false → t ≢ []
is_empty-nil t h e = absurd (ground (arith, h, ap is_empty e))

workload-IsAccepted :
    (id : Text) (w : WorkloadTarget)
    → is_ok (validate_workload id w) ≡ true
    → IsTrimmed (some w)
    → AcceptsOne none (some w)
unfolding validate_workload
workload-IsAccepted id w h (ns, name, pods) =
    let a : is_empty w.namespace ≡ false = ground (arith, h) in
    let b : is_empty w.name ≡ false = ground (arith, h) in
    let k : is_kind w.kind ≡ true = ground (arith, h) in
    let d : is_direction w.direction ≡ true = ground (arith, h) in
    let m : w.max_pods ≤ 100 = ground (arith, h) in
    (
      (is_empty-nil w.namespace a, ns),
      (is_empty-nil w.name b, name),
      is_kind_lem w.kind k,
      is_direction_lem w.direction d,
      pods,
      m,
    )

validate_target-IsAccepted :
    (t : CaptureTarget)
    → HasOneType t
    → IsShaped t
    → is_ok (validate_target t) ≡ true
    → IsAccepted t
unfolding validate_target
validate_target-IsAccepted t one (alias, trimmed) h =
    of_types t.interface t.workload one alias trimmed h
  where
    of_types :
        (i : Option InterfaceTarget) (w : Option WorkloadTarget)
        → ((is_some i ≡ true) × (is_some w ≡ false)) ⊎ ((is_some i ≡ false) × (is_some w ≡ true))
        → HasAlias i
        → IsTrimmed w
        → is_ok (elim i as (λ _. Result SessionError (Unit {0})) [
          | some j ↦ fail_if (ltb 100 (length j.nodes)) (too_many_nodes t.id)
          | none ↦ elim w [ none ↦ err nil_pointer | some v ↦ validate_workload t.id v ]
        ])
          ≡ true
        → AcceptsOne i w
    of_types (some i) none one alias trimmed h = (alias, ground (arith, h))
    of_types none (some w) one alias trimmed h = workload-IsAccepted t.id w h trimmed
    of_types none none one alias trimmed h = absurd (ground (arith, h))
    of_types (some i) (some w) one alias trimmed h = absurd (ground (arith, one))

validate_all-IsAccepted :
    (ids : List Text) (ts : List CaptureTarget)
    → AreNormal ids ts
    → All IsShaped ts
    → is_ok (validate_all ts) ≡ true
    → All IsAccepted ts
unfolding validate_all
validate_all-IsAccepted ids [] n s h = tt
validate_all-IsAccepted ids (t ∷ ts) (a, b, one, n) (shaped, s) h =
    let first : is_ok (validate_target t) ≡ true = ground (arith, h) in
    let rest : is_ok (validate_all ts) ≡ true = ground (arith, h) in
    (
      validate_target-IsAccepted t one shaped first,
      validate_all-IsAccepted (t.id ∷ ids) ts n s rest,
    )

-- The targets that are normalized and then pass validate.
pub validate-IsAccepted :
    (i : CreateInput)
    → AreNormal [] i.targets
    → All IsShaped i.targets
    → is_ok (validate i) ≡ true
    → All IsAccepted i.targets
unfolding validate
validate-IsAccepted i n s h =
    let checked : is_ok (validate_all i.targets) ≡ true = ground (arith, h) in
    validate_all-IsAccepted [] i.targets n s checked
