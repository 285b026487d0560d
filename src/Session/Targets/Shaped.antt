-- ===== src/Session/Targets/Shaped.antt =====
-- normalizeTargets of internal/application/session/service.go: the aliases and workloads that it makes.
use cap_mesh.Prelude.{
  ℕ, ◌+◌, ◌≤◌, ◌≡◌, refl, ◌⊎◌, inl, inr, sym, false, not, ◌||◌, ◌&&◌, List, [], ◌∷◌, Option, none,
  some, is_some, All, arith, if_elim, Result, ok, err, OkThen, OkThen-bind, OkThen-fail_if, subst,
  ◌>>=◌, map_err, if◌then◌else◌,
}
use cap_mesh.Text.{Text, text, is_empty, is_space, contains, trim_space, trim_left, trim_right}
use cap_mesh.Domain.{CaptureTarget, InterfaceTarget, WorkloadTarget}
use cap_mesh.Alias
use cap_mesh.Alias.Canonical.{IsCanonical, normalize-IsCanonical}
use cap_mesh.Session.Targets.{
  CreateInput, SessionError, Normalized, default_id, normalize_target, normalize_workload,
  normalize_loop, normalize_targets, bad_alias,
}

trim_right_idem : (s : Text) → trim_right (trim_right s) ≡ trim_right s
unfolding trim_right
trim_right_idem [] = refl
trim_right_idem (c ∷ s) = ground (arith, trim_right_idem s)

trim_left_cases :
    (s : Text)
    → (trim_left s ≡ []) ⊎ ((c : ℕ) × (t : Text) × (trim_left s ≡ c ∷ t) × (is_space c ≡ false))
unfolding trim_left
trim_left_cases [] = inl refl
trim_left_cases (c ∷ s) =
    if_elim (λ (u : Text). (u ≡ []) ⊎ ((d : ℕ) × (t : Text) × (u ≡ d ∷ t) × (is_space d ≡ false)))
      (is_space c) (λ _. trim_left_cases s) (λ h. inr (c, s, refl, h))

trimmed_word :
    (c : ℕ) (t : Text)
    → is_space c ≡ false
    → trim_right (trim_left (trim_right (c ∷ t))) ≡ trim_right (c ∷ t)
unfolding trim_right trim_left
trimmed_word c t h = ground (arith, trim_right_idem t)

trim_space_idem : (s : Text) → trim_space (trim_space s) ≡ trim_space s
unfolding trim_space
trim_space_idem s = elim (trim_left_cases s) [
  | inl e ↦ rw e (unfold trim_right trim_left in refl)
  | inr (c, t, e, h) ↦ rw e (trimmed_word c t h)
]

-- What the loop makes of a target: an alias of an interface that is canonical, and a workload that is
-- trimmed and has a limit of pods.
abbrev pub HasAlias : Option InterfaceTarget → Type 0
HasAlias none = Unit
HasAlias (some i) = IsCanonical i.logical_interface

abbrev pub IsTrimmed : Option WorkloadTarget → Type 0
IsTrimmed none = Unit
IsTrimmed (some w) =
    (trim_space w.namespace ≡ w.namespace) × (trim_space w.name ≡ w.name) × (1 ≤ w.max_pods)

abbrev pub IsShaped : CaptureTarget → Type 0
IsShaped t = HasAlias t.interface × IsTrimmed t.workload

normalize_workload-IsTrimmed : (w : WorkloadTarget) → IsTrimmed (some (normalize_workload w))
unfolding normalize_workload
normalize_workload-IsTrimmed w = (trim_space_idem w.namespace, trim_space_idem w.name, ground arith)

workload-IsTrimmed :
    (o : Option WorkloadTarget)
    → IsTrimmed (elim o as (λ _. Option WorkloadTarget) [
      | none ↦ none
      | some w ↦ some (normalize_workload w)
    ])
workload-IsTrimmed none = tt
workload-IsTrimmed (some w) = normalize_workload-IsTrimmed w

alias-IsCanonical :
    (name : Text) → OkThen IsCanonical (map_err (λ _. bad_alias) (Alias.normalize name))
alias-IsCanonical name = kept (Alias.normalize name) (normalize-IsCanonical name).1
  where
    kept :
        (r : Result Alias.AliasError Text)
        → OkThen IsCanonical r
        → OkThen IsCanonical (map_err (λ _. bad_alias) r)
    kept (ok a) c = c
    kept (err e) c = tt

normalize_target-IsShaped :
    (logical : Text) (t : CaptureTarget)
    → OkThen (λ (u, l). IsShaped u) (normalize_target logical t)
unfolding normalize_target
normalize_target-IsShaped logical t = at_interface t.interface refl
  where
    Q : CaptureTarget × Text → Type 0
    Q (u, l) = IsShaped u

    workload : Option WorkloadTarget
    workload = elim t.workload [ none ↦ none | some w ↦ some (normalize_workload w) ]

    at_interface :
        (o : Option InterfaceTarget)
        → t.interface ≡ o
        → OkThen Q (elim o as (λ _. Result SessionError (CaptureTarget × Text)) [
          | none ↦ ok (record t { workload = workload }, logical)
          | some i ↦ map_err (λ _. bad_alias) (Alias.normalize i.logical_interface) >>= λ alias.
              ok (
                record t {
                  interface = some (record i { logical_interface = alias });
                  workload = workload;
                },
                if is_empty logical then alias else logical,
              )
        ])
    at_interface none h = (subst HasAlias (sym h) tt, workload-IsTrimmed t.workload)
    at_interface (some i) h =
        OkThen-bind IsCanonical Q (map_err (λ _. bad_alias) (Alias.normalize i.logical_interface)) _
          (alias-IsCanonical i.logical_interface)
          (λ alias canonical. (canonical, workload-IsTrimmed t.workload))

normalize_loop-IsShaped :
    (i : ℕ) (ids : List Text) (logical : Text) (given : List CaptureTarget)
    → OkThen (λ n. All IsShaped n.targets) (normalize_loop i ids logical given)
unfolding normalize_loop
normalize_loop-IsShaped i ids logical [] = tt
normalize_loop-IsShaped i ids logical (g ∷ rest) =
    let t : CaptureTarget = default_id i g in
    OkThen-fail_if Q (contains ids t.id) _ _ (λ _.
      OkThen-fail_if Q
        (not (is_some t.interface) && not (is_some t.workload)
          || is_some t.interface && is_some t.workload)
        _ _
        (λ _.
          OkThen-bind (λ ((u, l) : CaptureTarget × Text). IsShaped u) Q (normalize_target logical t)
            _ (normalize_target-IsShaped logical t)
            (λ p shaped.
              OkThen-bind Q Q (normalize_loop (i + 1) (t.id ∷ ids) p.1 rest) _
                (normalize_loop-IsShaped (i + 1) (t.id ∷ ids) p.1 rest) (λ n all. (shaped, all)))))
  where
    Q : Normalized → Type 0
    Q n = All IsShaped n.targets

pub normalize_targets-IsShaped :
    (input : CreateInput) → OkThen (λ n. All IsShaped n.targets) (normalize_targets input)
unfolding normalize_targets
normalize_targets-IsShaped input = given input.targets refl
  where
    Q : Normalized → Type 0
    Q n = All IsShaped n.targets

    given :
        (ts : List CaptureTarget)
        → input.targets ≡ ts
        → OkThen Q (elim ts as (λ _. Result SessionError Normalized) [
          | [] ↦ map_err (λ _. bad_alias) (Alias.normalize input.logical_interface) >>= λ logical.
              ok (record {
                targets =
                    record {
                      id = text "legacy-interface";
                      interface =
                          some (record { nodes = input.nodes; logical_interface = logical });
                      workload = none;
                    }
                    ∷ [];
                logical_interface = logical;
              })
          | _ ↦ normalize_loop 0 [] [] input.targets
        ])
    given [] h =
        OkThen-bind IsCanonical Q
          (map_err (λ _. bad_alias) (Alias.normalize input.logical_interface)) _
          (alias-IsCanonical input.logical_interface) (λ logical canonical. ((canonical, tt), tt))
    given (t ∷ ts) h = normalize_loop-IsShaped 0 [] [] input.targets
