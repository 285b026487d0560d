-- ===== src/Session/Targets/Normal.antt =====
-- normalizeTargets and validate of internal/application/session/service.go: what they guarantee.
use cap_mesh.Prelude.{
  ℕ, ◌+◌, ◌≡◌, refl, ◌⊎◌, inl, inr, sym, ◌∙◌, subst, Bool, true, false, ◌||◌, ◌&&◌, not, List, [],
  ◌∷◌, is_some, arith, if_elim, Result, ok, err, OkThen, ◌>>=◌, ◌>>◌, fail_if,
}
use cap_mesh.Text.{Text, is_empty, contains}
use cap_mesh.Domain.{CaptureTarget}
use cap_mesh.Session.Targets.{
  CreateInput, SessionError, Normalized, default_id, normalize_target, normalize_loop,
  normalize_targets, duplicate_target, not_one_type,
}

-- A target has exactly one of its two types.
abbrev pub HasOneType : CaptureTarget → Type 0
HasOneType t =
    ((is_some t.interface ≡ true) × (is_some t.workload ≡ false))
    ⊎ ((is_some t.interface ≡ false) × (is_some t.workload ≡ true))

-- The IDs of the targets are nonempty, distinct and outside a list, and each target has one type.
abbrev pub AreNormal : List Text → List CaptureTarget → Type 0
AreNormal ids [] = Unit
AreNormal ids (t ∷ ts) =
    (is_empty t.id ≡ false) × (contains ids t.id ≡ false) × HasOneType t × AreNormal (t.id ∷ ids) ts

abbrev Agrees : CaptureTarget → (CaptureTarget × Text) → Type 0
Agrees t (u, logical) =
    (u.id ≡ t.id)
    × (is_some u.interface ≡ is_some t.interface)
    × (is_some u.workload ≡ is_some t.workload)

normalize_target-Agrees :
    (logical : Text) (t : CaptureTarget) → OkThen (Agrees t) (normalize_target logical t)
unfolding normalize_target
normalize_target-Agrees logical t = ground (arith)

default_id-nonempty : (i : ℕ) (t : CaptureTarget) → is_empty (default_id i t).id ≡ false
unfolding default_id
default_id-nonempty i t =
    if_elim (λ (u : CaptureTarget). is_empty u.id ≡ false) (is_empty t.id) (λ _. refl) (λ e. e)

-- A target in front of targets that are normal behind it.
prepend-AreNormal :
    (ids : List Text) (t u : CaptureTarget) (r : Result SessionError Normalized)
    → u.id ≡ t.id
    → is_empty t.id ≡ false
    → contains ids t.id ≡ false
    → HasOneType u
    → OkThen (λ n. AreNormal (t.id ∷ ids) n.targets) r
    → OkThen (λ n. AreNormal ids n.targets) (r >>= λ n. ok (record n { targets = u ∷ n.targets }))
prepend-AreNormal ids t u (err _) e b c o p = tt
prepend-AreNormal ids t u (ok n) e b c o p = (
  subst (λ x. is_empty x ≡ false) (sym e) b,
  subst (λ x. contains ids x ≡ false) (sym e) c,
  o,
  subst (λ x. AreNormal (x ∷ ids) n.targets) (sym e) p,
)

normalize_loop-AreNormal :
    (i : ℕ) (ids : List Text) (logical : Text) (given : List CaptureTarget)
    → OkThen (λ n. AreNormal ids n.targets) (normalize_loop i ids logical given)
unfolding normalize_loop
normalize_loop-AreNormal i ids logical [] = tt
normalize_loop-AreNormal i ids logical (g ∷ rest) =
    checked (contains ids t.id) refl (is_some t.interface) (is_some t.workload) refl refl
      (normalize_target logical t) (normalize_target-Agrees logical t)
      (λ l. normalize_loop-AreNormal (i + 1) (t.id ∷ ids) l rest)
  where
    t : CaptureTarget
    t = default_id i g

    checked :
        (seen : Bool)
        → contains ids t.id ≡ seen
        → (a b : Bool) → is_some t.interface ≡ a
        → is_some t.workload ≡ b
        → (r : Result SessionError (CaptureTarget × Text)) → OkThen (Agrees t) r
        → ((l : Text)
            → OkThen
                (λ n. AreNormal (t.id ∷ ids) n.targets)
                (normalize_loop (i + 1) (t.id ∷ ids) l rest))
        → OkThen
            (λ n. AreNormal ids n.targets)
            (fail_if seen (duplicate_target t.id)
              >> (fail_if (not a && not b || a && b) (not_one_type t.id)
                  >> (r >>= λ p.
                      (normalize_loop (i + 1) (t.id ∷ ids) p.1 rest >>= λ n.
                      ok (record n { targets = p.0 ∷ n.targets })))))
    checked true c a b ea eb r p ih = tt
    checked false c true true ea eb r p ih = tt
    checked false c false false ea eb r p ih = tt
    checked false c true false ea eb (err _) p ih = tt
    checked false c false true ea eb (err _) p ih = tt
    checked false c true false ea eb (ok (u, l)) (e, f, k) ih =
        prepend-AreNormal ids t u (normalize_loop (i + 1) (t.id ∷ ids) l rest) e
          (default_id-nonempty i g) c (inl (f ∙ ea, k ∙ eb)) (ih l)
    checked false c false true ea eb (ok (u, l)) (e, f, k) ih =
        prepend-AreNormal ids t u (normalize_loop (i + 1) (t.id ∷ ids) l rest) e
          (default_id-nonempty i g) c (inr (f ∙ ea, k ∙ eb)) (ih l)

-- The targets that normalizeTargets makes have distinct nonempty IDs, and each is either an interface
-- or a workload.
pub normalize_targets-AreNormal :
    (input : CreateInput) → OkThen (λ n. AreNormal [] n.targets) (normalize_targets input)
unfolding normalize_targets
normalize_targets-AreNormal input = ground (arith, normalize_loop-AreNormal 0 [] [] input.targets)
