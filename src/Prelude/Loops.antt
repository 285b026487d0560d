-- ===== src/Prelude/Loops.antt =====
-- A `for` loop as the iteration of its body, and the rule that its proofs use.
use Prim.Native.Nat.{ℕ, zero, suc, ◌<◌}
use mathlib.Core.Path.{◌≡◌, refl, subst}
use mathlib.Core.Logic.{◌⊎◌, inl, inr}
use native.Mathlib.Omega.{arith}

-- What one round of a loop does: leave the loop, or go round again.
pub data Progress {ℓ} (A : Type ℓ) : Type ℓ where
  done : A → Progress A
  more : A → Progress A

unfoldable pub iterate {ℓ} : {A : Type ℓ} → ℕ → (A → Progress A) → A → A
iterate zero step a = a
iterate (suc f) step a = elim (step a) [ done b ↦ b | more b ↦ iterate f step b ]

abbrev pub Keeps {ℓ κ} : {A : Type ℓ} → (A → Type κ) → (A → ℕ) → A → Progress A → Type κ
Keeps P measure a (done b) = Unit
Keeps P measure a (more b) = P b × (measure b < measure a)

pub Progress-cases {ℓ} :
    {A : Type ℓ} (r : Progress A) → ((b : A) × (r ≡ done b)) ⊎ ((b : A) × (r ≡ more b))
Progress-cases (done b) = inl (b, refl)
Progress-cases (more b) = inr (b, refl)

-- With a measure below the fuel the loop ends by its own test: the result is what the round that
-- leaves the loop returns, from a state where the invariant holds.
pub iterate_rule {ℓ κ} :
    {A : Type ℓ} (P : A → Type κ) (measure : A → ℕ) (step : A → Progress A)
    → ((a : A) → P a → Keeps P measure a (step a))
    → (f : ℕ) (a : A) → measure a < f
    → P a
    → (last : A) × P last × (step last ≡ done (iterate f step a))
unfolding iterate
iterate_rule P measure step keep zero a m p = absurd (omega arith)
iterate_rule P measure step keep (suc f) a m p = elim (Progress-cases (step a)) [
  | inl (b, e) ↦ (a, p, rw (e, iterate))
  | inr (b, e) ↦
      let k : P b × (measure b < measure a) = subst (Keeps P measure a) e (keep a p) in
      let (last, q, ended) = iterate_rule P measure step keep f b (omega (arith, k.1)) k.0 in
      (last, q, rw (e, iterate) ended)
]

abbrev pub Holds {ℓ κ} : {A : Type ℓ} → (A → Type κ) → Progress A → Type κ
Holds P (done b) = P b
Holds P (more b) = P b

-- What every round keeps holds of the result.
pub iterate_keeps {ℓ κ} :
    {A : Type ℓ} (P : A → Type κ) (step : A → Progress A)
    → ((a : A) → P a → Holds P (step a))
    → (f : ℕ) (a : A) → P a
    → P (iterate f step a)
unfolding iterate
iterate_keeps P step keep zero a p = p
iterate_keeps P step keep (suc f) a p = elim (Progress-cases (step a)) [
  | inl (b, e) ↦ rw (e, iterate) (subst (Holds P) e (keep a p))
  | inr (b, e) ↦ rw (e, iterate) (iterate_keeps P step keep f b (subst (Holds P) e (keep a p)))
]

-- The same from the first round on: the invariant need not hold before it.
pub iterate_keeps_after {ℓ κ} :
    {A : Type ℓ} (P : A → Type κ) (step : A → Progress A)
    → ((a : A) → P a → Holds P (step a))
    → (f : ℕ) (a : A) → Holds P (step a)
    → P (iterate (suc f) step a)
unfolding iterate
iterate_keeps_after P step keep f a p = elim (Progress-cases (step a)) [
  | inl (b, e) ↦ rw (e, iterate) (subst (Holds P) e p)
  | inr (b, e) ↦ rw (e, iterate) (iterate_keeps P step keep f b (subst (Holds P) e p))
]
