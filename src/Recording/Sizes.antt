-- ===== src/Recording/Sizes.antt =====
-- ParseSize of internal/adapter/recording/size.go: what a size that it accepts stands for.
use cap_mesh.Prelude.{
  ℕ, ◌-◌, ◌*◌, ◌/◌, ◌%◌, ◌^◌, ◌≡◌, ◌≤◌, ◌<◌, refl, sym, subst, true, false, not, [], ◌∷◌, ◌++◌,
  OkThen, OkThen-fail_if, ◌==◌, ltb, arith, all,
}
use native.Mathlib.Nat.{le-div_iff_mul-le}
use cap_mesh.Text.{Text, to_upper, trim_space, is_empty}
use cap_mesh.Recording.{
  parse_size, digits, after_digits, value, multiplier, matches, max_int64, no_match, out_of_range,
  too_large, division_by_zero, is_digit,
}

digits_split : (t : Text) → t ≡ digits t ++ after_digits t
unfolding digits after_digits
digits_split [] = refl
digits_split (c ∷ s) = ground (arith, digits_split s)

digits-all : (t : Text) → all is_digit (digits t) ≡ true
unfolding digits
digits-all [] = refl
digits-all (c ∷ s) = ground (arith, digits-all s)

matches-digits : (t : Text) → matches t ≡ true → is_empty (digits t) ≡ false
unfolding matches
matches-digits t h = ground (arith, h)

-- A number of one digit or more and a unit, that stand for a size.
abbrev pub StandsFor : Text → ℕ → Type 0
StandsFor t n =
    (d : Text) × (u : Text) × (t ≡ d ++ u)
    × (is_empty d ≡ false)
    × (all is_digit d ≡ true)
    × (1 ≤ multiplier (to_upper u))
    × (n ≡ value 0 d * multiplier (to_upper u))
    × (n ≤ max_int64)

small_mod : (x : ℕ) → x ≤ max_int64 → x % 2 ^ 64 ≡ x
small_mod x h = omega (arith, h)

no_wrap :
    (n m : ℕ)
    → (m == 0) ≡ false
    → ltb (max_int64 / m) n ≡ false
    → (1 ≤ m) × (n * m ≤ max_int64) × ((n * m) % 2 ^ 64 ≡ n * m)
no_wrap n m z h =
    let positive : 0 < m = ground arith in
    let fits = (le-div_iff_mul-le {k = m} {x = n} {y = max_int64} positive).0 (ground arith) in
    (positive, fits, small_mod (n * m) fits)

-- A size that is accepted is, but for outer white space, a number of one digit or more and a unit of
-- the table or none, and its value is their product, which did not wrap and fits an int64.
pub parse_size-StandsFor : (given : Text) → OkThen (StandsFor (trim_space given)) (parse_size given)
unfolding parse_size
parse_size-StandsFor given =
    OkThen-fail_if (StandsFor t) (not (matches t)) no_match _ (λ some_match.
      OkThen-fail_if (StandsFor t) (ltb (2 ^ 64 - 1) n) out_of_range _ (λ _.
        OkThen-fail_if (StandsFor t) (m == 0) division_by_zero _ (λ z.
          OkThen-fail_if (StandsFor t) (ltb (max_int64 / m) n) too_large _ (λ h.
            let (a, b, c) = no_wrap n m z h in
            (
              digits t,
              after_digits t,
              digits_split t,
              matches-digits t (ground (arith, some_match)),
              digits-all t,
              a,
              c,
              subst (λ x. x ≤ max_int64) (sym c) b,
            )))))
  where
    t : Text
    t = trim_space given

    n : ℕ
    n = value 0 (digits t)

    m : ℕ
    m = multiplier (to_upper (after_digits t))
