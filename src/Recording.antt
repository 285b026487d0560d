-- ===== src/Recording.antt =====
-- internal/adapter/recording/size.go: sizes such as 10GiB. The pattern ignores case by Unicode's
-- rules, under which K also matches U+212A, the Kelvin sign, of the bytes E2 84 AA.
pub mod Sizes
pub mod Tests
use cap_mesh.Prelude.{
  ℕ, zero, suc, ◌+◌, ◌-◌, ◌*◌, ◌/◌, ◌%◌, ◌^◌, ◌≡◌, Bool, true, false, not, List, [], ◌∷◌, ◌++◌,
  Option, none, some, if◌then◌else◌, Result, ok, err, ◌>>=◌, ◌>>◌, fail_if, ◌==◌, ltb, leb, ◌&&◌,
  ◌||◌,
}
use cap_mesh.Text.{Text, text, text_eq, to_upper, trim_space, is_empty}

-- The errors, and the panic of a division by zero.
pub data SizeError : Type 0 where
  no_match out_of_range too_large division_by_zero : SizeError

abbrev pub max_int64 : ℕ
max_int64 = 2 ^ 63 - 1

unfoldable pub is_digit : ℕ → Bool
is_digit c = leb 48 c && leb c 57

-- The longest prefix of digits, and the rest.
unfoldable pub digits : Text → Text
unfolding is_digit
digits [] = []
digits (c ∷ s) = if is_digit c then c ∷ digits s else []

unfoldable pub after_digits : Text → Text
unfolding is_digit
after_digits [] = []
after_digits (c ∷ s) = if is_digit c then after_digits s else c ∷ s

-- The number that a text of digits stands for, most significant first.
unfoldable pub value : ℕ → Text → ℕ
value n [] = n
value n (c ∷ s) = value (n * 10 + (c - 48)) s

-- What the pattern reads a Kelvin sign as.
unfoldable pub fold_kelvin : Text → Text
fold_kelvin [] = []
fold_kelvin (c ∷ s) =
    let rest = fold_kelvin s in
    elim rest [
      | [] ↦ c ∷ []
      | d ∷ [] ↦ c ∷ d ∷ []
      | d ∷ e ∷ more ↦
          if (c == 226) && ((d == 132) && (e == 170)) then 75 ∷ more else c ∷ d ∷ e ∷ more
    ]

-- The table of the multipliers; a missing key gives 0.
unfoldable pub multiplier : Text → ℕ
unfolding text_eq
multiplier u =
    if is_empty u || text_eq u (text "B")
    then 1
    else if text_eq u (text "KB")
    then 1000
    else if text_eq u (text "MB")
    then 1000 * 1000
    else if text_eq u (text "GB")
    then 1000 * 1000 * 1000
    else if text_eq u (text "TB")
    then 1000 * 1000 * 1000 * 1000
    else if text_eq u (text "KIB")
    then 2 ^ 10
    else if text_eq u (text "MIB")
    then 2 ^ 20
    else if text_eq u (text "GIB")
    then 2 ^ 30
    else if text_eq u (text "TIB")
    then 2 ^ 40
    else 0

-- Whether the pattern matches: one digit or more, and a unit of the table or none.
unfoldable pub matches : Text → Bool
unfolding digits after_digits fold_kelvin to_upper multiplier
matches t =
    ltb 0 (multiplier (to_upper (fold_kelvin (after_digits t)))) && not (is_empty (digits t))

unfoldable pub parse_size : Text → Result SizeError ℕ
unfolding matches digits after_digits value multiplier to_upper trim_space
parse_size given = do
  let t = trim_space given
  fail_if (not (matches t)) no_match
  let n = value 0 (digits t)
  fail_if (ltb (2 ^ 64 - 1) n) out_of_range
  let m = multiplier (to_upper (after_digits t))
  fail_if (m == 0) division_by_zero
  fail_if (ltb (max_int64 / m) n) too_large
  ok ((n * m) % 2 ^ 64)
