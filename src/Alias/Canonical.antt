-- ===== src/Alias/Canonical.antt =====
-- What Normalize returns.
use cap_mesh.Prelude.{
  ap, ◌↔◌, ℕ, sym, ◌∙◌, ◌≢◌, ◌≤◌, Result, err, is_ok, OkThen, All, length, if_elim, ◌≡◌, refl, ◌⊎◌,
  inl, inr, true, false, [], ◌∷◌, ok, arith, Bool-cases,
}
use cap_mesh.Text.{Text, text, text_eq_iff, to_upper, lower, upper, is_space}
use cap_mesh.Alias.{
  fold_byte, fold_case, is_blank, begins_blank, trim_front, trim_back, folded, AliasError,
  normalize, matches, is_word, is_inner, ends_well, is_legacy,
}

-- A name: up to 53 lower-case letters, digits and hyphens, of which neither the first nor the last is
-- a hyphen.
abbrev pub IsAlnum : ℕ → Type 0
IsAlnum c = ((b'a' ≤ c) × (c ≤ b'z')) ⊎ ((b'0' ≤ c) × (c ≤ b'9'))

abbrev pub IsInner : ℕ → Type 0
IsInner c = IsAlnum c ⊎ (c ≡ b'-')

abbrev pub Begins : Text → Type 0
Begins [] = ⊥
Begins (c ∷ s) = IsAlnum c

abbrev pub Ends : Text → Type 0
Ends [] = ⊥
Ends (c ∷ []) = IsAlnum c
Ends (c ∷ d ∷ s) = Ends (d ∷ s)

abbrev pub IsName : Text → Type 0
IsName a = (length a ≤ 53) × All IsInner a × Begins a × Ends a

-- An upper-case letter of the first version, or a name other than the letter in lower case.
abbrev pub IsCanonical : Text → Type 0
IsCanonical a =
    ((a ≡ text "A") ⊎ (a ≡ text "B") ⊎ (a ≡ text "C"))
    ⊎ (IsName a × (a ≢ text "a") × (a ≢ text "b") × (a ≢ text "c"))

is_word_iff : (c : ℕ) → (is_word c ≡ true) ↔ IsAlnum c
unfolding is_word
is_word_iff c = ((λ h. ground (arith, h)), λ h. ground (arith, h))

is_inner_iff : (c : ℕ) → (is_inner c ≡ true) ↔ IsInner c
unfolding is_inner is_word
is_inner_iff c = ((λ h. ground (arith, h)), λ h. ground (arith, h))

word-inner : (c : ℕ) → is_word c ≡ true → is_inner c ≡ true
unfolding is_inner
word-inner c h = ground (arith, h)

ends_well_iff : (s : Text) → (ends_well s ≡ true) ↔ (All IsInner s × Ends s)
unfolding ends_well
ends_well_iff [] = ((λ h. absurd (cc)), λ h. absurd h.1)
ends_well_iff (c ∷ []) =
    ((λ h. ((inl ((is_word_iff c).0 h), tt), (is_word_iff c).0 h)), λ (i, w). (is_word_iff c).1 w)
ends_well_iff (c ∷ d ∷ s) =
    let (to, from) = ends_well_iff (d ∷ s) in
    (
      (λ h.
          let (is, e) = to (ground (arith, h)) in
          (((is_inner_iff c).0 (ground (arith, h)), is), e)),
      λ ((i, is), e). ground (arith, (is_inner_iff c).1 i, from (is, e)),
    )

pub matches_iff : (a : Text) → (matches a ≡ true) ↔ IsName a
unfolding matches
matches_iff [] = ((λ h. absurd (cc)), λ (n, i, b, e). absurd b)
matches_iff (c ∷ []) = (
  (λ h. (omega arith, (inl ((is_word_iff c).0 h), tt), (is_word_iff c).0 h, (is_word_iff c).0 h)),
  λ (n, i, b, e). (is_word_iff c).1 b,
)
matches_iff (c ∷ d ∷ s) =
    let (to, from) = ends_well_iff (d ∷ s) in
    (
      (λ h.
          let w : is_word c ≡ true = ground (arith, h) in
          let (is, e) = to (ground (arith, h)) in
          (ground (arith, h), (inl ((is_word_iff c).0 w), is), (is_word_iff c).0 w, e)),
      λ (n, (i, is), b, e). ground (arith, n, (is_word_iff c).1 b, from (is, e)),
    )

-- The same, with the tests of Normalize.
abbrev Accepts : Text → Type 0
Accepts a =
    ((a ≡ text "A") ⊎ (a ≡ text "B") ⊎ (a ≡ text "C"))
    ⊎ ((matches a ≡ true) × (is_legacy a ≡ false))

word_lem : (c : ℕ) → is_word c ≡ true → is_inner c ≡ true
unfolding is_inner
word_lem c h = ground (arith, h)

inner-fold_byte : (c : ℕ) (s : Text) → is_inner c ≡ true → fold_byte c s ≡ c ∷ s
unfolding fold_byte is_inner is_word lower
inner-fold_byte c [] h = ground (arith, h)
inner-fold_byte c (d ∷ []) h = ground (arith, h)
inner-fold_byte c (d ∷ e ∷ s) h = ground (arith, h)

ends_well-fold_case : (s : Text) → ends_well s ≡ true → fold_case s ≡ s
unfolding ends_well fold_case
ends_well-fold_case [] h = refl
ends_well-fold_case (c ∷ []) h = inner-fold_byte c [] (word_lem c h)
ends_well-fold_case (c ∷ d ∷ s) h =
    let i : is_inner c ≡ true = ground (arith, h) in
    let e : ends_well (d ∷ s) ≡ true = ground (arith, h) in
    ap (fold_byte c) (ends_well-fold_case (d ∷ s) e) ∙ inner-fold_byte c (d ∷ s) i

inner-is_blank : (c d : ℕ) (s : Text) → is_inner c ≡ true → is_blank (c ∷ d ∷ s) ≡ false
unfolding is_blank is_inner is_word
inner-is_blank c d [] h = ground (arith, h)
inner-is_blank c d (e ∷ []) h = ground (arith, h)
inner-is_blank c d (e ∷ f ∷ s) h = refl

word-is_blank : (c : ℕ) → is_word c ≡ true → is_blank (c ∷ []) ≡ false
unfolding is_blank is_word is_space
word-is_blank c h = ground (arith, h)

word-begins_blank : (c : ℕ) → is_word c ≡ true → begins_blank (c ∷ []) ≡ false
unfolding begins_blank is_word
word-begins_blank c h = ground (arith, h)

ends_well-trim_back : (s : Text) → ends_well s ≡ true → trim_back s ≡ s
unfolding ends_well trim_back
ends_well-trim_back [] h = refl
ends_well-trim_back (c ∷ []) h = ground (arith, word-is_blank c h)
ends_well-trim_back (c ∷ d ∷ s) h =
    let i : is_inner c ≡ true = ground (arith, h) in
    let e : ends_well (d ∷ s) ≡ true = ground (arith, h) in
    rw (ends_well-trim_back (d ∷ s) e, inner-is_blank c d s i) refl

trim_front-word : (c : ℕ) (s : Text) → is_word c ≡ true → trim_front [] (c ∷ s) ≡ c ∷ s
unfolding trim_front
trim_front-word c s h = rw (word-is_blank c h, word-begins_blank c h) refl

ends_well-word :
    (c d : ℕ) (s : Text)
    → is_word c ≡ true
    → ends_well (d ∷ s) ≡ true
    → ends_well (c ∷ d ∷ s) ≡ true
unfolding ends_well is_inner
ends_well-word c d s h k = ground arith

fixed : (c : ℕ) (s : Text) → is_word c ≡ true → ends_well (c ∷ s) ≡ true → folded (c ∷ s) ≡ c ∷ s
unfolding folded
fixed c s h k =
    rw (trim_front-word c s h, ends_well-trim_back (c ∷ s) k) (ends_well-fold_case (c ∷ s) k)

matches-fixed : (s : Text) → matches s ≡ true → folded s ≡ s
unfolding matches
matches-fixed [] h = cc
matches-fixed (c ∷ []) h = fixed c [] h (unfold ends_well in h)
matches-fixed (c ∷ d ∷ s) h =
    let w : is_word c ≡ true = ground arith in
    let e : ends_well (d ∷ s) ≡ true = ground arith in fixed c (d ∷ s) w (ends_well-word c d s w e)

legacy_cases : (a : Text) → is_legacy a ≡ true → (a ≡ text "a") ⊎ (a ≡ text "b") ⊎ (a ≡ text "c")
unfolding is_legacy
legacy_cases a h =
    ground (arith, text_eq_iff a (text "a"), text_eq_iff a (text "b"), text_eq_iff a (text "c"))

to_upper-legacy : (a : Text) → is_legacy a ≡ true → Accepts (to_upper a)
unfolding to_upper upper
to_upper-legacy a h = elim (legacy_cases a h) [
  | inl e ↦ inl (inl (rw e))
  | inr (inl e) ↦ inl (inr (inl (rw e)))
  | inr (inr e) ↦ inl (inr (inr (rw e)))
]

normalize-Accepts : (value : Text) {a : Text} → normalize value ≡ ok a → Accepts a
unfolding normalize
normalize-Accepts value {a} h = elim (Bool-cases (is_legacy (folded value))) [
  | inl legacy ↦
      let e : a ≡ to_upper (folded value) = ground arith in rw e (to_upper-legacy _ legacy)
  | inr new ↦ inr (ground arith, ground arith)
]

canonical_fixed : (a : Text) → Accepts a → normalize a ≡ ok a
unfolding normalize
canonical_fixed a (inl (inl e)) = rw e
canonical_fixed a (inl (inr (inl e))) = rw e
canonical_fixed a (inl (inr (inr e))) = rw e
canonical_fixed a (inr (m, new)) = rw (matches-fixed a m, new, m)

Accepts-IsCanonical : (a : Text) → Accepts a → IsCanonical a
unfolding is_legacy
Accepts-IsCanonical a (inl e) = inl e
Accepts-IsCanonical a (inr (m, new)) = inr (
  (matches_iff a).0 m,
  (λ e. ground (arith, new, (text_eq_iff a (text "a")).1 e)),
  (λ e. ground (arith, new, (text_eq_iff a (text "b")).1 e)),
  λ e. ground (arith, new, (text_eq_iff a (text "c")).1 e),
)

legacy-matches : (a : Text) → is_legacy a ≡ true → matches a ≡ true
unfolding matches is_word
legacy-matches a h = elim (legacy_cases a h) [
  | inl e ↦ rw e
  | inr (inl e) ↦ rw e
  | inr (inr e) ↦ rw e
]

normalize-is_ok : (value : Text) → is_ok (normalize value) ≡ matches (folded value)
unfolding normalize
normalize-is_ok value =
    let alias : Text = folded value in
    if_elim (λ (r : Result AliasError Text). is_ok r ≡ matches alias) (is_legacy alias)
      (λ legacy. sym (legacy-matches alias legacy))
      (λ new.
        if_elim (λ (r : Result AliasError Text). is_ok r ≡ matches alias) (matches alias)
          (λ m. sym m) (λ m. sym m))

-- Normalize accepts a text exactly where it is a name when it is trimmed and in lower case: up to 53
-- lower-case letters, digits and hyphens, at least one, with no hyphen at either end. What it then returns is A,
-- B or C, or such a name other than a, b and c.
pub normalize-IsCanonical :
    (value : Text)
    → ((is_ok (normalize value) ≡ true) ↔ IsName (folded value))
      × OkThen IsCanonical (normalize value)
normalize-IsCanonical value = (
  (
    (λ h. (matches_iff alias).0 (sym (normalize-is_ok value) ∙ h)),
    λ h. normalize-is_ok value ∙ (matches_iff alias).1 h,
  ),
  returned (normalize value) refl,
)
  where
    alias : Text
    alias = folded value

    returned : (r : Result AliasError Text) → normalize value ≡ r → OkThen IsCanonical r
    returned (ok a) h = Accepts-IsCanonical a (normalize-Accepts value h)
    returned (err e) h = tt

-- Normalize is idempotent: a name that it returned is accepted and returned as it is.
pub normalize_idem : (value : Text) {a : Text} → normalize value ≡ ok a → normalize a ≡ ok a
normalize_idem value {a} h = canonical_fixed a (normalize-Accepts value h)
