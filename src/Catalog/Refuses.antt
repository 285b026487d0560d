-- ===== src/Catalog/Refuses.antt =====
-- internal/adapter/recording/catalog.go: when validateDeletionCandidate and os.RemoveAll refuse.
use cap_mesh.Prelude.{
  ℕ, ◌≡◌, ◌≢◌, ◌≤◌, refl, sym, ◌⊎◌, inl, inr, Bool, true, false, List, [], ◌∷◌, ◌++◌, Option, none,
  some, Result, ok, err, All, all, ◌==◌, Bool-cases, arith, ap, ◌∙◌,
}
use cap_mesh.Text.{Text, text, text_eq, text_eq_iff}
use cap_mesh.Recording.{is_digit}
use cap_mesh.Domain.{Session}
use cap_mesh.Recovery.{RecoveryState, RecoveryError, not_exist, read_recovery}
use cap_mesh.Filter.{split}
use cap_mesh.Manager.{joined, is_safe, is_id_char}
use cap_mesh.Catalog.{Scanned, is_date}
use cap_mesh.Catalog.Scan.{is_not_exist}
use cap_mesh.Catalog.Cleanup.{
  DeleteIo, are_two, recovery_refuses, validate_deletion_candidate, removal_error,
}

-- A directory of a session: a day and a safe name.
abbrev IsDigit : ℕ → Type 0
IsDigit c = (b'0' ≤ c) × (c ≤ b'9')

abbrev IsNameChar : ℕ → Type 0
IsNameChar c =
    ((b'A' ≤ c) × (c ≤ b'Z')) ⊎ ((b'a' ≤ c) × (c ≤ b'z')) ⊎ IsDigit c ⊎ (c ≡ b'_') ⊎ (c ≡ b'-')

abbrev day_of : (a b c d e f g h : ℕ) → Text
day_of a b c d e f g h = a ∷ b ∷ c ∷ d ∷ b'-' ∷ e ∷ f ∷ b'-' ∷ g ∷ h ∷ []

abbrev IsDay : Text → Type 0
IsDay day =
    (a : ℕ) × (b : ℕ) × (c : ℕ) × (d : ℕ) × (e : ℕ) × (f : ℕ) × (g : ℕ) × (h : ℕ) × (day
      ≡ day_of a b c d e f g h)
    × All IsDigit (a ∷ b ∷ c ∷ d ∷ e ∷ f ∷ g ∷ h ∷ [])

abbrev pub IsOfSession : Text → Type 0
IsOfSession d =
    (day : Text) × (name : Text) × (d ≡ day ++ (b'/' ∷ name))
    × IsDay day
    × (name ≢ [])
    × All IsNameChar name

abbrev is_slash : ℕ → Bool
is_slash c = c == 47

digit_lem : (c : ℕ) → IsDigit c → is_digit c ≡ true
unfolding is_digit
digit_lem c h = ground (arith, h)

all-digits : (s : Text) → All IsDigit s → all is_digit s ≡ true
all-digits [] h = refl
all-digits (c ∷ s) (h, k) = ground (arith, digit_lem c h, all-digits s k)

day_of-is_date :
    (a b c d e f g h : ℕ)
    → All IsDigit (a ∷ b ∷ c ∷ d ∷ e ∷ f ∷ g ∷ h ∷ [])
    → is_date (day_of a b c d e f g h) ≡ true
unfolding is_date
day_of-is_date a b c d e f g h k = ground (arith, all-digits (a ∷ b ∷ c ∷ d ∷ e ∷ f ∷ g ∷ h ∷ []) k)

digit-no_slash : (c : ℕ) → IsDigit c → is_slash c ≡ false
digit-no_slash c h = ground (arith, h)

day_of-no_slash :
    (a b c d e f g h : ℕ)
    → All IsDigit (a ∷ b ∷ c ∷ d ∷ e ∷ f ∷ g ∷ h ∷ [])
    → All (λ x. is_slash x ≡ false) (day_of a b c d e f g h)
day_of-no_slash a b c d e f g h (p, (q, (r, (s, (t, (u, (v, (w, _)))))))) = (
  digit-no_slash a p,
  (
    digit-no_slash b q,
    (
      digit-no_slash c r,
      (
        digit-no_slash d s,
        (
          refl,
          (
            digit-no_slash e t,
            (digit-no_slash f u, (refl, (digit-no_slash g v, (digit-no_slash h w, tt)))),
          ),
        ),
      ),
    ),
  ),
)

name_char_lem : (c : ℕ) → IsNameChar c → is_id_char c ≡ true
unfolding is_digit
name_char_lem c h = ground (arith, h)

all-name_chars : (s : Text) → All IsNameChar s → all is_id_char s ≡ true
all-name_chars [] h = refl
all-name_chars (c ∷ s) (h, k) = ground (arith, name_char_lem c h, all-name_chars s k)

name-is_safe : (name : Text) → name ≢ [] → All IsNameChar name → is_safe name ≡ true
unfolding is_safe
name-is_safe [] h k = absurd (h refl)
name-is_safe (c ∷ name) h k = ground (arith, all-name_chars (c ∷ name) k)

split-name : (name : Text) → All IsNameChar name → split is_slash name ≡ name ∷ []
unfolding split
split-name [] h = refl
split-name (c ∷ name) (h, k) = ground (arith, h, split-name name k)

split-day :
    (a b : Text)
    → All (λ c. is_slash c ≡ false) a
    → split is_slash (a ++ (47 ∷ b)) ≡ a ∷ split is_slash b
unfolding split
split-day [] b h = refl
split-day (c ∷ a) b (h, k) = ground (arith, h, split-day a b k)

of_session-are_two : (d : Text) → IsOfSession d → are_two (split is_slash d) ≡ true
of_session-are_two d (day, name, same, (a, b, c, e, f, g, h, i, is_day, digits), some_, chars) =
    let apart : split is_slash d ≡ day_of a b c e f g h i ∷ name ∷ [] =
      ap (split is_slash) (same ∙ ap (λ (x : Text). x ++ (47 ∷ name)) is_day)
      ∙ split-day (day_of a b c e f g h i) name (day_of-no_slash a b c e f g h i digits)
      ∙ ap (λ (l : List Text). day_of a b c e f g h i ∷ l) (split-name name chars) in
    ap are_two apart
    ∙ ground (arith, day_of-is_date a b c e f g h i digits, name-is_safe name some_ chars)

-- Why a directory is not removed.
abbrev pub Waits : Result RecoveryError (RecoveryState Session) → Type 0
Waits (ok s) = s.desired_state ≡ text "RUNNING"
Waits (err e) = e ≢ not_exist

abbrev pub Refuses : Text → DeleteIo → Scanned → Type 0
Refuses root io s =
    (io.active s.info.session_id ≡ true)
    ⊎ (IsOfSession s.info.directory → ⊥)
    ⊎ (s.path ≢ root ++ (b'/' ∷ s.info.directory))
    ⊎ Waits (read_recovery (io.recovery s.path))
    ⊎ ((e : Text) × (io.remove_all s.path ≡ some e))

recovery_refuses-Waits :
    (r : Result RecoveryError (RecoveryState Session)) (e : Text)
    → recovery_refuses r ≡ some e
    → Waits r
unfolding recovery_refuses is_not_exist
recovery_refuses-Waits (ok s) e h = ground (arith, h, text_eq_iff s.desired_state (text "RUNNING"))
recovery_refuses-Waits (err f) e h = λ same. ground (arith, h, same)

pub removal_error-Refuses :
    (root : Text) (io : DeleteIo) (s : Scanned) (e : Text)
    → removal_error root io s ≡ some e
    → Refuses root io s
unfolding removal_error validate_deletion_candidate
removal_error-Refuses root io s e h = elim (Bool-cases (io.active s.info.session_id)) [
  | inl active ↦ inl active
  | inr quiet ↦ inr (elim (Bool-cases (are_two (split is_slash s.info.directory))) [
    | inr other ↦ inl (λ o. absurd (cc (of_session-are_two s.info.directory o, other)))
    | inl two ↦ inr (elim (Bool-cases (text_eq (joined root s.info.directory) s.path)) [
      | inr outside ↦ inl (λ same.
          absurd (cc ((text_eq_iff (joined root s.info.directory) s.path).1 (sym same), outside)))
      | inl inside ↦ inr (
          recovered (recovery_refuses (read_recovery (io.recovery s.path))) refl
            (ground (arith, h, quiet, two, inside)))
    ])
  ])
]
  where
    recovered :
        (o : Option Text)
        → recovery_refuses (read_recovery (io.recovery s.path)) ≡ o
        → (elim o as (λ _. Option Text) [ some f ↦ some f | none ↦ io.remove_all s.path ]) ≡ some e
        → Waits (read_recovery (io.recovery s.path))
          ⊎ ((f : Text) × (io.remove_all s.path ≡ some f))
    recovered (some f) k g = inl (recovery_refuses-Waits (read_recovery (io.recovery s.path)) f k)
    recovered none k g = inr (e, g)
