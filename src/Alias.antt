-- ===== src/Alias.antt =====
-- internal/core/interfacealias/alias.go: the canonical form of a logical interface name.
pub mod Canonical
pub mod Tests
use cap_mesh.Prelude.{
  ℕ, ◌+◌, ◌≤◌, ◌≡◌, refl, Bool, true, false, List, [], ◌∷◌, ◌++◌, ◌&&◌, ◌||◌, Option, none, some,
  Result, ok, err, if◌then◌else◌, leb, ◌==◌, length, all,
}
use cap_mesh.Text.{Text, text, text_eq, to_lower, to_upper, trim_space, lower, upper, is_space}

abbrev pub max_length : ℕ
max_length = 53

pub data AliasError : Type 0 where
  bad_alias : AliasError

-- `[a-z0-9]`
unfoldable pub is_word : ℕ → Bool
is_word c = (leb b'a' c && leb c b'z') || (leb b'0' c && leb c b'9')

-- `[a-z0-9-]`
unfoldable pub is_inner : ℕ → Bool
unfolding is_word
is_inner c = is_word c || (c == b'-')

-- The tail of the pattern: characters of the inner class, the last one a letter or number.
unfoldable pub ends_well : Text → Bool
unfolding is_inner
ends_well [] = false
ends_well (c ∷ []) = is_word c
ends_well (c ∷ d ∷ s) = is_inner c && ends_well (d ∷ s)

-- aliasPattern: one letter or number, or up to 53 characters that begin and end with one.
unfoldable pub matches : Text → Bool
unfolding ends_well
matches [] = false
matches (c ∷ []) = is_word c
matches (c ∷ d ∷ s) = is_word c && ends_well (d ∷ s) && leb (length (c ∷ d ∷ s)) max_length

-- The names A, B and C of the first version.
unfoldable pub is_legacy : Text → Bool
is_legacy a = text_eq a (text "a") || text_eq a (text "b") || text_eq a (text "c")

-- strings.ToLower, of UTF-8, as far as it gives ASCII: the Kelvin sign, of the bytes 226, 132 and 170, becomes
-- k, and the dotted capital I, of 196 and 176, becomes i. The pattern accepts no text with another letter
-- outside ASCII, in either case, and these stay as they are.
unfoldable pub fold_byte : ℕ → Text → Text
unfolding lower
fold_byte c [] = lower c ∷ []
fold_byte c (d ∷ []) = if (c == 196) && (d == 176) then b'i' ∷ [] else lower c ∷ d ∷ []
fold_byte c (d ∷ e ∷ s) =
    if (c == 196) && (d == 176)
    then b'i' ∷ e ∷ s
    else if (c == 226) && ((d == 132) && (e == 170))
    then b'k' ∷ s
    else lower c ∷ d ∷ e ∷ s

unfoldable pub fold_case : Text → Text
unfolding fold_byte
fold_case [] = []
fold_case (c ∷ s) = fold_byte c (fold_case s)

-- The bytes of one character that unicode.IsSpace accepts.
unfoldable pub is_blank : Text → Bool
unfolding is_space
is_blank (c ∷ []) = is_space c
is_blank (c ∷ d ∷ []) = (c == 194) && ((d == 133) || (d == 160))
is_blank (c ∷ d ∷ e ∷ []) =
    ((c == 225) && ((d == 154) && (e == 128)))
    || (((c == 227) && ((d == 128) && (e == 128)))
        || ((c == 226)
            && (((d == 129) && (e == 159))
                || ((d == 128)
                    && ((leb 128 e && leb e 138) || ((e == 168) || ((e == 169) || (e == 175))))))))
is_blank other = false

-- Bytes that are the first ones of such a character.
unfoldable pub begins_blank : Text → Bool
begins_blank (c ∷ []) = (c == 194) || (leb 225 c && leb c 227)
begins_blank (c ∷ d ∷ []) =
    ((c == 225) && (d == 154))
    || (((c == 226) && ((d == 128) || (d == 129))) || ((c == 227) && (d == 128)))
begins_blank other = false

-- The front of strings.TrimSpace, with the bytes of a character that is not yet whole.
unfoldable pub trim_front : Text → Text → Text
unfolding is_blank begins_blank
trim_front held [] = held
trim_front held (c ∷ s) =
    let more = held ++ c ∷ [] in
    let rest = trim_front (if is_blank more then [] else more) s in
    if is_blank more || begins_blank more then rest else more ++ s

unfoldable pub trim_back : Text → Text
unfolding is_blank
trim_back [] = []
trim_back (c ∷ s) = let rest = trim_back s in if is_blank (c ∷ rest) then [] else c ∷ rest

-- strings.ToLower of strings.TrimSpace.
unfoldable pub folded : Text → Text
unfolding fold_case trim_front trim_back
folded s = fold_case (trim_back (trim_front [] s))

unfoldable pub normalize : Text → Result AliasError Text
unfolding folded to_upper is_legacy matches text_eq
normalize value =
    let alias = folded value in
    if is_legacy alias
    then ok (to_upper alias)
    else if matches alias
    then ok alias
    else err bad_alias
