-- ===== src/Catalog/Oldest.antt =====
-- internal/adapter/recording/catalog.go: the order of the recordings that are cleaned up.
use mathlib.Core.List.{Perm}
use mathlib.Core.List.Perm
use cap_mesh.Prelude.{◌≡◌, ◌<◌, ◌⊎◌, true, false, List, [], ◌∷◌, arith, if_elim}
use cap_mesh.Text.{text_lt}
use cap_mesh.Catalog.{Scanned}
use cap_mesh.Catalog.Scan.{is_older, insert_scanned, sort_scanned}
use cap_mesh.Session.Listing.Sorted.{text_lt-asym}

-- A recording is not younger than another: it ended before it, or at the same time with an ID that is
-- not greater.
abbrev pub IsNotYounger : Scanned → Scanned → Type 0
IsNotYounger s t =
    (s.oldest_key < t.oldest_key)
    ⊎ ((s.oldest_key ≡ t.oldest_key) × (text_lt t.info.session_id s.info.session_id ≡ false))

abbrev pub IsOldestFirst : List Scanned → Type 0
IsOldestFirst [] = Unit
IsOldestFirst (s ∷ []) = Unit
IsOldestFirst (s ∷ t ∷ ts) = IsNotYounger s t × IsOldestFirst (t ∷ ts)

older_lem : (s t : Scanned) → is_older s t ≡ true → IsNotYounger s t
unfolding is_older
older_lem s t h = ground (arith, h, text_lt-asym s.info.session_id t.info.session_id)

not_older_lem : (s t : Scanned) → is_older t s ≡ false → IsNotYounger s t
unfolding is_older
not_older_lem s t h = ground (arith, h)

insert_scanned-sorted :
    (s : Scanned) (ts : List Scanned) → IsOldestFirst ts → IsOldestFirst (insert_scanned s ts)
unfolding insert_scanned
insert_scanned-sorted s [] h = tt
insert_scanned-sorted s (t ∷ []) h =
    if_elim IsOldestFirst (is_older t s) (λ o. (older_lem t s o, tt))
      (λ o. (not_older_lem s t o, tt))
insert_scanned-sorted s (t ∷ u ∷ us) (a, h) =
    ground (arith, a, older_lem t s, not_older_lem s t, insert_scanned-sorted s (u ∷ us) h)

pub sort_scanned-sorted : (ss : List Scanned) → IsOldestFirst (sort_scanned ss)
unfolding sort_scanned
sort_scanned-sorted [] = tt
sort_scanned-sorted (s ∷ ss) = insert_scanned-sorted s (sort_scanned ss) (sort_scanned-sorted ss)

insert_scanned-perm : (s : Scanned) (ts : List Scanned) → Perm (insert_scanned s ts) (s ∷ ts)
unfolding insert_scanned
insert_scanned-perm s [] = Perm.refl (s ∷ [])
insert_scanned-perm s (t ∷ ts) =
    if_elim (λ l. Perm l (s ∷ t ∷ ts)) (is_older t s)
      (λ _. Perm.trans (Perm.cons t (insert_scanned-perm s ts)) (Perm.swap s t ts))
      (λ _. Perm.refl (s ∷ t ∷ ts))

pub sort_scanned-perm : (ss : List Scanned) → Perm (sort_scanned ss) ss
unfolding sort_scanned
sort_scanned-perm [] = Perm.refl []
sort_scanned-perm (s ∷ ss) =
    Perm.trans (insert_scanned-perm s (sort_scanned ss)) (Perm.cons s (sort_scanned-perm ss))
