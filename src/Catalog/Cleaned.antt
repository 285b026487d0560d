-- ===== src/Catalog/Cleaned.antt =====
-- internal/adapter/recording/catalog.go: the whole of CleanSessionRecordings, and its catalog.
use mathlib.Core.List.{Perm}
use cap_mesh.Prelude.{
  ℕ, ◌+◌, ◌/◌, ◌≢◌, ◌≡◌, refl, sym, ◌∙◌, ◌⊎◌, inl, inr, Bool, false, List, [], ◌∷◌, Option, none,
  some, ◌==◌, Result, ok, err, OkThen, OkThen-bind, ltb, if_elim, arith, ap, subst,
}
use cap_mesh.Text.{Text}
use cap_mesh.Catalog.{Scanned, RecordingInfo}
use cap_mesh.Catalog.Oldest.{IsOldestFirst, sort_scanned-perm, sort_scanned-sorted}
use cap_mesh.Catalog.Scan.{
  Catalog, Tree, total, sort_scanned, insert_scanned, is_older, scan_dates, catalog_of,
  scan_session_recordings,
}
use cap_mesh.Catalog.Cleanup.{
  DeleteIo, CatalogError, scan_failed, CleanupResult, clean_items, new_cleanup, note_unreached,
  conclude_cleanup, clean_session_recordings,
}
use cap_mesh.Catalog.Safe.{Cleans, sum_sizes, Cleans-same, clean_items-Adds}

total-insert :
    (s : Scanned) (ss : List Scanned) → total (insert_scanned s ss) ≡ s.info.size_bytes + total ss
unfolding insert_scanned
total-insert s [] = omega arith
total-insert s (t ∷ ts) =
    if_elim (λ (l : List Scanned). total l ≡ s.info.size_bytes + (t.info.size_bytes + total ts))
      (is_older t s) (λ _. omega (arith, total-insert s ts)) (λ _. refl)

total-sort : (ss : List Scanned) → total (sort_scanned ss) ≡ total ss
unfolding sort_scanned
total-sort [] = refl
total-sort (s ∷ ss) = omega (arith, total-insert s (sort_scanned ss), total-sort ss)

-- The catalog is of the recordings that the scan finds, under the limit that is given.
abbrev pub IsCatalog : ℕ → Catalog × List Scanned → Type 0
IsCatalog limit (c, ss) = (c.total_size ≡ total ss) × (c.configured_max ≡ limit)

catalog_of-IsCatalog : (limit : ℕ) (ss : List Scanned) → IsCatalog limit (catalog_of limit ss)
unfolding catalog_of
catalog_of-IsCatalog limit ss = (refl, refl)

pub scan_session_recordings-IsCatalog :
    (root : Text) (limit : ℕ) (active : List Text) (tree : Tree)
    → OkThen (IsCatalog limit) (scan_session_recordings root limit active tree)
unfolding scan_session_recordings
scan_session_recordings-IsCatalog root limit active tree =
    OkThen-bind (λ d. Unit {0}) (IsCatalog limit) tree.dates _ (any tree.dates)
      (λ dates t.
        OkThen-bind (λ d. Unit {0}) (IsCatalog limit) (scan_dates tree.cancelled root active dates)
          _ (any (scan_dates tree.cancelled root active dates))
          (λ found t. catalog_of-IsCatalog limit (sort_scanned found)))
  where
    any : {A : Type 0} (r : Result Text A) → OkThen (λ d. Unit {0}) r
    any (ok a) = tt
    any (err e) = tt

-- A cleanup of recordings from the oldest on.
abbrev CleansOldest : Text → DeleteIo → Bool → ℕ → ℕ → List Scanned → List RecordingInfo → Type 0
CleansOldest root io dry target n ss is =
    (order : List Scanned) × Perm order ss
    × IsOldestFirst order
    × Cleans root io dry target n order is

-- What a cleanup reports, of the recordings that its first scan found.
abbrev pub IsCleaned : Text → DeleteIo → Bool → ℕ → Catalog × List Scanned → CleanupResult → Type 0
IsCleaned root io dry limit (c, ss) q =
    CleansOldest root io dry (limit / 2) c.total_size ss q.deleted
    × (q.deleted_size ≡ sum_sizes q.deleted)
    × ((dry ≡ false) ⊎ (q.size_after + q.deleted_size ≡ c.total_size))

-- A cleanup that gives such a result, with an error or none of its last scan.
abbrev pub Gives :
    Text
    → DeleteIo
    → Bool
    → ℕ
    → Catalog × List Scanned
    → Result CatalogError (CleanupResult × Option CatalogError)
    → Type 0
Gives root io dry limit found (ok (q, e)) = IsCleaned root io dry limit found q
Gives root io dry limit found (err e) = ⊥

note_unreached-IsCleaned :
    (root : Text) (io : DeleteIo) (dry : Bool) (limit : ℕ) (found : Catalog × List Scanned)
    (q : CleanupResult)
    → IsCleaned root io dry limit found q
    → IsCleaned root io dry limit found (note_unreached q)
unfolding note_unreached
note_unreached-IsCleaned root io dry limit found q h =
    if_elim (IsCleaned root io dry limit found) (ltb q.target_size q.size_after) (λ _. h) (λ _. h)

clean_items-IsCleaned :
    (root : Text) (io : DeleteIo) (dry : Bool) (limit : ℕ) (c : Catalog) (ss : List Scanned)
    → IsCatalog limit (c, ss)
    → IsCleaned root io dry limit
        (c, ss)
        (clean_items root io (sort_scanned ss) (new_cleanup dry c))
      × ((clean_items root io (sort_scanned ss) (new_cleanup dry c)).dry_run ≡ dry)
unfolding new_cleanup
clean_items-IsCleaned root io dry limit c ss (all_, same) =
    let q = clean_items root io (sort_scanned ss) (new_cleanup dry c) in
    let (is, cleans, d, n, left, dry', target) =
      clean_items-Adds root io (sort_scanned ss) (new_cleanup dry c) in
    let halved : c.configured_max / 2 ≡ limit / 2 = ap (λ (x : ℕ). x / 2) same in
    let after = left (omega (arith, total-sort ss, all_)) in
    let listed : is ≡ q.deleted = sym d in
    (
      (
        (
          sort_scanned ss,
          sort_scanned-perm ss,
          sort_scanned-sorted ss,
          subst (λ l. Cleans root io dry (limit / 2) c.total_size (sort_scanned ss) l) listed
              (Cleans-same refl halved refl cleans),
        ),
        omega (arith, n, ap sum_sizes listed),
        inr (omega (arith, n, after, ap sum_sizes listed)),
      ),
      dry',
    )

conclude_cleanup-IsCleaned :
    (root : Text) (io : DeleteIo) (dry : Bool) (limit : ℕ) (found : Catalog × List Scanned)
    (after : Result Text (Catalog × List Scanned)) (q : CleanupResult)
    → q.dry_run ≡ dry
    → IsCleaned root io dry limit found q
    → IsCleaned root io dry limit found (conclude_cleanup after q).0
unfolding conclude_cleanup
conclude_cleanup-IsCleaned root io dry limit found after q same h =
    if_elim (λ (p : CleanupResult × Option CatalogError). IsCleaned root io dry limit found p.0)
      q.dry_run (λ _. note_unreached-IsCleaned root io dry limit found q h)
      (λ wet. rescanned after (sym same ∙ wet))
  where
    rescanned :
        (after : Result Text (Catalog × List Scanned))
        → dry ≡ false
        → IsCleaned root io dry limit found
            (elim after as (λ _. CleanupResult × Option CatalogError) [
              | err e ↦ (q, some (scan_failed e))
              | ok (catalog, scanned) ↦
                  (note_unreached (record q { size_after = catalog.total_size }), none)
            ]).0
    rescanned (err e) wet = h
    rescanned (ok (catalog, scanned)) wet =
        note_unreached-IsCleaned root io dry limit found
          (record q { size_after = catalog.total_size }) (h.0, h.1, inl wet)

-- A cleanup with a limit, whose first scan does not fail, gives a result: it deletes from that scan's recordings, the oldest first
-- and those of one time by their IDs, each that is deletable, until at most half the limit is left by
-- the sizes of the scan. Where it does delete, it passes over one only if the session is active, the
-- directory is not a day and a safe name or not the one in the root, the state to recover asks for it
-- or cannot be read, or its removal fails; one that it reports as deleted is not active, lies in the
-- root, has no such state, and its removal gave no error. The size that it reports as deleted is that
-- of the recordings that it lists, and a dry run accounts for all bytes.
pub clean_session_recordings-IsCleaned :
    (root : Text) (limit : ℕ) (active : List Text) (tree : Tree) (io : DeleteIo)
    (active_after : List Text) (tree_after : Tree) (dry : Bool) {found : Catalog × List Scanned}
    → limit ≢ 0
    → scan_session_recordings root limit active tree ≡ ok found
    → Gives root io dry limit found
        (clean_session_recordings root limit active tree io active_after tree_after dry)
unfolding clean_session_recordings
clean_session_recordings-IsCleaned root limit active tree io active_after tree_after dry {found}
      some_ h =
    if_elim (Gives root io dry limit found) (limit == 0) (λ z. absurd (some_ (ground (arith, z))))
      (λ _. rw h (
        conclude_cleanup-IsCleaned root io dry limit found
          (scan_session_recordings root limit active_after tree_after)
          (clean_items root io (sort_scanned found.1) (new_cleanup dry found.0)) cleaned.1
          cleaned.0))
  where
    cleaned :
        IsCleaned root io dry limit found
          (clean_items root io (sort_scanned found.1) (new_cleanup dry found.0))
        × ((clean_items root io (sort_scanned found.1) (new_cleanup dry found.0)).dry_run ≡ dry)
    cleaned = clean_items-IsCleaned root io dry limit found.0 found.1 (
        subst (OkThen (IsCatalog limit)) h
          (scan_session_recordings-IsCatalog root limit active tree))
