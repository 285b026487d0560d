-- ===== src/Catalog/Predicts.antt =====
-- internal/adapter/recording/catalog.go: a dry run against a cleanup.
use cap_mesh.Prelude.{
  ℕ, ◌≡◌, refl, sym, ◌∙◌, ◌⊎◌, inl, inr, true, false, List, [], ◌∷◌, Option, none, some, leb, All,
  if_elim, ltb, ◌==◌, Result, ok, err, Bool-cases, ap,
}
use cap_mesh.Text.{Text}
use cap_mesh.Catalog.{RecordingInfo, Scanned}
use cap_mesh.Catalog.Scan.{
  Catalog, Tree, sort_scanned, insert_scanned, is_older, scan_session_recordings,
}
use cap_mesh.Catalog.Cleanup.{
  DeleteIo, CatalogError, scan_failed, CleanupResult, note_unreached, conclude_cleanup,
  clean_session_recordings, removal_error, remove_item, delete_item, fail_item, clean_item,
  clean_items, new_cleanup,
}

-- The removal of a recording, where it is tried, has no error.
abbrev pub Succeeds : Text → DeleteIo → Scanned → Type 0
Succeeds root io s = (s.info.deletable ≡ false) ⊎ (removal_error root io s ≡ none)

abbrev dried : CleanupResult → CleanupResult
dried r = record r { dry_run = true }

clean_item-dried :
    (root : Text) (io : DeleteIo) (s : Scanned) (r : CleanupResult)
    → Succeeds root io s
    → dried (clean_item root io s r) ≡ clean_item root io s (dried r)
unfolding clean_item remove_item delete_item fail_item
clean_item-dried root io s r (inl h) = rw h refl
clean_item-dried root io s r (inr h) = elim (Bool-cases s.info.deletable) [
  | inl d ↦ elim (Bool-cases r.dry_run) [ inl y ↦ rw (d, y) refl | inr y ↦ rw (d, y, h) refl ]
  | inr d ↦ rw d refl
]

clean_items-dried :
    (root : Text) (io : DeleteIo) (ss : List Scanned) (r : CleanupResult)
    → All (Succeeds root io) ss
    → dried (clean_items root io ss r) ≡ clean_items root io ss (dried r)
unfolding clean_items
clean_items-dried root io [] r h = refl
clean_items-dried root io (s ∷ ss) r (h, hs) =
    let now = clean_item-dried root io s r h in
    let later = clean_items-dried root io ss (clean_item root io s r) hs in
    let both = later ∙ ap (clean_items root io ss) now in
    elim (Bool-cases (leb r.size_after r.target_size)) [
      | inl low ↦ rw low refl
      | inr high ↦ rw high both
    ]

All-insert :
    (P : Scanned → Type 0) (s : Scanned) (ss : List Scanned)
    → P s
    → All P ss
    → All P (insert_scanned s ss)
unfolding insert_scanned
All-insert P s [] p ps = (p, tt)
All-insert P s (t ∷ ts) p (q, qs) =
    if_elim (All P) (is_older t s) (λ _. (q, All-insert P s ts p qs)) (λ _. (p, (q, qs)))

All-sort : (P : Scanned → Type 0) (ss : List Scanned) → All P ss → All P (sort_scanned ss)
unfolding sort_scanned
All-sort P [] ps = tt
All-sort P (s ∷ ss) (p, ps) = All-insert P s (sort_scanned ss) p (All-sort P ss ps)

-- The recordings that a cleanup lists as deleted.
abbrev pub deletions :
    Result CatalogError (CleanupResult × Option CatalogError)
    → Result CatalogError (List RecordingInfo)
deletions (err e) = err e
deletions (ok (q, e)) = ok q.deleted

deleted-note_unreached : (q : CleanupResult) → (note_unreached q).deleted ≡ q.deleted
unfolding note_unreached
deleted-note_unreached q =
    if_elim (λ (x : CleanupResult). x.deleted ≡ q.deleted) (ltb q.target_size q.size_after)
      (λ _. refl) (λ _. refl)

deleted-conclude_cleanup :
    (after : Result Text (Catalog × List Scanned)) (q : CleanupResult)
    → (conclude_cleanup after q).0.deleted ≡ q.deleted
unfolding conclude_cleanup
deleted-conclude_cleanup after q =
    if_elim (λ (x : CleanupResult × Option CatalogError). x.0.deleted ≡ q.deleted) q.dry_run
      (λ _. deleted-note_unreached q) (λ _. rescanned after)
  where
    rescanned :
        (a : Result Text (Catalog × List Scanned))
        → (elim a as (λ _. CleanupResult × Option CatalogError) [
          | err e ↦ (q, some (scan_failed e))
          | ok (catalog, scanned) ↦
              (note_unreached (record q { size_after = catalog.total_size }), none)
        ]).0.deleted
          ≡ q.deleted
    rescanned (err e) = refl
    rescanned (ok (c, ss)) = deleted-note_unreached (record q { size_after = c.total_size })

-- A dry run lists exactly the recordings that the cleanup deletes, where the scan finds the same and
-- the removal of each of its recordings that is deletable has no error.
pub clean_session_recordings-predicted :
    (root : Text) (limit : ℕ) (active : List Text) (tree : Tree) (io : DeleteIo)
    (active_after : List Text) (tree_after : Tree) {found : Catalog × List Scanned}
    → scan_session_recordings root limit active tree ≡ ok found
    → All (Succeeds root io) found.1
    → deletions (clean_session_recordings root limit active tree io active_after tree_after true)
      ≡ deletions (clean_session_recordings root limit active tree io active_after tree_after false)
unfolding clean_session_recordings new_cleanup
clean_session_recordings-predicted root limit active tree io active_after tree_after {found} h
      all_ =
    elim (Bool-cases (limit == 0)) [
      | inl disabled ↦ rw disabled refl
      | inr on ↦
          rw (on, h)
            (let dried_ =
                clean_items-dried root io (sort_scanned found.1) (new_cleanup false found.0)
                  (All-sort (Succeeds root io) found.1 all_) in
              let second = scan_session_recordings root limit active_after tree_after in
              let one =
                deleted-conclude_cleanup second
                  (clean_items root io (sort_scanned found.1) (new_cleanup true found.0)) in
              let two =
                deleted-conclude_cleanup second
                  (clean_items root io (sort_scanned found.1) (new_cleanup false found.0)) in
              let same = ap (λ (x : CleanupResult). x.deleted) dried_ in
              ap
                (λ (l : List RecordingInfo).
                  (let d : Result CatalogError (List RecordingInfo) = ok l in d))
                (one ∙ sym same ∙ sym two))
    ]
