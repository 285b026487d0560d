-- ===== src/Catalog/Capacity.antt =====
-- internal/adapter/recording/catalog.go: what CheckNormalRecordingCapacity refuses.
use cap_mesh.Prelude.{
  ℕ, ◌+◌, ◌≡◌, ◌≤◌, ◌<◌, refl, ◌∙◌, inl, inr, List, [], ◌∷◌, Option, none, some, length, filter,
  ◌==◌, ok, OkThen, ltb, Bool-cases, arith, if_elim, subst, suc,
}
use cap_mesh.Text.{Text}
use cap_mesh.Catalog.{RecordingInfo, Scanned}
use cap_mesh.Catalog.Scan.{Catalog, Tree, total, scan_session_recordings}
use cap_mesh.Catalog.Cleanup.{
  Capacity, CatalogError, capacity_exceeded, add_deletable, capacity_of,
  check_normal_recording_capacity,
}
use cap_mesh.Catalog.Safe.{sum_sizes}
use cap_mesh.Catalog.Cleaned.{IsCatalog, scan_session_recordings-IsCatalog}

abbrev pub deletable_of : List RecordingInfo → List RecordingInfo
deletable_of = filter (λ (i : RecordingInfo). i.deletable)

-- What the loop adds to a capacity.
abbrev Sums : List RecordingInfo → Capacity → Capacity → Type 0
Sums is c d =
    (d.deletable_size ≡ c.deletable_size + sum_sizes (deletable_of is))
    × (d.deletable_sessions ≡ c.deletable_sessions + length (deletable_of is))
    × (d.used_size ≡ c.used_size)
    × (d.max_size ≡ c.max_size)

abbrev counted : RecordingInfo → Capacity → Capacity
counted i c = record c {
  deletable_size = c.deletable_size + i.size_bytes;
  deletable_sessions = suc c.deletable_sessions;
}

add_deletable-Sums : (is : List RecordingInfo) (c : Capacity) → Sums is c (add_deletable is c)
unfolding add_deletable
add_deletable-Sums [] c = (omega arith, omega arith, refl, refl)
add_deletable-Sums (i ∷ is) c =
    let (size, count, used, limit) = add_deletable-Sums is (counted i c) in
    elim (Bool-cases i.deletable) [
      | inl kept ↦ rw kept (omega (arith, size), omega (arith, count), used, limit)
      | inr left ↦ rw left (add_deletable-Sums is c)
    ]

-- The capacity that the error tells, of the recordings that the scan finds.
abbrev pub Tells : ℕ → Catalog × List Scanned → Capacity → Type 0
Tells limit (catalog, scanned) c =
    (c.used_size ≡ total scanned)
    × (c.max_size ≡ limit)
    × (c.deletable_size ≡ sum_sizes (deletable_of catalog.recordings))
    × (c.deletable_sessions ≡ length (deletable_of catalog.recordings))

-- What the check answers, where it is on and the scan has no error.
abbrev pub Checked : ℕ → Catalog × List Scanned → Option CatalogError → Type 0
Checked limit found none = total found.1 < limit
Checked limit found (some (capacity_exceeded c)) = (limit ≤ total found.1) × Tells limit found c
Checked limit found (some other) = ⊥

capacity_of-Tells :
    (limit : ℕ) (found : Catalog × List Scanned)
    → IsCatalog limit found
    → Tells limit found (capacity_of found.0)
unfolding capacity_of
capacity_of-Tells limit (c, ss) (size, limited) =
    let (a, b, used, max_) = add_deletable-Sums c.recordings (record {
      used_size = c.total_size;
      max_size = c.configured_max;
      deletable_size = 0;
      deletable_sessions = 0;
    }) in
    (used ∙ size, max_ ∙ limited, omega (arith, a), omega (arith, b))

-- Where there is a limit and the scan has no error, a recording is admitted exactly when the
-- recordings that are found have less than the limit. Otherwise the error tells their size, the limit,
-- and the number and the size of those that can be deleted.
pub check_normal_recording_capacity-Checked :
    (root : Text) (limit : ℕ) (active : List Text) (tree : Tree) {found : Catalog × List Scanned}
    → 1 ≤ limit
    → scan_session_recordings root limit active tree ≡ ok found
    → Checked limit found (check_normal_recording_capacity root limit active tree)
unfolding check_normal_recording_capacity
check_normal_recording_capacity-Checked root limit active tree {found} on h =
    if_elim (Checked limit found) (limit == 0) (λ off. absurd (ground (arith, off, on)))
      (λ _. rw h (
        if_elim (Checked limit found) (ltb found.0.total_size found.0.configured_max)
          (λ low. ground (arith, low, catalog))
          (λ high. (ground (arith, high, catalog), capacity_of-Tells limit found catalog))))
  where
    catalog : IsCatalog limit found
    catalog =
        subst (OkThen (IsCatalog limit)) h
          (scan_session_recordings-IsCatalog root limit active tree)
