-- ===== src/Session/Targets/Bounds.antt =====
-- validate of internal/application/session/service.go: the bounds of what it accepts.
use cap_mesh.Prelude.{
  ◌*◌, ◌≤◌, ◌≡◌, ◌≢◌, ◌⊎◌, true, false, List, [], ◌∷◌, arith, err, length, below, is_ok, pos_part,
}
use cap_mesh.Text.{Text}
use cap_mesh.Domain.{CaptureTarget}
use cap_mesh.Session.Targets.{
  CreateInput, validate, validate_all, validate_target, validate_workload, nil_pointer, second,
}
use cap_mesh.Session.Targets.Normal.{AreNormal, HasOneType}

-- The bounds of a session's parameters, with the times in nanoseconds.
abbrev pub IsBounded : CreateInput → Type 0
IsBounded i =
    (1 ≤ i.snaplen)
    × (i.snaplen ≤ 65535)
    × (length i.filter ≤ 4096)
    × (1 ≤ length i.targets)
    × (length i.targets ≤ 110)
    × (below i.reorder_window 0 ≡ false)
    × (pos_part i.reorder_window ≤ 5 * second)
    × ((i.continuous ≡ true) ⊎ ((second ≤ pos_part i.ttl) × (pos_part i.ttl ≤ 24 * 3600 * second)))

-- A request that validate accepts has a snapshot length from 1 to 65535, a
-- filter of at most 4096 bytes, 1 to 110 targets, a reorder window from 0 to
-- 5 seconds and, unless it is continuous, a lifetime from 1 second to 24 hours.
pub validate-IsBounded : (i : CreateInput) → is_ok (validate i) ≡ true → IsBounded i
unfolding validate
validate-IsBounded i h = ground arith

validate_target-safe : (t : CaptureTarget) → HasOneType t → validate_target t ≢ err nil_pointer
unfolding validate_target validate_workload
validate_target-safe t h e = ground arith

validate_all-safe :
    (ids : List Text) (ts : List CaptureTarget)
    → AreNormal ids ts
    → validate_all ts ≢ err nil_pointer
unfolding validate_all
validate_all-safe ids [] n e = ground arith
validate_all-safe ids (t ∷ ts) (a, b, c, n) e =
    ground (arith, validate_target-safe t c, validate_all-safe (t.id ∷ ids) ts n)

-- On normalized targets, validate does not dereference a nil workload.
validate-safe : (i : CreateInput) → AreNormal [] i.targets → validate i ≢ err nil_pointer
unfolding validate
validate-safe i n e = ground (arith, validate_all-safe [] i.targets n)
