-- ===== src/Recovery/Tests.antt =====
-- Tests of the states to recover, at small disks.
use cap_mesh.Prelude.{ℕ, ◌≡◌, refl, true, false, some, none, err, arith}
use cap_mesh.Text.{text}
use cap_mesh.Recovery.{
  RecoveryState, Disk, absent, garbage, holds, read_failed, rename_failed, WriteIo, read_recovery,
  write_recovery, Crash, removed, torn,
}
use cap_mesh.Recovery.Durable.{write_recovery-atomic, write_recovery-outcome, IsOneOf, IsSettled}

abbrev state : ℕ → RecoveryState ℕ
state n = record { desired_state = text "RUNNING"; generation = n; subject = 7 }

abbrev settled : Disk ℕ
settled = record { file = holds (state 3); part = absent }

abbrev parted : Disk ℕ
parted = record { file = absent; part = holds (state 4) }

settled-IsSettled : IsSettled (state 3) settled
unfolding read_recovery
settled-IsSettled = (refl, refl)

-- os.Rename fails.
abbrev no_rename : WriteIo
no_rename = record { encodes = true; writes = true; tears = false; removes = true; renames = false }

renamed_not : write_recovery no_rename (state 4) settled ≡ (some rename_failed, parted)
unfolding write_recovery
renamed_not = refl

-- Two crashes: the first leaves the state in the part alone, and the second tears that part.
lost : read_recovery (let d : Disk ℕ = record parted { part = garbage } in d) ≡ err read_failed
unfolding read_recovery
lost = refl

torn_again : Crash (state 5) parted (record { file = absent; part = garbage })
torn_again = torn

write_recovery-atomic_example : IsOneOf (state 3) (state 4) parted
write_recovery-atomic_example =
    write_recovery-atomic (state 3) (state 4) settled settled-IsSettled (omega arith) removed

write_recovery-outcome_example :
    ((write_recovery no_rename (state 4) settled).0 ≡ none
      → IsSettled (state 4) (write_recovery no_rename (state 4) settled).1)
    × IsOneOf (state 3) (state 4) (write_recovery no_rename (state 4) settled).1
write_recovery-outcome_example =
    write_recovery-outcome no_rename (state 3) (state 4) settled settled-IsSettled (omega arith)
