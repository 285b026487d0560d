-- ===== src/Recovery.antt =====
-- internal/adapter/recording/manager.go: readRecovery and writeRecovery, which keep the state to
-- recover in a file and its `.part` beside it. internal/adapter/logrecording/manager.go has the same
-- two functions for the runs of workload logs, and LogRecorder takes them from here.
pub mod Durable
pub mod Tests
use cap_mesh.Prelude.{
  ℕ, ◌+◌, ◌%◌, ◌^◌, ◌≡◌, Bool, true, false, Option, none, some, if◌then◌else◌, Result, ok, err, ltb,
  ◌&&◌, not,
}
use cap_mesh.Text.{Text}

-- What is recovered, `subject`, is a session or a run.
pub record RecoveryState {ℓ} (A : Type ℓ) : Type ℓ where
  pub desired_state : Text
  pub generation : ℕ
  pub subject : A

-- A file: not there, there but not readable, not JSON of a state, or a state.
pub data Content {ℓ} (A : Type ℓ) : Type ℓ where
  absent unreadable garbage : Content A
  holds : RecoveryState A → Content A

-- The file at the path, and the one at the path with `.part`.
pub record Disk {ℓ} (A : Type ℓ) : Type ℓ where
  pub file : Content A
  pub part : Content A

pub data RecoveryError : Type 0 where
  not_exist read_failed encode_failed write_failed remove_failed rename_failed : RecoveryError

-- `best` with `found`, and whether `readErr` is set.
pub record Reading {ℓ} (A : Type ℓ) : Type ℓ where
  pub best : Option (RecoveryState A)
  pub failed : Bool

module _ {ℓ} {A : Type ℓ} where
  unfoldable pub better : RecoveryState A → Option (RecoveryState A) → RecoveryState A
  better s none = s
  better s (some b) = if ltb b.generation s.generation then s else b

  -- One round of the loop over the candidates.
  unfoldable pub read_candidate : Content A → Reading A → Reading A
  unfolding better
  read_candidate absent r = r
  read_candidate unreadable r = record r { failed = true }
  read_candidate garbage r = record r { failed = true }
  read_candidate (holds s) r = record r { best = some (better s r.best) }

  unfoldable pub conclude_reading : Reading A → Result RecoveryError (RecoveryState A)
  conclude_reading r = elim r.best [
    | some s ↦ ok s
    | none ↦ err (if r.failed then read_failed else not_exist)
  ]

  unfoldable pub read_recovery : Disk A → Result RecoveryError (RecoveryState A)
  unfolding conclude_reading read_candidate
  read_recovery d = conclude_reading (
      read_candidate d.part
        (read_candidate d.file (let r : Reading A = record { best = none; failed = false } in r)))

  -- os.Remove of the file, and os.Rename of the part to it.
  unfoldable pub remove_file : Disk A → Disk A
  remove_file d = record d { file = absent }

  unfoldable pub rename_part : Disk A → Disk A
  rename_part d = record { file = d.part; part = absent }

-- What the calls of one writeRecovery meet. A write that fails may have torn the part.
pub record WriteIo : Type 0 where
  pub encodes : Bool
  pub writes : Bool
  pub tears : Bool
  pub removes : Bool
  pub renames : Bool

unfoldable pub is_absent {ℓ} : {A : Type ℓ} → Content A → Bool
is_absent absent = true
is_absent unreadable = false
is_absent garbage = false
is_absent (holds s) = false

module _ {ℓ} {A : Type ℓ} where
  -- Removing a file that is not there is no error.
  unfoldable pub replace_file : WriteIo → Disk A → Option RecoveryError × Disk A
  unfolding is_absent remove_file rename_part
  replace_file io d =
      if not io.removes && not (is_absent d.file)
      then (some remove_failed, d)
      else if not io.renames
      then (some rename_failed, remove_file d)
      else (none, rename_part (remove_file d))

  unfoldable pub write_recovery : WriteIo → RecoveryState A → Disk A → Option RecoveryError × Disk A
  unfolding replace_file
  write_recovery io s d =
      if not io.encodes
      then (some encode_failed, d)
      else if not io.writes
      then (some write_failed, if io.tears then record d { part = garbage } else d)
      else replace_file io (record d { part = holds s })

  -- The disks that a crash of the process can leave of a writeRecovery, whose completed calls are taken
  -- to be on the disk, in their order: the Go code does not call fsync, so that a crash of the machine
  -- may leave others.
  pub data Crash (s : RecoveryState A) (d : Disk A) : Disk A → Type ℓ where
    untouched : Crash s d d
    torn : Crash s d (record d { part = garbage })
    written : Crash s d (record d { part = holds s })
    removed : Crash s d (record { file = absent; part = holds s })
    renamed : Crash s d (record { file = holds s; part = absent })

-- The next generation, of a uint64.
unfoldable pub next_generation : ℕ → ℕ
next_generation g = (g + 1) % 2 ^ 64
