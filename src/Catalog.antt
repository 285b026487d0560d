-- ===== src/Catalog.antt =====
-- internal/adapter/recording/catalog.go: the recordings of normal sessions. What the file system has
-- is a parameter: the entries of the directories, what WalkDir visits, and the files that are read.
-- Paths are clean as they are joined, so filepath.Clean has no counterpart; sizes are sums of the sizes
-- of files, far below 2 ^ 63. The metrics are not modelled.
pub mod Scan
pub mod Cleanup
pub mod Oldest
pub mod Refuses
pub mod Safe
pub mod Cleaned
pub mod Predicts
pub mod Capacity
pub mod Tests
use cap_mesh.Prelude.{
  ℕ, zero, suc, ◌+◌, ◌≡◌, Bool, true, false, not, ◌&&◌, ◌||◌, List, [], ◌∷◌, ◌++◌, Option, none,
  some, if◌then◌else◌, Result, ok, err, ◌>>=◌, ltb, leb, ◌==◌, length, all,
}
use cap_mesh.Text.{Text, text, text_eq, text_lt, is_empty}
use cap_mesh.Domain.{Session, Time}
use cap_mesh.Recording.{is_digit}
use cap_mesh.Recovery.{
  Disk, RecoveryState, RecoveryError, not_exist, read_failed, encode_failed, write_failed,
  remove_failed, rename_failed, read_recovery,
}
use cap_mesh.Recorder.Load.{has_suffix}
use cap_mesh.Manager.{joined, is_safe}

-- SessionRecordingInfo of internal/core/domain/recording.go.
pub record RecordingInfo : Type 0 where
  pub session_id : Text
  pub directory : Text
  pub size_bytes : ℕ
  pub segment_count : ℕ
  pub created_at : Time
  pub finished_at : Time
  pub status : Text
  pub desired_state : Text
  pub active : Bool
  pub deletable : Bool

pub record Scanned : Type 0 where
  pub info : RecordingInfo
  pub path : Text
  pub oldest_key : Time

-- What WalkDir visits: an error, or an entry, with whether it is a regular file and its size.
pub data Visited : Type 0 where
  walk_failed : Text → Visited
  visited : Text → Bool → Bool → Result Text (Bool × ℕ) → Visited

pub record DirectoryUsage : Type 0 where
  pub size : ℕ
  pub segments : ℕ
  pub has_symlink : Bool

-- The metadata of a recording that the catalog reads.
pub record SessionMetadata : Type 0 where
  pub session_id : Text
  pub started_at : Time
  pub finished_at : Option Time
  pub status : Text

-- A directory entry below the one of a day. A metadata file that cannot be read or decoded is none.
pub record SessionEntry : Type 0 where
  pub name : Text
  pub is_dir : Bool
  pub contents : List Visited
  pub metadata_part : Option SessionMetadata
  pub metadata : Option SessionMetadata
  pub recovery : Disk Session
  pub modified : Option Time

pub record DateEntry : Type 0 where
  pub name : Text
  pub is_dir : Bool
  pub sessions : Result Text (List SessionEntry)

-- The walk of directoryUsage; a symbolic link is not followed.
unfoldable pub visit : Visited → DirectoryUsage → Result Text DirectoryUsage
unfolding has_suffix
visit (walk_failed e) u = err e
visit (visited name is_symlink is_dir info) u =
    if is_symlink then ok (record u { has_symlink = true }) else if is_dir then ok u else do
      (regular, size) ← info
      ok (
          if regular
          then record u {
            size = u.size + size;
            segments = if has_suffix (text ".pcapng") name then suc u.segments else u.segments;
          }
          else u)

-- `cancelled` is the error of a context that is done.
unfoldable pub walk : Option Text → List Visited → DirectoryUsage → Result Text DirectoryUsage
unfolding visit
walk cancelled [] u = ok u
walk none (v ∷ vs) u = visit v u >>= walk none vs
walk (some e) (v ∷ vs) u = elim v [ walk_failed f ↦ err f | visited n s d i ↦ err e ]

abbrev pub no_usage : DirectoryUsage
no_usage = record { size = 0; segments = 0; has_symlink = false }

unfoldable pub directory_usage : Option Text → List Visited → Result Text DirectoryUsage
unfolding walk
directory_usage cancelled vs = walk cancelled vs no_usage

unfoldable pub usable : Option SessionMetadata → Option SessionMetadata
usable none = none
usable (some m) = if is_empty m.session_id then none else some m

-- The part comes before the file.
unfoldable pub read_session_metadata : SessionEntry → Option SessionMetadata
unfolding usable
read_session_metadata e = elim (usable e.metadata_part) [
  | some m ↦ some m
  | none ↦ usable e.metadata
]

unfoldable pub terminal_recording_status : Text → Bool
unfolding text_eq
terminal_recording_status s =
    text_eq s (text "COMPLETED")
    || (text_eq s (text "STOPPED")
        || (text_eq s (text "PARTIAL")
            || (text_eq s (text "FAILED") || text_eq s (text "TRUNCATED"))))

-- Four, two and two digits with a dash between.
unfoldable pub is_date : Text → Bool
unfolding is_digit
is_date (a ∷ b ∷ c ∷ d ∷ e ∷ f ∷ g ∷ h ∷ i ∷ j ∷ []) =
    all is_digit (a ∷ b ∷ c ∷ d ∷ f ∷ g ∷ i ∷ j ∷ []) && ((e == 45) && (h == 45))
is_date other = false
