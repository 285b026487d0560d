-- ===== src/Catalog/Cleanup.antt =====
-- internal/adapter/recording/catalog.go: CheckNormalRecordingCapacity, validateDeletionCandidate and
-- CleanSessionRecordings.
use cap_mesh.Prelude.{
  ℕ, ◌+◌, ◌-◌, ◌/◌, Bool, false, not, ◌&&◌, List, [], ◌∷◌, ◌++◌, Option, none, some, if◌then◌else◌,
  Result, ok, err, ltb, leb, ◌==◌, suc,
}
use cap_mesh.Text.{Text, text, text_eq}
use cap_mesh.Domain.{Session}
use cap_mesh.Recovery.{RecoveryState, RecoveryError, Disk, read_recovery}
use cap_mesh.Filter.{split}
use cap_mesh.Manager.{joined, is_safe}
use cap_mesh.Catalog.{RecordingInfo, Scanned, is_date}
use cap_mesh.Catalog.Scan.{Catalog, Tree, is_not_exist, sort_scanned, scan_session_recordings}

pub record Capacity : Type 0 where
  pub used_size : ℕ
  pub max_size : ℕ
  pub deletable_size : ℕ
  pub deletable_sessions : ℕ

pub data CatalogError : Type 0 where
  scan_failed : Text → CatalogError
  inspect_failed : Text → CatalogError
  limit_disabled : CatalogError
  capacity_exceeded : Capacity → CatalogError

unfoldable pub add_deletable : List RecordingInfo → Capacity → Capacity
add_deletable [] c = c
add_deletable (i ∷ is) c = add_deletable is (
    if i.deletable
    then record c {
      deletable_size = c.deletable_size + i.size_bytes;
      deletable_sessions = suc c.deletable_sessions;
    }
    else c)

unfoldable pub capacity_of : Catalog → Capacity
unfolding add_deletable
capacity_of c = add_deletable c.recordings (record {
  used_size = c.total_size;
  max_size = c.configured_max;
  deletable_size = 0;
  deletable_sessions = 0;
})

unfoldable pub check_normal_recording_capacity : Text → ℕ → List Text → Tree → Option CatalogError
unfolding scan_session_recordings capacity_of
check_normal_recording_capacity root configured_max active tree =
    if configured_max == 0
    then none
    else elim (scan_session_recordings root configured_max active tree) [
      | err e ↦ some (inspect_failed e)
      | ok (catalog, scanned) ↦
          if ltb catalog.total_size catalog.configured_max
          then none
          else some (capacity_exceeded (capacity_of catalog))
    ]

-- What a deletion meets: whether a session is active now, the state to recover in a directory now, and
-- os.RemoveAll.
pub record DeleteIo : Type 0 where
  pub active : Text → Bool
  pub recovery : Text → Disk Session
  pub remove_all : Text → Option Text

abbrev pub are_two : List Text → Bool
are_two (day ∷ name ∷ []) = is_date day && is_safe name
are_two other = false

unfoldable pub recovery_refuses : Result RecoveryError (RecoveryState Session) → Option Text
unfolding is_not_exist text_eq
recovery_refuses (ok s) =
    if text_eq s.desired_state (text "RUNNING")
    then some (text "session is marked for recovery")
    else none
recovery_refuses (err e) = if is_not_exist e then none else some (text "read recovery state")

unfoldable pub validate_deletion_candidate : Text → DeleteIo → Scanned → Option Text
unfolding split is_date is_safe recovery_refuses text_eq read_recovery
validate_deletion_candidate root io s =
    if io.active s.info.session_id
    then some (text "session became active")
    else if not (are_two (split (λ c. c == 47) s.info.directory))
    then some (text "unsafe recording directory")
    else if not (text_eq (joined root s.info.directory) s.path)
    then some (text "recording directory escaped configured root")
    else recovery_refuses (read_recovery (io.recovery s.path))

pub record CleanupFailure : Type 0 where
  pub session_id : Text
  pub directory : Text
  pub error : Text

pub record CleanupResult : Type 0 where
  pub configured_max : ℕ
  pub target_size : ℕ
  pub size_before : ℕ
  pub size_after : ℕ
  pub deleted_size : ℕ
  pub deleted : List RecordingInfo
  pub failures : List CleanupFailure
  pub dry_run : Bool

-- The subtraction stops at 0, as `max(..., 0)` does.
unfoldable pub delete_item : Scanned → CleanupResult → CleanupResult
delete_item s r = record r {
  deleted = r.deleted ++ (s.info ∷ []);
  deleted_size = r.deleted_size + s.info.size_bytes;
  size_after = r.size_after - s.info.size_bytes;
}

unfoldable pub fail_item : Scanned → Text → CleanupResult → CleanupResult
fail_item s e r = record r {
  failures =
      r.failures
      ++ ((record { session_id = s.info.session_id; directory = s.info.directory; error = e })
          ∷ []);
}

-- The error of the candidate's validation, or of its removal.
unfoldable pub removal_error : Text → DeleteIo → Scanned → Option Text
unfolding validate_deletion_candidate
removal_error root io s = elim (validate_deletion_candidate root io s) [
  | some e ↦ some e
  | none ↦ io.remove_all s.path
]

unfoldable pub remove_item : Scanned → Option Text → CleanupResult → CleanupResult
unfolding delete_item fail_item
remove_item s none r = delete_item s r
remove_item s (some e) r = fail_item s e r

-- A round of the loop that does not break.
unfoldable pub clean_item : Text → DeleteIo → Scanned → CleanupResult → CleanupResult
unfolding remove_item removal_error delete_item
clean_item root io s r =
    if not s.info.deletable
    then r
    else if r.dry_run
    then delete_item s r
    else remove_item s (removal_error root io s) r

unfoldable pub clean_items : Text → DeleteIo → List Scanned → CleanupResult → CleanupResult
unfolding clean_item
clean_items root io [] r = r
clean_items root io (s ∷ ss) r =
    let rest = clean_items root io ss (clean_item root io s r) in
    if leb r.size_after r.target_size then r else rest

unfoldable pub new_cleanup : Bool → Catalog → CleanupResult
new_cleanup dry_run c = record {
  configured_max = c.configured_max;
  target_size = c.configured_max / 2;
  size_before = c.total_size;
  size_after = c.total_size;
  deleted_size = 0;
  deleted = [];
  failures = [];
  dry_run = dry_run;
}

abbrev pub unreached : CleanupFailure
unreached = record {
  session_id = [];
  directory = [];
  error =
      text
        "cleanup target cannot be reached because remaining recordings are active, recoverable, or otherwise not deletable";
}

unfoldable pub note_unreached : CleanupResult → CleanupResult
note_unreached r =
    if ltb r.target_size r.size_after
    then record r { failures = r.failures ++ (unreached ∷ []) }
    else r

-- The result, and the error of the second scan, which looks at the disk after the deletions.
unfoldable pub conclude_cleanup :
    Result Text (Catalog × List Scanned) → CleanupResult → CleanupResult × Option CatalogError
unfolding note_unreached
conclude_cleanup after r = if r.dry_run then (note_unreached r, none) else elim after [
  | err e ↦ (r, some (scan_failed e))
  | ok (catalog, scanned) ↦ (note_unreached (record r { size_after = catalog.total_size }), none)
]

unfoldable pub clean_session_recordings :
    Text
    → ℕ
    → List Text
    → Tree
    → DeleteIo
    → List Text
    → Tree
    → Bool
    → Result CatalogError (CleanupResult × Option CatalogError)
unfolding scan_session_recordings clean_items new_cleanup conclude_cleanup sort_scanned
clean_session_recordings root configured_max active tree io active_after tree_after dry_run =
    if configured_max == 0
    then err limit_disabled
    else elim (scan_session_recordings root configured_max active tree) [
      | err e ↦ err (scan_failed e)
      | ok (catalog, scanned) ↦ ok (
          conclude_cleanup (scan_session_recordings root configured_max active_after tree_after)
            (clean_items root io (sort_scanned scanned) (new_cleanup dry_run catalog)))
    ]
