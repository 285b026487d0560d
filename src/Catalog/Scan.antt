-- ===== src/Catalog/Scan.antt =====
-- internal/adapter/recording/catalog.go: the inspection of a recording's directory, and the scan.
use cap_mesh.Prelude.{
  ℕ, ◌+◌, Bool, true, false, not, ◌&&◌, ◌||◌, List, [], ◌∷◌, ◌++◌, Option, none, some,
  if◌then◌else◌, Result, ok, err, ◌>>=◌, ltb, ◌==◌, map, is_some,
}
use cap_mesh.Text.{Text, text, text_eq, text_lt, contains}
use cap_mesh.Domain.{Session, Time}
use cap_mesh.Recovery.{
  RecoveryState, RecoveryError, not_exist, read_failed, encode_failed, write_failed, remove_failed,
  rename_failed, read_recovery,
}
use cap_mesh.Manager.{joined, is_safe}
use cap_mesh.Catalog.{
  RecordingInfo, Scanned, DirectoryUsage, SessionMetadata, SessionEntry, DateEntry, directory_usage,
  read_session_metadata, terminal_recording_status, is_date,
}

unfoldable pub is_not_exist : RecoveryError → Bool
is_not_exist not_exist = true
is_not_exist read_failed = false
is_not_exist encode_failed = false
is_not_exist write_failed = false
is_not_exist remove_failed = false
is_not_exist rename_failed = false

-- The item before the metadata is read.
abbrev pub bare : Text → Text → DirectoryUsage → Bool → RecordingInfo
bare name directory u active = record {
  session_id = name;
  directory = directory;
  size_bytes = u.size;
  segment_count = u.segments;
  created_at = 0;
  finished_at = 0;
  status = [];
  desired_state = [];
  active = active;
  deletable = false;
}

unfoldable pub with_metadata : Option SessionMetadata → RecordingInfo → RecordingInfo
with_metadata none i = i
with_metadata (some m) i = record i {
  session_id = m.session_id;
  created_at = m.started_at;
  finished_at = elim m.finished_at [ none ↦ i.finished_at | some t ↦ t ];
  status = m.status;
}

unfoldable pub with_recovery :
    Result RecoveryError (RecoveryState Session) → RecordingInfo → RecordingInfo
unfolding is_not_exist
with_recovery (ok s) i = record i {
  desired_state = s.desired_state;
  created_at = if i.created_at == 0 then s.subject.created_at else i.created_at;
}
with_recovery (err e) i = if is_not_exist e then i else record i { desired_state = text "UNKNOWN" }

unfoldable pub is_deletable : Bool → Bool → RecordingInfo → Bool
unfolding terminal_recording_status text_eq
is_deletable has_metadata has_symlink i =
    has_metadata
    && (terminal_recording_status i.status
        && (not i.active
            && (not (text_eq i.desired_state (text "RUNNING"))
                && (not (text_eq i.desired_state (text "UNKNOWN")) && not has_symlink))))

unfoldable pub order_key : Option Time → RecordingInfo → Time
order_key modified i =
    let order = if i.finished_at == 0 then i.created_at else i.finished_at in
    if order == 0 then elim modified [ none ↦ order | some t ↦ t ] else order

unfoldable pub inspected : Text → Text → Bool → SessionEntry → DirectoryUsage → Scanned
unfolding with_metadata with_recovery is_deletable order_key read_session_metadata read_recovery
inspected path directory active e u =
    let found = read_session_metadata e in
    let info =
      with_recovery (read_recovery e.recovery)
        (with_metadata found (bare e.name directory u active)) in
    record {
      info = record info { deletable = is_deletable (is_some found) u.has_symlink info };
      path = path;
      oldest_key = order_key e.modified info;
    }

unfoldable pub inspect_session_directory :
    Option Text → Text → Text → Bool → SessionEntry → Result Text Scanned
unfolding directory_usage inspected
inspect_session_directory cancelled path directory active e =
    elim (directory_usage cancelled e.contents) [
      | err f ↦ err (text "inspect recording directory " ++ (directory ++ (text ": " ++ f)))
      | ok u ↦ ok (inspected path directory active e u)
    ]

unfoldable pub scan_sessions :
    Option Text → Text → Text → List Text → List SessionEntry → Result Text (List Scanned)
unfolding is_safe inspect_session_directory contains
scan_sessions cancelled root day active [] = ok []
scan_sessions cancelled root day active (e ∷ es) =
    let rest = scan_sessions cancelled root day active es in
    if not e.is_dir || not (is_safe e.name) then rest else do
      item ←
          inspect_session_directory cancelled (joined (joined root day) e.name) (joined day e.name)
            (contains active e.name) e
      items ← rest
      ok (item ∷ items)

unfoldable pub scan_date : Option Text → Text → List Text → DateEntry → Result Text (List Scanned)
unfolding is_date scan_sessions
scan_date cancelled root active d =
    if not d.is_dir || not (is_date d.name) then ok [] else elim d.sessions [
      | err e ↦ err (text "scan recording date directory " ++ (d.name ++ (text ": " ++ e)))
      | ok es ↦ scan_sessions cancelled root d.name active es
    ]

-- The context is asked before each day.
unfoldable pub scan_dates :
    Option Text → Text → List Text → List DateEntry → Result Text (List Scanned)
unfolding scan_date
scan_dates cancelled root active [] = ok []
scan_dates (some e) root active (d ∷ ds) = err e
scan_dates none root active (d ∷ ds) = do
  items ← scan_date none root active d
  rest ← scan_dates none root active ds
  ok (items ++ rest)

-- The order of sort.Slice.
unfoldable pub is_older : Scanned → Scanned → Bool
unfolding text_lt
is_older s t =
    if s.oldest_key == t.oldest_key
    then text_lt s.info.session_id t.info.session_id
    else ltb s.oldest_key t.oldest_key

unfoldable pub insert_scanned : Scanned → List Scanned → List Scanned
unfolding is_older
insert_scanned s [] = s ∷ []
insert_scanned s (t ∷ ts) = if is_older t s then t ∷ insert_scanned s ts else s ∷ t ∷ ts

unfoldable pub sort_scanned : List Scanned → List Scanned
unfolding insert_scanned
sort_scanned [] = []
sort_scanned (s ∷ ss) = insert_scanned s (sort_scanned ss)

abbrev pub total : List Scanned → ℕ
total [] = 0
total (s ∷ ss) = s.info.size_bytes + total ss

pub record Catalog : Type 0 where
  pub recordings : List RecordingInfo
  pub total_size : ℕ
  pub configured_max : ℕ

unfoldable pub info_of : Scanned → RecordingInfo
info_of s = s.info

-- What a scan finds on the disk.
pub record Tree : Type 0 where
  pub cancelled : Option Text
  pub dates : Result Text (List DateEntry)

unfoldable pub catalog_of : ℕ → List Scanned → Catalog × List Scanned
unfolding info_of
catalog_of configured_max scanned = (
  record {
    recordings = map info_of scanned;
    total_size = total scanned;
    configured_max = configured_max;
  },
  scanned,
)

unfoldable pub scan_session_recordings :
    Text → ℕ → List Text → Tree → Result Text (Catalog × List Scanned)
unfolding scan_dates sort_scanned catalog_of
scan_session_recordings root configured_max active tree = do
  dates ← tree.dates
  found ← scan_dates tree.cancelled root active dates
  ok (catalog_of configured_max (sort_scanned found))
