-- ===== src/Catalog/Tests.antt =====
-- internal/adapter/recording/catalog.go: a catalog of two recordings, and their cleanup.
use cap_mesh.Prelude.{ℕ, ◌≡◌, refl, true, false, List, [], ◌∷◌, some, none, ok, inr, All, arith}
use cap_mesh.Text.{Text, text}
use cap_mesh.Recovery.{Disk, absent}
use cap_mesh.Catalog.{RecordingInfo, Scanned, SessionEntry, visited}
use cap_mesh.Catalog.Scan.{Catalog, Tree, scan_session_recordings}
use cap_mesh.Catalog.Cleanup.{
  DeleteIo, removal_error, check_normal_recording_capacity, clean_session_recordings,
}
use cap_mesh.Catalog.Cleaned.{Gives, clean_session_recordings-IsCleaned}
use cap_mesh.Catalog.Predicts.{Succeeds, deletions, clean_session_recordings-predicted}
use cap_mesh.Catalog.Capacity.{Checked, check_normal_recording_capacity-Checked}
use cap_mesh.Domain.{Session}

abbrev no_recovery : Disk Session
no_recovery = record { file = absent; part = absent }

abbrev recorded : Text → ℕ → ℕ → SessionEntry
recorded name size finished = record {
  name = name;
  is_dir = true;
  contents = visited (text "capture-000001.pcapng") false false (ok (true, size)) ∷ [];
  metadata_part = none;
  metadata = some (record {
    session_id = name;
    started_at = 1;
    finished_at = some finished;
    status = text "COMPLETED";
  });
  recovery = no_recovery;
  modified = none;
}

abbrev tree : Tree
tree = record {
  cancelled = none;
  dates = ok (
      (record {
        name = text "2025-01-02";
        is_dir = true;
        sessions = ok (recorded (text "b") 60 8 ∷ recorded (text "a") 50 7 ∷ []);
      })
      ∷ []);
}

abbrev io : DeleteIo
io = record { active = λ id. false; recovery = λ d. no_recovery; remove_all = λ p. none }

abbrev info : Text → Text → ℕ → ℕ → RecordingInfo
info name directory size finished = record {
  session_id = name;
  directory = directory;
  size_bytes = size;
  segment_count = 1;
  created_at = 1;
  finished_at = finished;
  status = text "COMPLETED";
  desired_state = [];
  active = false;
  deletable = true;
}

abbrev a : RecordingInfo
a = info (text "a") (text "2025-01-02/a") 50 7

abbrev b : RecordingInfo
b = info (text "b") (text "2025-01-02/b") 60 8

-- The oldest comes first.
abbrev found : Catalog × List Scanned
found = (
  record { recordings = a ∷ b ∷ []; total_size = 110; configured_max = 120 },
  (record { info = a; path = text "/r/2025-01-02/a"; oldest_key = 7 })
      ∷ (record { info = b; path = text "/r/2025-01-02/b"; oldest_key = 8 })
      ∷ [],
)

finds_both : scan_session_recordings (text "/r") 120 [] tree ≡ ok found
unfolding scan_session_recordings
finds_both = refl

-- Half of the limit is 60, which the other recording has.
deletes_oldest :
    deletions (clean_session_recordings (text "/r") 120 [] tree io [] tree false) ≡ ok (a ∷ [])
unfolding clean_session_recordings
deletes_oldest = refl

clean_session_recordings-IsCleaned_example :
    Gives
      (text "/r")
      io
      false
      120
      found
      (clean_session_recordings (text "/r") 120 [] tree io [] tree false)
clean_session_recordings-IsCleaned_example =
    clean_session_recordings-IsCleaned (text "/r") 120 [] tree io [] tree false
      (λ e. absurd (omega (arith, e))) finds_both

each_Succeeds : All (Succeeds (text "/r") io) found.1
unfolding removal_error
each_Succeeds = (inr refl, (inr refl, tt))

clean_session_recordings-predicted_example :
    deletions (clean_session_recordings (text "/r") 120 [] tree io [] tree true)
    ≡ deletions (clean_session_recordings (text "/r") 120 [] tree io [] tree false)
clean_session_recordings-predicted_example =
    clean_session_recordings-predicted (text "/r") 120 [] tree io [] tree finds_both each_Succeeds

abbrev full : Catalog × List Scanned
full = (record found.0 { configured_max = 100 }, found.1)

finds_full : scan_session_recordings (text "/r") 100 [] tree ≡ ok full
unfolding scan_session_recordings
finds_full = refl

check_normal_recording_capacity-Checked_example :
    Checked 100 full (check_normal_recording_capacity (text "/r") 100 [] tree)
check_normal_recording_capacity-Checked_example =
    check_normal_recording_capacity-Checked (text "/r") 100 [] tree (omega arith) finds_full
