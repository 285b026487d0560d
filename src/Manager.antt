-- ===== src/Manager.antt =====
-- internal/adapter/recording/manager.go: Manager, which starts the recorders of the sessions, keeps
-- their states to recover and tells when they end. An event of a recorder's goroutine is a step.
-- The directories, the subscription and the file system are the record StartIo; paths are texts.
pub mod New
pub mod Start
pub mod Sessions
pub mod Starts
pub mod Calls
pub mod Failures
pub mod Tests
use cap_mesh.Prelude.{
  ℕ, zero, suc, ◌+◌, ◌≡◌, Bool, true, false, not, ◌&&◌, ◌||◌, List, [], ◌∷◌, ◌++◌, Option, none,
  some, is_some, if◌then◌else◌, Result, ok, err, ◌>>=◌, ◌>>◌, fail_if, map_err, ltb, ◌==◌, all,
  is_ok, leb,
}
use cap_mesh.Text.{Text, text, text_eq, is_empty}
use cap_mesh.Map
use cap_mesh.Map.{Map}
use cap_mesh.Domain.{Session, Time, running, continuous, mode_eq}
use cap_mesh.Ports.{PortError, not_found, already_exists}
use cap_mesh.Recording.{is_digit}
use cap_mesh.Recovery.{
  RecoveryState, Disk, RecoveryError, read_recovery, WriteIo, write_recovery, next_generation,
  absent,
}
use cap_mesh.Recorder.{Recorder, Metadata, Io, open_segment, finish_segment, prune_rolling}
use cap_mesh.Recorder.Load.{Entry, load_existing_segments}
use cap_mesh.Recorder.Run.{Loop, Event, Round, ended, panicked, on_event}
use cap_mesh.Recorder.Run

-- The limits of Config.
pub record Config : Type 0 where
  pub directory : Text
  pub segment_size : ℕ
  pub max_session_size : ℕ
  pub max_normal_total : ℕ
  pub queue_size : ℕ

pub record Usage : Type 0 where
  pub retained_size : ℕ
  pub segment_count : ℕ

-- `active` has the recorder of a session in its loop, or none while Start sets it up; `disks` are the
-- files of the states to recover, by their paths; `told` are the calls of onComplete, newest first,
-- and `cancelled` the sessions whose recorders Shutdown has cancelled.
pub record Manager : Type 0 where
  pub config : Config
  pub active : Map (Option Loop)
  pub completed : Map Usage
  pub recovery : Map Text
  pub closing : Bool
  pub disks : Map (Disk Session)
  pub handled : Bool
  pub told : List (Text × Text × Text)
  pub cancelled : List Text

pub data ManagerError : Type 0 where
  unsafe_id shutting_down no_rolling_sizes segment_too_large bad_desired_state : ManagerError
  mkdir_failed subscribe_failed recorder_failed : Text → ManagerError
  persist_failed recovery_failed : RecoveryError → ManagerError
  port : PortError → ManagerError

-- What Start meets: the name of the day, the directories, the subscription, the entries of the session's
-- directory, the calls of the recorder and those of writeRecovery.
pub record StartIo : Type 0 where
  pub date : Time → Text
  pub stamp : Time → Text
  pub mkdir : Text → Option Text
  pub subscribe : Text → Option Text
  pub entries : Text → Result Text (List Entry)
  pub io : Io
  pub write : WriteIo

abbrev pub is_id_char : ℕ → Bool
is_id_char c =
    (leb b'A' c && leb c b'Z')
    || ((leb b'a' c && leb c b'z') || (is_digit c || ((c == 95) || (c == 45))))

-- safeSessionID
unfoldable pub is_safe : Text → Bool
unfolding is_digit
is_safe id = not (is_empty id) && all is_id_char id

abbrev pub joined : Text → Text → Text
joined directory name = directory ++ (47 ∷ name)

abbrev pub recovery_path : Text → Text
recovery_path directory = joined directory (text "capture-recovery.json")

abbrev pub rolls : Session → Bool
rolls s = mode_eq s.mode continuous

abbrev pub no_disk : Disk Session
no_disk = record { file = absent; part = absent }

unfoldable pub disk_at : Text → Manager → Disk Session
unfolding Map.lookup
disk_at path m = elim (Map.lookup path m.disks) [ none ↦ no_disk | some d ↦ d ]
