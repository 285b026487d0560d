-- ===== src/Manager/Sessions.antt =====
-- internal/adapter/recording/manager.go: Usage, the end of a recorder's goroutine, Shutdown,
-- SetSessionDesiredState and RecoverableSessions.
use cap_mesh.Prelude.{
  Bool, true, false, not, ◌&&◌, ◌||◌, List, [], ◌∷◌, Option, none, some, if◌then◌else◌, Result, ok,
  err, ltb,
}
use cap_mesh.Text.{Text, text, text_eq, is_empty}
use mathlib.Core.Option
use cap_mesh.Map
use cap_mesh.Map.{Map}
use cap_mesh.Domain.{Session}
use cap_mesh.Ports.{not_found}
use cap_mesh.Recovery.{
  RecoveryState, Disk, RecoveryError, read_recovery, WriteIo, write_recovery, next_generation,
}
use cap_mesh.Recorder.{Recorder, Io}
use cap_mesh.Recorder.Run.{Loop, Event, Round, ended, panicked, on_event}
use cap_mesh.Recorder.Run
use cap_mesh.Manager.{
  Usage, Manager, ManagerError, bad_desired_state, recovery_failed, port, no_disk, disk_at,
}

abbrev pub usage : Recorder → Usage
usage r = record { retained_size = r.retained_size; segment_count = r.segment_count }

unfoldable pub usage_of : Text → Manager → Option Usage
unfolding Map.lookup
usage_of id m = elim (Map.lookup id m.active) [
  | some (some l) ↦ some (usage l.recorder)
  | some none ↦ Map.lookup id m.completed
  | none ↦ Map.lookup id m.completed
]

-- The end of the goroutine of Start.
unfoldable pub finish : Text → Recorder → Manager → Manager
unfolding Map.insert Map.delete
finish id r m = record m {
  active = Map.delete id m.active;
  completed = if r.rolling then Map.insert id (usage r) m.completed else m.completed;
  told =
      if m.handled && not m.closing then (id, r.final_status, r.final_error) ∷ m.told else m.told;
}

-- One event of the goroutine of a session; none is a panic, which ends the process.
unfoldable pub after_round : Text → Round → Manager → Option Manager
unfolding finish Map.insert
after_round id (Run.running l) m = some (record m { active = Map.insert id (some l) m.active })
after_round id (ended r) m = some (finish id r m)
after_round id panicked m = none

unfoldable pub step_active :
    Io → Io → Event → Text → Option (Option Loop) → Manager → Option Manager
unfolding on_event after_round
step_active io last e id (some (some l)) m = after_round id (on_event io last e l) m
step_active io last e id (some none) m = some m
step_active io last e id none m = some m

unfoldable pub step : Io → Io → Event → Text → Manager → Option Manager
unfolding step_active Map.lookup
step io last e id m = step_active io last e id (Map.lookup id m.active) m

abbrev pub is_started : Map (Option Loop) → List Text
is_started [] = []
is_started ((id, some l) ∷ m) = id ∷ is_started m
is_started ((id, none) ∷ m) = is_started m

-- The wait for the goroutines is their events.
unfoldable pub shutdown : Manager → Manager
shutdown m = record m { closing = true; cancelled = is_started m.active }

-- SetSessionDesiredState; a path of no text is that of a missing key.
unfoldable pub write_desired :
    WriteIo
    → Text
    → Text
    → Result RecoveryError (RecoveryState Session)
    → Manager
    → Option ManagerError × Manager
unfolding write_recovery next_generation disk_at Map.insert
write_desired io desired path (err e) m = (some (recovery_failed e), m)
write_desired io desired path (ok s) m =
    let (failure, disk) =
      write_recovery io
        (record s { desired_state = desired; generation = next_generation s.generation })
        (disk_at path m) in
    (Option.map recovery_failed failure, record m { disks = Map.insert path disk m.disks })

unfoldable pub set_desired_at :
    WriteIo → Text → Option Text → Manager → Option ManagerError × Manager
unfolding write_desired read_recovery disk_at
set_desired_at io desired none m = (some (port not_found), m)
set_desired_at io desired (some path) m =
    if is_empty path
    then (some (port not_found), m)
    else write_desired io desired path (read_recovery (disk_at path m)) m

unfoldable pub set_session_desired_state :
    WriteIo → Text → Text → Manager → Option ManagerError × Manager
unfolding set_desired_at Map.lookup text_eq
set_session_desired_state io id desired m =
    if not (text_eq desired (text "RUNNING")) && not (text_eq desired (text "STOPPED"))
    then (some bad_desired_state, m)
    else set_desired_at io desired (Map.lookup id m.recovery) m

-- What the walk of RecoverableSessions finds: an error, or a file of a state to recover, of which the
-- path without `.part` is read.
pub data Visit : Type 0 where
  walk_failed : Visit
  state_file : Text → Visit

-- `byID`, `m.recovery`, and whether `scanErr` is set.
pub record Scan : Type 0 where
  pub by_id : Map (RecoveryState Session)
  pub recovery : Map Text
  pub failed : Bool

abbrev pub is_newer : RecoveryState Session → Option (RecoveryState Session) → Bool
is_newer s none = true
is_newer s (some t) = ltb t.generation s.generation

unfoldable pub take_state : Text → RecoveryState Session → Scan → Scan
unfolding Map.lookup Map.insert text_eq
take_state path s scan =
    if not (text_eq s.desired_state (text "RUNNING")) || is_empty s.subject.id
    then scan
    else if is_newer s (Map.lookup s.subject.id scan.by_id)
    then record scan {
      by_id = Map.insert s.subject.id s scan.by_id;
      recovery = Map.insert s.subject.id path scan.recovery;
    }
    else scan

unfoldable pub visit : Map (Disk Session) → Visit → Scan → Scan
unfolding read_recovery take_state Map.lookup
visit disks walk_failed scan = record scan { failed = true }
visit disks (state_file path) scan =
    elim (read_recovery (elim (Map.lookup path disks) [ none ↦ no_disk | some d ↦ d ])) [
      | err e ↦ record scan { failed = true }
      | ok s ↦ take_state path s scan
    ]

unfoldable pub scan_all : Map (Disk Session) → List Visit → Scan → Scan
unfolding visit
scan_all disks [] scan = scan
scan_all disks (v ∷ vs) scan = scan_all disks vs (visit disks v scan)

abbrev pub subjects : Map (RecoveryState Session) → List Session
subjects [] = []
subjects ((id, s) ∷ m) = s.subject ∷ subjects m

-- The order of sort.Slice, by the time of creation.
unfoldable pub insert_by_age : Session → List Session → List Session
insert_by_age s [] = s ∷ []
insert_by_age s (t ∷ ts) =
    if ltb t.created_at s.created_at then t ∷ insert_by_age s ts else s ∷ t ∷ ts

unfoldable pub sort_by_age : List Session → List Session
unfolding insert_by_age
sort_by_age [] = []
sort_by_age (s ∷ ss) = insert_by_age s (sort_by_age ss)

-- The sessions, whether there was an error, and the manager.
unfoldable pub recoverable_sessions : List Visit → Manager → List Session × Bool × Manager
unfolding scan_all sort_by_age
recoverable_sessions vs m =
    let scan = scan_all m.disks vs (record { by_id = []; recovery = m.recovery; failed = false }) in
    (sort_by_age (subjects scan.by_id), scan.failed, record m { recovery = scan.recovery })
