-- ===== src/Manager/Start.antt =====
-- internal/adapter/recording/manager.go: Start. The run of `recorder.finishSegment` after a failed
-- writeRecovery changes files only, and its recorder is not used again.
use cap_mesh.Prelude.{
  true, false, not, ◌||◌, [], ◌++◌, Option, none, some, is_some, if◌then◌else◌, Result, ok, err,
  ◌>>=◌, ◌>>◌, fail_if, map_err, ltb,
}
use cap_mesh.Text.{Text, text}
use cap_mesh.Map
use cap_mesh.Map.{Map}
use cap_mesh.Domain.{Session, running, mode_eq}
use cap_mesh.Ports.{already_exists}
use cap_mesh.Recovery.{
  RecoveryState, Disk, RecoveryError, read_recovery, write_recovery, next_generation,
}
use cap_mesh.Recorder.{Recorder, open_segment, prune_rolling}
use cap_mesh.Recorder.Load.{load_existing_segments}
use cap_mesh.Manager.{
  Config, Manager, ManagerError, unsafe_id, shutting_down, no_rolling_sizes, segment_too_large,
  mkdir_failed, subscribe_failed, recorder_failed, persist_failed, port, StartIo, is_safe, joined,
  recovery_path, rolls, disk_at,
}

-- A call's error, or nothing.
abbrev pub call : (Text → ManagerError) → Option Text → Result ManagerError (Unit {0})
call f none = ok tt
call f (some e) = err (f e)

unfoldable pub rolling_directory : Config → StartIo → Result ManagerError Text
rolling_directory c env = do
  fail_if (not (ltb 0 c.segment_size) || not (ltb 0 c.max_session_size)) no_rolling_sizes
  fail_if (ltb c.max_session_size c.segment_size) segment_too_large
  call mkdir_failed (env.mkdir (joined c.directory (text "continuous")))
  ok (joined c.directory (text "continuous"))

unfoldable pub normal_directory : Config → StartIo → Session → Result ManagerError Text
normal_directory c env s = do
  let day = joined c.directory (env.date s.created_at)
  call mkdir_failed (env.mkdir day)
  call mkdir_failed (env.mkdir (joined day s.id))
  ok (joined day s.id)

-- The directory of a session, which Start makes.
unfoldable pub session_directory : Config → StartIo → Session → Result ManagerError Text
unfolding mode_eq rolling_directory normal_directory
session_directory c env s = if rolls s then rolling_directory c env else normal_directory c env s

unfoldable pub new_recorder : Config → StartIo → Session → Recorder
unfolding mode_eq
new_recorder c env s = record {
  segment_size = c.segment_size;
  max_session_size = c.max_session_size;
  rolling = rolls s;
  run_id = env.stamp s.created_at ++ (text "-" ++ s.id);
  metadata = record {
    session_id = s.id;
    status = text "RECORDING";
    nodes = s.nodes;
    interface_alias = s.logical_interface;
    targets = s.targets;
    filter = s.filter;
    snaplen = s.snaplen;
    started_at = s.created_at;
    finished_at = none;
    total_file_size = 0;
    packet_count = 0;
    captured_bytes = 0;
    truncated = false;
    error = [];
    segments = [];
  };
  sequence = 0;
  file = none;
  segment_start = 0;
  segment_pkts = 0;
  segment_bytes = 0;
  retained_size = 0;
  segment_count = 0;
  final_status = [];
  final_error = [];
}

-- A method of the recorder that fails makes Start fail.
abbrev pub stepped : Option Text × Recorder → Result ManagerError Recorder
stepped (none, r) = ok r
stepped (some e, r) = err (recorder_failed e)

-- The recorder with its first segment open.
unfoldable pub set_up : Config → StartIo → Session → Text → Result ManagerError Recorder
unfolding new_recorder load_existing_segments prune_rolling open_segment
set_up c env s directory = do
  call subscribe_failed (env.subscribe s.id)
  loaded ←
      map_err recorder_failed
        (load_existing_segments env.io (env.entries directory) (new_recorder c env s))
  pruned ← stepped (prune_rolling env.io c.segment_size loaded)
  call recorder_failed (env.io.write_metadata pruned.sequence)
  stepped (open_segment env.io pruned)

-- The state that Start persists: running, one generation after the one that is there.
unfoldable pub running_state : Session → Disk Session → RecoveryState Session
unfolding read_recovery next_generation
running_state s d = record {
  desired_state = text "RUNNING";
  generation = elim (read_recovery d) [
    | ok previous ↦ next_generation previous.generation
    | err e ↦ 1
  ];
  subject = record s { status = running };
}

-- Before the ID is reserved.
unfoldable pub admit : Session → Manager → Result ManagerError (Unit {0})
unfolding is_safe Map.lookup
admit s m = do
  fail_if (not (is_safe s.id)) unsafe_id
  fail_if m.closing shutting_down
  fail_if (is_some (Map.lookup s.id m.active)) (port already_exists)

unfoldable pub reserve : Text → Manager → Manager
unfolding Map.insert
reserve id m = record m { active = Map.insert id none m.active }

unfoldable pub release : Text → Manager → Manager
unfolding Map.delete
release id m = record m { active = Map.delete id m.active }

unfoldable pub activate : Session → Text → Recorder → Manager → Manager
unfolding Map.insert Map.delete
activate s path r m = record m {
  active =
      Map.insert s.id (some (record { recorder = r; dropped = false; listens = true })) m.active;
  recovery = Map.insert s.id path m.recovery;
  completed = if r.rolling then [] else Map.delete s.id m.completed;
}

unfoldable pub persisted :
    Session → Text → Recorder → Option RecoveryError → Manager → Option ManagerError × Manager
unfolding activate release
persisted s path r none m = (none, activate s path r m)
persisted s path r (some e) m = (some (persist_failed e), release s.id m)

unfoldable pub persist :
    StartIo → Session → Text → Recorder → Manager → Option ManagerError × Manager
unfolding running_state write_recovery disk_at persisted Map.insert
persist env s path r m =
    let (failure, disk) =
      write_recovery env.write (running_state s (disk_at path m)) (disk_at path m) in
    persisted s path r failure (record m { disks = Map.insert path disk m.disks })

unfoldable pub prepare : StartIo → Session → Manager → Result ManagerError (Text × Recorder)
unfolding session_directory set_up
prepare env s m = do
  directory ← session_directory m.config env s
  r ← set_up m.config env s directory
  ok (recovery_path directory, r)

unfoldable pub prepared :
    StartIo
    → Session
    → Result ManagerError (Text × Recorder)
    → Manager
    → Option ManagerError × Manager
unfolding persist release
prepared env s (err e) m = (some e, release s.id m)
prepared env s (ok (path, r)) m = persist env s path r m

unfoldable pub admitted :
    StartIo → Session → Result ManagerError (Unit {0}) → Manager → Option ManagerError × Manager
unfolding prepare prepared reserve
admitted env s (err e) m = (some e, m)
admitted env s (ok _) m =
    let reserved = reserve s.id m in prepared env s (prepare env s reserved) reserved

unfoldable pub start : StartIo → Session → Manager → Option ManagerError × Manager
unfolding admit admitted
start env s m = admitted env s (admit s m) m
