-- ===== src/Continuous.antt =====
-- internal/application/continuous/service.go: the one continuous capture of the server, over the
-- sessions. Each method holds the lock, so it is one step; `pending` are the sessions that the
-- goroutine of RecordingCompleted is still to stop.
pub mod States
pub mod Tests
use cap_mesh.Prelude.{
  ℕ, ◌≡◌, Bool, true, false, List, [], ◌∷◌, ◌++◌, Option, none, some, if◌then◌else◌, Result, ok,
  err, not, ◌&&◌, ◌||◌, is_some, ℤ, pos,
}
use cap_mesh.Text.{Text, text, text_eq, is_empty}
use cap_mesh.Ports.{PortError}
use cap_mesh.Domain.{CaptureTarget, Session, Time, status_eq, mode_eq, continuous}
use cap_mesh.Domain
use cap_mesh.Repository
use cap_mesh.Session.Targets.{CreateInput, SessionError}
use cap_mesh.Session.Sources.{Env}
use cap_mesh.Session.Service.{World}
use cap_mesh.Session.Create.{create}
use cap_mesh.Session.Stop.{stop_session}

pub data State : Type 0 where
  stopped starting running stopping failed : State

pub record StartInput : Type 0 where
  pub targets : List CaptureTarget
  pub filter : Text
  pub snaplen : ℕ
  pub reorder_window : ℤ

pub record Capture : Type 0 where
  pub session_id : Text
  pub status : State
  pub started_at : Time
  pub retained_size : ℕ
  pub segment_count : ℕ
  pub message : Text

pub record Service : Type 0 where
  pub world : World
  pub state : Capture
  pub pending : List Text

-- The recorder's usage of a session: its retained size and its number of segments.
pub record Setup : Type 0 where
  pub usage : Option (Text → Option (ℕ × ℕ))
  pub recording_configured : Bool

pub data ContinuousError : Type 0 where
  bad_state recording_disabled : ContinuousError
  is_active : State → ContinuousError
  session_error : SessionError → ContinuousError

unfoldable pub state_eq : State → State → Bool
state_eq stopped stopped = true
state_eq starting starting = true
state_eq running running = true
state_eq stopping stopping = true
state_eq failed failed = true
state_eq _ _ = false

abbrev pub no_capture : Capture
no_capture = record {
  session_id = [];
  status = stopped;
  started_at = 0;
  retained_size = 0;
  segment_count = 0;
  message = [];
}

-- NewService
abbrev pub new_service : World → Service
new_service w = record { world = w; state = no_capture; pending = [] }

-- snapshotLocked
unfoldable pub snapshot : Setup → Capture → Capture
snapshot setup c = elim (if is_empty c.session_id then none else setup.usage) [
  | none ↦ c
  | some usage ↦ elim (usage c.session_id) [
    | none ↦ c
    | some (size, segments) ↦ record c { retained_size = size; segment_count = segments }
  ]
]

abbrev pub running_capture : Session → Capture
running_capture s = record no_capture {
  session_id = s.id;
  status = running;
  started_at = s.created_at;
  message = s.message;
}

unfoldable pub restore : Session → Service → Service × Option ContinuousError
unfolding state_eq mode_eq
restore s c =
    if not (mode_eq s.mode continuous) || is_empty s.id
    then (c, some bad_state)
    else if not (state_eq c.state.status stopped)
    then (c, some (is_active c.state.status))
    else (record c { state = running_capture s }, none)

abbrev create_input : StartInput → CreateInput
create_input i = record {
  nodes = [];
  logical_interface = [];
  targets = i.targets;
  filter = i.filter;
  snaplen = i.snaplen;
  ttl = pos 0;
  reorder_window = i.reorder_window;
  continuous = true;
}

-- STARTING, and STOPPING, as they are while the sessions' Create and Stop are called.
unfoldable pub mark_starting : Service → Service
mark_starting c = record c { state = record no_capture { status = starting } }

unfoldable pub mark_stopping : Service → Service
mark_stopping c = record c { state = record c.state { status = stopping } }

-- What Start leaves after the call of Create.
unfoldable pub conclude_start :
    Env → Service → World × Result SessionError Session → Service × Option ContinuousError
conclude_start env c (w, r) = elim r [
  | err e ↦ (
    record c { world = w; state = record no_capture { message = env.describe e } },
    some (session_error e),
  )
  | ok s ↦ (record c { world = w; state = running_capture s }, none)
]

unfoldable pub start : Env → Setup → StartInput → Service → Service × Option ContinuousError
unfolding state_eq create conclude_start mark_starting
start env setup input c =
    if not setup.recording_configured || not (is_some setup.usage)
    then (c, some recording_disabled)
    else if not (state_eq c.state.status stopped)
    then (c, some (is_active c.state.status))
    else (conclude_start env (mark_starting c) (create env (create_input input) c.world))

-- The end of Stop without an error.
unfoldable pub conclude_stopped : Setup → Service → Service × Option ContinuousError
unfolding snapshot
conclude_stopped setup c =
    (record c { state = record (snapshot setup c.state) { status = stopped; message = [] } }, none)

-- What Stop leaves after the call of the sessions' Stop.
unfoldable pub conclude_stop :
    Env → Setup → Service → World × Result SessionError Session → Service × Option ContinuousError
unfolding conclude_stopped
conclude_stop env setup c (w, r) = elim r [
  | err e ↦ (
    record c { world = w; state = record c.state { status = failed; message = env.describe e } },
    some (session_error e),
  )
  | ok s ↦ conclude_stopped setup (record c { world = w })
]

unfoldable pub stop : Env → Setup → Service → Service × Option ContinuousError
unfolding state_eq stop_session conclude_stop conclude_stopped mark_stopping
stop env setup c =
    if state_eq c.state.status stopped
    then (c, none)
    else if is_empty c.state.session_id
    then conclude_stopped setup (mark_stopping c)
    else (conclude_stop env setup (mark_stopping c) (stop_session env c.state.session_id c.world))

-- Get: the state it leaves; it returns the snapshot of that state.
unfoldable pub get : Service → Service
unfolding state_eq status_eq Repository.get
get c =
    if not (is_empty c.state.session_id) && state_eq c.state.status running
    then elim (Repository.get c.state.session_id c.world.sessions) [
      | err _ ↦ c
      | ok s ↦ record c {
        state = record c.state {
          message = s.message;
          status = if status_eq s.status Domain.failed then failed else c.state.status;
        };
      }
    ]
    else c

unfoldable pub recording_completed : Text → Text → Text → Service → Service
unfolding state_eq text_eq
recording_completed id status message c =
    if not (text_eq c.state.session_id id)
      || state_eq c.state.status stopped
      || state_eq c.state.status stopping
    then c
    else record c {
      state = record c.state {
        status = failed;
        message =
            if is_empty message
            then text "continuous recorder stopped unexpectedly with status " ++ status
            else message;
      };
      pending = id ∷ c.pending;
    }

-- The goroutine of RecordingCompleted.
unfoldable pub run_pending : Env → Service → Service
unfolding stop_session
run_pending env c = elim c.pending [
  | [] ↦ c
  | id ∷ rest ↦ record c { pending = rest; world = (stop_session env id c.world).0 }
]
