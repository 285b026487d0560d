-- ===== src/Manager/Tests.antt =====
-- internal/adapter/recording/manager.go: Manager at one session.
use cap_mesh.Prelude.{pos, ◌≡◌, ◌≢◌, refl, true, false, [], ◌∷◌, some, none, ok}
use cap_mesh.Text.{text}
use cap_mesh.Domain.{Session, running, continuous}
use cap_mesh.Recovery.{WriteIo}
use cap_mesh.Recorder.Tests.{disk, batch, five}
use cap_mesh.Manager.{Config, Manager, StartIo, subscribe_failed}
use cap_mesh.Manager.New.{Options, new_manager, on_complete}
use cap_mesh.Manager.Start.{start}
use cap_mesh.Manager.Sessions.{step, state_file, recoverable_sessions, set_session_desired_state}
use cap_mesh.Manager.Calls.{AreSound, starts, no_calls, one_more, Calls-steps}
use cap_mesh.Manager.Failures.{IsLeft, start-leaves}

abbrev options : Options
options = record {
  directory = text "r";
  segment_size = pos 200;
  max_session_size = pos 500;
  max_normal_total = pos 9000;
  queue_size = pos 4;
  flush_interval = pos 1;
  sync_interval = pos 1;
}

abbrev config : Config
config = record {
  directory = text "/r";
  segment_size = 200;
  max_session_size = 500;
  max_normal_total = 9000;
  queue_size = 4;
}

abbrev unset : Manager
unset = record {
  config = config;
  active = [];
  completed = [];
  recovery = [];
  closing = false;
  disks = [];
  handled = false;
  told = [];
  cancelled = [];
}

abbrev empty : Manager
empty = record unset { handled = true }

is_new : new_manager (λ d. ok (text "/r")) (λ d. none) options ≡ ok unset
unfolding new_manager
is_new = refl

is_handled : on_complete unset ≡ empty
unfolding on_complete
is_handled = refl

abbrev writes : WriteIo
writes = record { encodes = true; writes = true; tears = false; removes = true; renames = true }

abbrev env : StartIo
env = record {
  date = λ t. text "2025-01-02";
  stamp = λ t. text "20250102T000000Z";
  mkdir = λ d. none;
  subscribe = λ id. none;
  entries = λ d. ok [];
  io = disk;
  write = writes;
}

abbrev unsubscribed : StartIo
unsubscribed = record env { subscribe = λ id. some (text "closed") }

abbrev session : Session
session = record {
  id = text "s";
  nodes = text "n" ∷ [];
  logical_interface = text "eth0";
  filter = [];
  snaplen = 0;
  reorder_window = 0;
  created_at = 5;
  expires_at = 0;
  status = running;
  message = [];
  targets = [];
  mode = continuous;
}

abbrev started : Manager
started = (start env session empty).1

abbrev stopped : Manager
stopped = (set_session_desired_state writes (text "s") (text "STOPPED") started).1

starts_well : (start env session empty).0 ≡ none
unfolding start
starts_well = refl

-- The session is recovered while it is to run, and not after it is stopped.
recovers :
    (recoverable_sessions (state_file (text "/r/continuous/capture-recovery.json") ∷ []) started).0
    ≡ session ∷ []
unfolding start recoverable_sessions
recovers = refl

recovers_none :
    (recoverable_sessions (state_file (text "/r/continuous/capture-recovery.json") ∷ []) stopped).0
    ≡ []
unfolding start recoverable_sessions set_session_desired_state
recovers_none = refl

Calls-steps_example : AreSound started × (step disk disk (batch five) (text "s") started ≢ none)
Calls-steps_example =
    Calls-steps disk disk (batch five) (text "s") refl (one_more no_calls (starts env session))

start-leaves_example : IsLeft empty (start unsubscribed session empty).1
unfolding start
start-leaves_example =
    start-leaves unsubscribed session empty {e = subscribe_failed (text "closed")} refl
