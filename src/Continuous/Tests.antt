-- ===== src/Continuous/Tests.antt =====
-- The continuous capture of internal/application/continuous/service.go at a concrete state.
use cap_mesh.Prelude.{◌≡◌, ◌≢◌, refl, inl, true, [], ◌∷◌, none, some, pos, arith}
use cap_mesh.Text.{text, text_eq, text_eq_iff, contains}
use cap_mesh.Map
use cap_mesh.Domain.{Session, continuous, status_eq}
use cap_mesh.Domain
use cap_mesh.Session.Sources.{Env}
use cap_mesh.Session.Service.{World}
use cap_mesh.Session.Stop.Outcome.{HasEnded}
use cap_mesh.Session.Advance.{IsKeyed}
use cap_mesh.Continuous.{
  Service, Setup, StartInput, new_service, running_capture, stopped, restore, stop, get,
  recording_completed,
}
use cap_mesh.Continuous.States.{
  IsSettled, no_calls, one_more, on_get, on_restore, on_completed, Calls-IsSettled, stop-HasEnded,
}

abbrev env : Env
env = record {
  connected = text "n1" ∷ [];
  send = λ node command. none;
  resolver = none;
  capacity = none;
  recorder = none;
  recovery = none;
  describe = λ e. [];
  new_id = text "s2";
  now = 100;
}

abbrev setup : Setup
setup = record { usage = some (λ id. some (10, 1)); recording_configured = true }

abbrev session : Session
session = record {
  id = text "s1";
  nodes = text "n1" ∷ [];
  logical_interface = text "eth0";
  filter = [];
  snaplen = 128;
  reorder_window = 0;
  created_at = 1;
  expires_at = 0;
  status = Domain.running;
  message = [];
  targets = [];
  mode = continuous;
}

abbrev world : World
world = record {
  sessions = (text "s1", session) ∷ [];
  runtime = [];
  opened = text "s1" ∷ [];
  desired = [];
  sent = [];
  loops = [];
  timers = [];
}

abbrev active : Service
active = record { world = world; state = running_capture session; pending = [] }

abbrev start_input : StartInput
start_input = record { targets = []; filter = []; snaplen = 128; reorder_window = pos 0 }

Calls-IsSettled_example : IsSettled (
    recording_completed
      (text "s1")
      (text "FAILED")
      []
      (get (restore session (new_service world)).0))
Calls-IsSettled_example =
    Calls-IsSettled
      (one_more (on_restore session (new_service world)) (
        one_more (on_get (restore session (new_service world)).0) (
          one_more
            (on_completed (text "s1") (text "FAILED") []
              (get (restore session (new_service world)).0))
            no_calls)))
      (inl refl)

is_active : active.state.status ≢ stopped
is_active e = cc

world-IsKeyed : IsKeyed world
unfolding Map.lookup Map.keys contains
world-IsKeyed = ((λ id s f. ground (arith, text_eq_iff (text "s1") id)), (refl, tt))

stop_ok : (stop env setup active).1 ≡ none
unfolding stop Map.lookup Map.insert text_eq
stop_ok = refl

stop-HasEnded_example :
    ((stop env setup active).0.state.status ≡ stopped)
    × HasEnded (text "s1") (stop env setup active).0.world
stop-HasEnded_example = stop-HasEnded env setup active world-IsKeyed is_active refl stop_ok
