-- ===== src/Session/Tests.antt =====
-- The session service of internal/application/session/service.go at concrete sessions.
use cap_mesh.Prelude.{
  All, ◌≡◌, ◌≤◌, refl, ◌↔◌, inl, true, false, [], ◌∷◌, none, some, ok, pos, arith, OkThen, is_ok,
}
use cap_mesh.Text.{Text, text, text_eq, text_eq_iff, contains}
use cap_mesh.Map
use cap_mesh.Map.{Map}
use cap_mesh.Domain.{
  CaptureTarget, CaptureSource, Session, SessionStatus, normal, no_source, status_eq,
}
use cap_mesh.Domain
use cap_mesh.Domain.Lifecycle.{Leads}
use cap_mesh.Session.Targets.{CreateInput, validate, max_sources_per_node}
use cap_mesh.Session.Targets.Normal.{AreNormal}
use cap_mesh.Session.Sources.{Env, stopped, validate_source_distribution, resolve_initial_sources}
use cap_mesh.Session.Sources.Distribution.{on_node, validate_source_distribution_iff}
use cap_mesh.Session.Sources.Resolve.{IsResolved, resolve_initial_sources-IsResolved}
use cap_mesh.Session.Service.{World, set_desired_state}
use cap_mesh.Session.Create.{prepare, create}
use cap_mesh.Session.Create.Prepared.{IsPrepared, prepare-IsPrepared}
use cap_mesh.Session.Create.Outcome.{Creates, create-IsCreated}
use cap_mesh.Session.Stop.{stop_session, has_ended}
use cap_mesh.Session.Stop.Outcome.{
  IsActive, HasStopped, HasEnded, stop_session-HasStopped, stop_session-HasEnded,
}
use cap_mesh.Session.Stop.Told.{Told, stop_session-Told}
use cap_mesh.Session.Advance.{IsKeyed}
use cap_mesh.Session.Advance.Runs.{Calls, on_create, on_stop, no_calls, one_more, Calls-Leads}

abbrev env : Env
env = record {
  connected = text "n2" ∷ text "n1" ∷ [];
  send = λ node command. none;
  resolver = none;
  capacity = none;
  recorder = none;
  recovery = none;
  describe = λ e. [];
  new_id = text "s2";
  now = 100;
}

abbrev target : CaptureTarget
target = record {
  id = text "t";
  interface = some (record { nodes = []; logical_interface = text "eth0" });
  workload = none;
}

abbrev input : CreateInput
input = record {
  nodes = [];
  logical_interface = [];
  targets = target ∷ [];
  filter = [];
  snaplen = 128;
  ttl = pos 10000000000;
  reorder_window = pos 0;
  continuous = false;
}

abbrev source : Text → CaptureSource
source node = record no_source { id = node; node_name = node }

abbrev session : SessionStatus → Session
session status = record {
  id = text "s1";
  nodes = text "n1" ∷ [];
  logical_interface = text "eth0";
  filter = [];
  snaplen = 128;
  reorder_window = 0;
  created_at = 1;
  expires_at = 200;
  status = status;
  message = [];
  targets = target ∷ [];
  mode = normal;
}

abbrev world : SessionStatus → World
world status = record {
  sessions = (text "s1", session status) ∷ [];
  runtime = (text "s1", (text "n1", source (text "n1")) ∷ []) ∷ [];
  opened = text "s1" ∷ [];
  desired = [];
  sent = [];
  loops = [];
  timers = [];
}

input-valid : is_ok (validate input) ≡ true
unfolding validate
input-valid = refl

input-AreNormal : AreNormal [] input.targets
unfolding contains
input-AreNormal = (refl, refl, inl (refl, refl), tt)

validate_source_distribution_iff_example :
    (is_ok (validate_source_distribution (source (text "n1") ∷ source (text "n2") ∷ [])) ≡ true) ↔ (
      (node : Text)
      → on_node node (source (text "n1") ∷ source (text "n2") ∷ []) ≤ max_sources_per_node)
validate_source_distribution_iff_example =
    validate_source_distribution_iff (source (text "n1") ∷ source (text "n2") ∷ [])

resolve_initial_sources-IsResolved_example :
    OkThen IsResolved (resolve_initial_sources env (target ∷ []))
resolve_initial_sources-IsResolved_example = resolve_initial_sources-IsResolved env (target ∷ [])

-- The session is prepared on both nodes, in order.
prepare_run : is_ok (prepare env input) ≡ true
unfolding prepare Map.lookup Map.insert text_eq contains
prepare_run = refl

prepare-IsPrepared_example : OkThen (IsPrepared env) (prepare env input)
prepare-IsPrepared_example = prepare-IsPrepared env input

running-IsActive : IsActive (session Domain.running) (world Domain.running)
unfolding Map.lookup status_eq text_eq
running-IsActive = (refl, refl)

desired_stored : (set_desired_state env (text "s1") stopped (world Domain.running)).1 ≡ none
unfolding set_desired_state
desired_stored = refl

stop_session-HasStopped_example :
    HasStopped (session Domain.running) (stop_session env (text "s1") (world Domain.running)).0
    × ((stop_session env (text "s1") (world Domain.running)).1 ≡ ok (session Domain.stopped))
stop_session-HasStopped_example =
    stop_session-HasStopped env (world Domain.running) (session Domain.running) running-IsActive
      desired_stored

world-IsKeyed : (status : SessionStatus) → IsKeyed (world status)
unfolding Map.lookup Map.keys contains
world-IsKeyed status = ((λ id s f. ground (arith, text_eq_iff (text "s1") id)), (refl, tt))

stop_ok : is_ok (stop_session env (text "s1") (world Domain.running)).1 ≡ true
stop_ok = ground (arith, stop_session-HasStopped_example)

stop_session-HasEnded_example :
    HasEnded (text "s1") (stop_session env (text "s1") (world Domain.running)).0
stop_session-HasEnded_example =
    stop_session-HasEnded env (text "s1") (world Domain.running)
      (λ s f. (world-IsKeyed Domain.running).0 (text "s1") s f) stop_ok

failed_found : Map.lookup (text "s1") (world Domain.failed).sessions ≡ some (session Domain.failed)
unfolding Map.lookup text_eq
failed_found = refl

failed_ended : has_ended Domain.failed ≡ true
unfolding status_eq
failed_ended = refl

abbrev calls :
    Calls
      (world Domain.running)
      (stop_session env (text "s1") (create env input (world Domain.running)).0).0
calls =
    one_more (on_create env input (world Domain.running))
      (one_more (on_stop env (text "s1") (create env input (world Domain.running)).0) no_calls)

running_found :
    Map.lookup (text "s1") (world Domain.running).sessions ≡ some (session Domain.running)
unfolding Map.lookup text_eq
running_found = refl

Calls-Leads_example :
    (t : Session) × (Map.lookup
        (text "s1")
        (stop_session env (text "s1") (create env input (world Domain.running)).0).0.sessions
      ≡ some t)
    × Leads Domain.running t.status
Calls-Leads_example =
    Calls-Leads (session Domain.running) calls (world-IsKeyed Domain.running) running_found

runtime_found :
    Map.lookup (text "s1") (world Domain.running).runtime
    ≡ some ((text "n1", source (text "n1")) ∷ [])
unfolding Map.lookup text_eq
runtime_found = refl

stop_session-Told_example :
    All
      (Told env (text "s1") (stop_session env (text "s1") (world Domain.running)).0.sent)
      (Map.values ((text "n1", source (text "n1")) ∷ []))
stop_session-Told_example =
    stop_session-Told env (world Domain.running) (session Domain.running)
      ((text "n1", source (text "n1")) ∷ []) running-IsActive desired_stored runtime_found

create_run : is_ok (create env input (world Domain.running)).1 ≡ true
unfolding create Map.lookup Map.insert text_eq contains
create_run = refl

create-IsCreated_example : Creates (create env input (world Domain.running))
create-IsCreated_example = create-IsCreated env input (world Domain.running)
