-- ===== src/LogCapture/Service.antt =====
-- internal/application/logcapture/service.go: the service and the loop of its job. The usage of the
-- recorder, the time and the errors of the recorder's calls are parameters; an event of the job's
-- goroutine is a step.
use cap_mesh.Prelude.{
  ℕ, suc, Bool, true, false, not, ◌&&◌, ◌||◌, List, [], ◌∷◌, ◌++◌, Option, none, some,
  if◌then◌else◌, Result, ok, err, ◌>>=◌, ◌>>◌, fail_if, ◌==◌, length,
}
use cap_mesh.Text.{Text, text, text_eq, is_empty, contains, trim_space, to_lower}
use cap_mesh.Map.{Map}
use cap_mesh.Domain.{Time}
use cap_mesh.LogCapture.{
  LogTarget, Followed, LogError, already_exists, not_configured, bad_configuration, no_targets,
  bad_recovery, bad_target, duplicate_target, factory_failed, not_persisted, context_done, Resolver,
  reconcile,
}

-- `blank` is the state of `Capture{}`.
pub data State : Type 0 where
  blank stopped starting running stopping failed : State

pub record Capture : Type 0 where
  pub run_id : Text
  pub status : State
  pub started_at : Time
  pub retained_size : ℕ
  pub segment_count : ℕ
  pub active_streams : ℕ
  pub message : Text
  pub targets : List LogTarget

-- `on` is `running` of the loop, and `cancelled` whether its context is.
pub record Job : Type 0 where
  pub targets : List LogTarget
  pub streams : Map Followed
  pub on : Bool
  pub cancelled : Bool
  pub run_err : Option Text

-- `persisted` are the calls of SetRunDesiredState, newest first.
pub record Service : Type 0 where
  pub capture : Capture
  pub job : Option Job
  pub persisted : List (Text × Text)

-- What a call meets: whether the source and the factory are set and the configuration is good, the
-- resolver, Start of the factory, SetRunDesiredState, the usage of the recorder, the text of an error,
-- and the error of a call's context that is done before the job is, none where the job ends first. A factory that stores no desired state gives none for its error.
pub record Env : Type 0 where
  pub is_configured : Bool
  pub has_good_config : Bool
  pub resolve : Resolver
  pub start_recorder : Text → Option Text
  pub persist : Text → Text → Option Text
  pub usage : ℕ × ℕ
  pub describe : LogError → Text
  pub expires : Option Text

abbrev pub state_eq : State → State → Bool
state_eq blank blank = true
state_eq stopped stopped = true
state_eq starting starting = true
state_eq running running = true
state_eq stopping stopping = true
state_eq failed failed = true
state_eq a b = false

-- A target of validate, trimmed, and its key.
unfoldable pub normal_target : LogTarget → LogTarget
unfolding trim_space to_lower
normal_target t = record t {
  namespace = trim_space t.namespace;
  kind = to_lower (trim_space t.kind);
  name = trim_space t.name;
  max_pods = if t.max_pods == 0 then 100 else t.max_pods;
}

abbrev pub target_key : LogTarget → Text
target_key t = t.namespace ++ (47 ∷ (t.kind ++ (47 ∷ t.name)))

unfoldable pub is_bad : LogTarget → Bool
unfolding text_eq
is_bad t =
    is_empty t.namespace
    || (is_empty t.name
        || (not (text_eq t.kind (text "statefulset")) && not (text_eq t.kind (text "deployment"))))

-- The loop of validate, which rewrites the targets, from the i-th on.
unfoldable pub validate_targets : ℕ → List Text → List LogTarget → Result LogError (List LogTarget)
unfolding normal_target is_bad contains
validate_targets i seen [] = ok []
validate_targets i seen (t ∷ ts) = do
  let n = normal_target t
  fail_if (is_bad n) (bad_target (suc i))
  fail_if (contains seen (target_key n)) (duplicate_target (target_key n))
  rest ← validate_targets (suc i) (target_key n ∷ seen) ts
  ok (n ∷ rest)

unfoldable pub validate : Env → List LogTarget → Result LogError (List LogTarget)
unfolding validate_targets
validate env targets = do
  fail_if (not env.is_configured) not_configured
  fail_if (not env.has_good_config) bad_configuration
  fail_if (length targets == 0) no_targets
  validate_targets 0 [] targets

unfoldable pub snapshot : Env → Service → Capture
snapshot env s = elim s.job [
  | none ↦ s.capture
  | some j ↦ record s.capture { retained_size = env.usage.0; segment_count = env.usage.1 }
]

-- `Capture{Status: status}`
abbrev pub fresh : State → Capture
fresh status = record {
  run_id = [];
  status = status;
  started_at = 0;
  retained_size = 0;
  segment_count = 0;
  active_streams = 0;
  message = [];
  targets = [];
}

abbrev pub Outcome : Type 0
Outcome = Capture × Option LogError × Service

unfoldable pub start_failed : Env → LogError → Service → Outcome
unfolding snapshot
start_failed env e s =
    let t = record s { capture = record (fresh stopped) { message = env.describe e } } in
    (snapshot env t, some e, t)

unfoldable pub set_desired_state : Env → Text → Text → Service → Option Text × Service
set_desired_state env id desired s =
    (env.persist id desired, record s { persisted = (id, desired) ∷ s.persisted })

-- A reconcile that fails.
unfoldable pub abandon : Env → Text → Bool → LogError → Service → Outcome
unfolding start_failed set_desired_state
abandon env id recovered e s =
    start_failed env e (if recovered then s else (set_desired_state env id (text "STOPPED") s).1)

unfoldable pub begin : Env → Text → Time → List LogTarget → Map Followed → Service → Outcome
unfolding snapshot
begin env id at targets streams s =
    let t = record s {
      job = some (record {
        targets = targets;
        streams = streams;
        on = true;
        cancelled = false;
        run_err = none;
      });
      capture = record (fresh running) {
        run_id = id;
        started_at = at;
        active_streams = length streams;
        targets = targets;
      };
    } in
    (snapshot env t, none, t)

unfoldable pub follow : Env → Text → Time → Bool → List LogTarget → Service → Outcome
unfolding abandon begin reconcile
follow env id at recovered targets s = elim (reconcile env.resolve targets []) [
  | err e ↦ abandon env id recovered e s
  | ok streams ↦ begin env id at targets streams s
]

unfoldable pub record_run : Env → Text → Time → Bool → List LogTarget → Service → Outcome
unfolding start_failed follow
record_run env id at recovered targets s = elim (env.start_recorder id) [
  | some e ↦ start_failed env (factory_failed e) s
  | none ↦ follow env id at recovered targets s
]

-- The first state of start, in which it validates.
unfoldable pub mark_starting : List LogTarget → Service → Service
mark_starting targets s = record s { capture = record (fresh starting) { targets = targets } }

unfoldable pub start : Env → Text → Time → Bool → List LogTarget → Service → Outcome
unfolding snapshot mark_starting validate start_failed record_run
start env id at recovered targets s =
    if not (state_eq s.capture.status stopped)
    then (snapshot env s, some already_exists, s)
    else elim (validate env targets) [
      | err e ↦ start_failed env e (mark_starting targets s)
      | ok ts ↦ record_run env id at recovered ts (mark_starting targets s)
    ]

-- Restore refuses a run without an ID or a time.
unfoldable pub restore : Env → Text → Time → List LogTarget → Service → Outcome
unfolding start
restore env id at targets s =
    if is_empty id || (at == 0)
    then (fresh blank, some bad_recovery, s)
    else start env id at true targets s

-- stop waits until the job is done, in the events that end it, or until its context is, which leaves
-- the job to end on its own. The capture returned is the one before these events.
unfoldable pub wait_for_job : Env → Service → Outcome
unfolding snapshot
wait_for_job env s = elim env.expires [
  | none ↦ (snapshot env s, none, s)
  | some e ↦ (snapshot env s, some (context_done e), s)
]

-- The end of stop, which cancels the job.
unfoldable pub cancel_job : Env → Service → Outcome
unfolding snapshot wait_for_job
cancel_job env s = elim s.job [
  | none ↦
      (let t = record s { capture = record s.capture { status = stopped } } in
        (snapshot env t, none, t))
  | some j ↦ wait_for_job env (record s {
    capture = record s.capture { status = stopping };
    job = some (record j { cancelled = true });
  })
]

unfoldable pub persist_stopped : Env → Bool → Service → Option Text × Service
unfolding set_desired_state
persist_stopped env persists s =
    if persists && not (is_empty s.capture.run_id)
    then set_desired_state env s.capture.run_id (text "STOPPED") s
    else (none, s)

unfoldable pub stop_persisted : Env → Option Text × Service → Outcome
unfolding snapshot cancel_job
stop_persisted env (some e, s) = (snapshot env s, some (not_persisted e), s)
stop_persisted env (none, s) = cancel_job env s

unfoldable pub stop : Env → Bool → Service → Outcome
unfolding snapshot persist_stopped stop_persisted
stop env persists s =
    if state_eq s.capture.status stopped
    then (snapshot env s, none, s)
    else stop_persisted env (persist_stopped env persists s)
