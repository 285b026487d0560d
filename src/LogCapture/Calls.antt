-- ===== src/LogCapture/Calls.antt =====
-- internal/application/logcapture/service.go: any calls of the service, with the events of its job.
use cap_mesh.Prelude.{
  Bool, true, false, not, ◌&&◌, ◌||◌, List, ◌∷◌, Option, none, some, if_elim, ◌==◌,
}
use cap_mesh.Text.{Text, text, is_empty}
use cap_mesh.Domain.{Time}
use cap_mesh.LogCapture.{LogTarget}
use cap_mesh.LogCapture.Service.{
  stopped, Service, Env, state_eq, Outcome, set_desired_state, persist_stopped, stop_persisted,
  stop, start, restore,
}
use cap_mesh.LogCapture.Loop.{Event, step}
use cap_mesh.LogCapture.States.{IsConsistent, step-IsConsistent}
use cap_mesh.LogCapture.Starts.{started_lem, Starts-IsConsistent, cancel_job-IsConsistent}

stop-IsConsistent :
    (env : Env) (persists : Bool) (s : Service)
    → IsConsistent s
    → IsConsistent (stop env persists s).2
unfolding stop stop_persisted persist_stopped set_desired_state
stop-IsConsistent env persists s c =
    if_elim (λ (o : Outcome). IsConsistent o.2) (state_eq s.capture.status stopped) (λ _. c)
      (λ _.
        if_elim (λ (p : Option Text × Service). IsConsistent (stop_persisted env p).2)
          (persists && not (is_empty s.capture.run_id))
          (λ _. stored (env.persist s.capture.run_id (text "STOPPED")))
          (λ _. cancel_job-IsConsistent env s c))
  where
    stored :
        (o : Option Text)
        → IsConsistent
            (stop_persisted env
              (o, record s { persisted = (s.capture.run_id, text "STOPPED") ∷ s.persisted })).2
    stored none =
        unfold stop_persisted in
        cancel_job-IsConsistent env
          (record s { persisted = (s.capture.run_id, text "STOPPED") ∷ s.persisted }) c
    stored (some e) = unfold stop_persisted in c

-- A call of the service, or an event of its job.
pub data Call (s : Service) : Service → Type 0 where
  starts :
      (env : Env) (id : Text) (at : Time) (targets : List LogTarget)
      → Call s (start env id at false targets s).2
  restores :
      (env : Env) (id : Text) (at : Time) (targets : List LogTarget)
      → Call s (restore env id at targets s).2
  stops : (env : Env) (persists : Bool) → Call s (stop env persists s).2
  steps : (env : Env) (e : Event) → Call s (step env e s)

pub data Calls (s : Service) : Service → Type 0 where
  no_calls : Calls s s
  one_more : {t u : Service} → Calls s t → Call t u → Calls s u

Call-IsConsistent : {s t : Service} → Call s t → IsConsistent s → IsConsistent t
unfolding restore
Call-IsConsistent {s} (starts env id at targets) c =
    Starts-IsConsistent env id at targets s _ c (started_lem env id at false targets s)
Call-IsConsistent {s} (restores env id at targets) c =
    if_elim (λ (o : Outcome). IsConsistent o.2) (is_empty id || (at == 0)) (λ _. c)
      (λ _. Starts-IsConsistent env id at targets s _ c (started_lem env id at true targets s))
Call-IsConsistent {s} (stops env persists) c = stop-IsConsistent env persists s c
Call-IsConsistent {s} (steps env e) c = step-IsConsistent env e s c

-- After any calls and events, failed ones included: a capture without a job is stopped or has failed,
-- and shows no stream. One with a job runs or is stopping; as long as the job's loop goes on it shows
-- the number of its streams and has met no error, and a running one whose loop is over, or whose job
-- is cancelled, has met an error.
pub Calls-IsConsistent : {s t : Service} → Calls s t → IsConsistent s → IsConsistent t
Calls-IsConsistent no_calls c = c
Calls-IsConsistent (one_more cs call) c = Call-IsConsistent call (Calls-IsConsistent cs c)
