-- ===== src/LogCapture/Stops.antt =====
-- internal/application/logcapture/service.go: stop, and the end of the job that it cancels.
use cap_mesh.Prelude.{
  ◌≡◌, ◌≢◌, ◌∙◌, is_some, ap, refl, sym, ◌⊎◌, inl, inr, Bool, true, false, not, ◌&&◌, ◌||◌, List,
  [], ◌∷◌, Option, none, some, is_some, arith, if_elim, subst,
}
use cap_mesh.Text.{Text, text, is_empty}
use cap_mesh.LogCapture.{not_persisted, context_done}
use cap_mesh.LogCapture.Service.{
  stopped, stopping, failed, Job, Service, Env, state_eq, snapshot, Outcome, set_desired_state,
  wait_for_job, cancel_job, persist_stopped, stop_persisted, stop,
}
use cap_mesh.LogCapture.Loop.{
  cancelled_seen, drained, closed, set_streams, job_done, joined, Event, job_event, step,
}
use cap_mesh.LogCapture.States.{JobIn, IsConsistent, step-IsConsistent}
use cap_mesh.LogCapture.Starts.{no_job, state_eq-stopped}

-- The end of a job: its loop sees that it is cancelled, the records that are left are written, and the
-- recorder is closed.
abbrev pub drain : Env → List (Option Text) → Service → Service
drain env [] s = s
drain env (e ∷ es) s = drain env es (step env (drained e) s)

abbrev pub wind_down : Env → List (Option Text) → Option Text → Service → Service
wind_down env es e s = step env (closed e) (drain env es (step env cancelled_seen s))

abbrev pub IsIdle : Service → Type 0
IsIdle s = (s.job ≡ none) × ((s.capture.status ≡ stopped) ⊎ (s.capture.status ≡ failed))

-- The loop of the job is over, if there is one.
abbrev IsOverIn : Option Job → Type 0
IsOverIn none = Unit
IsOverIn (some j) = j.on ≡ false

abbrev IsOver : Service → Type 0
IsOver s = IsOverIn s.job

abbrev IsCancelledIn : Option Job → Type 0
IsCancelledIn none = Unit
IsCancelledIn (some j) = j.cancelled ≡ true

step-cases :
    (P : Service → Type 0) (env : Env) (e : Event) (s : Service)
    → (s.job ≡ none → P s)
    → ((j : Job) → s.job ≡ some j → P (job_event env e j s))
    → P (step env e s)
unfolding step
step-cases P env e s idle busy = at_job s.job refl
  where
    at_job :
        (o : Option Job)
        → s.job ≡ o
        → P (elim o as (λ _. Service) [ none ↦ s | some j ↦ job_event env e j s ])
    at_job none h = idle h
    at_job (some j) h = busy j h

cancelled_seen-IsOver :
    (env : Env) (s : Service) → IsCancelledIn s.job → IsOver (step env cancelled_seen s)
unfolding job_event
cancelled_seen-IsOver env s c =
    step-cases IsOver env cancelled_seen s (λ h. subst IsOverIn (sym h) tt)
      (λ j h.
        if_elim IsOver (j.on && j.cancelled) (λ _. refl)
          (λ off. subst IsOverIn (sym h) (ground (arith, off, subst IsCancelledIn h c))))

drained-IsOver :
    (env : Env) (e : Option Text) (s : Service) → IsOver s → IsOver (step env (drained e) s)
unfolding job_event
drained-IsOver env e s o =
    step-cases IsOver env (drained e) s (λ h. o)
      (λ j h. if_elim IsOver (j.on || is_some j.run_err) (λ _. o) (λ _. subst IsOverIn h o))

drain-IsOver :
    (env : Env) (es : List (Option Text)) (s : Service) → IsOver s → IsOver (drain env es s)
drain-IsOver env [] s o = o
drain-IsOver env (e ∷ es) s o =
    drain-IsOver env es (step env (drained e) s) (drained-IsOver env e s o)

drain-IsConsistent :
    (env : Env) (es : List (Option Text)) (s : Service)
    → IsConsistent s
    → IsConsistent (drain env es s)
drain-IsConsistent env [] s c = c
drain-IsConsistent env (e ∷ es) s c =
    drain-IsConsistent env es (step env (drained e) s) (step-IsConsistent env (drained e) s c)

job_done-IsIdle : (env : Env) (e : Option Text) (s : Service) → IsIdle (job_done env e s)
unfolding job_done
job_done-IsIdle env none s = (refl, inl refl)
job_done-IsIdle env (some e) s = (refl, inr refl)

closed-IsIdle :
    (env : Env) (e : Option Text) (s : Service)
    → IsConsistent s
    → IsOver s
    → IsIdle (step env (closed e) s)
unfolding job_event
closed-IsIdle env e s c o =
    step-cases IsIdle env (closed e) s (λ h. (h, (subst (JobIn s.capture) h c).0))
      (λ j h.
        if_elim IsIdle j.on (λ on. absurd (ground (arith, on, subst IsOverIn h o)))
          (λ _. job_done-IsIdle env (joined j.run_err e) (set_streams 0 s)))

wind_down-IsIdle :
    (env : Env) (es : List (Option Text)) (e : Option Text) (s : Service)
    → IsConsistent s
    → IsCancelledIn s.job
    → IsIdle (wind_down env es e s)
wind_down-IsIdle env es e s c k =
    closed-IsIdle env e (drain env es (step env cancelled_seen s))
      (drain-IsConsistent env es (step env cancelled_seen s)
        (step-IsConsistent env cancelled_seen s c))
      (drain-IsOver env es (step env cancelled_seen s) (cancelled_seen-IsOver env s k))

-- That the desired state is stored, where it has to be.
abbrev Stores : Bool → Env → Service → Type 0
Stores persists env s =
    (persists ≡ true)
    → (is_empty s.capture.run_id ≡ false)
    → (s.capture.status ≢ stopped)
    → env.persist s.capture.run_id (text "STOPPED") ≡ none

abbrev WindsDown : Env → Service → Type 0
WindsDown env t = (es : List (Option Text)) (e : Option Text) → IsIdle (wind_down env es e t)

-- What stop gives of a capture: an error of the store, one of the call's context, or none.
abbrev pub Stops : Bool → Env → Service → Outcome → Type 0
Stops persists env s (c, some (not_persisted f), t) =
    (t.capture ≡ s.capture)
    × (t.job ≡ s.job)
    × (persists ≡ true)
    × (env.persist s.capture.run_id (text "STOPPED") ≡ some f)
Stops persists env s (c, some (context_done f), t) =
    (is_some s.job ≡ true)
    × (env.expires ≡ some f)
    × (t.capture.status ≡ stopping)
    × WindsDown env t
    × Stores persists env s
Stops persists env s (c, some other, t) = ⊥
Stops persists env s (c, none, t) =
    WindsDown env t × Stores persists env s × ((s.job ≡ none) ⊎ (env.expires ≡ none))

-- What cancel_job gives, where it has to wind a job down.
cancel_job-Stops :
    (persists : Bool) (env : Env) (s u : Service)
    → IsConsistent u
    → u.job ≡ s.job
    → Stores persists env s
    → Stops persists env s (cancel_job env u)
unfolding cancel_job wait_for_job
cancel_job-Stops persists env s u c same stores = at_job u.job refl c
  where
    waited :
        (t : Service)
        → is_some s.job ≡ true
        → t.capture.status ≡ stopping
        → WindsDown env t
        → (o : Option Text) → env.expires ≡ o
        → Stops persists env s (elim o as (λ _. Outcome) [
          | none ↦ (snapshot env t, none, t)
          | some e ↦ (snapshot env t, some (context_done e), t)
        ])
    waited t b k w none h = (w, stores, inr h)
    waited t b k w (some e) h = (b, h, k, w, stores)

    at_job :
        (o : Option Job)
        → u.job ≡ o
        → JobIn u.capture o
        → Stops persists env s (elim o as (λ _. Outcome) [
          | none ↦
              (let t = record u { capture = record u.capture { status = stopped } } in
                (snapshot env t, none, t))
          | some j ↦ wait_for_job env (record u {
            capture = record u.capture { status = stopping };
            job = some (record j { cancelled = true });
          })
        ])
    at_job none h (st, shown) =
        let t : Service = record u { capture = record u.capture { status = stopped } } in
        (
          (λ es e.
              wind_down-IsIdle env es e t (subst (JobIn t.capture) (sym h) (inl refl, shown))
                (subst IsCancelledIn (sym h) tt)),
          stores,
          inl (sym same ∙ h),
        )
    at_job (some j) h (st, shows, fails) =
        let t : Service = record u {
          capture = record u.capture { status = stopping };
          job = some (record j { cancelled = true });
        } in
        waited t (ap (λ (o : Option Job). is_some o) (sym same ∙ h)) refl
          (λ es e. wind_down-IsIdle env es e t (inr (refl, refl), shows, λ r. absurd (cc)) refl)
          env.expires refl

stop_persisted-Stops :
    (persists : Bool) (env : Env) (s : Service)
    → IsConsistent s
    → Stops persists env s (stop_persisted env (persist_stopped env persists s))
unfolding persist_stopped set_desired_state
stop_persisted-Stops persists env s c =
    if_elim (λ (p : Option Text × Service). Stops persists env s (stop_persisted env p))
      (persists && not (is_empty s.capture.run_id))
      (λ needed.
        stored (ground (arith, needed)) (env.persist s.capture.run_id (text "STOPPED")) refl)
      (λ needless.
        unfold stop_persisted in
        cancel_job-Stops persists env s s c refl (λ p i o. absurd (ground (arith, needless, p, i))))
  where
    stored :
        (persists ≡ true)
        → (o : Option Text) → env.persist s.capture.run_id (text "STOPPED") ≡ o
        → Stops persists env s (
            stop_persisted env
              (o, record s { persisted = (s.capture.run_id, text "STOPPED") ∷ s.persisted }))
    stored p none h =
        unfold stop_persisted in
        cancel_job-Stops persists env s
          (record s { persisted = (s.capture.run_id, text "STOPPED") ∷ s.persisted }) c refl
          (λ q i o. h)
    stored p (some e) h = unfold stop_persisted in (refl, refl, p, h)

-- A stop, of a consistent capture in any state, reports one of two errors or none. Where the desired
-- state had to be stored and could not be, that is the error, and the capture and its job are as they
-- were. Otherwise the desired state of a run that was not stopped is stored, if it has to be, and
-- once the job has seen that it is cancelled, has written any records that are left and is closed,
-- with any errors of these calls, no job is left and the capture is stopped or has failed. This holds
-- also where a job runs and the context of the call is done before it is, which is then the error,
-- with the capture still stopping.
pub stop-Stops :
    (env : Env) (persists : Bool) (s : Service)
    → IsConsistent s
    → Stops persists env s (stop env persists s)
unfolding stop
stop-Stops env persists s c =
    if_elim (Stops persists env s) (state_eq s.capture.status stopped)
      (λ same.
        let ended = state_eq-stopped s.capture.status same in
        (
          (λ es e.
              wind_down-IsIdle env es e s c
                (subst IsCancelledIn (sym (no_job s.capture s.job c ended)) tt)),
          (λ p i other. absurd (other ended)),
          inl (no_job s.capture s.job c ended),
        ))
      (λ _. stop_persisted-Stops persists env s c)
