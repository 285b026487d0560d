-- ===== src/LogCapture/States.antt =====
-- internal/application/logcapture/service.go: the states of a capture of workload logs, and its job.
use cap_mesh.Prelude.{
  ◌≡◌, refl, sym, ◌⊎◌, inl, inr, Bool, true, false, ◌&&◌, ◌||◌, [], Option, none, some, is_some,
  Result, ok, err, length, arith, if_elim, subst,
}
use cap_mesh.Text.{Text}
use cap_mesh.Map.{Map}
use cap_mesh.LogCapture.{Followed, LogError, reconcile}
use cap_mesh.LogCapture.Service.{
  State, stopped, running, stopping, failed, Capture, Job, Service, Env, state_eq,
}
use cap_mesh.LogCapture.Loop.{
  wrote, ticked, cancelled_seen, drained, closed, set_streams, set_message, job_done, joined, Event,
  reconciled, job_event, step,
}

-- Without a job the capture is stopped or has failed. With one it runs or is stopping. Its loop runs on
-- until its context is cancelled, by a stop or by an error, and shows its streams as long as it runs.
abbrev pub JobIn : Capture → Option Job → Type 0
JobIn c none = ((c.status ≡ stopped) ⊎ (c.status ≡ failed)) × (c.active_streams ≡ 0)
JobIn c (some j) =
    ((c.status ≡ running) ⊎ ((c.status ≡ stopping) × (j.cancelled ≡ true)))
    × ((j.on ≡ true) → (c.active_streams ≡ length j.streams) × (j.run_err ≡ none))
    × ((c.status ≡ running) → (j.on ≡ false) ⊎ (j.cancelled ≡ true) → is_some j.run_err ≡ true)

abbrev pub IsConsistent : Service → Type 0
IsConsistent s = JobIn s.capture s.job

-- A job that is cancelled may be stopping.
stays_cancelled :
    (a : State) (c : Bool)
    → (a ≡ running) ⊎ ((a ≡ stopping) × (c ≡ true))
    → (a ≡ running) ⊎ ((a ≡ stopping) × (true ≡ true))
stays_cancelled a c (inl h) = inl h
stays_cancelled a c (inr (h, k)) = inr (h, refl)

set_message-IsConsistent :
    (m : Text) (s : Service) → IsConsistent s → IsConsistent (set_message m s)
unfolding set_message
set_message-IsConsistent m s c =
    if_elim IsConsistent (state_eq s.capture.status running) (λ _. relabelled s.job c) (λ _. c)
  where
    relabelled : (o : Option Job) → JobIn s.capture o → JobIn (record s.capture { message = m }) o
    relabelled none c = c
    relabelled (some j) c = c

reconciled-IsConsistent :
    (env : Env) (j : Job) (r : Result LogError (Map Followed)) (s : Service)
    → s.job ≡ some j
    → j.on ≡ true
    → JobIn s.capture (some j)
    → IsConsistent (reconciled env j r s)
unfolding reconciled set_streams
reconciled-IsConsistent env j (err e) s h on c =
    set_message-IsConsistent (env.describe e) s (subst (JobIn s.capture) (sym h) c)
reconciled-IsConsistent env j (ok streams) s h on (st, shows, fails) =
    set_message-IsConsistent []
      (set_streams (length streams) (record s { job = some (record j { streams = streams }) }))
      (st, (λ _. (refl, (shows on).1)), fails)

job_done-IsConsistent :
    (env : Env) (e : Option Text) (s : Service) → IsConsistent (job_done env e s)
unfolding job_done
job_done-IsConsistent env none s = (inl refl, refl)
job_done-IsConsistent env (some e) s = (inr refl, refl)

job_event-IsConsistent :
    (env : Env) (e : Event) (j : Job) (s : Service)
    → s.job ≡ some j
    → JobIn s.capture (some j)
    → IsConsistent (job_event env e j s)
unfolding job_event
job_event-IsConsistent env (wrote none) j s h c = subst (JobIn s.capture) (sym h) c
job_event-IsConsistent env (wrote (some e)) j s h (st, shows, fails) =
    if_elim IsConsistent j.on
      (λ on. (stays_cancelled s.capture.status j.cancelled st, (λ f. absurd (cc)), λ r o. refl))
      (λ off. subst (JobIn s.capture) (sym h) (st, shows, fails))
job_event-IsConsistent env ticked j s h (st, shows, fails) =
    if_elim IsConsistent j.on
      (λ on.
        reconciled-IsConsistent env j (reconcile env.resolve j.targets j.streams) s h on
          (st, shows, fails))
      (λ off. subst (JobIn s.capture) (sym h) (st, shows, fails))
job_event-IsConsistent env cancelled_seen j s h (st, shows, fails) =
    if_elim IsConsistent (j.on && j.cancelled)
      (λ on. (
        stays_cancelled s.capture.status j.cancelled st,
        (λ f. absurd (cc)),
        λ r o. fails r (inr (ground (arith, on))),
      ))
      (λ off. subst (JobIn s.capture) (sym h) (st, shows, fails))
job_event-IsConsistent env (drained e) j s h (st, shows, fails) =
    if_elim IsConsistent (j.on || is_some j.run_err)
      (λ off. subst (JobIn s.capture) (sym h) (st, shows, fails))
      (λ on. (
        st,
        (λ on'. absurd (ground (arith, on, on'))),
        λ r o. absurd (ground (arith, on, fails r o)),
      ))
job_event-IsConsistent env (closed e) j s h (st, shows, fails) =
    if_elim IsConsistent j.on (λ on. subst (JobIn s.capture) (sym h) (st, shows, fails))
      (λ off. job_done-IsConsistent env (joined j.run_err e) (set_streams 0 s))

pub step-IsConsistent :
    (env : Env) (e : Event) (s : Service) → IsConsistent s → IsConsistent (step env e s)
unfolding step
step-IsConsistent env e s c = at_job s.job refl
  where
    at_job :
        (o : Option Job)
        → s.job ≡ o
        → IsConsistent (elim o as (λ _. Service) [ none ↦ s | some j ↦ job_event env e j s ])
    at_job none h = c
    at_job (some j) h = job_event-IsConsistent env e j s h (subst (JobIn s.capture) h c)
