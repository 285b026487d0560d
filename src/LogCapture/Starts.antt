-- ===== src/LogCapture/Starts.antt =====
-- internal/application/logcapture/service.go: what start gives, refused and failed ones included.
use cap_mesh.Prelude.{
  ◌≡◌, ◌≢◌, refl, sym, ◌⊎◌, inl, inr, Bool, true, false, not, List, [], Option, none, some, Result,
  ok, err, length, arith, if_elim, subst, ap, ◌==◌, ◌∷◌,
}
use cap_mesh.Text.{Text}
use cap_mesh.Map.{Map}
use cap_mesh.Domain.{Time}
use cap_mesh.LogCapture.{
  LogTarget, Followed, LogError, already_exists, factory_failed, context_done, bad_recovery,
  reconcile,
}
use cap_mesh.LogCapture.Service.{
  State, stopped, running, stopping, Capture, Job, Service, Env, state_eq, validate, snapshot,
  fresh, Outcome, start_failed, set_desired_state, abandon, begin, follow, record_run,
  mark_starting, start, restore, blank, wait_for_job, cancel_job,
}
use cap_mesh.LogCapture.States.{JobIn, IsConsistent}

-- Where no job runs, what start gives.
abbrev pub Begins : Env → Text → Time → List LogTarget → Option Job → Outcome → Type 0
Begins env id at targets o (c, none, t) =
    (ts : List LogTarget) × (streams : Map Followed) × (validate env targets ≡ ok ts)
    × (reconcile env.resolve ts [] ≡ ok streams)
    × (env.start_recorder id ≡ none)
    × (t.capture.status ≡ running)
    × (t.capture.run_id ≡ id)
    × (t.capture.active_streams ≡ length streams)
    × (t.job
        ≡ some (record {
          targets = ts;
          streams = streams;
          on = true;
          cancelled = false;
          run_err = none;
        }))
Begins env id at targets o (c, some e, t) =
    (t.capture ≡ record (fresh stopped) { message = env.describe e }) × (t.job ≡ o)

start_failed-Begins :
    (env : Env) (id : Text) (at : Time) (targets : List LogTarget) (e : LogError) (s : Service)
    → Begins env id at targets s.job (start_failed env e s)
unfolding start_failed
start_failed-Begins env id at targets e s = (refl, refl)

abandon-Begins :
    (env : Env) (id : Text) (at : Time) (targets : List LogTarget) (recovered : Bool) (e : LogError)
    (s : Service)
    → Begins env id at targets s.job (abandon env id recovered e s)
unfolding abandon start_failed set_desired_state
abandon-Begins env id at targets true e s = (refl, refl)
abandon-Begins env id at targets false e s = (refl, refl)

follow-Begins :
    (env : Env) (id : Text) (at : Time) (recovered : Bool) (targets ts : List LogTarget)
    (s : Service)
    → validate env targets ≡ ok ts
    → env.start_recorder id ≡ none
    → Begins env id at targets s.job (follow env id at recovered ts s)
unfolding follow
follow-Begins env id at recovered targets ts s valid made =
    reconciled_ (reconcile env.resolve ts []) refl
  where
    reconciled_ :
        (r : Result LogError (Map Followed))
        → reconcile env.resolve ts [] ≡ r
        → Begins env id at targets s.job (elim r as (λ _. Outcome) [
          | err e ↦ abandon env id recovered e s
          | ok streams ↦ begin env id at ts streams s
        ])
    reconciled_ (err e) h = abandon-Begins env id at targets recovered e s
    reconciled_ (ok streams) h =
        unfold begin in (ts, streams, valid, h, made, refl, refl, refl, refl)

record_run-Begins :
    (env : Env) (id : Text) (at : Time) (recovered : Bool) (targets ts : List LogTarget)
    (s : Service)
    → validate env targets ≡ ok ts
    → Begins env id at targets s.job (record_run env id at recovered ts s)
unfolding record_run
record_run-Begins env id at recovered targets ts s valid = made (env.start_recorder id) refl
  where
    made :
        (o : Option Text)
        → env.start_recorder id ≡ o
        → Begins env id at targets s.job (elim o as (λ _. Outcome) [
          | some e ↦ start_failed env (factory_failed e) s
          | none ↦ follow env id at recovered ts s
        ])
    made none h = follow-Begins env id at recovered targets ts s valid h
    made (some e) h = start_failed-Begins env id at targets (factory_failed e) s

-- What start gives: refused unless the capture is stopped.
abbrev pub Starts : Env → Text → Time → List LogTarget → Service → Outcome → Type 0
Starts env id at targets s o =
    ((s.capture.status ≢ stopped) × (o ≡ (snapshot env s, some already_exists, s)))
    ⊎ ((s.capture.status ≡ stopped) × Begins env id at targets s.job o)

pub state_eq-stopped : (a : State) → state_eq a stopped ≡ true → a ≡ stopped
state_eq-stopped a h = ground arith

pub started_lem :
    (env : Env) (id : Text) (at : Time) (recovered : Bool) (targets : List LogTarget) (s : Service)
    → Starts env id at targets s (start env id at recovered targets s)
unfolding start
started_lem env id at recovered targets s =
    if_elim (Starts env id at targets s) (not (state_eq s.capture.status stopped))
      (λ other. inl ((λ e. ground (arith, other, e)), refl))
      (λ same. inr (
        state_eq-stopped s.capture.status (ground (arith, same)),
        valid (validate env targets) refl,
      ))
  where
    valid :
        (r : Result LogError (List LogTarget))
        → validate env targets ≡ r
        → Begins env id at targets s.job (elim r as (λ _. Outcome) [
          | err e ↦ start_failed env e (mark_starting targets s)
          | ok ts ↦ record_run env id at recovered ts (mark_starting targets s)
        ])
    valid (err e) h =
        unfold mark_starting in start_failed-Begins env id at targets e (mark_starting targets s)
    valid (ok ts) h =
        unfold mark_starting in
        record_run-Begins env id at recovered targets ts (mark_starting targets s) h

-- What a restore gives: refused without an ID or a time.
abbrev pub Restores : Env → Text → Time → List LogTarget → Service → Outcome → Type 0
Restores env id at targets s o =
    (((id ≡ []) ⊎ (at ≡ 0)) × (o ≡ (fresh blank, some bad_recovery, s)))
    ⊎ ((id ≢ []) × (at ≢ 0) × Starts env id at targets s o)

restored_lem :
    (env : Env) (id : Text) (at : Time) (targets : List LogTarget) (s : Service)
    → Restores env id at targets s (restore env id at targets s)
unfolding restore
restored_lem env [] at targets s = inl (inl refl, refl)
restored_lem env (c ∷ id) at targets s =
    if_elim (Restores env (c ∷ id) at targets s) (at == 0)
      (λ h. inl (inr (ground (arith, h)), refl))
      (λ h. inr (
        (λ e. absurd (cc)),
        (λ e. ground (arith, h, e)),
        started_lem env (c ∷ id) at true targets s,
      ))

-- A restore without an ID or a time is refused, with the capture, its message included, as it was. Any
-- other restore, and any start, of a capture that is not stopped is refused too, and changes nothing.
-- Otherwise, where it has no error, the targets are valid, the recorder has started, and the capture
-- runs under the ID with a stream for each that the first reconcile finds; where it has one, the
-- capture is stopped again, with the error as its message.
pub start-Starts :
    (env : Env) (id : Text) (at : Time) (targets : List LogTarget) (s : Service)
    → Starts env id at targets s (start env id at false targets s)
      × Restores env id at targets s (restore env id at targets s)
start-Starts env id at targets s =
    (started_lem env id at false targets s, restored_lem env id at targets s)

Begins-IsConsistent :
    (env : Env) (id : Text) (at : Time) (targets : List LogTarget) (o : Outcome)
    → Begins env id at targets none o
    → IsConsistent o.2
Begins-IsConsistent env id at targets (c, none, t) (ts, streams, v, r, m, status, i, shown, job) =
    subst (JobIn t.capture) (sym job) (inl status, (λ _. (shown, refl)), λ r o. ground (arith, o))
Begins-IsConsistent env id at targets (c, some e, t) (capture, job) =
    subst (JobIn t.capture) (sym job)
      (inl (ap (λ (c : Capture). c.status) capture), ap (λ (c : Capture). c.active_streams) capture)

-- The job of a capture that is stopped.
pub no_job : (c : Capture) (o : Option Job) → JobIn c o → c.status ≡ stopped → o ≡ none
no_job c none h e = refl
no_job c (some j) h e = absurd (ground (arith, h, e))

pub Starts-IsConsistent :
    (env : Env) (id : Text) (at : Time) (targets : List LogTarget) (s : Service) (o : Outcome)
    → IsConsistent s
    → Starts env id at targets s o
    → IsConsistent o.2
Starts-IsConsistent env id at targets s o c (inl (other, same)) =
    subst (λ (o : Outcome). IsConsistent o.2) (sym same) c
Starts-IsConsistent env id at targets s o c (inr (same, begins)) =
    Begins-IsConsistent env id at targets o (
      subst (λ (j : Option Job). Begins env id at targets j o) (no_job s.capture s.job c same)
        begins)

wait_for_job-service : (env : Env) (s : Service) → (wait_for_job env s).2 ≡ s
unfolding wait_for_job
wait_for_job-service env s = at_expiry env.expires
  where
    at_expiry :
        (o : Option Text)
        → (elim o as (λ _. Outcome) [
          | none ↦ (snapshot env s, none, s)
          | some e ↦ (snapshot env s, some (context_done e), s)
        ]).2
          ≡ s
    at_expiry none = refl
    at_expiry (some e) = refl

pub cancel_job-IsConsistent :
    (env : Env) (s : Service) → IsConsistent s → IsConsistent (cancel_job env s).2
unfolding cancel_job
cancel_job-IsConsistent env s c = at_job s.job refl c
  where
    at_job :
        (o : Option Job)
        → s.job ≡ o
        → JobIn s.capture o
        → IsConsistent
            (elim o as (λ _. Outcome) [
              | none ↦
                  (let t = record s { capture = record s.capture { status = stopped } } in
                    (snapshot env t, none, t))
              | some j ↦ wait_for_job env (record s {
                capture = record s.capture { status = stopping };
                job = some (record j { cancelled = true });
              })
            ]).2
    at_job none h (st, shown) =
        subst (JobIn (record s.capture { status = stopped })) (sym h) (inl refl, shown)
    at_job (some j) h (st, shows, fails) =
        let t : Service = record s {
          capture = record s.capture { status = stopping };
          job = some (record j { cancelled = true });
        } in
        let k : IsConsistent t = (inr (refl, refl), shows, λ r. absurd (cc)) in
        subst IsConsistent (sym (wait_for_job-service env t)) k
