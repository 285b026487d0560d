-- ===== src/Continuous/States.antt =====
-- The states of internal/application/continuous/service.go and the session behind them.
use cap_mesh.Prelude.{
  ◌≡◌, ◌≢◌, refl, sym, subst, true, false, none, Result, ok, err, ◌⊎◌, arith, is_ok,
}
use cap_mesh.Text.{Text, is_empty}
use cap_mesh.Domain.{Session}
use cap_mesh.Session.Targets.{SessionError}
use cap_mesh.Session.Sources.{Env}
use cap_mesh.Session.Service.{World}
use cap_mesh.Session.Stop.{stop_session}
use cap_mesh.Session.Stop.Outcome.{HasEnded, stop_session-HasEnded}
use cap_mesh.Session.Advance.{IsKeyed}
use cap_mesh.Continuous.{
  stopped, running, failed, Service, Setup, StartInput, restore, start, conclude_start,
  conclude_stop, conclude_stopped, mark_starting, mark_stopping, stop, get, recording_completed,
  run_pending,
}

-- Between two calls the capture is stopped, running or failed.
abbrev pub IsSettled : Service → Type 0
IsSettled c = (c.state.status ≡ stopped) ⊎ ((c.state.status ≡ running) ⊎ (c.state.status ≡ failed))

-- One call of the service or one run of its goroutine.
pub data Call : Service → Service → Type 0 where
  on_restore : (s : Session) (c : Service) → Call c (restore s c).0
  on_start :
      (env : Env) (setup : Setup) (input : StartInput) (c : Service)
      → Call c (start env setup input c).0
  on_stop : (env : Env) (setup : Setup) (c : Service) → Call c (stop env setup c).0
  on_get : (c : Service) → Call c (get c)
  on_completed :
      (id status message : Text) (c : Service) → Call c (recording_completed id status message c)
  on_pending : (env : Env) (c : Service) → Call c (run_pending env c)

pub data Calls : Service → Service → Type 0 where
  no_calls : {c : Service} → Calls c c
  one_more : {a b c : Service} → Call a b → Calls b c → Calls a c

start-IsSettled :
    (env : Env) (setup : Setup) (input : StartInput) (c : Service)
    → IsSettled c
    → IsSettled (start env setup input c).0
unfolding start conclude_start mark_starting
start-IsSettled env setup input c h = ground arith

restore-IsSettled : (s : Session) (c : Service) → IsSettled c → IsSettled (restore s c).0
unfolding restore
restore-IsSettled s c h = ground arith

stop-IsSettled :
    (env : Env) (setup : Setup) (c : Service) → IsSettled c → IsSettled (stop env setup c).0
unfolding stop conclude_stop conclude_stopped mark_stopping
stop-IsSettled env setup c h = ground arith

get-IsSettled : (c : Service) → IsSettled c → IsSettled (get c)
unfolding get
get-IsSettled c h = ground arith

recording_completed-IsSettled :
    (id status message : Text) (c : Service)
    → IsSettled c
    → IsSettled (recording_completed id status message c)
unfolding recording_completed
recording_completed-IsSettled id status message c h = ground arith

run_pending-IsSettled : (env : Env) (c : Service) → IsSettled c → IsSettled (run_pending env c)
unfolding run_pending
run_pending-IsSettled env c h = ground arith

Call-IsSettled : {a b : Service} → Call a b → IsSettled a → IsSettled b
Call-IsSettled (on_restore s c) h = restore-IsSettled s c h
Call-IsSettled (on_start env setup input c) h = start-IsSettled env setup input c h
Call-IsSettled (on_stop env setup c) h = stop-IsSettled env setup c h
Call-IsSettled (on_get c) h = get-IsSettled c h
Call-IsSettled (on_completed id status message c) h =
    recording_completed-IsSettled id status message c h
Call-IsSettled (on_pending env c) h = run_pending-IsSettled env c h

-- After any calls from a capture that is STOPPED, RUNNING or FAILED it is so again: no call leaves it
-- STARTING or STOPPING, as Start and Stop set it meanwhile.
pub Calls-IsSettled : {a b : Service} → Calls a b → IsSettled a → IsSettled b
Calls-IsSettled no_calls h = h
Calls-IsSettled (one_more c cs) h = Calls-IsSettled cs (Call-IsSettled c h)

conclude_stop-HasEnded :
    (env : Env) (setup : Setup) (c : Service) (id : Text) (p : World × Result SessionError Session)
    → (is_ok p.1 ≡ true → HasEnded id p.0)
    → (conclude_stop env setup c p).1 ≡ none
    → ((conclude_stop env setup c p).0.state.status ≡ stopped)
      × HasEnded id (conclude_stop env setup c p).0.world
unfolding conclude_stop conclude_stopped
conclude_stop-HasEnded env setup c id (w, ok s) ended h = (refl, ended refl)
conclude_stop-HasEnded env setup c id (w, err e) ended h = absurd (ground arith)

-- Stop of a capture that is not STOPPED, where it reports no error: the capture is STOPPED, and its
-- session is in the repository and has ended. The sessions are under their IDs.
pub stop-HasEnded :
    (env : Env) (setup : Setup) (c : Service)
    → IsKeyed c.world
    → c.state.status ≢ stopped
    → is_empty c.state.session_id ≡ false
    → (stop env setup c).1 ≡ none
    → ((stop env setup c).0.state.status ≡ stopped)
      × HasEnded c.state.session_id (stop env setup c).0.world
unfolding stop
stop-HasEnded env setup c k active named h =
    subst (λ q. (q.1 ≡ none) → (q.0.state.status ≡ stopped) × HasEnded c.state.session_id q.0.world)
      (sym same)
      (conclude_stop-HasEnded env setup (mark_stopping c) c.state.session_id
        (stop_session env c.state.session_id c.world)
        (stop_session-HasEnded env c.state.session_id c.world (λ s f. k.0 c.state.session_id s f)))
      h
  where
    same :
        stop env setup c
        ≡ conclude_stop env setup (mark_stopping c) (stop_session env c.state.session_id c.world)
    same = ground arith
