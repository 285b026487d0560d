-- ===== src/Session/Advance/Resume.antt =====
-- internal/application/session/service.go: Stop, Restore and the agents' handlers, and every sequence
-- of operations of the service.
use cap_mesh.Prelude.{
  ◌≡◌, refl, ap, sym, ◌∙◌, subst, ◌||◌, [], Option, none, some, if◌then◌else◌, arith, Result, ok,
  err, if_elim, ◌==◌, length,
}
use cap_mesh.Text.{Text, text, text_eq, text_eq_refl, is_empty}
use cap_mesh.Map
use cap_mesh.Map.{Map, lookup-contains, lookup_head, lookup_tail, lookup-insert, insert-IsDistinct}
use cap_mesh.Ports.{PortError}
use cap_mesh.Domain.{
  Session, CaptureSource, CaptureTarget, SessionStatus, status_eq, mode_eq, continuous,
  TransitionError, transition, transition_or_same,
}
use cap_mesh.Domain
use cap_mesh.Domain.Lifecycle.{Leads, transition-Leads, transition-id}
use cap_mesh.Repository
use cap_mesh.Session.Targets.{SessionError, port, store_failed, bad_transition}
use cap_mesh.Session.Sources.{Env, stopped}
use cap_mesh.Session.Service.{World, save, set_desired_state, close_packets, remove_runtime}
use cap_mesh.Session.Advance.{
  IsKeyed, Advances, Advances-same, Advances-refl, Advances-trans, save-Advances, save-lookup,
}
use cap_mesh.Session.Create.{open_session}
use cap_mesh.Session.Stop.{stop_session, finish_stop, conclude_stop, stop_agents, has_ended}
use cap_mesh.Session.Nodes.{reconcile_recovered}
use cap_mesh.Session.Restore.{restore, resume}
use cap_mesh.Session.Advance.Quiet.{set_desired_state-quiet, stop_agents-quiet}
use cap_mesh.Session.Advance.Running.{save_transition, reconcile_recovered-Advances}
use cap_mesh.Session.Advance.Open.{Opens, open_session-Opens}
use cap_mesh.Session.Restore.{is_expired}
use cap_mesh.Session.Nodes.{recovering}

conclude_stop-save :
    (s : Session) (w : World)
    → (conclude_stop s w).0 ≡ save (transition_or_same Domain.stopped s) (close_packets s.id w)
unfolding conclude_stop save Repository.update_or_same
conclude_stop-save s w = ground arith

finish_stop-Advances :
    (env : Env) (s t : Session) (w : World)
    → Map.lookup s.id w.sessions ≡ some s
    → t.id ≡ s.id
    → Leads s.status t.status
    → Advances w (finish_stop env t w).0
unfolding finish_stop remove_runtime
finish_stop-Advances env s t w f i l = Advances-trans (save-Advances t w s found l) (
    subst (Advances w1) (sym (conclude_stop-save t w3)) (
      save_transition Domain.stopped t (transition_or_same Domain.stopped t) w1
        (close_packets t.id w3)
        (stop_agents-quiet env t (Map.lookup t.id w1.runtime) (remove_runtime t.id w1))
        (save-lookup t w s t.id found ∙ self) refl refl))
  where
    w1 : World
    w1 = save t w

    w3 : World
    w3 = stop_agents env t (Map.lookup t.id w1.runtime) (remove_runtime t.id w1)

    found : Map.lookup t.id w.sessions ≡ some s
    found = ap (λ j. Map.lookup j w.sessions) i ∙ f

    self : (if text_eq t.id t.id then some t else Map.lookup t.id w.sessions) ≡ some t
    self = ground (arith, text_eq_refl t.id)

transition_ok :
    (n : SessionStatus) (s t : Session) → transition n s ≡ ok t → transition_or_same n s ≡ t
unfolding transition_or_same
transition_ok n s t h = ground arith

get_ok :
    (id : Text) (m : Repository.Repository) (s : Session)
    → Repository.get id m ≡ ok s
    → Map.lookup id m ≡ some s
unfolding Repository.get
get_ok id m s h = ground arith

-- What Stop does with the result of the change to STOPPING.
abbrev after_change :
    Env → World → Result TransitionError Session → World × Result SessionError Session
after_change env w r = elim r [ err _ ↦ (w, err bad_transition) | ok t ↦ finish_stop env t w ]

after_change-Advances :
    (env : Env) (s : Session) (w : World) (r : Result TransitionError Session)
    → Map.lookup s.id w.sessions ≡ some s
    → transition Domain.stopping s ≡ r
    → Advances w (after_change env w r).0
after_change-Advances env s w (err e) f h = Advances-refl
after_change-Advances env s w (ok t) f h =
    let same = transition_ok Domain.stopping s t h in
    finish_stop-Advances env s t w f
      (ap (λ (x : Session). x.id) (sym same) ∙ transition-id Domain.stopping s)
      (subst (λ (x : Session). Leads s.status x.status) same (transition-Leads Domain.stopping s))

pub stop_session-Advances :
    (env : Env) (id : Text) (w : World) → IsKeyed w → Advances w (stop_session env id w).0
unfolding stop_session
stop_session-Advances env id w k = by_found (Repository.get id w.sessions) refl
  where
    w1 : World
    w1 = (set_desired_state env id stopped w).0

    quiet : w1.sessions ≡ w.sessions
    quiet = set_desired_state-quiet env id stopped w

    after_store : Session → Option Text → World × Result SessionError Session
    after_store s r = elim r [
      | some e ↦ (w1, err (store_failed e))
      | none ↦ after_change env w1 (transition Domain.stopping s)
    ]

    by_store :
        (s : Session)
        → Map.lookup id w.sessions ≡ some s
        → (r : Option Text) → Advances w (after_store s r).0
    by_store s f none = Advances-trans (Advances-same quiet) (
        after_change-Advances env s w1 (transition Domain.stopping s)
          (ap (Map.lookup s.id) quiet ∙ (ap (λ j. Map.lookup j w.sessions) (k.0 id s f) ∙ f)) refl)
    by_store s f (some e) = Advances-same quiet

    after_found : Result PortError Session → World × Result SessionError Session
    after_found r = elim r [
      | err e ↦ (w, err (port e))
      | ok s ↦
          if has_ended s.status
          then (w, ok s)
          else after_store s (set_desired_state env id stopped w).1
    ]

    Moves : World × Result SessionError Session → Type 0
    Moves p = Advances w p.0

    by_found :
        (r : Result PortError Session)
        → Repository.get id w.sessions ≡ r
        → Advances w (after_found r).0
    by_found (err e) f = Advances-refl
    by_found (ok s) f =
        if_elim Moves (has_ended s.status) (λ _. Advances-refl)
          (λ _. by_store s (get_ok id w.sessions s f) (set_desired_state env id stopped w).1)

resume-Advances :
    (env : Env) (s : Session) (w : World)
    → Map.lookup s.id w.sessions ≡ some s
    → IsKeyed w
    → Advances w (resume env s w).0
unfolding resume
resume-Advances env s w f k =
    Advances-trans first (Advances-trans second (Advances-same (ground (arith))))
  where
    t : Session
    t = transition_or_same Domain.running s

    w0 : World
    w0 = record w { runtime = Map.insert t.id [] w.runtime }

    first : Advances w (save t w0)
    first = save_transition Domain.running s t w w0 refl f refl refl

    second : Advances (save t w0) (reconcile_recovered env t.id (save t w0))
    second = reconcile_recovered-Advances env t.id (save t w0) (first.keeps_keys k)

pub restore-Advances :
    (env : Env) (s : Session) (w : World) → IsKeyed w → Advances w (restore env s w).0
unfolding restore
restore-Advances env s w k =
    if_elim Moves (is_empty s.id || (length s.targets == 0) || (s.snaplen == 0))
      (λ _. Advances-refl)
      (λ _.
        if_elim Moves (is_expired env.now s)
          (λ _. Advances-same (set_desired_state-quiet env s.id stopped w))
          (λ _.
            by_opened (open_session env (text "restore recorder: ") t w)
              (open_session-Opens env (text "restore recorder: ") t w)))
  where
    t : Session
    t = record s { status = Domain.starting; message = recovering }

    Moves : World × Result SessionError Session → Type 0
    Moves p = Advances w p.0

    after_open : World × Result SessionError (Unit {0}) → World × Result SessionError Session
    after_open (w1, r) = elim r [ err e ↦ (w1, err e) | ok _ ↦ resume env t w1 ]

    by_opened :
        (p : World × Result SessionError (Unit {0})) → Opens t w p → Advances w (after_open p).0
    by_opened (w1, err e) (a, f) = a
    by_opened (w1, ok u) (a, f) =
        Advances-trans a (resume-Advances env t w1 (f refl) (a.keeps_keys k))
