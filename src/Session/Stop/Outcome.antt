-- ===== src/Session/Stop/Outcome.antt =====
-- Stop of internal/application/session/service.go: what it leaves on each of its ways out.
use cap_mesh.Prelude.{
  ◌≡◌, refl, ap, ◌∙◌, ◌⊎◌, inl, inr, true, false, none, some, arith, Bool-cases, Option-cases, ok,
  is_ok, subst,
}
use cap_mesh.Text.{Text, contains}
use cap_mesh.Map
use cap_mesh.Map.{Map, lookup-insert, lookup-delete, lookup-insert_self, lookup-delete_self}
use cap_mesh.Domain.{Session, SessionStatus, CaptureSource, transition, transition_or_same}
use cap_mesh.Domain
use cap_mesh.Repository
use cap_mesh.Session.Sources.{Env, Desired, stopped}
use cap_mesh.Session.Service.{World, set_desired_state, save, remove_runtime}
use cap_mesh.Session.Stop.{stop_session, finish_stop, stop_agents, conclude_stop, has_ended}
use cap_mesh.Session.Stop.Same.{
  SameState, contains-remove, stop_agents-SameState, set_desired_state-SameState,
}

-- The session has stopped, and nothing of it runs.
abbrev pub HasStopped : Session → World → Type 0
HasStopped s w =
    (Map.lookup s.id w.sessions ≡ some (record s { status = Domain.stopped }))
    × (Map.lookup s.id w.runtime ≡ none)
    × (contains w.opened s.id ≡ false)
    × (contains w.loops s.id ≡ false)

-- The session of a Stop, and the runtime that it takes down.
abbrev pub IsActive : Session → World → Type 0
IsActive s w = (Map.lookup s.id w.sessions ≡ some s) × (has_ended s.status ≡ false)

conclude_stop-HasStopped :
    (s : Session) (w : World) (old : Session)
    → s.status ≡ Domain.stopping
    → Map.lookup s.id w.sessions ≡ some old
    → Map.lookup s.id w.runtime ≡ none
    → contains w.loops s.id ≡ false
    → HasStopped s (conclude_stop s w).0
      × ((conclude_stop s w).1 ≡ ok (record s { status = Domain.stopped }))
unfolding conclude_stop
conclude_stop-HasStopped s w old e found r l = ground (
  arith,
  contains-remove s.id w.opened,
  lookup-insert_self s.id (record s { status = Domain.stopped }) w.sessions,
)

save-lookup :
    (s : Session) (w : World) (old : Session)
    → Map.lookup s.id w.sessions ≡ some old
    → Map.lookup s.id (save s w).sessions ≡ some s
unfolding save Repository.update_or_same
save-lookup s w old found = ground (arith, lookup-insert_self s.id s w.sessions)

finish_stop-HasStopped :
    (env : Env) (s : Session) (w : World) (old : Session)
    → s.status ≡ Domain.stopping
    → Map.lookup s.id w.sessions ≡ some old
    → HasStopped s (finish_stop env s w).0
      × ((finish_stop env s w).1 ≡ ok (record s { status = Domain.stopped }))
unfolding finish_stop
finish_stop-HasStopped env s w old e found =
    conclude_stop-HasStopped s (stop_agents env s (Map.lookup s.id w1.runtime) w2) s e
      (ap (Map.lookup s.id) same.0 ∙ save-lookup s w old found)
      (ap (Map.lookup s.id) same.1 ∙ lookup-delete_self s.id w1.runtime)
      (ap (λ l. contains l s.id) same.3 ∙ contains-remove s.id w1.loops)
  where
    w1 : World
    w1 = save s w

    w2 : World
    w2 = remove_runtime s.id w1

    same : SameState w2 (stop_agents env s (Map.lookup s.id w1.runtime) w2)
    same = stop_agents-SameState env s (Map.lookup s.id w1.runtime) w2

refused :
    (env : Env) (id : Text) (d : Desired) (w : World) (e : Text)
    → (set_desired_state env id d w).1 ≡ some e
    → (set_desired_state env id d w).0 ≡ w
unfolding set_desired_state
refused env id d w e h = ground arith

pub active_stopping :
    (s : Session)
    → has_ended s.status ≡ false
    → transition Domain.stopping s ≡ ok (record s { status = Domain.stopping })
unfolding transition
active_stopping s h = ground arith

-- Stop of a session that has not ended, where the desired state is stored: it succeeds, the session is
-- STOPPED in the repository and in the result with all else as it was, and it has no runtime, no
-- pipeline and no reconcile loop.
pub stop_session-HasStopped :
    (env : Env) (w : World) (s : Session)
    → IsActive s w
    → (set_desired_state env s.id stopped w).1 ≡ none
    → HasStopped s (stop_session env s.id w).0
      × ((stop_session env s.id w).1 ≡ ok (record s { status = Domain.stopped }))
unfolding stop_session
stop_session-HasStopped env w s (found, active) stored =
    ground (arith, active_stopping s active, outcome)
  where
    w1 : World
    w1 = (set_desired_state env s.id stopped w).0

    t : Session
    t = record s { status = Domain.stopping }

    outcome :
        HasStopped t (finish_stop env t w1).0
        × ((finish_stop env t w1).1 ≡ ok (record s { status = Domain.stopped }))
    outcome =
        finish_stop-HasStopped env t w1 s refl
          (ap (Map.lookup s.id) (set_desired_state-SameState env s.id stopped w).0 ∙ found)

-- Stop changes nothing where the session has ended, nor where the desired state cannot be stored.
pub stop_session-keeps :
    (env : Env) (w : World) (s : Session)
    → Map.lookup s.id w.sessions ≡ some s
    → (has_ended s.status ≡ true)
      ⊎ ((e : Text) × ((set_desired_state env s.id stopped w).1 ≡ some e))
    → (stop_session env s.id w).0 ≡ w
unfolding stop_session
stop_session-keeps env w s found h = ground (arith, λ (e : Text). refused env s.id stopped w e)

-- A session that is in the repository and has ended.
abbrev pub HasEnded : Text → World → Type 0
HasEnded id w = (t : Session) × (Map.lookup id w.sessions ≡ some t) × (has_ended t.status ≡ true)

store_fails :
    (env : Env) (w : World) (s : Session) (x : Text)
    → Map.lookup s.id w.sessions ≡ some s
    → has_ended s.status ≡ false
    → (set_desired_state env s.id stopped w).1 ≡ some x
    → is_ok (stop_session env s.id w).1 ≡ true
    → ⊥
unfolding stop_session
store_fails env w s x f e stored h = ground arith

stop_found :
    (env : Env) (w : World) (s : Session)
    → Map.lookup s.id w.sessions ≡ some s
    → is_ok (stop_session env s.id w).1 ≡ true
    → HasEnded s.id (stop_session env s.id w).0
unfolding Domain.status_eq
stop_found env w s f h = elim (Bool-cases (has_ended s.status)) [
  | inl e ↦ (
    s,
    ap (λ (v : World). Map.lookup s.id v.sessions) (stop_session-keeps env w s f (inl e)) ∙ f,
    e,
  )
  | inr e ↦ elim (Option-cases (set_desired_state env s.id stopped w).1) [
    | inl stored ↦ (
      record s { status = Domain.stopped },
      (stop_session-HasStopped env w s (f, e) stored).0.0,
      refl,
    )
    | inr (x, stored) ↦ absurd (store_fails env w s x f e stored h)
  ]
]

not_there :
    (env : Env) (id : Text) (w : World)
    → Map.lookup id w.sessions ≡ none
    → is_ok (stop_session env id w).1 ≡ true
    → ⊥
unfolding stop_session
not_there env id w f h = ground arith

-- Where Stop succeeds on a repository whose sessions are under their IDs, the session is there and
-- has ended.
pub stop_session-HasEnded :
    (env : Env) (id : Text) (w : World)
    → ((s : Session) → Map.lookup id w.sessions ≡ some s → s.id ≡ id)
    → is_ok (stop_session env id w).1 ≡ true
    → HasEnded id (stop_session env id w).0
stop_session-HasEnded env id w k h = elim (Option-cases (Map.lookup id w.sessions)) [
  | inl none_there ↦ absurd (not_there env id w none_there h)
  | inr (s, f) ↦
      subst
        (λ j.
          Map.lookup j w.sessions ≡ some s
          → is_ok (stop_session env j w).1 ≡ true
          → HasEnded j (stop_session env j w).0)
        (k s f) (stop_found env w s) f h
]
