-- ===== src/Session/Create/Outcome.antt =====
-- Create of internal/application/session/service.go: the session that it returns, and what runs of it.
use cap_mesh.Prelude.{
  ◌≡◌, refl, ap, sym, subst, ◌∙◌, ◌⊎◌, inl, inr, true, not, ◌&&◌, List, [], ◌∷◌, some, is_some,
  if◌then◌else◌, Result, ok, err, OkThen, arith, if_elim, is_ok, ◌==◌,
}
use cap_mesh.Text.{Text, text, text_eq_refl, contains}
use cap_mesh.Map
use cap_mesh.Map.{Map, lookup-insert, lookup-insert_self, lookup-delete_self}
use cap_mesh.Domain.{Session, CaptureSource, transition_or_same}
use cap_mesh.Domain
use cap_mesh.Session.Targets.{CreateInput, SessionError}
use cap_mesh.Session.Sources.{Env, stopped, has_following_workload}
use cap_mesh.Session.Service.{World, save, want, close_packets, remove_runtime}
use cap_mesh.Session.Create.{
  Started, start_all, prepare, create, conclude, conclude_failed, conclude_running, conclude_open,
  open_session, failed_message, running_message,
}
use cap_mesh.Session.Advance.{save-lookup}
use cap_mesh.Session.Advance.Open.{Opens, open_session-Opens}
use cap_mesh.Domain.Lifecycle.{transition-id}
use cap_mesh.Session.Advance.Quiet.{set_desired_state-quiet, start_all-quiet}
use cap_mesh.Session.Stop.Same.{contains-remove}
use cap_mesh.Session.Create.Prepared.{IsPrepared, prepare-IsPrepared}
use cap_mesh.Session.Create.Up.{IsUp, IsDown, start_all-IsUp}

-- The session is stored, and is RUNNING and up or FAILED and down.
abbrev pub IsCreated : World → Session → Type 0
IsCreated w s =
    (Map.lookup s.id w.sessions ≡ some s)
    × (((s.status ≡ Domain.running) × IsUp s.id w) ⊎ ((s.status ≡ Domain.failed) × IsDown s.id w))

after_transition :
    (s : Session)
    → s.status ≡ Domain.starting
    → (transition_or_same Domain.failed s ≡ record s { status = Domain.failed })
      × (transition_or_same Domain.running s ≡ record s { status = Domain.running })
unfolding transition_or_same
after_transition s e = ground arith

-- Saving a stored session under its own ID.
save_self :
    (s t : Session) (w : World)
    → Map.lookup s.id w.sessions ≡ some s
    → t.id ≡ s.id
    → Map.lookup t.id (save t w).sessions ≡ some t
save_self s t w f i =
    save-lookup t w s t.id (ap (λ j. Map.lookup j w.sessions) i ∙ f)
    ∙ ground (arith, text_eq_refl t.id)

-- What holds where a call returns a session.
abbrev pub Creates : World × Result SessionError Session → Type 0
Creates p = OkThen (IsCreated p.0) p.1

conclude_failed-IsCreated :
    (env : Env) (s : Session) (st : Started)
    → Map.lookup s.id st.world.sessions ≡ some s
    → s.status ≡ Domain.starting
    → Creates (conclude_failed env s st)
unfolding conclude_failed save close_packets remove_runtime
conclude_failed-IsCreated env s st f e = (
  save_self s t w (ap (Map.lookup s.id) (set_desired_state-quiet env s.id stopped st.world) ∙ f)
      (transition-id Domain.failed s),
  inr (
    ap (λ (x : Session). x.status) (after_transition s e).0,
    subst (λ j. IsDown j (save t w)) (sym (transition-id Domain.failed s)) down,
  ),
)
  where
    w : World
    w = close_packets s.id (remove_runtime s.id (want env s.id stopped st.world))

    t : Session
    t = record (transition_or_same Domain.failed s) { message = failed_message st.failures }

    down : IsDown s.id (save t w)
    down = (
      contains-remove s.id (want env s.id stopped st.world).opened,
      lookup-delete_self s.id (want env s.id stopped st.world).runtime,
    )

conclude_running-IsCreated :
    (input : CreateInput) (s : Session) (st : Started)
    → Map.lookup s.id st.world.sessions ≡ some s
    → s.status ≡ Domain.starting
    → IsUp s.id st.world
    → Creates (conclude_running input s st)
unfolding conclude_running
conclude_running-IsCreated input s st f e up =
    if_elim (λ (v : World). IsCreated v t) input.continuous (λ _. with_loop) (λ _. with_loop)
  where
    t : Session
    t = record (transition_or_same Domain.running s) {
      message = running_message st.count st.failures s.message;
    }

    saved : IsCreated (save t st.world) t
    saved = (
      save_self s t st.world f (transition-id Domain.running s),
      inl (
        ap (λ (x : Session). x.status) (after_transition s e).1,
        subst (λ j. IsUp j st.world) (sym (transition-id Domain.running s)) up,
      ),
    )

    with_loop :
        IsCreated
          (if has_following_workload s.targets
            then record (save t st.world) { loops = s.id ∷ (save t st.world).loops }
            else save t st.world)
          t
    with_loop =
        if_elim (λ (v : World). IsCreated v t) (has_following_workload s.targets) (λ _. saved)
          (λ _. saved)

conclude-IsCreated :
    (env : Env) (input : CreateInput) (s : Session) (st : Started)
    → Map.lookup s.id st.world.sessions ≡ some s
    → s.status ≡ Domain.starting
    → IsUp s.id st.world
    → Creates (conclude env input s st)
unfolding conclude
conclude-IsCreated env input s st f e up =
    if_elim Creates ((st.count == 0) && not (has_following_workload s.targets))
      (λ _. conclude_failed-IsCreated env s st f e)
      (λ _. conclude_running-IsCreated input s st f e up)

-- What opening a session leaves where it succeeds.
open_session-opened :
    (env : Env) (what : Text) (s : Session) (w : World)
    → is_ok (open_session env what s w).1 ≡ true
    → contains (open_session env what s w).0.opened s.id ≡ true
unfolding open_session conclude_open contains
open_session-opened env what s w h = ground (arith, text_eq_refl s.id)

-- Where Create succeeds, the session that it returns is in the repository, and it is RUNNING, with a
-- pipeline and a runtime, or FAILED, with neither.
pub create-IsCreated : (env : Env) (input : CreateInput) (w : World) → Creates (create env input w)
unfolding create
create-IsCreated env input w = by_prepared (prepare env input) (prepare-IsPrepared env input)
  where
    fresh : Session → World → Started
    fresh s w1 = record {
      world = record w1 { runtime = Map.insert s.id [] w1.runtime };
      count = 0;
      failures = [];
    }

    after_open :
        Session
        → List CaptureSource
        → World × Result SessionError (Unit {0})
        → World × Result SessionError Session
    after_open s sources (w1, r) = elim r [
      | err e ↦ (w1, err e)
      | ok _ ↦ conclude env input s (start_all env s sources (fresh s w1))
    ]

    by_opened :
        (s : Session) (sources : List CaptureSource)
        → s.status ≡ Domain.starting
        → (p : World × Result SessionError (Unit {0})) → Opens s w p
        → (is_ok p.1 ≡ true → contains p.0.opened s.id ≡ true)
        → Creates (after_open s sources p)
    by_opened s sources e (w1, err x) o c = tt
    by_opened s sources e (w1, ok u) (a, f) c =
        conclude-IsCreated env input s (start_all env s sources (fresh s w1))
          (ap (Map.lookup s.id) (start_all-quiet env s sources (fresh s w1)) ∙ f refl) e
          (start_all-IsUp env s sources (fresh s w1)
            (c refl, ap is_some (lookup-insert_self s.id [] w1.runtime)))

    after_prepare :
        Result SessionError (Session × List CaptureSource) → World × Result SessionError Session
    after_prepare r = elim r [
      | err e ↦ (w, err e)
      | ok (s, sources) ↦ after_open s sources (open_session env (text "start recorder: ") s w)
    ]

    by_prepared :
        (r : Result SessionError (Session × List CaptureSource))
        → OkThen (IsPrepared env) r
        → Creates (after_prepare r)
    by_prepared (err e) h = tt
    by_prepared (ok (s, sources)) h =
        by_opened s sources h.1 (open_session env (text "start recorder: ") s w)
          (open_session-Opens env (text "start recorder: ") s w)
          (open_session-opened env (text "start recorder: ") s w)
