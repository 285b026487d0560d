-- ===== src/Session/Advance/Whole.antt =====
-- internal/application/session/service.go: Create, Restore and Stop, and every sequence of operations.
use cap_mesh.Prelude.{
  ◌≡◌, refl, ap, ◌∙◌, not, ◌&&◌, List, [], ◌∷◌, some, if◌then◌else◌, Result, ok, err, if_elim, ◌==◌,
}
use cap_mesh.Text.{text}
use cap_mesh.Map
use cap_mesh.Map.{Map, lookup-contains, lookup_head, lookup_tail, lookup-insert, insert-IsDistinct}
use cap_mesh.Domain.{
  Session, CaptureSource, CaptureTarget, SessionStatus, status_eq, mode_eq, continuous, transition,
  transition_or_same,
}
use cap_mesh.Domain
use cap_mesh.Session.Targets.{CreateInput, SessionError}
use cap_mesh.Session.Sources.{Env, stopped, has_following_workload}
use cap_mesh.Session.Service.{World, save, want, close_packets, remove_runtime}
use cap_mesh.Session.Advance.{Advances, Advances-same, Advances-refl, Advances-trans}
use cap_mesh.Session.Create.{
  open_session, conclude, conclude_failed, conclude_running, create, prepare, Started, start_all,
  failed_message, running_message,
}
use cap_mesh.Session.Advance.Quiet.{set_desired_state-quiet, start_all-quiet}
use cap_mesh.Session.Advance.Running.{save_transition}
use cap_mesh.Session.Advance.Open.{Opens, open_session-Opens}

conclude-Advances :
    (env : Env) (input : CreateInput) (s : Session) (st : Started)
    → Map.lookup s.id st.world.sessions ≡ some s
    → Advances st.world (conclude env input s st).0
unfolding conclude conclude_failed conclude_running remove_runtime close_packets
conclude-Advances env input s st f =
    if_elim After ((st.count == 0) && not (has_following_workload s.targets))
      (λ _.
        save_transition Domain.failed s
          (record (transition_or_same Domain.failed s) { message = failed_message st.failures })
          st.world (close_packets s.id (remove_runtime s.id (want env s.id stopped st.world)))
          (set_desired_state-quiet env s.id stopped st.world) f refl refl)
      (λ _. Advances-trans saved (
        Advances-trans
          (if_elim (Advances next) (has_following_workload s.targets) (λ _. Advances-same refl)
            (λ _. Advances-refl))
          (if_elim (Advances looped) input.continuous (λ _. Advances-refl)
            (λ _. Advances-same refl))))
  where
    After : World × Result SessionError Session → Type 0
    After p = Advances st.world p.0

    next : World
    next =
        save
          (record (transition_or_same Domain.running s) {
            message = running_message st.count st.failures s.message;
          })
          st.world

    looped : World
    looped =
        if has_following_workload s.targets then record next { loops = s.id ∷ next.loops } else next

    saved : Advances st.world next
    saved =
        save_transition Domain.running s
          (record (transition_or_same Domain.running s) {
            message = running_message st.count st.failures s.message;
          })
          st.world st.world refl f refl refl

pub create-Advances :
    (env : Env) (input : CreateInput) (w : World) → Advances w (create env input w).0
unfolding create
create-Advances env input w = by_prepared (prepare env input)
  where
    started : Session → List CaptureSource → World → Started
    started s sources w1 = start_all env s sources (record {
      world = record w1 { runtime = Map.insert s.id [] w1.runtime };
      count = 0;
      failures = [];
    })

    after_open :
        Session
        → List CaptureSource
        → World × Result SessionError (Unit {0})
        → World × Result SessionError Session
    after_open s sources (w1, r) = elim r [
      | err e ↦ (w1, err e)
      | ok _ ↦ conclude env input s (started s sources w1)
    ]

    by_opened :
        (s : Session) (sources : List CaptureSource) (p : World × Result SessionError (Unit {0}))
        → Opens s w p
        → Advances w (after_open s sources p).0
    by_opened s sources (w1, err e) (a, f) = a
    by_opened s sources (w1, ok u) (a, f) =
        let quiet = start_all-quiet env s sources (record {
          world = record w1 { runtime = Map.insert s.id [] w1.runtime };
          count = 0;
          failures = [];
        }) in
        Advances-trans a (
          Advances-trans (Advances-same quiet) (
            conclude-Advances env input s (started s sources w1)
              (ap (Map.lookup s.id) quiet ∙ f refl)))

    after_prepare :
        Result SessionError (Session × List CaptureSource) → World × Result SessionError Session
    after_prepare r = elim r [
      | err e ↦ (w, err e)
      | ok (s, sources) ↦ after_open s sources (open_session env (text "start recorder: ") s w)
    ]

    by_prepared :
        (r : Result SessionError (Session × List CaptureSource)) → Advances w (after_prepare r).0
    by_prepared (err e) = Advances-refl
    by_prepared (ok (s, sources)) =
        by_opened s sources (open_session env (text "start recorder: ") s w)
          (open_session-Opens env (text "start recorder: ") s w)
