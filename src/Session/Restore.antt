-- ===== src/Session/Restore.antt =====
-- internal/application/session/service.go: Restore, which resumes a persisted session.
use cap_mesh.Prelude.{
  ◌-◌, Bool, not, ◌&&◌, ◌||◌, [], ◌∷◌, ltb, ◌==◌, if◌then◌else◌, length, Result, ok, err, map_err,
}
use cap_mesh.Text.{text, is_empty}
use cap_mesh.Map
use cap_mesh.Map.{Map}
use cap_mesh.Domain.{
  CaptureTarget, InterfaceTarget, WorkloadTarget, CaptureSource, Session, SessionStatus,
  SessionMode, Time, transition_or_same, status_eq, mode_eq, normal, continuous,
}
use cap_mesh.Domain
use cap_mesh.Repository
use cap_mesh.Session.Targets.{SessionError, port, invalid_persisted, expired}
use cap_mesh.Session.Sources.{Env, stopped, has_following_workload}
use cap_mesh.Session.Service.{World, set_desired_state, want, save}
use cap_mesh.Session.Create.{open_session}
use cap_mesh.Session.Nodes.{reconcile_recovered, recovering}

-- The timer of a recovered session, which lasts for what is left of its time.
abbrev pub restore_timer : Env → Session → World → World
restore_timer env s w =
    if not (mode_eq s.mode continuous) && not (s.expires_at == 0) && ltb env.now s.expires_at
    then record w { timers = (s.id, s.expires_at - env.now) ∷ w.timers }
    else w

-- The part of Restore behind the recorder. The Update of the code cannot fail, since the session is
-- in the repository.
unfoldable pub resume : Env → Session → World → World × Result SessionError Session
unfolding transition_or_same save reconcile_recovered has_following_workload mode_eq Repository.get
resume env s w =
    let t = transition_or_same Domain.running s in
    let w1 = save t (record w { runtime = Map.insert t.id [] w.runtime }) in
    let w2 = reconcile_recovered env t.id w1 in
    let w3 : World =
      if has_following_workload t.targets then record w2 { loops = t.id ∷ w2.loops } else w2 in
    let w4 : World = restore_timer env t w3 in (w4, map_err port (Repository.get t.id w4.sessions))

unfoldable pub is_expired : Time → Session → Bool
unfolding mode_eq
is_expired now s =
    not (mode_eq s.mode continuous) && not (s.expires_at == 0) && not (ltb now s.expires_at)

unfoldable pub restore : Env → Session → World → World × Result SessionError Session
unfolding is_expired set_desired_state open_session resume
restore env persisted w =
    let s : Session = record persisted { status = Domain.starting; message = recovering } in
    let (w1, r) = open_session env (text "restore recorder: ") s w in
    if is_empty persisted.id || (length persisted.targets == 0) || (persisted.snaplen == 0)
    then (w, err invalid_persisted)
    else if is_expired env.now persisted
    then (want env persisted.id stopped w, err expired)
    else elim r [ err e ↦ (w1, err e) | ok _ ↦ resume env s w1 ]
