-- ===== src/Session/Advance/Running.antt =====
-- internal/application/session/service.go: the handlers of sessions that run only take a session
-- forward along the diagram of its states.
use cap_mesh.Prelude.{
  ◌≡◌, refl, ap, sym, ◌∙◌, subst, not, ◌||◌, ◌&&◌, List, [], ◌∷◌, some, if◌then◌else◌, Option-cases,
  ok, err, if_elim, ◌==◌, ◌++◌, inl, inr, is_ok,
}
use cap_mesh.Text.{Text, text, text_eq, is_empty}
use cap_mesh.Map
use cap_mesh.Map.{Map}
use cap_mesh.Domain.{
  Session, CaptureSource, CaptureTarget, SessionStatus, status_eq, transition_or_same,
}
use cap_mesh.Domain
use cap_mesh.Domain.Lifecycle.{Leads, here, transition-Leads, transition-id}
use cap_mesh.Repository
use cap_mesh.Session.Sources.{
  Env, Resolver, stopped, has_following_workload, unique_sources, validate_source_distribution,
}
use cap_mesh.Session.Service.{
  World, save, want, close_packets, remove_runtime, delete_runtime_source, runtime_source_count,
}
use cap_mesh.Session.Nodes.{
  update_session_nodes, recovered_message, reconcile_recovered, reconcile_each, agent_connected,
  start_missing, desired_all, recovering, waiting_for_agents,
}
use cap_mesh.Session.Agents.{source_failed, capture_status}
use cap_mesh.Session.Reconcile.{reconcile, reconcile_targets}
use cap_mesh.Session.Advance.{
  IsKeyed, Advances, Advances-same, Advances-refl, Advances-trans, save-Advances,
}
use cap_mesh.Session.Advance.Quiet.{
  set_desired_state-quiet, delete_runtime_source-quiet, start_missing-quiet,
  reconcile_targets-quiet,
}

-- A step that gets a session by its ID and goes on from it.
pub get_then :
    (id : Text) (w : World) (f : Session → World)
    → IsKeyed w
    → ((s : Session) → Map.lookup s.id w.sessions ≡ some s → s.id ≡ id → Advances w (f s))
    → Advances w (elim (Repository.get id w.sessions) [ err _ ↦ w | ok s ↦ f s ])
unfolding Repository.get
get_then id w f k p = elim (Option-cases (Map.lookup id w.sessions)) [
  | inl e ↦ rw e Advances-refl
  | inr (s, e) ↦ rw e (p s (ap (λ i. Map.lookup i w.sessions) (k.0 id s e) ∙ e) (k.0 id s e))
]

-- A session that keeps its status.
pub save_same :
    (s t : Session) (w : World)
    → Map.lookup s.id w.sessions ≡ some s
    → t.id ≡ s.id
    → t.status ≡ s.status
    → Advances w (save t w)
save_same s t w f i e =
    save-Advances t w s (ap (λ i. Map.lookup i w.sessions) i ∙ f)
      (subst (λ x. Leads s.status x) (sym e) here)

-- A session that makes a transition, and what else changed leaves the repository as it was.
pub save_transition :
    (n : SessionStatus) (s t : Session) (w w1 : World)
    → w1.sessions ≡ w.sessions
    → Map.lookup s.id w.sessions ≡ some s
    → t.id ≡ (transition_or_same n s).id
    → t.status ≡ (transition_or_same n s).status
    → Advances w (save t w1)
save_transition n s t w w1 q f i e = Advances-trans (Advances-same q) (
    save-Advances t w1 s
      (ap (Map.lookup t.id) q ∙ (ap (λ i. Map.lookup i w.sessions) (i ∙ transition-id n s) ∙ f))
      (subst (λ x. Leads s.status x) (sym e) (transition-Leads n s)))

pub update_session_nodes-Advances :
    (id : Text) (w : World) → IsKeyed w → Advances w (update_session_nodes id w)
unfolding update_session_nodes
update_session_nodes-Advances id w k = get_then id w _ k (λ s f i. save_same s _ w f refl refl)

recovered_message-Advances :
    (id : Text) (w : World) → IsKeyed w → Advances w (recovered_message id w)
unfolding recovered_message
recovered_message-Advances id w k = get_then id w _ k (λ s f i.
    if_elim (Advances w) (runtime_source_count id w == 0)
      (λ _.
        if_elim (Advances w) (status_eq s.status Domain.running)
          (λ _. save_same s (record s { message = waiting_for_agents }) w f refl refl)
          (λ _. Advances-refl))
      (λ _.
        if_elim (Advances w) (text_eq s.message recovering || text_eq s.message waiting_for_agents)
          (λ _. save_same s (record s { message = [] }) w f refl refl) (λ _. Advances-refl)))

pub reconcile_recovered-Advances :
    (env : Env) (id : Text) (w : World) → IsKeyed w → Advances w (reconcile_recovered env id w)
unfolding reconcile_recovered
reconcile_recovered-Advances env id w k = get_then id w _ k (λ s f i.
    let desired = unique_sources (desired_all env s.targets) in
    let w1 = start_missing env s desired w in
    let first : Advances w w1 = Advances-same (start_missing-quiet env s desired w) in
    let second = update_session_nodes-Advances id w1 (first.keeps_keys k) in
    if_elim (Advances w)
      (not (status_eq s.status Domain.running)
        || not (is_ok (validate_source_distribution desired)))
      (λ _. Advances-refl)
      (λ _. Advances-trans first (
        Advances-trans second (
          recovered_message-Advances id (update_session_nodes id w1)
            (second.keeps_keys (first.keeps_keys k))))))

reconcile_each-Advances :
    (env : Env) (ss : List Session) (w : World) → IsKeyed w → Advances w (reconcile_each env ss w)
unfolding reconcile_each
reconcile_each-Advances env [] w k = Advances-refl
reconcile_each-Advances env (s ∷ ss) w k = Advances-trans first (
    reconcile_each-Advances env ss
      (if status_eq s.status Domain.running then reconcile_recovered env s.id w else w)
      (first.keeps_keys k))
  where
    first :
        Advances w (if status_eq s.status Domain.running then reconcile_recovered env s.id w else w)
    first =
        if_elim (Advances w) (status_eq s.status Domain.running)
          (λ _. reconcile_recovered-Advances env s.id w k) (λ _. Advances-refl)

pub agent_connected-Advances :
    (env : Env) (w : World) → IsKeyed w → Advances w (agent_connected env w)
unfolding agent_connected
agent_connected-Advances env w k = reconcile_each-Advances env (Repository.list w.sessions) w k

source_failed-Advances :
    (env : Env) (node source message : Text) (s : Session) (w : World)
    → Map.lookup s.id w.sessions ≡ some s
    → Advances w (source_failed env node source message s w)
unfolding source_failed remove_runtime close_packets
source_failed-Advances env node source message s w f =
    if_elim (Advances w)
      ((runtime_source_count s.id w == 0) && not (has_following_workload s.targets))
      (λ _.
        save_transition Domain.failed s
          (record (transition_or_same Domain.failed s) {
            message = text "all capture sources failed: " ++ message;
          })
          w (remove_runtime s.id (want env s.id stopped (close_packets s.id w)))
          (set_desired_state-quiet env s.id stopped (close_packets s.id w)) f refl refl)
      (λ _.
        save_same s
          (record s {
            message =
                text "partial: source "
                ++ (source ++ (text " on " ++ (node ++ (text " failed: " ++ message))));
          })
          w f refl refl)

pub capture_status-Advances :
    (env : Env) (node id source state message : Text) (w : World)
    → IsKeyed w
    → Advances w (capture_status env node id source state message w)
unfolding capture_status
capture_status-Advances env node id source state message w k =
    if_elim (Advances w) (not (text_eq state (text "FAILED")) || is_empty source)
      (λ _. Advances-refl)
      (λ _. Advances-trans first (
        get_then id w1 _ (first.keeps_keys k) (λ s f i.
          let second = source_failed-Advances env node source message s w1 f in
          if_elim (Advances w1) (status_eq s.status Domain.running)
            (λ _.
              Advances-trans second
                (update_session_nodes-Advances id _ (second.keeps_keys (first.keeps_keys k))))
            (λ _. Advances-refl))))
  where
    w1 : World
    w1 = delete_runtime_source id source w

    first : Advances w w1
    first = Advances-same (delete_runtime_source-quiet id source w)

pub reconcile-Advances :
    (env : Env) (resolve : Resolver) (id : Text) (w : World)
    → IsKeyed w
    → Advances w (reconcile env resolve id w)
unfolding reconcile
reconcile-Advances env resolve id w k = get_then id w _ k (λ s f i.
    let w1 = reconcile_targets env resolve s s.targets w in
    let first : Advances w w1 = Advances-same (reconcile_targets-quiet env resolve s s.targets w) in
    if_elim (Advances w) (status_eq s.status Domain.running)
      (λ _. Advances-trans first (update_session_nodes-Advances id w1 (first.keeps_keys k)))
      (λ _. Advances-refl))
