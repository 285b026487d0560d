-- ===== src/Session/Advance/Disconnect.antt =====
-- internal/application/session/service.go: AgentDisconnected, whose loop saves copies of the sessions
-- that it took before it began.
use cap_mesh.Prelude.{
  ◌≡◌, refl, ap, sym, ◌∙◌, subst, Bool, true, false, not, ◌||◌, List, [], ◌∷◌, Option, some,
  if◌then◌else◌, arith, if_elim, ◌++◌, All,
}
use cap_mesh.Text.{Text, text, text_eq, text_eq_iff, text_eq_refl, contains, IsDistinct}
use cap_mesh.Map
use cap_mesh.Map.{Map, lookup-contains, lookup_head, lookup_tail, lookup-insert, insert-IsDistinct}
use cap_mesh.Domain.{
  Session, CaptureSource, CaptureTarget, SessionStatus, status_eq, mode_eq, continuous, transition,
  transition_or_same,
}
use cap_mesh.Domain
use cap_mesh.Domain.Lifecycle.{transition-id}
use cap_mesh.Repository
use cap_mesh.Session.Sources.{Env, stopped, has_following_workload}
use cap_mesh.Session.Service.{World, save, want, close_packets}
use cap_mesh.Session.Advance.{
  IsKeyed, Advances, Advances-same, Advances-refl, Advances-trans, save-lookup,
}
use cap_mesh.Session.Agents.{
  disconnect_session, disconnect_each, agent_disconnected, has_active_node, drop_node_everywhere,
}
use cap_mesh.Session.Advance.Quiet.{set_desired_state-quiet}
use cap_mesh.Session.Advance.Running.{save_same, save_transition}

-- The copies are those of the repository.
abbrev AreStored : World → List Session → Type 0
AreStored w ss = All (λ s. Map.lookup s.id w.sessions ≡ some s) ss

abbrev ids : List Session → List Text
ids [] = []
ids (s ∷ ss) = s.id ∷ ids ss

save_other :
    (s t : Session) (w v : World) (id : Text)
    → v.sessions ≡ w.sessions
    → t.id ≡ s.id
    → Map.lookup s.id w.sessions ≡ some s
    → text_eq s.id id ≡ false
    → Map.lookup id (save t v).sessions ≡ Map.lookup id w.sessions
save_other s t w v id q i f n =
    save-lookup t v s id (ap (Map.lookup t.id) q ∙ (ap (λ j. Map.lookup j w.sessions) i ∙ f))
    ∙ if_elim (λ (o : Option Session). o ≡ Map.lookup id w.sessions) (text_eq t.id id)
        (λ e. absurd (clash (sym (ap (λ j. text_eq j id) i) ∙ e) n)) (λ _. ap (Map.lookup id) q)
  where
    clash : {b : Bool} → b ≡ true → b ≡ false → ⊥
    clash p q = cc

-- Another session is not touched.
disconnect_session-other :
    (env : Env) (node : Text) (s : Session) (w : World) (id : Text)
    → Map.lookup s.id w.sessions ≡ some s
    → text_eq s.id id ≡ false
    → Map.lookup id (disconnect_session env node s w).sessions ≡ Map.lookup id w.sessions
unfolding disconnect_session close_packets
disconnect_session-other env node s w id f n =
    if_elim (λ (v : World). Map.lookup id v.sessions ≡ Map.lookup id w.sessions)
      (has_active_node env.connected s || has_following_workload s.targets)
      (λ _.
        save_other s (record s { message = text "partial: agent disconnected: " ++ node }) w w id
          refl refl f n)
      (λ _.
        if_elim (λ (v : World). Map.lookup id v.sessions ≡ Map.lookup id w.sessions)
          (mode_eq s.mode continuous)
          (λ _.
            save_other s
              (record s {
                nodes = [];
                message = text "waiting for capture agents after disconnect";
              })
              w w id refl refl f n)
          (λ _.
            save_other s
              (record (transition_or_same Domain.failed s) {
                message = text "all capture agents disconnected";
              })
              w (close_packets s.id (want env s.id stopped w)) id
              (set_desired_state-quiet env s.id stopped w) (transition-id Domain.failed s) f n))

disconnect_session-Advances :
    (env : Env) (node : Text) (s : Session) (w : World)
    → Map.lookup s.id w.sessions ≡ some s
    → Advances w (disconnect_session env node s w)
unfolding disconnect_session close_packets
disconnect_session-Advances env node s w f =
    if_elim (Advances w) (has_active_node env.connected s || has_following_workload s.targets)
      (λ _.
        save_same s (record s { message = text "partial: agent disconnected: " ++ node }) w f refl
          refl)
      (λ _.
        if_elim (Advances w) (mode_eq s.mode continuous)
          (λ _.
            save_same s
              (record s {
                nodes = [];
                message = text "waiting for capture agents after disconnect";
              })
              w f refl refl)
          (λ _.
            save_transition Domain.failed s
              (record (transition_or_same Domain.failed s) {
                message = text "all capture agents disconnected";
              })
              w (close_packets s.id (want env s.id stopped w))
              (set_desired_state-quiet env s.id stopped w) f refl refl))

AreStored-after :
    (s : Session) (w w' : World) (ss : List Session)
    → ((id : Text) → text_eq s.id id ≡ false → Map.lookup id w'.sessions ≡ Map.lookup id w.sessions)
    → contains (ids ss) s.id ≡ false
    → AreStored w ss
    → AreStored w' ss
unfolding contains
AreStored-after s w w' [] o c h = tt
AreStored-after s w w' (t ∷ ss) o c (f, h) = (
  o t.id (ground (arith, text_eq_iff s.id t.id, text_eq_refl t.id)) ∙ f,
  AreStored-after s w w' ss o (ground arith) h,
)

disconnect_each-Advances :
    (env : Env) (node : Text) (ss : List Session) (w : World)
    → AreStored w ss
    → IsDistinct (ids ss)
    → Advances w (disconnect_each env node ss w)
unfolding disconnect_each
disconnect_each-Advances env node [] w h d = Advances-refl
disconnect_each-Advances env node (s ∷ ss) w (f, h) (c, d) =
    Advances-trans
      (if_elim (Advances w) idle (λ _. Advances-refl)
        (λ _. disconnect_session-Advances env node s w f))
      (disconnect_each-Advances env node ss (if idle then w else disconnect_session env node s w)
        (AreStored-after s w (if idle then w else disconnect_session env node s w) ss
          (λ id n.
            if_elim (λ (v : World). Map.lookup id v.sessions ≡ Map.lookup id w.sessions) idle
              (λ _. refl) (λ _. disconnect_session-other env node s w id f n))
          c h)
        d)
  where
    idle : Bool
    idle = not (status_eq s.status Domain.running) || not (contains s.nodes node)

-- What a repository whose sessions are under their IDs lists.
values-AreStored :
    (m : Map Session)
    → ((id : Text) (s : Session) → Map.lookup id m ≡ some s → s.id ≡ id)
    → IsDistinct (Map.keys m)
    → All (λ s. Map.lookup s.id m ≡ some s) (Map.values m) × (ids (Map.values m) ≡ Map.keys m)
unfolding Map.values Map.keys
values-AreStored [] k d = (tt, refl)
values-AreStored ((i, s) ∷ m) k (c, d) =
    let (rest, same) = values-AreStored m (λ id t f. k id t (later id t f)) d in
    (
      (
        subst (λ j. Map.lookup j ((i, s) ∷ m) ≡ some s) (sym at) (lookup_head i s m),
        deeper (Map.values m) rest,
      ),
      ap (λ j. j ∷ ids (Map.values m)) at ∙ ap (λ js. i ∷ js) same,
    )
  where
    at : s.id ≡ i
    at = k i s (lookup_head i s m)

    apart : (id : Text) (t : Session) → Map.lookup id m ≡ some t → text_eq i id ≡ false
    apart id t f = ground (arith, text_eq_iff i id, lookup-contains id t m f)

    later :
        (id : Text) (t : Session) → Map.lookup id m ≡ some t → Map.lookup id ((i, s) ∷ m) ≡ some t
    later id t f = lookup_tail i id s m (apart id t f) ∙ f

    deeper :
        (ss : List Session)
        → All (λ t. Map.lookup t.id m ≡ some t) ss
        → All (λ t. Map.lookup t.id ((i, s) ∷ m) ≡ some t) ss
    deeper [] h = tt
    deeper (t ∷ ss) (f, h) = (later t.id t f, deeper ss h)

pub agent_disconnected-Advances :
    (env : Env) (node : Text) (w : World) → IsKeyed w → Advances w (agent_disconnected env node w)
unfolding agent_disconnected Repository.list
agent_disconnected-Advances env node w (k, d) =
    let w1 : World = record w { runtime = drop_node_everywhere node w.runtime } in
    let (stored, same) = values-AreStored w.sessions k d in
    Advances-trans (Advances-same refl) (
      disconnect_each-Advances env node (Map.values w.sessions) w1 stored
        (subst IsDistinct (sym same) d))
