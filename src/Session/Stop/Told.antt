-- ===== src/Session/Stop/Told.antt =====
-- Stop of internal/application/session/service.go: whom it tells to stop.
use mathlib.Core.List.{Mem, mem-cons_self, mem-cons_of_mem}
use cap_mesh.Prelude.{
  ◌≡◌, refl, ap, sym, subst, ◌∙◌, ◌⊎◌, inl, inr, true, List, [], ◌∷◌, Option, none, some, is_some,
  All, arith, Result,
}
use cap_mesh.Text.{Text}
use cap_mesh.Map
use cap_mesh.Map.{Map}
use cap_mesh.Ports.{AgentCommand}
use cap_mesh.Domain.{Session, CaptureSource, transition}
use cap_mesh.Domain
use cap_mesh.Session.Sources.{Env, stopped}
use cap_mesh.Session.Targets.{SessionError}
use cap_mesh.Session.Service.{World, send, stop_command, save, set_desired_state, remove_runtime}
use cap_mesh.Session.Stop.{stop_session, finish_stop, conclude_stop, stop_agents, stop_sources}
use cap_mesh.Session.Stop.Same.{set_desired_state-SameState}
use cap_mesh.Session.Stop.Outcome.{IsActive, active_stopping}

-- The agent of the source was sent the command to stop it, or refused it.
abbrev pub Told : Env → Text → List (Text × AgentCommand) → CaptureSource → Type 0
Told env id log s =
    (is_some (env.send s.node_name (stop_command id s.id)) ≡ true)
    ⊎ Mem (s.node_name, stop_command id s.id) log

send-sent :
    (env : Env) (node : Text) (c : AgentCommand) (w : World)
    → (env.send node c ≡ none)
    → (send env node c w).0.sent ≡ (node, c) ∷ w.sent
unfolding send
send-sent env node c w e = ground arith

send-keeps :
    (env : Env) (node : Text) (c : AgentCommand) (w : World) (x : Text × AgentCommand)
    → Mem x w.sent
    → Mem x (send env node c w).0.sent
unfolding send
send-keeps env node c w x m = by_answer (env.send node c)
  where
    after : Option Text → World × Option Text
    after o = elim o [
      | some e ↦ (w, some e)
      | none ↦ (record w { sent = (node, c) ∷ w.sent }, none)
    ]

    by_answer : (o : Option Text) → Mem x (after o).0.sent
    by_answer (some e) = m
    by_answer none = mem-cons_of_mem (node, c) m

stop_sources-keeps :
    (env : Env) (id : Text) (ss : List CaptureSource) (w : World) (x : Text × AgentCommand)
    → Mem x w.sent
    → Mem x (stop_sources env id ss w).sent
unfolding stop_sources
stop_sources-keeps env id [] w x m = m
stop_sources-keeps env id (s ∷ ss) w x m =
    stop_sources-keeps env id ss (send env s.node_name (stop_command id s.id) w).0 x
      (send-keeps env s.node_name (stop_command id s.id) w x m)

stop_sources-Told :
    (env : Env) (id : Text) (ss : List CaptureSource) (w : World)
    → All (Told env id (stop_sources env id ss w).sent) ss
unfolding stop_sources
stop_sources-Told env id [] w = tt
stop_sources-Told env id (s ∷ ss) w =
    (first (env.send s.node_name c) refl, stop_sources-Told env id ss w1)
  where
    c : AgentCommand
    c = stop_command id s.id

    w1 : World
    w1 = (send env s.node_name c w).0

    first :
        (o : Option Text)
        → env.send s.node_name c ≡ o
        → Told env id (stop_sources env id ss w1).sent s
    first (some e) h = inl (ap is_some h)
    first none h = inr (
        stop_sources-keeps env id ss w1 (s.node_name, c)
          (subst (Mem (s.node_name, c)) (sym (send-sent env s.node_name c w h)) mem-cons_self))

conclude_stop-sent : (s : Session) (w : World) → (conclude_stop s w).0.sent ≡ w.sent
unfolding conclude_stop
conclude_stop-sent s w = ground arith

finish_stop-Told :
    (env : Env) (s : Session) (w : World) (m : Map CaptureSource)
    → Map.lookup s.id w.runtime ≡ some m
    → All (Told env s.id (finish_stop env s w).0.sent) (Map.values m)
unfolding finish_stop save stop_agents
finish_stop-Told env s w m f =
    subst (λ log. All (Told env s.id log) (Map.values m)) (sym (conclude_stop-sent s told))
      (subst (λ o. All (Told env s.id (stop_agents env s o w2).sent) (Map.values m)) (sym f)
        (stop_sources-Told env s.id (Map.values m) w2))
  where
    w2 : World
    w2 = remove_runtime s.id (save s w)

    told : World
    told = stop_agents env s (Map.lookup s.id (save s w).runtime) w2

active_finish :
    (env : Env) (w : World) (s : Session)
    → IsActive s w
    → (set_desired_state env s.id stopped w).1 ≡ none
    → stop_session env s.id w
      ≡ finish_stop env
          (record s { status = Domain.stopping })
          (set_desired_state env s.id stopped w).0
unfolding stop_session
active_finish env w s (found, active) stored = ground (arith, active_stopping s active)

-- Stop of a session that has not ended, where the desired state is stored: every source of the
-- session's runtime gets a stop command on its node, unless its agent refuses that command.
pub stop_session-Told :
    (env : Env) (w : World) (s : Session) (m : Map CaptureSource)
    → IsActive s w
    → (set_desired_state env s.id stopped w).1 ≡ none
    → Map.lookup s.id w.runtime ≡ some m
    → All (Told env s.id (stop_session env s.id w).0.sent) (Map.values m)
stop_session-Told env w s m active stored f =
    subst (λ (p : World × Result SessionError Session). All (Told env s.id p.0.sent) (Map.values m))
      (sym (active_finish env w s active stored))
      (finish_stop-Told env (record s { status = Domain.stopping })
        (set_desired_state env s.id stopped w).0 m
        (ap (Map.lookup s.id) (set_desired_state-SameState env s.id stopped w).1 ∙ f))
