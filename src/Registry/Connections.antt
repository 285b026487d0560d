-- ===== src/Registry/Connections.antt =====
-- The connections of internal/adapter/grpcserver/registry.go, and their channels.
use cap_mesh.Prelude.{
  ℕ, ◌≡◌, ◌≤◌, ◌<◌, refl, List, [], ◌∷◌, ◌++◌, Option, none, some, if◌then◌else◌, Result, ok, err,
  ltb, length, ◌&&◌, inl, inr, arith, OkThen, is_some, is_ok, length-append, Option-cases, if_elim,
  ltb→lt, subst,
}
use cap_mesh.Text.{Text, text_eq, text_eq_refl}
use cap_mesh.Map
use cap_mesh.Map.{Map, lookup-insert, lookup-delete}
use cap_mesh.Ports.{PortError, unavailable, AgentCommand}
use cap_mesh.Domain.{Time}
use cap_mesh.Registry.{
  Connection, Registry, register, is_current, touch, unregister, send, channel_size,
}

-- Every connection has a number below the next one, and at most a full channel.
abbrev pub IsSound : Registry → Type 0
IsSound r =
    (node : Text) (c : Connection)
    → Map.lookup node r.agents ≡ some c
    → (c.number < r.next) × (length c.commands ≤ 512)

-- The queue of a node.
abbrev pub queue : Text → Registry → List AgentCommand
queue node r = elim (Map.lookup node r.agents) [ none ↦ [] | some c ↦ c.commands ]

register-IsSound :
    (node : Text) (interfaces : Map Text) (now : Time) (r : Registry)
    → IsSound r
    → IsSound (register node interfaces now r).0
unfolding register
register-IsSound node interfaces now r h j c f = ground (
  arith,
  lookup-insert node j
      (record {
        number = r.next;
        commands = [];
        interfaces = interfaces;
        connected_at = now;
        last_seen_at = now;
      })
      r.agents,
  h j c,
)

unregister-IsSound :
    (node : Text) (n : ℕ) (r : Registry) → IsSound r → IsSound (unregister node n r)
unfolding unregister
unregister-IsSound node n r h j c f = ground (arith, lookup-delete node j r.agents, h j c)

insert-IsSound :
    (node : Text) (c : Connection) (r : Registry)
    → IsSound r
    → c.number < r.next
    → length c.commands ≤ 512
    → IsSound (record r { agents = Map.insert node c r.agents })
insert-IsSound node c r h a b j d f = ground (arith, lookup-insert node j c r.agents, h j d)

touch-IsSound :
    (node : Text) (n : ℕ) (now : Time) (r : Registry) → IsSound r → IsSound (touch node n now r)
unfolding touch
touch-IsSound node n now r h = by_found (Map.lookup node r.agents) refl
  where
    touched : Option Connection → Registry
    touched o = elim o [
      | none ↦ r
      | some c ↦
          if is_current node n r
          then record r { agents = Map.insert node (record c { last_seen_at = now }) r.agents }
          else r
    ]

    by_found : (o : Option Connection) → Map.lookup node r.agents ≡ o → IsSound (touched o)
    by_found none e = h
    by_found (some c) e =
        if_elim IsSound (is_current node n r)
          (λ _.
            insert-IsSound node (record c { last_seen_at = now }) r h (h node c e).0 (h node c e).1)
          (λ _. h)

send-IsSound :
    (node : Text) (command : AgentCommand) (r : Registry)
    → IsSound r
    → OkThen IsSound (send node command r)
unfolding send
send-IsSound node command r h = by_found (Map.lookup node r.agents) refl
  where
    queued : Option Connection → Result PortError Registry
    queued o = elim o [
      | none ↦ err unavailable
      | some c ↦
          if ltb (length c.commands) channel_size
          then ok (record r {
            agents = Map.insert node (record c { commands = c.commands ++ command ∷ [] }) r.agents;
          })
          else err unavailable
    ]

    by_found : (o : Option Connection) → Map.lookup node r.agents ≡ o → OkThen IsSound (queued o)
    by_found none e = tt
    by_found (some c) e =
        if_elim (OkThen IsSound) (ltb (length c.commands) channel_size)
          (λ room.
            insert-IsSound node (record c { commands = c.commands ++ command ∷ [] }) r h
              (h node c e).0
              (omega (
                arith,
                ltb→lt (length c.commands) 512 room,
                length-append c.commands (command ∷ []),
              )))
          (λ _. tt)

-- One call of the registry.
pub data Call : Registry → Registry → Type 0 where
  on_register :
      (node : Text) (interfaces : Map Text) (now : Time) (r : Registry)
      → Call r (register node interfaces now r).0
  on_touch : (node : Text) (n : ℕ) (now : Time) (r : Registry) → Call r (touch node n now r)
  on_unregister : (node : Text) (n : ℕ) (r : Registry) → Call r (unregister node n r)
  on_send :
      (node : Text) (command : AgentCommand) (r q : Registry)
      → send node command r ≡ ok q
      → Call r q

pub data Calls : Registry → Registry → Type 0 where
  no_calls : {r : Registry} → Calls r r
  one_more : {a b c : Registry} → Call a b → Calls b c → Calls a c

Call-IsSound : {a b : Registry} → Call a b → IsSound a → IsSound b
Call-IsSound (on_register node interfaces now r) h = register-IsSound node interfaces now r h
Call-IsSound (on_touch node n now r) h = touch-IsSound node n now r h
Call-IsSound (on_unregister node n r) h = unregister-IsSound node n r h
Call-IsSound (on_send node command r q e) h =
    subst (OkThen IsSound) e (send-IsSound node command r h)

-- After any calls, no channel holds more than 512 commands, and the numbers of the connections are
-- below that of the next one.
Calls-IsSound : {a b : Registry} → Calls a b → IsSound a → IsSound b
Calls-IsSound no_calls h = h
Calls-IsSound (one_more c cs) h = Calls-IsSound cs (Call-IsSound c h)

-- A connection that was replaced by a later one of its node can no longer touch or unregister it.
pub replaced-keeps :
    (node : Text) (interfaces : Map Text) (now later : Time) (r : Registry) (number : ℕ)
    → number < r.next
    → (touch node number later (register node interfaces now r).0
        ≡ (register node interfaces now r).0)
      × (unregister node number (register node interfaces now r).0
          ≡ (register node interfaces now r).0)
unfolding register touch unregister is_current Map.lookup Map.insert
replaced-keeps node interfaces now later r number h = ground (
  arith,
  text_eq_refl node,
  lookup-insert node node
      (record {
        number = r.next;
        commands = [];
        interfaces = interfaces;
        connected_at = now;
        last_seen_at = now;
      })
      r.agents,
)

-- Send accepts a command exactly when the node is connected and has fewer than 512 commands waiting,
-- and puts it behind the others of its node; the commands of other nodes are as before.
send-queue :
    (node j : Text) (command : AgentCommand) (r : Registry)
    → (is_ok (send node command r)
        ≡ (is_some (Map.lookup node r.agents) && ltb (length (queue node r)) channel_size))
      × OkThen
          (λ q. queue j q ≡ (if text_eq node j then queue node r ++ command ∷ [] else queue j r))
          (send node command r)
unfolding send Map.lookup
send-queue node j command r = elim (Option-cases (Map.lookup node r.agents)) [
  | inl e ↦ (ground (arith, e), ground (arith, e))
  | inr (c, e) ↦ (
    ground (arith, e),
    ground (
      arith,
      e,
      lookup-insert node j (record c { commands = c.commands ++ command ∷ [] }) r.agents,
    ),
  )
]
