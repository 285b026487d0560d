-- ===== src/Registry.antt =====
-- internal/adapter/grpcserver/registry.go: the agents that are connected. A connection is told from
-- another by its number; `commands` is its channel of 512 commands, the oldest first. The
-- interfaces are copied by the code, which is the identity here. `connects` and `disconnects` are
-- the calls of the handlers, newest first.
pub mod Connections
pub mod Listing
pub mod Tests
use cap_mesh.Prelude.{
  ℕ, ◌+◌, ◌≡◌, Bool, true, false, List, [], ◌∷◌, ◌++◌, Option, none, some, if◌then◌else◌, Result,
  ok, err, ◌==◌, ltb, length, ◌&&◌,
}
use cap_mesh.Text.{Text, text_lt}
use cap_mesh.Map
use cap_mesh.Map.{Map}
use cap_mesh.Ports.{PortError, unavailable, AgentCommand}
use cap_mesh.Domain.{Time}
use cap_mesh.Session.Sources.{sort_texts}

pub record Connection : Type 0 where
  pub number : ℕ
  pub commands : List AgentCommand
  pub interfaces : Map Text
  pub connected_at : Time
  pub last_seen_at : Time

pub record Registry : Type 0 where
  pub agents : Map Connection
  pub next : ℕ
  pub has_on_connect : Bool
  pub has_on_disconnect : Bool
  pub connects : List Text
  pub disconnects : List Text

abbrev pub channel_size : ℕ
channel_size = 512

-- NewAgentRegistry
abbrev pub new_registry : Registry
new_registry = record {
  agents = [];
  next = 0;
  has_on_connect = false;
  has_on_disconnect = false;
  connects = [];
  disconnects = [];
}

unfoldable pub register : Text → Map Text → Time → Registry → Registry × ℕ
unfolding Map.insert
register node interfaces now r =
    let connection : Connection = record {
      number = r.next;
      commands = [];
      interfaces = interfaces;
      connected_at = now;
      last_seen_at = now;
    } in
    (
      record r {
        agents = Map.insert node connection r.agents;
        next = r.next + 1;
        connects = if r.has_on_connect then node ∷ r.connects else r.connects;
      },
      r.next,
    )

-- `r.agents[node] == connection`
unfoldable pub is_current : Text → ℕ → Registry → Bool
unfolding Map.lookup
is_current node number r = elim (Map.lookup node r.agents) [
  | none ↦ false
  | some c ↦ c.number == number
]

unfoldable pub touch : Text → ℕ → Time → Registry → Registry
unfolding is_current Map.lookup Map.insert
touch node number now r = elim (Map.lookup node r.agents) [
  | none ↦ r
  | some c ↦
      if is_current node number r
      then record r { agents = Map.insert node (record c { last_seen_at = now }) r.agents }
      else r
]

unfoldable pub unregister : Text → ℕ → Registry → Registry
unfolding is_current Map.delete
unregister node number r =
    if is_current node number r
    then record r {
      agents = Map.delete node r.agents;
      disconnects = if r.has_on_disconnect then node ∷ r.disconnects else r.disconnects;
    }
    else r

unfoldable pub connected_nodes : Registry → List Text
unfolding Map.keys sort_texts
connected_nodes r = sort_texts (Map.keys r.agents)

-- Send with a context that is not done; a channel that is full refuses the command.
unfoldable pub send : Text → AgentCommand → Registry → Result PortError Registry
unfolding Map.lookup Map.insert
send node command r = elim (Map.lookup node r.agents) [
  | none ↦ err unavailable
  | some c ↦
      if ltb (length c.commands) channel_size
      then ok (record r {
        agents = Map.insert node (record c { commands = c.commands ++ command ∷ [] }) r.agents;
      })
      else err unavailable
]

-- The receive of the stream's goroutine from the channel of the connection it holds.
unfoldable pub receive : Text → Registry → Option (AgentCommand × Registry)
unfolding Map.lookup Map.insert
receive node r = elim (Map.lookup node r.agents) [
  | none ↦ none
  | some c ↦ elim c.commands [
    | [] ↦ none
    | command ∷ rest ↦
        some
          (command, record r { agents = Map.insert node (record c { commands = rest }) r.agents })
  ]
]

-- OnConnect and OnDisconnect.
unfoldable pub on_connect : Registry → Registry
on_connect r = record r { has_on_connect = true }

unfoldable pub on_disconnect : Registry → Registry
on_disconnect r = record r { has_on_disconnect = true }

pub record ConnectedAgent : Type 0 where
  pub node_name : Text
  pub interfaces : Map Text
  pub connected_at : Time
  pub last_seen_at : Time

unfoldable pub agents_of : Map Connection → List ConnectedAgent
agents_of [] = []
agents_of ((node, c) ∷ m) =
    (record {
      node_name = node;
      interfaces = c.interfaces;
      connected_at = c.connected_at;
      last_seen_at = c.last_seen_at;
    })
    ∷ agents_of m

-- The order of sort.Slice, by the name of the node.
unfoldable pub insert_agent : ConnectedAgent → List ConnectedAgent → List ConnectedAgent
unfolding text_lt
insert_agent a [] = a ∷ []
insert_agent a (b ∷ bs) =
    if text_lt b.node_name a.node_name then b ∷ insert_agent a bs else a ∷ b ∷ bs

unfoldable pub sort_agents : List ConnectedAgent → List ConnectedAgent
unfolding insert_agent
sort_agents [] = []
sort_agents (a ∷ as_) = insert_agent a (sort_agents as_)

unfoldable pub connected_agents : Registry → List ConnectedAgent
unfolding agents_of sort_agents
connected_agents r = sort_agents (agents_of r.agents)
