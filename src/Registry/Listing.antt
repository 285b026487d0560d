-- ===== src/Registry/Listing.antt =====
-- internal/adapter/grpcserver/registry.go: ConnectedAgents against ConnectedNodes.
use cap_mesh.Prelude.{◌≡◌, refl, ◌∙◌, ap, List, [], ◌∷◌, Bool-cases, inl, inr}
use cap_mesh.Text.{Text, text_lt}
use cap_mesh.Map
use cap_mesh.Map.{Map}
use cap_mesh.Session.Sources.{insert_sorted, sort_texts}
use cap_mesh.Registry.{
  Connection, Registry, ConnectedAgent, agents_of, insert_agent, sort_agents, connected_agents,
  connected_nodes,
}

abbrev nodes : List ConnectedAgent → List Text
nodes [] = []
nodes (a ∷ bs) = a.node_name ∷ nodes bs

nodes-insert_agent :
    (a : ConnectedAgent) (bs : List ConnectedAgent)
    → nodes (insert_agent a bs) ≡ insert_sorted a.node_name (nodes bs)
unfolding insert_agent insert_sorted
nodes-insert_agent a [] = refl
nodes-insert_agent a (b ∷ bs) = elim (Bool-cases (text_lt b.node_name a.node_name)) [
  | inl before ↦ rw before (ap (λ (l : List Text). b.node_name ∷ l) (nodes-insert_agent a bs))
  | inr after ↦ rw after refl
]

nodes-sort_agents : (bs : List ConnectedAgent) → nodes (sort_agents bs) ≡ sort_texts (nodes bs)
unfolding sort_agents sort_texts
nodes-sort_agents [] = refl
nodes-sort_agents (b ∷ bs) =
    nodes-insert_agent b (sort_agents bs) ∙ ap (insert_sorted b.node_name) (nodes-sort_agents bs)

nodes-agents_of : (m : Map Connection) → nodes (agents_of m) ≡ Map.keys m
unfolding agents_of Map.keys
nodes-agents_of [] = refl
nodes-agents_of ((node, c) ∷ m) = ap (λ (l : List Text). node ∷ l) (nodes-agents_of m)

-- ConnectedAgents lists an agent for each of ConnectedNodes, in the same order.
connected_agents-nodes : (r : Registry) → nodes (connected_agents r) ≡ connected_nodes r
unfolding connected_agents connected_nodes
connected_agents-nodes r =
    nodes-sort_agents (agents_of r.agents) ∙ ap sort_texts (nodes-agents_of r.agents)
