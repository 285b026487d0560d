-- ===== src/Registry/Tests.antt =====
-- The registry of internal/adapter/grpcserver/registry.go at one node.
use cap_mesh.Prelude.{◌≡◌, ◌<◌, [], arith}
use cap_mesh.Text.{text}
use cap_mesh.Registry.{Registry, new_registry, register, touch, unregister}
use cap_mesh.Registry.Connections.{replaced-keeps}

abbrev one_agent : Registry
one_agent = (register (text "n1") [] 5 new_registry).0

one_number : 0 < one_agent.next
unfolding register
one_number = omega arith

replaced-keeps_example :
    (touch (text "n1") 0 9 (register (text "n1") [] 7 one_agent).0
      ≡ (register (text "n1") [] 7 one_agent).0)
    × (unregister (text "n1") 0 (register (text "n1") [] 7 one_agent).0
        ≡ (register (text "n1") [] 7 one_agent).0)
replaced-keeps_example = replaced-keeps (text "n1") [] 7 9 one_agent 0 one_number
