-- ===== src/Domain/Tests.antt =====
-- The state machine of internal/core/domain/session.go at a concrete session.
use cap_mesh.Prelude.{is_ok, true, ◌≡◌, ◌↔◌, ◌⊎◌, [], ◌∷◌, ok}
use cap_mesh.Text.{text}
use cap_mesh.Domain.{SessionStatus, starting, running, Session, normal, transition}
use cap_mesh.Domain.Lifecycle.{Edge, transition-Edge}

abbrev in_status : SessionStatus → Session
in_status status = record {
  id = text "s1";
  nodes = text "n1" ∷ [];
  logical_interface = text "eth0";
  filter = [];
  snaplen = 128;
  reorder_window = 0;
  created_at = 1;
  expires_at = 2;
  status = status;
  message = [];
  targets = [];
  mode = normal;
}

transition-Edge_example :
    ((is_ok (transition running (in_status starting)) ≡ true)
      ↔ ((starting ≡ running) ⊎ Edge starting running))
    × (is_ok (transition running (in_status starting)) ≡ true
        → transition running (in_status starting) ≡ ok (in_status running))
transition-Edge_example = transition-Edge running (in_status starting)
