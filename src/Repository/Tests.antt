-- ===== src/Repository/Tests.antt =====
-- The repository of internal/adapter/memory/session_repository.go at concrete sessions.
use cap_mesh.Prelude.{◌≡◌, refl, [], ◌∷◌, ok}
use cap_mesh.Text.{text}
use cap_mesh.Map
use cap_mesh.Domain.{Session, running, normal}
use cap_mesh.Repository.{create}

abbrev first : Session
first = record {
  id = text "s1";
  nodes = [];
  logical_interface = text "eth0";
  filter = [];
  snaplen = 128;
  reorder_window = 0;
  created_at = 1;
  expires_at = 2;
  status = running;
  message = [];
  targets = [];
  mode = normal;
}

created : create first [] ≡ ok ((text "s1", first) ∷ [])
unfolding create Map.lookup Map.insert
created = refl
