-- ===== src/Repository/Laws.antt =====
-- Create, Update and Get of internal/adapter/memory/session_repository.go against the map from IDs to sessions.
use cap_mesh.Prelude.{◌≡◌, ◌⊎◌, ok, arith, if◌then◌else◌}
use cap_mesh.Text.{Text, text_eq}
use cap_mesh.Map.{lookup-insert}
use cap_mesh.Domain.{Session}
use cap_mesh.Repository.{Repository, create, get, update}

-- After a Create or an Update that succeeds, Get finds the session under its ID and finds under every
-- other ID what it found before.
get-after :
    (s : Session) (r q : Repository) (id : Text)
    → (create s r ≡ ok q) ⊎ (update s r ≡ ok q)
    → get id q ≡ (if text_eq s.id id then ok s else get id r)
unfolding create get update
get-after s r q id h = ground (arith, lookup-insert s.id id s r)
