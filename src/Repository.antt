-- ===== src/Repository.antt =====
-- internal/adapter/memory/session_repository.go: the sessions by their IDs. Clone is the identity on
-- values. Each method holds the lock, so it is one step.
pub mod Laws
pub mod Tests
use cap_mesh.Prelude.{List, Option, none, some, Result, ok, err}
use cap_mesh.Text.{Text}
use cap_mesh.Map
use cap_mesh.Map.{Map}
use cap_mesh.Domain.{Session}
use cap_mesh.Ports.{PortError, not_found, already_exists}

abbrev pub Repository : Type 0
Repository = Map Session

unfoldable pub create : Session → Repository → Result PortError Repository
create s r = elim (Map.lookup s.id r) [
  | some _ ↦ err already_exists
  | none ↦ ok (Map.insert s.id s r)
]

unfoldable pub get : Text → Repository → Result PortError Session
get id r = elim (Map.lookup id r) [ none ↦ err not_found | some s ↦ ok s ]

unfoldable pub update : Session → Repository → Result PortError Repository
update s r = elim (Map.lookup s.id r) [ none ↦ err not_found | some _ ↦ ok (Map.insert s.id s r) ]

-- `_ = repository.Update(ctx, session)`
unfoldable pub update_or_same : Session → Repository → Repository
unfolding update
update_or_same s r = elim (update s r) [ ok q ↦ q | err _ ↦ r ]

unfoldable pub list : Repository → List Session
list r = Map.values r
