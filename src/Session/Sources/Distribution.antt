-- ===== src/Session/Sources/Distribution.antt =====
-- validateSourceDistribution of internal/application/session/service.go against a count of each node.
use cap_mesh.Prelude.{
  ℕ, suc, ◌+◌, ◌≤◌, ◌≡◌, refl, ◌↔◌, true, List, [], ◌∷◌, if◌then◌else◌, arith, is_ok,
}
use cap_mesh.Text.{Text, text_eq, text_eq_iff, text_eq_refl}
use cap_mesh.Map
use cap_mesh.Map.{Map, lookup-insert}
use cap_mesh.Domain.{CaptureSource}
use cap_mesh.Session.Targets.{max_sources_per_node}
use cap_mesh.Session.Sources.{distribute, count_of, validate_source_distribution}

-- How many of the sources are on a node.
abbrev pub on_node : Text → List CaptureSource → ℕ
on_node node [] = 0
on_node node (s ∷ rest) =
    if text_eq s.node_name node then suc (on_node node rest) else on_node node rest

count_of-insert :
    (k j : Text) (n : ℕ) (m : Map ℕ)
    → count_of j (Map.insert k n m) ≡ (if text_eq k j then n else count_of j m)
count_of-insert k j n m = ground (arith, lookup-insert k j n m)

distribute_sound :
    (counts : Map ℕ) (sources : List CaptureSource)
    → is_ok (distribute counts sources) ≡ true
    → (node : Text) → count_of node counts ≤ 50
    → count_of node counts + on_node node sources ≤ 50
unfolding distribute Map.lookup
distribute_sound counts [] h node b = omega arith
distribute_sound counts (s ∷ rest) h node b =
    let next = Map.insert s.node_name (count_of s.node_name counts + 1) counts in
    ground (
      arith,
      text_eq_iff s.node_name node,
      count_of-insert s.node_name node (count_of s.node_name counts + 1) counts,
      λ (e : is_ok (distribute next rest) ≡ true). distribute_sound next rest e node,
    )

distribute_complete :
    (counts : Map ℕ) (sources : List CaptureSource)
    → ((node : Text) → count_of node counts + on_node node sources ≤ 50)
    → is_ok (distribute counts sources) ≡ true
unfolding distribute Map.lookup
distribute_complete counts [] h = refl
distribute_complete counts (s ∷ rest) h =
    ground (arith, text_eq_refl s.node_name, h s.node_name, distribute_complete next rest later)
  where
    n : ℕ
    n = count_of s.node_name counts

    next : Map ℕ
    next = Map.insert s.node_name (n + 1) counts

    later : (node : Text) → count_of node next + on_node node rest ≤ 50
    later node = ground (
      arith,
      count_of-insert s.node_name node (n + 1) counts,
      text_eq_iff s.node_name node,
      h node,
    )

-- The check accepts the sources exactly when no node has more than fifty of them.
pub validate_source_distribution_iff :
    (sources : List CaptureSource)
    → (is_ok (validate_source_distribution sources) ≡ true)
      ↔ ((node : Text) → on_node node sources ≤ max_sources_per_node)
unfolding validate_source_distribution Map.lookup
validate_source_distribution_iff sources = (
  (λ h node. omega (arith, distribute_sound [] sources h node (omega arith))),
  (λ h. distribute_complete [] sources (λ node. omega (arith, h node))),
)
