-- ===== src/Session/Sources/Nodes.antt =====
-- sourceNodes of internal/application/session/service.go: the nodes, sorted and each once.
use cap_mesh.Prelude.{◌≡◌, refl, Bool, true, false, ◌||◌, not, List, [], ◌∷◌, ◌∙◌, arith, ◌&&◌}
use cap_mesh.Text.{Text, text_eq, text_eq_iff, is_empty, contains, text_lt, IsDistinct}
use cap_mesh.Domain.{CaptureSource}
use cap_mesh.Session.Sources.{insert_sorted, sort_texts, node_set, source_nodes}

-- Whether a source is on the node.
abbrev has_node : List CaptureSource → Text → Bool
has_node [] node = false
has_node (s ∷ rest) node = text_eq s.node_name node || has_node rest node

contains-insert_sorted :
    (t u : Text) (us : List Text) → contains (insert_sorted t us) u ≡ (text_eq t u || contains us u)
unfolding insert_sorted contains
contains-insert_sorted t u [] = refl
contains-insert_sorted t u (v ∷ us) = ground (arith, contains-insert_sorted t u us)

contains-sort_texts : (ts : List Text) (u : Text) → contains (sort_texts ts) u ≡ contains ts u
unfolding sort_texts contains
contains-sort_texts [] u = refl
contains-sort_texts (t ∷ ts) u =
    ground (arith, contains-insert_sorted t u (sort_texts ts), contains-sort_texts ts u)

contains-node_set :
    (sources : List CaptureSource) (node : Text)
    → contains (node_set sources) node ≡ (not (is_empty node) && has_node sources node)
unfolding node_set contains
contains-node_set [] node = ground arith
contains-node_set (s ∷ rest) node = ground (
  arith,
  text_eq_iff s.node_name node,
  contains-node_set rest node,
  contains-node_set rest s.node_name,
)

-- A node is listed exactly when it has a name and one of the sources is on it.
source_nodes-has_node :
    (sources : List CaptureSource) (node : Text)
    → contains (source_nodes sources) node ≡ (not (is_empty node) && has_node sources node)
unfolding source_nodes
source_nodes-has_node sources node =
    contains-sort_texts (node_set sources) node ∙ contains-node_set sources node

-- The texts increase strictly.
abbrev pub Increases : List Text → Type 0
Increases [] = Unit
Increases (t ∷ []) = Unit
Increases (t ∷ u ∷ us) = (text_lt t u ≡ true) × Increases (u ∷ us)

text_lt-total : (t u : Text) → text_lt t u ≡ false → text_eq t u ≡ false → text_lt u t ≡ true
unfolding text_lt text_eq
text_lt-total [] [] h e = absurd (ground arith)
text_lt-total [] (y ∷ u) h e = absurd (ground arith)
text_lt-total (x ∷ t) [] h e = refl
text_lt-total (x ∷ t) (y ∷ u) h e = ground (arith, text_lt-total t u)

Increases-insert_sorted :
    (t : Text) (us : List Text)
    → contains us t ≡ false
    → Increases us
    → Increases (insert_sorted t us)
unfolding insert_sorted contains
Increases-insert_sorted t [] h s = tt
Increases-insert_sorted t (u ∷ []) h s = ground (arith, text_lt-total u t)
Increases-insert_sorted t (u ∷ v ∷ us) h s =
    ground (arith, text_lt-total u t, Increases-insert_sorted t (v ∷ us))

IsDistinct-node_set : (sources : List CaptureSource) → IsDistinct (node_set sources)
unfolding node_set
IsDistinct-node_set [] = tt
IsDistinct-node_set (s ∷ rest) = ground (arith, IsDistinct-node_set rest)

Increases-sort_texts : (ts : List Text) → IsDistinct ts → Increases (sort_texts ts)
unfolding sort_texts
Increases-sort_texts [] d = tt
Increases-sort_texts (t ∷ ts) (h, d) =
    Increases-insert_sorted t (sort_texts ts) (contains-sort_texts ts t ∙ h)
      (Increases-sort_texts ts d)

-- The nodes are listed in strictly increasing order, so that none is listed twice.
pub source_nodes-Increases : (sources : List CaptureSource) → Increases (source_nodes sources)
unfolding source_nodes
source_nodes-Increases sources =
    Increases-sort_texts (node_set sources) (IsDistinct-node_set sources)
