-- ===== src/Session/Sources/Unique.antt =====
-- uniqueSources and sourceNodes of internal/application/session/service.go: what they keep.
use cap_mesh.Prelude.{◌≡◌, refl, inl, inr, true, false, ◌||◌, List, [], ◌∷◌, arith, Bool-cases}
use cap_mesh.Text.{Text, text_eq_iff, text_eq_refl, is_empty, contains, IsDistinct}
use cap_mesh.Domain.{CaptureSource}
use cap_mesh.Session.Sources.{unique_from, unique_sources}

abbrev pub ids_of : List CaptureSource → List Text
ids_of [] = []
ids_of (s ∷ rest) = s.id ∷ ids_of rest

-- The IDs are distinct and nonempty.
abbrev pub HasIds : List CaptureSource → Type 0
HasIds sources = IsDistinct (ids_of sources) × (contains (ids_of sources) [] ≡ false)

unique_from-skips :
    (id : Text) (seen : List Text) (sources : List CaptureSource)
    → contains seen id ≡ true
    → contains (ids_of (unique_from seen sources)) id ≡ false
unfolding unique_from contains
unique_from-skips id seen [] h = refl
unique_from-skips id seen (s ∷ rest) h = elim (Bool-cases (is_empty s.id || contains seen s.id)) [
  | inl e ↦ rw e (unique_from-skips id seen rest h)
  | inr e ↦ ground (arith, text_eq_iff s.id id, unique_from-skips id (s.id ∷ seen) rest)
]

unique_from-HasIds :
    (seen : List Text) (sources : List CaptureSource) → HasIds (unique_from seen sources)
unfolding unique_from contains
unique_from-HasIds seen [] = (tt, refl)
unique_from-HasIds seen (s ∷ rest) = elim (Bool-cases (is_empty s.id || contains seen s.id)) [
  | inl e ↦ rw e (unique_from-HasIds seen rest)
  | inr e ↦ ground (
    arith,
    text_eq_refl s.id,
    text_eq_iff s.id [],
    unique_from-skips s.id (s.id ∷ seen) rest,
    unique_from-HasIds (s.id ∷ seen) rest,
  )
]

-- The sources kept have distinct nonempty IDs.
pub unique_sources-HasIds : (sources : List CaptureSource) → HasIds (unique_sources sources)
unfolding unique_sources
unique_sources-HasIds sources = unique_from-HasIds [] sources

unique_from-covers :
    (id : Text) (seen : List Text) (sources : List CaptureSource)
    → is_empty id ≡ false
    → contains seen id ≡ false
    → contains (ids_of (unique_from seen sources)) id ≡ contains (ids_of sources) id
unfolding unique_from contains
unique_from-covers id seen [] e h = refl
unique_from-covers id seen (s ∷ rest) e h = ground (
  arith,
  text_eq_iff s.id id,
  unique_from-covers id seen rest e h,
  unique_from-covers id (s.id ∷ seen) rest e,
)
