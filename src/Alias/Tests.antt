-- ===== src/Alias/Tests.antt =====
-- Names of interfaces at which internal/core/interfacealias/alias.go is run.
use cap_mesh.Prelude.{◌↔◌, ◌≡◌, refl, true, ok, is_ok, OkThen, ◌∷◌}
use cap_mesh.Text.{text}
use cap_mesh.Alias.{normalize, folded}
use cap_mesh.Alias.Canonical.{IsName, IsCanonical, normalize-IsCanonical, normalize_idem}

normalized : normalize (text " Eth-0 ") ≡ ok (text "eth-0")
unfolding normalize
normalized = refl

normalize-IsCanonical_example :
    ((is_ok (normalize (text " Eth-0 ")) ≡ true) ↔ IsName (folded (text " Eth-0 ")))
    × OkThen IsCanonical (normalize (text " Eth-0 "))
normalize-IsCanonical_example = normalize-IsCanonical (text " Eth-0 ")

normalize_idem_example : normalize (text "eth-0") ≡ ok (text "eth-0")
normalize_idem_example = normalize_idem (text " Eth-0 ") {a = text "eth-0"} normalized

-- A no-break space, a Kelvin sign and a dotted capital I.
folds : normalize (194 ∷ 160 ∷ 226 ∷ 132 ∷ 170 ∷ 196 ∷ 176 ∷ text " ") ≡ ok (text "ki")
unfolding normalize
folds = refl
