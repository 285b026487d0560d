-- ===== src/Recording/Tests.antt =====
-- Sizes at which internal/adapter/recording/size.go is run.
use cap_mesh.Prelude.{◌≡◌, refl, OkThen, ok, err, ◌∷◌, ◌++◌}
use cap_mesh.Text.{text, trim_space}
use cap_mesh.Recording.{parse_size, division_by_zero}
use cap_mesh.Recording.Sizes.{StandsFor, parse_size-StandsFor}

-- Two KiB.
two_kib : parse_size (text " 2KiB ") ≡ ok 2048
unfolding parse_size
two_kib = refl

-- A unit that begins with the Kelvin sign passes the pattern, has no multiplier, and the division by
-- it panics.
kelvin : parse_size (text "1" ++ 226 ∷ 132 ∷ 170 ∷ text "B") ≡ err division_by_zero
unfolding parse_size
kelvin = refl

parse_size-StandsFor_example :
    OkThen (StandsFor (trim_space (text " 2KiB "))) (parse_size (text " 2KiB "))
parse_size-StandsFor_example = parse_size-StandsFor (text " 2KiB ")
