-- ===== src/Ring/Tests.antt =====
-- internal/adapter/capture/afpacket.go: rings and budgets at concrete sizes.
use cap_mesh.Prelude.{
  ℕ, ◌*◌, ◌^◌, ◌≡◌, refl, true, some, List, [], ◌∷◌, ok, err, is_ok, pos, pos_part,
}
use cap_mesh.Ring.{
  default_config, default_ring_budget, RingBudget, new_ring_budget, acquire, release, new_af_packet,
  validate_config, ring_not_blocks, ring_budget_exceeded,
}
use cap_mesh.Ring.Budgets.{IsWithin, Uses, here, acquired, released, Uses-IsWithin}

abbrev holding : ℕ → ℕ → List (ℕ × ℕ) → RingBudget
holding used next live = record { limit = 100; used = used; next = next; live = live }

abbrev new_100 : RingBudget
new_100 = holding 0 0 []

abbrev two_rings : RingBudget
two_rings = holding 90 2 ((1, 50) ∷ (0, 40) ∷ [])

default_is_valid : is_ok (validate_config 4096 default_config) ≡ true
unfolding validate_config default_config
default_is_valid = refl

uneven :
    validate_config 4096 (record default_config { block_size = pos 3000000 }) ≡ err ring_not_blocks
unfolding validate_config default_config
uneven = refl

first : acquire (pos 40) new_100 ≡ ok (0, holding 40 1 ((0, 40) ∷ []))
unfolding acquire
first = refl

second : acquire (pos 50) (holding 40 1 ((0, 40) ∷ [])) ≡ ok (1, two_rings)
unfolding acquire
second = refl

third : acquire (pos 11) two_rings ≡ err ring_budget_exceeded
unfolding acquire
third = refl

release_twice : release 0 (release 0 two_rings) ≡ holding 50 2 ((1, 50) ∷ [])
unfolding release
release_twice = refl

is_new : new_ring_budget (pos 100) ≡ ok new_100
unfolding new_ring_budget
is_new = refl

abbrev uses : Uses new_100 (release 0 (release 0 two_rings))
uses = released 0 (released 0 (acquired (pos 50) 1 (acquired (pos 40) 0 here first) second))

Uses-IsWithin_example :
    IsWithin (release 0 (release 0 two_rings))
    × ((release 0 (release 0 two_rings)).limit ≡ pos_part (pos 100))
    × ((token : ℕ)
        → release token (release token (release 0 (release 0 two_rings)))
          ≡ release token (release 0 (release 0 two_rings)))
Uses-IsWithin_example = Uses-IsWithin (pos 100) is_new uses

abbrev default_budget : RingBudget
default_budget = record { limit = 512 * 2 ^ 20; used = 0; next = 0; live = [] }

default_is_new : default_ring_budget ≡ ok default_budget
unfolding default_ring_budget
default_is_new = refl

default_is_accepted : is_ok (new_af_packet 4096 default_config true (some default_budget)) ≡ true
unfolding new_af_packet default_config
default_is_accepted = refl
