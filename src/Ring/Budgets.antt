-- ===== src/Ring/Budgets.antt =====
-- internal/adapter/capture/afpacket.go: the memory that rings hold, and the rings that are accepted.
use cap_mesh.Prelude.{
  ℕ, zero, suc, ◌+◌, ◌-◌, ◌*◌, ◌%◌, ◌/◌, ◌≡◌, ◌≤◌, ◌<◌, refl, Bool, true, false, List, [], ◌∷◌,
  Option, none, some, if◌then◌else◌, ok, is_ok, OkThen, OkThen-fail_if, subst, ◌==◌, ltb, ◌||◌, ℤ,
  pos_part, below, arith,
}
use native.Mathlib.Nat.{div-add-mod'}
use cap_mesh.Ring.{
  AfPacketConfig, validate_config, RingBudget, new_ring_budget, acquire, size_of, spend, release,
  new_af_packet, ring_budget_exceeded,
}

abbrev pub total : List (ℕ × ℕ) → ℕ
total [] = 0
total ((t, size) ∷ live) = size + total live

-- What is used is what the live acquires hold, and it is within the limit.
abbrev pub IsWithin : RingBudget → Type 0
IsWithin b = (b.used ≡ total b.live) × (b.used ≤ b.limit)

-- The budgets that acquires that succeed and releases, in any order and repeated, make.
pub data Uses (b : RingBudget) : RingBudget → Type 0 where
  here : Uses b b
  acquired :
      {c d : RingBudget} (size : ℤ) (token : ℕ)
      → Uses b c
      → acquire size c ≡ ok (token, d)
      → Uses b d
  released : {c : RingBudget} (token : ℕ) → Uses b c → Uses b (release token c)

total-spend :
    (token : ℕ) (live : List (ℕ × ℕ)) (size : ℕ)
    → size_of token live ≡ some size
    → size + total (spend token live) ≡ total live
unfolding size_of spend
total-spend token [] size e = ground arith
total-spend token ((t, s) ∷ live) size e = ground (arith, total-spend token live size)

-- The numbers of the live acquires are below a bound and descend.
abbrev Descends : ℕ → List (ℕ × ℕ) → Type 0
Descends n [] = Unit
Descends n ((t, size) ∷ live) = (t < n) × Descends t live

Descends-weaken : (m n : ℕ) (live : List (ℕ × ℕ)) → m ≤ n → Descends m live → Descends n live
Descends-weaken m n [] h d = tt
Descends-weaken m n ((t, size) ∷ live) h (l, d) = (omega (arith, h, l), d)

spend-Descends :
    (token n : ℕ) (live : List (ℕ × ℕ)) → Descends n live → Descends n (spend token live)
unfolding spend
spend-Descends token n [] d = tt
spend-Descends token n ((t, size) ∷ live) (l, d) =
    elim (t == token)
      as (λ (b : Bool). Descends n (if b then live else (t, size) ∷ spend token live)) [
        | true ↦ Descends-weaken t n live (omega (arith, l)) d
        | false ↦ (l, spend-Descends token t live d)
      ]

size_of-Descends :
    (token n : ℕ) (live : List (ℕ × ℕ)) → Descends n live → n ≤ token → size_of token live ≡ none
unfolding size_of
size_of-Descends token n [] d h = refl
size_of-Descends token n ((t, size) ∷ live) (l, d) h =
    ground (arith, size_of-Descends token t live d (omega (arith, l, h)))

size_of-spend :
    (token n : ℕ) (live : List (ℕ × ℕ)) → Descends n live → size_of token (spend token live) ≡ none
unfolding size_of spend
size_of-spend token n [] d = refl
size_of-spend token n ((t, size) ∷ live) (l, d) =
    ground (arith, size_of-spend token t live d, size_of-Descends t t live d)

abbrev IsSound : ℕ → RingBudget → Type 0
IsSound limit b = (b.limit ≡ limit) × IsWithin b × Descends b.next b.live

acquire-IsSound :
    (limit : ℕ) (size : ℤ) (c : RingBudget)
    → IsSound limit c
    → OkThen (λ (token, d). IsSound limit d) (acquire size c)
unfolding acquire
acquire-IsSound limit size c (same, (exact, fits), d) =
    OkThen-fail_if (λ (token, d). IsSound limit d)
      (below size 1 || ltb (c.limit - c.used) (pos_part size)) ring_budget_exceeded _
      (λ h. (same, (ground (arith, exact), ground (arith, fits)), (omega arith, d)))

released-IsSound :
    (limit token : ℕ) (c : RingBudget) (found : Option ℕ)
    → size_of token c.live ≡ found
    → IsSound limit c
    → IsSound limit (release token c)
unfolding release
released-IsSound limit token c none e s = rw (release, e) s
released-IsSound limit token c (some size) e (same, (exact, fits), d) =
    let sum = total-spend token c.live size e in
    rw (release, e)
      (same, (omega (arith, exact, sum), omega (arith, fits)), spend-Descends token c.next c.live d)

Uses-IsSound : (limit : ℕ) {b c : RingBudget} → IsSound limit b → Uses b c → IsSound limit c
Uses-IsSound limit s here = s
Uses-IsSound limit s (acquired size token u e) =
    subst (OkThen (λ (token, d). IsSound limit d)) e
      (acquire-IsSound limit size _ (Uses-IsSound limit s u))
Uses-IsSound limit s (released token u) =
    released-IsSound limit token _ _ refl (Uses-IsSound limit s u)

new_ring_budget-IsSound :
    (limit : ℤ) (b : RingBudget) → new_ring_budget limit ≡ ok b → IsSound (pos_part limit) b
unfolding new_ring_budget
new_ring_budget-IsSound limit b e = ground arith

release-none : (token : ℕ) (c : RingBudget) → size_of token c.live ≡ none → release token c ≡ c
unfolding release
release-none token c e = rw (release, e) refl

size_of-release :
    (token : ℕ) (c : RingBudget) (found : Option ℕ)
    → size_of token c.live ≡ found
    → Descends c.next c.live
    → size_of token (release token c).live ≡ none
unfolding release
size_of-release token c none e d = rw (release, e) e
size_of-release token c (some size) e d = rw (release, e) (size_of-spend token c.next c.live d)

-- Whatever acquires succeed on a new budget, and whatever release functions are called in whatever
-- order, also repeatedly: what is used is the sum of the sizes that are acquired and not released,
-- it is at most the limit, the limit is the one given, and a release function that is called twice
-- does what it does when it is called once.
pub Uses-IsWithin :
    (limit : ℤ) {b c : RingBudget}
    → new_ring_budget limit ≡ ok b
    → Uses b c
    → IsWithin c
      × (c.limit ≡ pos_part limit)
      × ((token : ℕ) → release token (release token c) ≡ release token c)
Uses-IsWithin limit {b} {c} e u =
    let (same, within, d) = Uses-IsSound (pos_part limit) (new_ring_budget-IsSound limit b e) u in
    (within, same, λ token. release-none token (release token c) (size_of-release token c _ refl d))

-- A positive number of parts of one size.
abbrev pub IsWhole : ℕ → ℕ → Type 0
IsWhole part n = (k : ℕ) × (1 ≤ k) × (n ≡ k * part)

some_part : (k part n : ℕ) → 1 ≤ n → n ≡ k * part → 1 ≤ k
some_part zero part n h e = absurd (omega (arith, h, e))
some_part (suc k) part n h e = omega arith

whole : (part n : ℕ) → 1 ≤ n → (n % part == 0) ≡ true → IsWhole part n
whole part n h e =
    let exact : n % part ≡ 0 = ground arith in
    let sum = div-add-mod' n part in
    let product : n ≡ n / part * part = ground (arith, exact, sum) in
    (n / part, some_part (n / part) part n h product, product)

-- Blocks of whole pages and of whole frames.
abbrev pub IsRing : ℕ → AfPacketConfig → Type 0
IsRing page_size c =
    IsWhole (pos_part c.block_size) (pos_part c.ring_size)
    × IsWhole page_size (pos_part c.block_size)
    × IsWhole (pos_part c.frame_size) (pos_part c.block_size)

validate_config-IsRing :
    (page_size : ℕ) (c : AfPacketConfig)
    → is_ok (validate_config page_size c) ≡ true
    → IsRing page_size c
unfolding validate_config
validate_config-IsRing page_size c h =
    let ring : 1 ≤ pos_part c.ring_size = ground arith in
    let block : 1 ≤ pos_part c.block_size = ground arith in
    (
      whole (pos_part c.block_size) (pos_part c.ring_size) ring (ground arith),
      whole page_size (pos_part c.block_size) block (ground arith),
      whole (pos_part c.frame_size) (pos_part c.block_size) block (ground arith),
    )

new_af_packet_accepts :
    (page_size : ℕ) (c : AfPacketConfig) (has_compiler : Bool) (b : RingBudget)
    → is_ok (new_af_packet page_size c has_compiler (some b)) ≡ true
    → (is_ok (validate_config page_size c) ≡ true)
      × (below c.ring_size 1 ≡ false)
      × (pos_part c.ring_size ≤ b.limit)
unfolding new_af_packet validate_config
new_af_packet_accepts page_size c has_compiler b h = ground arith

new_ring_budget-used : (limit : ℤ) (b : RingBudget) → new_ring_budget limit ≡ ok b → b.used ≡ 0
unfolding new_ring_budget
new_ring_budget-used limit b e = ground arith

-- A packet engine that is made over a new budget can have its ring: the ring is a positive number of
-- blocks, a block a positive number of pages and also of frames, and the acquire of the ring
-- succeeds.
new_af_packet-acquires :
    (page_size : ℕ) (c : AfPacketConfig) (has_compiler : Bool) (limit : ℤ) {b : RingBudget}
    → new_ring_budget limit ≡ ok b
    → is_ok (new_af_packet page_size c has_compiler (some b)) ≡ true
    → IsRing page_size c × (is_ok (acquire c.ring_size b) ≡ true)
unfolding acquire
new_af_packet-acquires page_size c has_compiler limit {b} e h =
    let (valid, positive, fits) = new_af_packet_accepts page_size c has_compiler b h in
    let unused = new_ring_budget-used limit b e in
    (validate_config-IsRing page_size c valid, ground (arith, positive, fits, unused))
