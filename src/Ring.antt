-- ===== src/Ring.antt =====
-- internal/adapter/capture/afpacket.go: the budget of the memory of packet rings, and the checks of a
-- ring's configuration. A release function is the number of its acquire: its sync.Once is spent when
-- the number is no longer among those live. The size of a memory page is a parameter.
pub mod Budgets
pub mod Requests
pub mod Tests
use cap_mesh.Prelude.{
  ℕ, suc, ◌+◌, ◌-◌, ◌%◌, ◌^◌, ◌≡◌, Bool, true, false, not, List, [], ◌∷◌, Option, none, some,
  if◌then◌else◌, Result, ok, err, ◌>>=◌, ◌>>◌, fail_if, ◌==◌, ltb, leb, ◌||◌, ℤ, pos, pos_part,
  below, ◌*◌,
}

pub data RingError : Type 0 where
  bad_ring_size bad_block_size bad_frame_size : RingError
  ring_not_blocks block_not_pages block_not_frames : RingError
  bad_block_timeout bad_poll_timeout bad_stats_interval : RingError
  bad_budget ring_budget_exceeded no_compiler no_budget : RingError

abbrev pub millisecond : ℕ
millisecond = 1000000

pub record AfPacketConfig : Type 0 where
  pub ring_size : ℤ
  pub block_size : ℤ
  pub frame_size : ℤ
  pub block_timeout : ℤ
  pub poll_timeout : ℤ
  pub stats_interval : ℤ

-- The three sizes are positive where the remainders are taken.
unfoldable pub validate_config : ℕ → AfPacketConfig → Result RingError (Unit {0})
validate_config page_size c = do
  fail_if (below c.ring_size 1) bad_ring_size
  fail_if (below c.block_size 1) bad_block_size
  fail_if (below c.frame_size 1) bad_frame_size
  fail_if (not (pos_part c.ring_size % pos_part c.block_size == 0)) ring_not_blocks
  fail_if (not (pos_part c.block_size % page_size == 0)) block_not_pages
  fail_if (not (pos_part c.block_size % pos_part c.frame_size == 0)) block_not_frames
  fail_if (below c.block_timeout millisecond) bad_block_timeout
  fail_if (below c.poll_timeout millisecond) bad_poll_timeout
  fail_if (below c.stats_interval 1) bad_stats_interval
  ok tt

-- `live` has the acquires that are not released yet, with their sizes.
pub record RingBudget : Type 0 where
  pub limit : ℕ
  pub used : ℕ
  pub next : ℕ
  pub live : List (ℕ × ℕ)

unfoldable pub new_ring_budget : ℤ → Result RingError RingBudget
new_ring_budget limit = do
  fail_if (below limit 1) bad_budget
  ok (record { limit = pos_part limit; used = 0; next = 0; live = [] })

-- The number of the release function, and the budget.
unfoldable pub acquire : ℤ → RingBudget → Result RingError (ℕ × RingBudget)
acquire size b = do
  fail_if (below size 1 || ltb (b.limit - b.used) (pos_part size)) ring_budget_exceeded
  ok (
    b.next,
    record b {
      used = b.used + pos_part size;
      next = suc b.next;
      live = (b.next, pos_part size) ∷ b.live;
    },
  )

unfoldable pub size_of : ℕ → List (ℕ × ℕ) → Option ℕ
size_of token [] = none
size_of token ((t, size) ∷ live) = if t == token then some size else size_of token live

unfoldable pub spend : ℕ → List (ℕ × ℕ) → List (ℕ × ℕ)
spend token [] = []
spend token ((t, size) ∷ live) = if t == token then live else (t, size) ∷ spend token live

-- The first call of a release function gives the size back, any other does nothing.
unfoldable pub release : ℕ → RingBudget → RingBudget
unfolding size_of spend
release token b = elim (size_of token b.live) [
  | none ↦ b
  | some size ↦ record b { used = b.used - size; live = spend token b.live }
]

unfoldable pub default_config : AfPacketConfig
default_config = record {
  ring_size = pos (64 * 2 ^ 20);
  block_size = pos (2 ^ 20);
  frame_size = pos (4 * 2 ^ 10);
  block_timeout = pos millisecond;
  poll_timeout = pos millisecond;
  stats_interval = pos (1000 * millisecond);
}

-- DefaultRingBudget; the limit is positive, so there is no error.
unfoldable pub default_ring_budget : Result RingError RingBudget
unfolding new_ring_budget
default_ring_budget = new_ring_budget (pos (512 * 2 ^ 20))

unfoldable pub usage : RingBudget → ℕ × ℕ
usage b = (b.used, b.limit)

-- Whether a compiler is given, and the budget if one is.
unfoldable pub new_af_packet :
    ℕ → AfPacketConfig → Bool → Option RingBudget → Result RingError (AfPacketConfig × RingBudget)
unfolding validate_config usage
new_af_packet page_size c has_compiler none = do
  validate_config page_size c
  fail_if (not has_compiler) no_compiler
  err no_budget
new_af_packet page_size c has_compiler (some b) = do
  validate_config page_size c
  fail_if (not has_compiler) no_compiler
  fail_if (ltb (usage b).1 (pos_part c.ring_size)) ring_budget_exceeded
  ok (c, b)
