-- ===== src/Arena/Layout.antt =====
-- The well-formed arenas, and where a block of a given length goes.
use slab_allocator.Base.{ℕ, ◌+◌, ◌*◌, ◌/◌, ◌%◌, ◌^◌, ◌≤◌, ◌<◌, ◌≡◌}
use slab_allocator.Arena.{Arena}

-- The least multiple of 16 that is not below `n`.
abbrev pub align_up : ℕ → ℕ
align_up n = (n + 15) / 16 * 16

pub record IsArena (a : Arena) : Type 0 where
  pub memory_aligned : a.memory % 16 ≡ 0
  pub capacity_aligned : a.capacity % 16 ≡ 0
  pub within : a.used ≤ a.capacity
  pub in_space : a.memory + a.capacity < 2 ^ 64
