-- ===== src/Adapters/Examples.antt =====
-- The adapters at concrete inputs: the theorems of Bounds applied.
use slab_allocator.Base.{ℕ, ◌+◌, ◌*◌, ◌^◌, ◌<◌, ◌≡◌, ◌≢◌, [], ◌∷◌, arith, debug}
use slab_allocator.Platform.{ok, bad_alloc}
use slab_allocator.Arena.{Arena}
use slab_allocator.Arena.Examples.{page_arena, page_arena-IsArena}
use slab_allocator.Pool.Examples.{two_blocks, linked, two_blocks-IsPool}
use slab_allocator.Adapters.{allocate_arena, allocate_pool}
use slab_allocator.Adapters.Bounds.{
  Room, Lent, allocate_arena-Room, allocate_arena-short, deallocate_pool-allocate_pool,
}

-- Twelve elements of 8 bytes, in a page of which 20 bytes are used.
allocate_arena-Room_example : Room 8 12 page_arena (allocate_arena 1 8 page_arena 12)
allocate_arena-Room_example = allocate_arena-Room 1 8 12 page_arena page_arena-IsArena (omega arith)

-- 2^61 + 1 elements of 8 bytes: the product is 8.
allocate_arena-short_example :
    (ptr : ℕ) × (a' : Arena) × (allocate_arena 0 8 page_arena (2 ^ 61 + 1) ≡ ok ptr a')
    × (ptr + 8 ≡ 4096 + a'.used)
    × (8192 < ptr + (2 ^ 61 + 1) * 8)
allocate_arena-short_example =
    allocate_arena-short 0 8 (2 ^ 61 + 1) page_arena page_arena-IsArena (omega arith) (omega arith)
      (omega arith) (omega arith)

deallocate_pool-allocate_pool_example :
    Lent debug two_blocks linked [] (4096 ∷ 4128 ∷ [])
    × ((n : ℕ) → n ≢ 1 → allocate_pool debug two_blocks linked n ≡ bad_alloc tt two_blocks)
deallocate_pool-allocate_pool_example =
    deallocate_pool-allocate_pool debug (4096 ∷ 4128 ∷ []) two_blocks-IsPool
