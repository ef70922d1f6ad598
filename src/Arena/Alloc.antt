-- ===== src/Arena/Alloc.antt =====
-- `arena::alloc` and `arena::calloc` against what they promise.
use slab_allocator.Base.{
  ℕ, zero, suc, ◌+◌, ◌-◌, ◌%◌, ◌^◌, ◌≤◌, ◌<◌, ◌≡◌, refl, ◌≢◌, ◌⊎◌, ◌||◌, arith, ◌==◌, ltb,
  if◌then◌else◌,
}
use slab_allocator.Machine.Word.{nullptr}
use slab_allocator.Machine.Bits.{and_word-not_word_15}
use slab_allocator.Machine.Memory.{Memory, memset}
use slab_allocator.Arena.{Arena, refuse, exchange, attempt, alloc_loop, alloc, calloc}
use slab_allocator.Arena.Layout.{align_up, IsArena}

-- One round, without the wrap of machine words.
pub attempt_lem :
    (a : Arena) (length current : ℕ)
    → IsArena a
    → current ≤ a.capacity
    → attempt a length current ≡ (
        if ltb a.capacity (align_up current + length)
        then refuse
        else exchange (align_up current) (align_up current + length))
unfolding attempt
attempt_lem a length current v h =
    let bumped : ((current + 16) % 2 ^ 64 + 2 ^ 64 - 1) % 2 ^ 64 ≡ current + 15 = omega arith in
    rw (bumped, and_word-not_word_15 (current + 15) (omega arith)) (ground arith)

-- `arena::alloc` of a well-formed arena, however often its compare-exchange fails for no reason: null
-- and no change for a zero length, an arena without memory and a request that
-- does not fit behind the used part; else the first aligned offset, and the arena used up to the
-- end of the block.
pub alloc_lem :
    (spurious : ℕ) (a : Arena) (length : ℕ)
    → IsArena a
    → alloc spurious a length ≡ (
        if length == 0 || a.memory == nullptr || ltb a.capacity (align_up a.used + length)
        then (nullptr, a)
        else (a.memory + align_up a.used, record a { used = align_up a.used + length }))
unfolding alloc
alloc_lem zero a length v = rw (attempt_lem a length a.used v v.within, alloc_loop) (ground arith)
alloc_lem (suc n) a length v =
    rw (attempt_lem a length a.used v v.within, alloc_loop) (ground (arith, alloc_lem n a length v))

-- A block that `alloc` of a well-formed arena gives is aligned to 16 bytes, lies in the arena's
-- memory behind all that was used and ends where the used part now ends; the arena stays well formed
-- in the same memory.
pub alloc_bounds :
    (spurious : ℕ) (a : Arena) (length : ℕ)
    → IsArena a
    → let (ptr, a') = alloc spurious a length in
      IsArena a'
      × (a'.memory ≡ a.memory)
      × (a'.capacity ≡ a.capacity)
      × (ptr ≢ nullptr
          → (ptr % 16 ≡ 0)
            × (a.memory + a.used ≤ ptr)
            × (ptr + length ≡ a.memory + a'.used)
            × (ptr + length ≤ a.memory + a.capacity))
alloc_bounds n a length v = rw (alloc_lem n a length v) (ground arith)

-- `arena::calloc` takes the same block as `alloc`, makes its bytes zero, and writes nothing else.
pub calloc-alloc :
    (spurious : ℕ) (a : Arena) (length : ℕ) (m : Memory)
    → let (ptr, a', m') = calloc spurious a length m in
      ((ptr, a') ≡ alloc spurious a length)
      × ((i : ℕ) → ptr ≢ nullptr → ptr ≤ i → i < ptr + length → m' i ≡ 0)
      × ((i : ℕ) → (ptr ≡ nullptr) ⊎ (i < ptr) ⊎ (ptr + length ≤ i) → m' i ≡ m i)
unfolding calloc memset
calloc-alloc n a length m = (refl, λ i h p q. ground arith, λ i h. ground arith)
