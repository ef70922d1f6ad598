-- ===== src/Adapters/Bounds.antt =====
-- What the containers get from the allocators of include/allocator.h.
use slab_allocator.Base.{
  ℕ, ◌+◌, ◌*◌, ◌%◌, ◌^◌, ◌≤◌, ◌<◌, ◌≡◌, refl, ◌≢◌, ◌⊎◌, ◌==◌, false, ltb, ◌||◌, List, [], ◌∷◌, ap,
  ◌∙◌, some, arith, Build, Bool-cases, inl, inr,
}
use slab_allocator.Machine.Word.{nullptr}
use slab_allocator.Machine.Memory.{Memory}
use slab_allocator.Platform.{Result, ok, bad_alloc, aborted}
use slab_allocator.Platform.Laws.{ne-eqb}
use slab_allocator.Arena.{Arena}
use slab_allocator.Arena.Layout.{IsArena, align_up}
use slab_allocator.Arena.Alloc.{alloc_lem}
use slab_allocator.Pool.{Pool, pop}
use slab_allocator.Pool.Chain.{IsPool}
use slab_allocator.Pool.Blocks.{pop-IsPool, alloc-pop, alloc-empty, free_lem}
use slab_allocator.Adapters.{allocate_arena, allocate_pool, deallocate_pool}

-- What `allocate(n)` gives a container of elements of `sizeof_t` bytes: null for no elements, an
-- aligned block of the arena with room for all of them, or an exception and the arena as before.
abbrev pub Room : ℕ → ℕ → Arena → Result (Unit {0}) ℕ Arena → Type 0
Room sizeof_t n a (ok ptr a') =
    ((n ≡ 0) × (ptr ≡ nullptr) × (a' ≡ a))
    ⊎ ((ptr ≢ nullptr)
        × (ptr % 16 ≡ 0)
        × (a.memory + a.used ≤ ptr)
        × (ptr + n * sizeof_t ≡ a.memory + a'.used)
        × (a'.used ≤ a.capacity)
        × IsArena a')
Room sizeof_t n a (bad_alloc e a') = (1 ≤ n) × (a' ≡ a)
Room sizeof_t n a aborted = ⊥

-- While the size of the elements fits a machine word, `arena_allocator::allocate` of a well-formed
-- arena gives null for no elements, else an aligned block behind all that was used with room for all
-- elements, or it throws and the arena is as before.
pub allocate_arena-Room :
    (spurious sizeof_t n : ℕ) (a : Arena)
    → IsArena a
    → n * sizeof_t < 2 ^ 64
    → Room sizeof_t n a (allocate_arena spurious sizeof_t a n)
unfolding allocate_arena
allocate_arena-Room spurious sizeof_t n a v h =
    let k = n * sizeof_t in
    let fits : n * sizeof_t % 2 ^ 64 ≡ n * sizeof_t = omega arith in
    rw (fits, alloc_lem spurious a k v)
      (elim (Bool-cases (n == 0)) [
        | inl none ↦ rw none (inl (ground (arith, none), refl, refl))
        | inr some_left ↦
            elim (Bool-cases
              (k == 0 || a.memory == nullptr || ltb a.capacity (align_up a.used + k))) [
                | inl refused ↦ rw (some_left, refused) (ground (arith, some_left), refl)
                | inr given ↦
                    (let facts : (a.memory ≢ 0) × (align_up a.used + k ≤ a.capacity) =
                        ground (arith, given) in
                      let found : (a.memory + align_up a.used == nullptr) ≡ false = ground arith in
                      rw (some_left, given, found)
                        (inr (
                          omega arith,
                          omega (arith, v.memory_aligned),
                          omega arith,
                          omega arith,
                          facts.1,
                          record {
                            memory_aligned = v.memory_aligned;
                            capacity_aligned = v.capacity_aligned;
                            within = facts.1;
                            in_space = v.in_space;
                          },
                        )))
              ]
      ])

-- The size of the elements is not checked for overflow: when it does not fit a machine word, and the
-- arena has room for what the product wraps to, the call succeeds, and the block has no more bytes
-- than that: its elements would end behind the arena.
pub allocate_arena-short :
    (spurious sizeof_t n : ℕ) (a : Arena)
    → IsArena a
    → a.memory ≢ nullptr
    → 2 ^ 64 ≤ n * sizeof_t
    → 1 ≤ n * sizeof_t % 2 ^ 64
    → align_up a.used + n * sizeof_t % 2 ^ 64 ≤ a.capacity
    → (ptr : ℕ) × (a' : Arena) × (allocate_arena spurious sizeof_t a n ≡ ok ptr a')
      × (ptr + n * sizeof_t % 2 ^ 64 ≡ a.memory + a'.used)
      × (a.memory + a.capacity < ptr + n * sizeof_t)
unfolding allocate_arena
allocate_arena-short spurious sizeof_t n a v mapped wraps some_left room =
    let k = n * sizeof_t % 2 ^ 64 in
    let some_elements : (n == 0) ≡ false = elim (Bool-cases (n == 0)) [
      | inl none ↦
          let zero_all : n * sizeof_t ≡ 0 =
            ap (λ i. i * sizeof_t) (let z : n ≡ 0 = ground (arith, none) in z) ∙ omega arith in
          absurd (omega (arith, wraps, zero_all))
      | inr e ↦ e
    ] in
    let given : (k == 0 || a.memory == nullptr || ltb a.capacity (align_up a.used + k)) ≡ false =
      ground (arith, some_left, mapped, room) in
    let found : (a.memory + align_up a.used == nullptr) ≡ false = ground (arith, mapped) in
    (
      a.memory + align_up a.used,
      record a { used = align_up a.used + k },
      rw (some_elements, alloc_lem spurious a k v, given, found) refl,
      omega arith,
      omega (arith, wraps, v.in_space),
    )

-- What `pool_allocator` does for one element with the free blocks of the pool: an exception and the
-- pool as before, or the first of them, which `deallocate` makes the first free one again.
abbrev pub Lent : Build → Pool → Memory → List ℕ → List ℕ → Type 0
Lent b p m live [] = allocate_pool b p m 1 ≡ bad_alloc tt p
Lent b p m live (x ∷ rest) =
    (q : Pool) × (allocate_pool b p m 1 ≡ ok x q)
    × IsPool q m (x ∷ live) rest
    × (q' : Pool) × (m' : Memory) × (deallocate_pool b q m x 1 ≡ some (q', m'))
    × IsPool q' m' live (x ∷ rest)

-- `pool_allocator` of a pool that meets the invariant gives the first free block for one element, and
-- throws, with the pool as before, when no block is free and for any other number of elements;
-- `deallocate` of that block makes it the first free one again. The invariant holds after each call.
pub deallocate_pool-allocate_pool :
    {p : Pool} {m : Memory} {live : List ℕ} (b : Build) (rest : List ℕ)
    → IsPool p m live rest
    → Lent b p m live rest × ((n : ℕ) → n ≢ 1 → allocate_pool b p m n ≡ bad_alloc tt p)
unfolding allocate_pool deallocate_pool
deallocate_pool-allocate_pool {p} {m} {live} b [] v =
    (rw (alloc-empty b v), λ n ne. ground (arith, ne))
deallocate_pool-allocate_pool {p} {m} {live} b (x ∷ rest) v =
    let w = pop-IsPool x rest v in
    let back = free_lem b x w in
    let real = ne-eqb x v.chain.1 in
    (
      (pop p m, rw (alloc-pop b x rest v, real), w, back.0, back.1, rw (real, back.2), back.3),
      λ n ne. ground (arith, ne),
    )
