-- ===== src/Adapters.antt =====
-- include/allocator.h: allocators for the standard containers on top of `arena`, `dynamic_slab` and
-- `pool`. An allocator is the pointer that it holds; `sizeof_t` is `sizeof(T)`.
pub mod Bounds
mod Examples
use slab_allocator.Base.{
  ℕ, ◌==◌, Bool, not, ◌&&◌, ltb, if◌then◌else◌, Option, none, some, ◌>>=◌, Build,
}
use slab_allocator.Machine.Word.{nullptr, mul_word}
use slab_allocator.Machine.Memory.{Memory}
use slab_allocator.Platform.{Os, Result, ok, bad_alloc, aborted}
use slab_allocator.Arena.{Arena}
use slab_allocator.Arena as Arena
use slab_allocator.Pool.{Pool}
use slab_allocator.Pool as Pool
use slab_allocator.DynamicSlab.{DynamicSlab, World}
use slab_allocator.DynamicSlab as DynamicSlab

-- `arena_allocator<T>`, `slab_allocator<T>` and `pool_allocator<T>`
pub record ArenaAllocator : Type 0 where
  pub m_arena : ℕ

pub record SlabAllocator : Type 0 where
  pub m_slab : ℕ

pub record PoolAllocator : Type 0 where
  pub m_pool : ℕ

-- The conversions from the allocator of another type copy the pointer.
pub convert_arena : ArenaAllocator → ArenaAllocator
convert_arena other = record { m_arena = other.m_arena }

pub convert_slab : SlabAllocator → SlabAllocator
convert_slab other = record { m_slab = other.m_slab }

pub convert_pool : PoolAllocator → PoolAllocator
convert_pool other = record { m_pool = other.m_pool }

-- What `allocate` makes of a pointer: an exception in place of null.
abbrev pub or_throw : {S : Type 0} → ℕ → S → Result (Unit {0}) ℕ S
or_throw ptr s = if ptr == nullptr then bad_alloc tt s else ok ptr s

-- The arena that the allocator points to is passed on; `spurious` as in `arena::alloc`.
pub allocate_arena : ℕ → ℕ → Arena → ℕ → Result (Unit {0}) ℕ Arena
unfolding mul_word
allocate_arena spurious sizeof_t a n =
    let (ptr, a') = Arena.alloc spurious a (mul_word n sizeof_t) in
    if n == 0 then ok nullptr a else or_throw ptr a'

pub deallocate_arena : Arena → ℕ → ℕ → Arena
deallocate_arena a ptr n = a

pub equal_arena : ArenaAllocator → ArenaAllocator → Bool
equal_arena x y = x.m_arena == y.m_arena

pub differ_arena : ArenaAllocator → ArenaAllocator → Bool
differ_arena x y = not (x.m_arena == y.m_arena)

pub allocate_slab :
    {S : Type 0}
    → Build
    → Os S
    → ℕ
    → ℕ
    → DynamicSlab
    → World S
    → ℕ
    → Result (Unit {0}) ℕ (DynamicSlab × World S)
unfolding mul_word
allocate_slab b os slab_size sizeof_t d w n =
    if n == 0
    then ok nullptr (d, w)
    else elim (DynamicSlab.palloc b os slab_size d w (mul_word n sizeof_t)) [
      | none ↦ aborted
      | some (ptr, d', w') ↦ or_throw ptr (d', w')
    ]

pub deallocate_slab : {S : Type 0} → Build → ℕ → DynamicSlab → World S → ℕ → ℕ → Option (World S)
unfolding mul_word
deallocate_slab b sizeof_t d w ptr n =
    if not (ptr == nullptr) && ltb 0 n
    then DynamicSlab.free b d w ptr (mul_word n sizeof_t)
    else some w

pub equal_slab : SlabAllocator → SlabAllocator → Bool
equal_slab x y = x.m_slab == y.m_slab

pub differ_slab : SlabAllocator → SlabAllocator → Bool
differ_slab x y = not (x.m_slab == y.m_slab)

pub allocate_pool : Build → Pool → Memory → ℕ → Result (Unit {0}) ℕ Pool
allocate_pool b p m n =
    if n == 1
    then elim (Pool.alloc b p m) [ none ↦ aborted | some (ptr, q) ↦ or_throw ptr q ]
    else bad_alloc tt p

pub deallocate_pool : Build → Pool → Memory → ℕ → ℕ → Option (Pool × Memory)
deallocate_pool b p m ptr n =
    if not (ptr == nullptr) && n == 1 then Pool.free b p m ptr else some (p, m)

pub equal_pool : PoolAllocator → PoolAllocator → Bool
equal_pool x y = x.m_pool == y.m_pool

pub differ_pool : PoolAllocator → PoolAllocator → Bool
differ_pool x y = not (x.m_pool == y.m_pool)
