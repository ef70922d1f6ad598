-- ===== src/Slab/Cache.antt =====
-- `thread_local_cache` of include/slab.h, and the part of `slab::alloc` and `slab::free` that works
-- on one cache and the pool behind it.
pub mod Entries
pub mod Alloc
pub mod Free
pub mod Flaws
pub mod Places
use slab_allocator.Base.{
  ℕ, suc, ◌+◌, ◌-◌, Bool, ◌==◌, ltb, not, if◌then◌else◌, List, length, Option, none, some, ◌>>=◌,
  ◌>>◌, get_elem?, set, drop, Build, assert,
}
use slab_allocator.Machine.Word.{nullptr, sub_word}
use slab_allocator.Machine.Memory.{Memory}
use slab_allocator.Pool.{Pool, alloc_batched_internal, free_batched_internal}

abbrev pub object_count : ℕ
object_count = 128

pub record ThreadLocalCache : Type 0 where
  pub objects : List ℕ
  pub current : ℕ
  pub batch_size : ℕ

abbrev pub is_empty : ThreadLocalCache → Bool
is_empty c = c.current == 0

abbrev pub is_full : ThreadLocalCache → Bool
is_full c = c.current == object_count

unfoldable pub invalidate : ThreadLocalCache → ThreadLocalCache
invalidate c = record c { current = 0 }

-- `none` for a read behind the end of the array.
pub try_pop : ThreadLocalCache → Option (ℕ × ThreadLocalCache)
try_pop c = if is_empty c then some (nullptr, c) else do
  ptr ← get_elem? c.objects (c.current - 1)
  some (ptr, record c { current = c.current - 1 })

-- `none` for a failed assertion or a write behind the end of the array.
pub push : Build → ThreadLocalCache → ℕ → Option ThreadLocalCache
push b c ptr = do
  assert b (not (is_full c))
  if ltb c.current (length c.objects)
      then some (record c { objects = set c.objects c.current ptr; current = c.current + 1 })
      else none

-- A cache miss: a batch from the pool goes to the start of the array, and its last block is taken.
pub refill : Build → ThreadLocalCache → Pool → Memory → Option (ℕ × ThreadLocalCache × Pool)
refill b c p m = do
  (taken, out, q) ← alloc_batched_internal b p m c.batch_size (some c.objects)
  objects ← out
  (ptr, c') ← try_pop (record c { objects = objects; current = taken })
  some (ptr, c', q)

-- A null pointer in the cache counts as a miss.
pub cache_alloc : Build → ThreadLocalCache → Pool → Memory → Option (ℕ × ThreadLocalCache × Pool)
cache_alloc b c p m = do
  (elem, c') ← try_pop c
  if elem == nullptr then refill b c' p m else some (elem, c', p)

-- A full cache gives its last batch back to the pool.
pub flush_batch :
    Build → ThreadLocalCache → Pool → Memory → Option (ThreadLocalCache × Pool × Memory)
unfolding sub_word
flush_batch b c p m =
    let from = sub_word c.current c.batch_size in
    do
      (q, m') ← free_batched_internal b p m c.batch_size (some (drop from c.objects))
      some (record c { current = from }, q, m')

pub cache_free :
    Build → ThreadLocalCache → Pool → Memory → ℕ → Option (ThreadLocalCache × Pool × Memory)
cache_free b c p m ptr = do
  (c₁, q, m') ← (if is_full c then flush_batch b c p m else some (c, p, m))
  c₂ ← push b c₁ ptr
  some (c₂, q, m')
