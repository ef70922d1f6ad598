-- ===== src/Slab/Cache/Entries.antt =====
-- The entries of a cache (`thread_local_cache` of include/slab.h), and the invariant of a cache and
-- the pool behind it.
use slab_allocator.Base.{
  ℕ, suc, ◌+◌, ◌-◌, ◌≤◌, ◌<◌, ◌≡◌, ◌∙◌, List, [], ◌∷◌, ◌++◌, length, some, arith, Build, true,
  false, ◌==◌, ltb, set, take, assert-true, take-last, take-set, length-set, get_elem?-set_self,
}
use slab_allocator.Machine.Word.{nullptr}
use slab_allocator.Machine.Memory.{Memory}
use slab_allocator.Pool.{Pool}
use slab_allocator.Pool.Chain.{IsPool}
use slab_allocator.Slab.Cache.{ThreadLocalCache, object_count, try_pop, push}

-- The array has its 128 entries, and a batch is not empty and fits.
pub record IsCache (c : ThreadLocalCache) : Type 0 where
  pub room : length c.objects ≡ object_count
  pub bounded : c.current ≤ object_count
  pub batch_pos : 1 ≤ c.batch_size
  pub batch_fits : c.batch_size ≤ object_count

-- The blocks in the cache.
abbrev pub cached : ThreadLocalCache → List ℕ
cached c = take c.current c.objects

-- Of the pool's blocks, `users` are in clients' hands, the cache holds some, and `free` are on the
-- pool's list.
pub record IsFront (c : ThreadLocalCache) (p : Pool) (m : Memory) (users free : List ℕ)
    : Type 0 where
  pub cache : IsCache c
  pub pool : IsPool p m (cached c ++ users) free

-- A push onto a cache with room passes its assertion and appends the pointer to the cached ones; the
-- next pop gives it back.
pub push_lem :
    (b : Build) (c : ThreadLocalCache) (ptr : ℕ)
    → IsCache c
    → c.current < object_count
    → (c' : ThreadLocalCache) × (push b c ptr ≡ some c')
      × IsCache c'
      × (cached c' ≡ cached c ++ ptr ∷ [])
      × (try_pop c' ≡ some (ptr, record c { objects = set c.objects c.current ptr }))
unfolding push try_pop
push_lem b c ptr v h =
    let wide : c.current < length c.objects = omega (arith, v.room) in
    let open_end : (c.current == object_count) ≡ false = ground arith in
    let fits : ltb c.current (length c.objects) ≡ true = ground arith in
    let next : c.current + 1 ≡ suc c.current = omega arith in
    let back : suc c.current - 1 ≡ c.current = omega arith in
    let filled : (suc c.current == 0) ≡ false = ground arith in
    let entry = take-set c.objects c.current ptr wide in
    (
      record c { objects = set c.objects c.current ptr; current = suc c.current },
      rw (open_end, assert-true b, fits, next),
      record {
        room = length-set c.objects c.current ptr ∙ v.room;
        bounded = omega arith;
        batch_pos = v.batch_pos;
        batch_fits = v.batch_fits;
      },
      entry,
      rw (filled, back, get_elem?-set_self c.objects c.current ptr wide),
    )

-- Popping takes the last entry.
pub pop_last :
    (c : ThreadLocalCache) (k : ℕ)
    → IsCache c
    → c.current ≡ suc k
    → (x : ℕ) × (try_pop c ≡ some (x, record c { current = k }))
      × (cached c ≡ take k c.objects ++ x ∷ [])
unfolding try_pop
pop_last c k v e =
    let last = take-last k c.objects (omega (arith, v.room, v.bounded)) in
    let filled : (c.current == 0) ≡ false = ground arith in
    let back : c.current - 1 ≡ k = omega arith in (last.0, rw (filled, back, last.1), rw e last.2)

pub pop_empty : (c : ThreadLocalCache) → c.current ≡ 0 → try_pop c ≡ some (nullptr, c)
unfolding try_pop
pop_empty c e = ground arith
