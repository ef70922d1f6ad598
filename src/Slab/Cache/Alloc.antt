-- ===== src/Slab/Cache/Alloc.antt =====
-- `slab::alloc` (src/slab.cpp) on one size class: a block from the cache, or a batch from the pool.
use mathlib.Core.List.{mem-cons_self, mem-append_right, append_assoc}
use mathlib.Core.List.Perm
use slab_allocator.Base.{
  ℕ, suc, ◌≤◌, ◌≡◌, refl, sym, ap, subst, ◌≢◌, inl, inr, List, [], ◌∷◌, ◌++◌, Perm, length, some,
  arith, Build, take, drop, length-append, take-length-append, length-drop, length-take-le, ℕ-cases,
  eq-nil_of_length-take, drop-nil,
}
use slab_allocator.Machine.Word.{nullptr}
use slab_allocator.Machine.Memory.{Memory}
use slab_allocator.Platform.Laws.{ne-eqb}
use slab_allocator.Pool.{Pool}
use slab_allocator.Pool.Layout.{Relisted}
use slab_allocator.Pool.Chain.{IsPool, IsPool-perm, live-block}
use slab_allocator.Pool.Blocks.{block-inside}
use slab_allocator.Pool.Batch.{alloc_batched_lem}
use slab_allocator.Slab.Cache.{ThreadLocalCache, try_pop, refill, cache_alloc}
use slab_allocator.Slab.Cache.Entries.{IsFront, cached, pop_last, pop_empty}

-- The last cached block goes to a client.
hand_out :
    {c : ThreadLocalCache} {p : Pool} {m : Memory} {users free : List ℕ} (k : ℕ)
    → IsFront c p m users free
    → c.current ≡ suc k
    → (x : ℕ) × (x ≢ nullptr)
      × (try_pop c ≡ some (x, record c { current = k }))
      × IsFront (record c { current = k }) p m (x ∷ users) free
hand_out {c} {p} {m} {users} {free} k v e =
    let last = pop_last c k v.cache e in
    let x = last.0 in
    let moved : Perm (cached c ++ users) (take k c.objects ++ x ∷ users) =
      rw last.2 (rw append_assoc (Perm.refl _)) in
    let w = IsPool-perm v.pool moved in
    let x_block = live-block w (mem-append_right (take k c.objects) mem-cons_self) in
    (
      x,
      omega (arith, block-inside w x_block, w.shaped.mapped),
      last.1,
      record {
        cache = record {
          room = v.cache.room;
          bounded = omega (arith, v.cache.bounded);
          batch_pos = v.cache.batch_pos;
          batch_fits = v.cache.batch_fits;
        };
        pool = w;
      },
    )

-- What `alloc` does to a front: a block of it goes to the client, or it has none left at all.
pub data Served (c : ThreadLocalCache) (p : Pool) (m : Memory) (users free : List ℕ)
    : ℕ → ThreadLocalCache → Pool → Type 0 where
  block :
      {x : ℕ} {c' : ThreadLocalCache} {q : Pool} (free' : List ℕ)
      → x ≢ nullptr
      → IsFront c' q m (x ∷ users) free'
      → Relisted p q
      → Served c p m users free x c' q
  exhausted :
      {c' : ThreadLocalCache} {q : Pool}
      → cached c ≡ []
      → free ≡ []
      → IsFront c' q m users free
      → Relisted p q
      → Served c p m users free nullptr c' q

pub refill-Served :
    {c : ThreadLocalCache} {p : Pool} {m : Memory} {users : List ℕ} (b : Build) (free : List ℕ)
    → IsFront c p m users free
    → c.current ≡ 0
    → (x : ℕ) × (c' : ThreadLocalCache) × (q : Pool) × (refill b c p m ≡ some (x, c', q))
      × Served c p m users free x c' q
unfolding refill
refill-Served {c} {p} {m} {users} b free v e =
    let n = c.batch_size in
    let xs = take n free in
    let empty : cached c ≡ [] = ap (λ k. take k c.objects) e in
    let pool : IsPool p m users free = subst (λ ys. IsPool p m (ys ++ users) free) empty v.pool in
    let room : n ≤ length c.objects = omega (arith, v.cache.room, v.cache.batch_fits) in
    let batch = alloc_batched_lem b n c.objects free pool room in
    let q = batch.0 in
    let filled : ThreadLocalCache = record c {
      objects = xs ++ drop (length xs) c.objects;
      current = length xs;
    } in
    let held : cached filled ≡ xs = take-length-append xs (drop (length xs) c.objects) in
    let front : IsFront filled q m users (drop n free) = record {
      cache = record {
        room = omega (
          arith,
          length-append xs (drop (length xs) c.objects),
          length-drop (length xs) c.objects,
          length-take-le n free,
          v.cache.room,
          v.cache.batch_fits,
        );
        bounded = omega (arith, length-take-le n free, v.cache.batch_fits);
        batch_pos = v.cache.batch_pos;
        batch_fits = v.cache.batch_fits;
      };
      pool = subst (λ ys. IsPool q m (ys ++ users) (drop n free)) (sym held) batch.2;
    } in
    elim (ℕ-cases (length xs)) [
      | inl z ↦
          let none_left = eq-nil_of_length-take n free v.cache.batch_pos z in
          let same : drop n free ≡ free = rw none_left (drop-nil n) in
          (
            nullptr,
            filled,
            q,
            rw (batch.1, pop_empty filled z),
            exhausted empty none_left (subst (IsFront filled q m users) same front) batch.3,
          )
      | inr (k, s) ↦
          let given_out = hand_out k front s in
          (
            given_out.0,
            record filled { current = k },
            q,
            rw (batch.1, given_out.2),
            block (drop n free) given_out.1 given_out.3 batch.3,
          )
    ]

-- The part of `slab::alloc` that works on one class returns, from a cache and a pool that meet the
-- invariant: it hands out a block that is not null and that was cached or free, or it returns null
-- when neither the cache nor the pool has a block; the invariant holds again, over the
-- same pool but for its free list and count.
pub cache_alloc-Served :
    {c : ThreadLocalCache} {p : Pool} {m : Memory} {users : List ℕ} (b : Build) (free : List ℕ)
    → IsFront c p m users free
    → (x : ℕ) × (c' : ThreadLocalCache) × (q : Pool) × (cache_alloc b c p m ≡ some (x, c', q))
      × Served c p m users free x c' q
unfolding cache_alloc
cache_alloc-Served {c} {p} {m} {users} b free v = elim (ℕ-cases c.current) [
  | inl z ↦ rw (pop_empty c z) (refill-Served b free v z)
  | inr (k, s) ↦
      let given_out = hand_out k v s in
      (
        given_out.0,
        record c { current = k },
        p,
        rw (given_out.2, ne-eqb given_out.0 given_out.1),
        block free given_out.1 given_out.3 refl,
      )
]
