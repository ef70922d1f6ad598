-- ===== src/Slab/Operations/Figures.antt =====
-- `slab::get_total_free` (src/slab.cpp) on a new slab and on one in use.
use slab_allocator.Base.{
  ℕ, suc, ◌+◌, ◌*◌, ◌%◌, ◌^◌, ◌≤◌, ◌<◌, ◌≡◌, refl, ◌∙◌, ap, subst, ℕ-cases, inl, inr, List, [], ◌∷◌,
  length, length-append, get_elem?, some, arith, Build,
}
use slab_allocator.Machine.Memory.{Memory}
use slab_allocator.Pool as Pool
use slab_allocator.Pool.Layout.{length-blocks_from}
use slab_allocator.Pool.Chain.{count-free}
use slab_allocator.Pool.Lifetime.{get_free_space_lem}
use slab_allocator.Slab.Cache.{ThreadLocalCache}
use slab_allocator.Slab.Cache.Entries.{cached, IsFront}
use slab_allocator.Slab.Slots.{Slab, entry_at}
use slab_allocator.Slab.Slots.Flush.{Fronts, empty, class}
use slab_allocator.Slab.Slots.Fronts.{stock}
use slab_allocator.Slab.Lifetime.Pools.{FreshPools}
use slab_allocator.Slab.Operations.{View, sum_pools, get_total_free}
use slab_allocator.Slab.Operations.Local.{IsLocal, slot}
use slab_allocator.Slab.Operations.Calls.{CachedAt}

sum_fresh :
    (b : Build) (scale : ℕ) (m : Memory) (i : ℕ) (pools : List Pool.Pool) (total : ℕ)
    → FreshPools scale m i pools
    → total + stock pools < 2 ^ 64
    → sum_pools (Pool.get_free_space b) pools total ≡ some (total + stock pools)
unfolding sum_pools
sum_fresh b scale m i [] total f h = ap some (omega arith)
sum_fresh b scale m i (p ∷ pools) total f h =
    let space = p.block_count * p.block_size in
    let figure : Pool.get_free_space b p ≡ some space =
      (get_free_space_lem b f.0.pool).0
      ∙ ap (λ n. some (n * p.block_size))
          (length-blocks_from p.memory p.block_size p.block_count) in
    let word : (total + space) % 2 ^ 64 ≡ total + space = omega arith in
    let order : total + space + stock pools ≡ total + (space + stock pools) = omega arith in
    rw (figure, word)
      (sum_fresh b scale m (suc i) pools (total + space) f.2 (omega arith) ∙ ap some order)

-- What the free blocks of one class amount to.
front_space :
    {c : ThreadLocalCache} {p : Pool.Pool} {m : Memory} {users free : List ℕ} (b : Build)
    → IsFront c p m users free
    → (n : ℕ) × (Pool.get_free_space b p ≡ some n)
      × (n ≤ p.block_count * p.block_size)
      × (1 ≤ length (cached c) → n < p.block_count * p.block_size)
front_space {c} {p} {users = users} {free = free} b v =
    let all = count-free v.pool in
    let parts = length-append (cached c) users in
    let wide = v.pool.shaped.wide in
    (
      length free * p.block_size,
      (get_free_space_lem b v.pool).0,
      grind (arith, all, parts, wide),
      λ some_cached. grind (arith, all, parts, wide, some_cached),
    )

sum_used :
    (b : Build) (m : Memory) (caches : List ThreadLocalCache) (pools : List Pool.Pool)
    (users : List (List ℕ)) (total bound : ℕ)
    → Fronts m caches pools users
    → total ≤ bound
    → bound + stock pools < 2 ^ 64
    → (n : ℕ) × (sum_pools (Pool.get_free_space b) pools total ≡ some n)
      × (n ≤ bound + stock pools)
      × (total < bound → n < bound + stock pools)
      × ((index : ℕ) (c : ThreadLocalCache)
          → get_elem? caches index ≡ some c
          → 1 ≤ length (cached c)
          → n < bound + stock pools)
unfolding sum_pools
sum_used b m [] [] [] total bound empty le h =
    (total, refl, omega arith, λ lt. omega arith, λ index c e some_cached. cc)
sum_used b m (c ∷ caches) (p ∷ pools) (u ∷ users) total bound (class free v apart rest) le h =
    let here = front_space b v in
    let others =
      sum_used b m caches pools users (total + here.0) (bound + p.block_count * p.block_size) rest
        (omega arith) (omega arith) in
    let word : total + here.0 ≡ (total + here.0) % 2 ^ 64 = omega arith in
    let onwards =
      subst (λ k. sum_pools (Pool.get_free_space b) pools k ≡ some others.0) word others.1 in
    (
      others.0,
      rw here.1 onwards,
      omega (arith, others.2),
      λ lt. omega (arith, others.3 (omega arith)),
      λ index d e some_cached. elim (ℕ-cases index) [
        | inl z ↦
            let first : some c ≡ some d = rw z at e in
            let same : c ≡ d = cc in
            omega (arith, others.3 (omega (arith, here.3 (rw same some_cached))))
        | inr (j, at) ↦
            let later : get_elem? caches j ≡ some d = rw at at e in
            omega (arith, others.4 j d later some_cached)
      ],
    )
sum_used b m [] [] (u ∷ users) total bound v le h = elim v [ ]
sum_used b m [] (p ∷ pools) users total bound v le h = elim v [ ]
sum_used b m (c ∷ caches) [] users total bound v le h = elim v [ ]
sum_used b m (c ∷ caches) (p ∷ pools) [] total bound v le h = elim v [ ]

-- A new slab reports the size of all of its blocks.
pub get_total_free-FreshPools :
    (b : Build) (scale : ℕ) (m : Memory) (s : Slab)
    → FreshPools scale m 0 s.shared_pools
    → stock s.shared_pools < 2 ^ 64
    → get_total_free b s ≡ some (stock s.shared_pools)
unfolding get_total_free
get_total_free-FreshPools b scale m s f h =
    sum_fresh b scale m 0 s.shared_pools 0 f (omega arith) ∙ ap some (omega arith)

-- A slab whose thread has blocks in its cache reports less, although no client holds a block.
pub get_total_free-CachedAt :
    (b : Build) (v : View) (self index : ℕ) (users : List (List ℕ))
    → IsLocal v self users
    → stock (v.slabs self).shared_pools < 2 ^ 64
    → CachedAt v self index
    → (n : ℕ) × (get_total_free b (v.slabs self) ≡ some n) × (n < stock (v.slabs self).shared_pools)
unfolding get_total_free
get_total_free-CachedAt b v self index users h small k =
    let r =
      sum_used b v.memory (entry_at v.caches (slot v self)).storage (v.slabs self).shared_pools
        users 0 0 h.fronts (omega arith) (omega (arith, small)) in
    (r.0, r.1, omega (arith, r.4 index k.0 k.1 k.2))
