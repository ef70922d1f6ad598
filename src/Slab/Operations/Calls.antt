-- ===== src/Slab/Operations/Calls.antt =====
-- `slab::alloc` and `slab::free` (src/slab.cpp) as calls on one bag of blocks for each size class.
use mathlib.Core.List.Perm
use slab_allocator.Base.{
  same_some, ℕ, ◌≤◌, ◌≡◌, ◌≢◌, refl, sym, ◌∙◌, ap, subst, ◌==◌, ◌||◌, true, false, ltb, List, ◌∷◌,
  ◌++◌, length, get_elem?, set, Perm, some, arith, Build,
}
use slab_allocator.Machine.Word.{nullptr, minus_one}
use slab_allocator.Machine.Memory.{Memory}
use slab_allocator.Pool.{Pool}
use slab_allocator.Pool.Chain.{IsPool, IsPool-perm, count-free}
use slab_allocator.Slab.SizeClass.{num_size_classes, largest, size_to_index}
use slab_allocator.Slab.SizeClass.Choice.{size_to_index_lem}
use slab_allocator.Slab.Cache.{ThreadLocalCache}
use slab_allocator.Slab.Cache.Entries.{IsFront, cached}
use slab_allocator.Slab.Cache.Alloc.{Served, block, exhausted, cache_alloc-Served}
use slab_allocator.Slab.Cache.Free.{Taken, cache_free-Taken}
use slab_allocator.Slab.Slots.{entry_at}
use slab_allocator.Slab.Slots.Fronts.{stock, ClassAt, Fronts-ClassAt}
use slab_allocator.Slab.Operations.{View, alloc, alloc_class, free, free_class}
use slab_allocator.Slab.Operations.Local.{
  IsLocal, slot, put, enter-IsLocal, put-IsLocal, put-stock, put-cache_at,
}

-- The thread has blocks of the class in its cache.
abbrev pub CachedAt : View → ℕ → ℕ → Type 0
CachedAt v self index =
    (c : ThreadLocalCache) × (get_elem? (entry_at v.caches (slot v self)).storage index ≡ some c)
    × (1 ≤ length (cached c))

-- What a call of `alloc` for a class gives: a block of the class, from now on in the client's hands;
-- or null, when clients hold all blocks of the class already.
pub data Given (v : View) (self index : ℕ) (users : List (List ℕ))
    (k : ClassAt
      (entry_at v.caches (slot v self)).storage
      (v.slabs self).shared_pools
      users
      v.memory
      index)
    : ℕ → View → Type 0 where
  given :
      {ptr : ℕ} {v' : View}
      → ptr ≢ nullptr
      → IsLocal v' self (set users index (ptr ∷ k.held))
      → stock (v'.slabs self).shared_pools ≡ stock (v.slabs self).shared_pools
      → Given v self index users k ptr v'
  none_left :
      {v' : View}
      → length k.held ≡ k.pool.block_count
      → IsLocal v' self (set users index k.held)
      → Given v self index users k nullptr v'

module _ (b : Build) (v : View) (self : ℕ) (users : List (List ℕ)) (h : IsLocal v self users) where
  -- The class that a request falls into.
  pub class_at :
      (size : ℕ)
      → 1 ≤ size
      → size ≤ largest
      → ClassAt
          (entry_at v.caches (slot v self)).storage
          (v.slabs self).shared_pools
          users
          v.memory
          (size_to_index size)
  class_at size lo hi =
      Fronts-ClassAt (size_to_index size) h.fronts
        (omega (arith, (size_to_index_lem size lo hi).0, h.classes))

  Served-Given :
      (index : ℕ)
      (k : ClassAt
        (entry_at v.caches (slot v self)).storage
        (v.slabs self).shared_pools
        users
        v.memory
        index)
      {x : ℕ} {c : ThreadLocalCache} {q : Pool}
      → Served k.cache k.pool v.memory k.held k.free x c q
      → Given v self index users k x (put v self index c q v.memory)
  Served-Given index k {c = c} {q = q} (block {x = x} free' real front place) =
      given real
        (put-IsLocal v self index users k.pool q c v.memory (x ∷ k.held) free' h k.pool_at front
          place (λ j o. refl))
        (put-stock v self index k.pool q c v.memory k.pool_at place)
  Served-Given index k {c = c} {q = q} (exhausted empty none front place) =
      none_left
        (omega (
          arith,
          count-free
              (subst (λ xs. IsPool k.pool v.memory (xs ++ k.held) k.free) empty k.front.pool),
          ap length none,
        ))
        (put-IsLocal v self index users k.pool q c v.memory k.held k.free h k.pool_at front place
          (λ j o. refl))

  -- `alloc` of a request that a size class fits works on that class alone.
  pub alloc-put :
      (size : ℕ) (lo : 1 ≤ size) (hi : size ≤ largest)
      → let k = class_at size lo hi in
        (ptr : ℕ) × (c : ThreadLocalCache) × (q : Pool) × (alloc b v self size
          ≡ some (ptr, put v self (size_to_index size) c q v.memory))
        × Served k.cache k.pool v.memory k.held k.free ptr c q
  unfolding alloc alloc_class
  alloc-put size lo hi =
      let index = size_to_index size in
      let hot = (size_to_index_lem size lo hi).0 in
      let k = class_at size lo hi in
      let served = cache_alloc-Served b k.free k.front in
      let good : (size == 0 || size == minus_one || ltb largest size || index == minus_one)
          ≡ false =
        ground (arith, hot) in
      let cached_class : ltb index num_size_classes ≡ true = ground (arith, hot) in
      (
        served.0,
        served.1,
        served.2,
        rw (good, cached_class, enter-IsLocal b v self users h, k.cache_at, k.pool_at, served.3)
            refl,
        served.4,
      )

  -- A request that a size class fits, of a slab that meets the invariant in this thread: `alloc`
  -- returns a block of that class, which then counts as the client's, or it returns null, and then
  -- clients hold every block of the class; the invariant holds again, and the other classes have
  -- not changed hands.
  pub alloc-Given :
      (size : ℕ) (lo : 1 ≤ size) (hi : size ≤ largest)
      → (ptr : ℕ) × (v' : View) × (alloc b v self size ≡ some (ptr, v'))
        × Given v self (size_to_index size) users (class_at size lo hi) ptr v'
  alloc-Given size lo hi =
      let call = alloc-put size lo hi in
      (
        call.0,
        put v self (size_to_index size) call.1 call.2 v.memory,
        call.3,
        Served-Given (size_to_index size) (class_at size lo hi) call.4,
      )

  -- So does `free` of a block of that class that a client holds.
  pub free-put :
      (size ptr : ℕ) (held : List ℕ) (lo : 1 ≤ size) (hi : size ≤ largest)
      → let k = class_at size lo hi in
        Perm k.held (ptr ∷ held)
        → (c : ThreadLocalCache) × (q : Pool) × (m' : Memory) × (free b v self ptr size
            ≡ some (put v self (size_to_index size) c q m'))
          × Taken k.pool v.memory held c q m'
          × (1 ≤ length (cached c))
  unfolding free free_class
  free-put size ptr held lo hi order =
      let index = size_to_index size in
      let hot = (size_to_index_lem size lo hi).0 in
      let k = class_at size lo hi in
      let front : IsFront k.cache k.pool v.memory (ptr ∷ held) k.free = record {
        cache = k.front.cache;
        pool = IsPool-perm k.front.pool (Perm.append_left (cached k.cache) order);
      } in
      let freed = cache_free-Taken b ptr front in
      let good : (size == 0 || size == minus_one || ltb largest size || index == minus_one)
          ≡ false =
        ground (arith, hot) in
      let cached_class : ltb index num_size_classes ≡ true = ground (arith, hot) in
      (
        freed.0,
        freed.1,
        freed.2,
        rw (good, cached_class, enter-IsLocal b v self users h, k.cache_at, k.pool_at, freed.3)
            refl,
        freed.4,
        freed.5,
      )

  -- A block of the request's class that a client holds can be freed: `free` returns, no assertion
  -- fails, the block is no longer the client's but may be cached, the class's cache is not empty,
  -- and the invariant holds again.
  pub free-IsLocal :
      (size ptr : ℕ) (u held : List ℕ)
      → 1 ≤ size
      → size ≤ largest
      → get_elem? users (size_to_index size) ≡ some u
      → Perm u (ptr ∷ held)
      → (v' : View) × (free b v self ptr size ≡ some v')
        × IsLocal v' self (set users (size_to_index size) held)
        × (stock (v'.slabs self).shared_pools ≡ stock (v.slabs self).shared_pools)
        × CachedAt v' self (size_to_index size)
  free-IsLocal size ptr u held lo hi e order =
      let index = size_to_index size in
      let hot = (size_to_index_lem size lo hi).0 in
      let k = class_at size lo hi in
      let same : u ≡ k.held = same_some (sym e ∙ k.held_at) in
      let freed = free-put size ptr held lo hi (subst (λ us. Perm us (ptr ∷ held)) same order) in
      let taken = freed.4 in
      (
        put v self index freed.0 freed.1 freed.2,
        freed.3,
        put-IsLocal v self index users k.pool freed.1 freed.0 freed.2 held taken.free' h k.pool_at
            taken.front taken.place taken.same,
        put-stock v self index k.pool freed.1 freed.0 freed.2 k.pool_at taken.place,
        (freed.0, put-cache_at v self index users freed.1 freed.0 freed.2 h hot, freed.5),
      )
