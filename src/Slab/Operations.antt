-- ===== src/Slab/Operations.antt =====
-- The member functions of `slab` (src/slab.cpp), as one thread runs them: on its own array of cache
-- entries, the slabs by their address, and the memory.
pub mod Requests
pub mod Local
pub mod Calls
pub mod Outstanding
pub mod Figures
pub mod First
pub mod Resetting
pub mod Places
use slab_allocator.Base.{
  ℕ, zero, suc, ◌+◌, ◌-◌, Bool, true, false, not, ◌||◌, ◌==◌, ltb, leb, if◌then◌else◌, List, [],
  ◌∷◌, length, Option, none, some, ◌>>=◌, get_elem?, set, Build,
}
use slab_allocator.Machine.Word.{nullptr, minus_one, add_word}
use slab_allocator.Machine.Memory.{Memory, memset}
use slab_allocator.Pool as Pool
use slab_allocator.Slab.SizeClass.{
  num_size_classes, num_cached_classes, class_size, largest, size_to_index,
}
use slab_allocator.Slab.Cache.{ThreadLocalCache, cache_alloc, cache_free}
use slab_allocator.Slab.Slots.{Slab, CacheEntry, entry_at, invalidate_all, update, get_cached_slab}

pub record View : Type 0 where
  pub caches : List CacheEntry
  pub slabs : ℕ → Slab
  pub memory : Memory

-- An entry whose epoch is not the slab's is invalidated and takes the slab's epoch.
pub refresh : CacheEntry → Slab → CacheEntry
refresh entry s =
    if entry.epoch == s.epoch then entry else record (invalidate_all entry) { epoch = s.epoch }

-- The entry of the slab, up to date: its index, and the view with it.
pub enter : Build → View → ℕ → Option (ℕ × View)
unfolding refresh
enter b v self = do
  (i, caches, slabs, m) ← get_cached_slab b v.caches self v.slabs v.memory
  some (
    i,
    record {
      caches = set caches i (refresh (entry_at caches i) (slabs self));
      slabs = slabs;
      memory = m;
    },
  )

-- The pool of a class, the class's cache in entry `i`, and the memory, written back.
unfoldable pub put_pool : View → ℕ → ℕ → Pool.Pool → View
put_pool v self index q =
    let s = v.slabs self in
    record v {
      slabs = update v.slabs self (record s { shared_pools = set s.shared_pools index q });
    }

unfoldable pub put_cache : View → ℕ → ℕ → ThreadLocalCache → View
put_cache v i index c =
    let entry = entry_at v.caches i in
    record v { caches = set v.caches i (record entry { storage = set entry.storage index c }) }

pub alloc_class : Build → View → ℕ → ℕ → Option (ℕ × View)
unfolding put_pool put_cache
alloc_class b v self index =
    if ltb index num_cached_classes
    then (do
      (i, w) ← enter b v self
      c ← get_elem? (entry_at w.caches i).storage index
      p ← get_elem? (w.slabs self).shared_pools index
      (ptr, c', q) ← cache_alloc b c p w.memory
      some (ptr, put_cache (put_pool w self index q) i index c'))
    else (do
      p ← get_elem? (v.slabs self).shared_pools index
      (ptr, q) ← Pool.alloc b p v.memory
      some (ptr, put_pool v self index q))

pub alloc : Build → View → ℕ → ℕ → Option (ℕ × View)
unfolding alloc_class
alloc b v self size =
    let index = size_to_index size in
    if size == 0 || size == minus_one || ltb largest size || index == minus_one
    then some (nullptr, v)
    else alloc_class b v self index

-- The whole block is made zero.
pub calloc : Build → View → ℕ → ℕ → Option (ℕ × View)
unfolding alloc
calloc b v self size = do
  (ptr, w) ← alloc b v self size
  some (
    ptr,
    if ptr == nullptr
        then w
        else record w { memory = memset w.memory ptr 0 (class_size (size_to_index size)) },
  )

pub free_class : Build → View → ℕ → ℕ → ℕ → Option View
unfolding put_pool put_cache
free_class b v self ptr index =
    if ltb index num_cached_classes
    then (do
      (i, w) ← enter b v self
      c ← get_elem? (entry_at w.caches i).storage index
      p ← get_elem? (w.slabs self).shared_pools index
      (c', q, m') ← cache_free b c p w.memory ptr
      some (record (put_cache (put_pool w self index q) i index c') { memory = m' }))
    else (do
      p ← get_elem? (v.slabs self).shared_pools index
      (q, m') ← Pool.free b p v.memory ptr
      some (record (put_pool v self index q) { memory = m' }))

pub free : Build → View → ℕ → ℕ → ℕ → Option View
unfolding free_class
free b v self ptr size =
    let index = size_to_index size in
    if size == 0 || size == minus_one || ltb largest size || index == minus_one
    then some v
    else free_class b v self ptr index

reset_pools : Build → List Pool.Pool → Memory → Option (List Pool.Pool × Memory)
reset_pools b [] m = some ([], m)
reset_pools b (p ∷ pools) m = do
  (q, m₁) ← Pool.reset b p m
  (pools', m₂) ← reset_pools b pools m₁
  some (q ∷ pools', m₂)

pub reset : Build → View → ℕ → Option View
unfolding reset_pools add_word
reset b v self =
    let s = v.slabs self in
    do
      (pools, m') ← reset_pools b s.shared_pools v.memory
      some (record v {
        slabs = update v.slabs self (record s { shared_pools = pools; epoch = add_word s.epoch 1 });
        memory = m';
      })

pub get_pool_count : Slab → ℕ
get_pool_count s = length s.shared_pools

-- The sum over the pools from `total` on.
sum_pools : (Pool.Pool → Option ℕ) → List Pool.Pool → ℕ → Option ℕ
unfolding add_word
sum_pools figure [] total = some total
sum_pools figure (p ∷ pools) total = do n ← figure p; sum_pools figure pools (add_word total n)

pub get_total_capacity : Build → Slab → Option ℕ
unfolding sum_pools
get_total_capacity b s = sum_pools (Pool.get_capacity b) s.shared_pools 0

pub get_total_free : Build → Slab → Option ℕ
unfolding sum_pools
get_total_free b s = sum_pools (Pool.get_free_space b) s.shared_pools 0

pub get_pool_block_size : Slab → ℕ → Option ℕ
get_pool_block_size s index =
    if leb num_size_classes index
    then some 0
    else do p ← get_elem? s.shared_pools index; some (Pool.get_block_size p)

pub get_pool_free_space : Build → Slab → ℕ → Option ℕ
get_pool_free_space b s index =
    if leb num_size_classes index
    then some 0
    else do p ← get_elem? s.shared_pools index; Pool.get_free_space b p

unfoldable pub any_owns : List Pool.Pool → ℕ → Bool
any_owns [] ptr = false
any_owns (p ∷ pools) ptr = Pool.owns p ptr || any_owns pools ptr

unfoldable pub owns : Slab → ℕ → Bool
unfolding any_owns
owns s ptr = any_owns s.shared_pools ptr
