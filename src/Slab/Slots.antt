-- ===== src/Slab/Slots.antt =====
-- The thread's array of caches (include/slab.h): `cache_entry`, and `get_cached_slab`, which finds,
-- claims or takes over the entry of a slab. Slabs are known by their address.
pub mod Choice
pub mod Flush
pub mod Stale
pub mod Entry
pub mod Fronts
pub mod Fresh
pub mod Emptied
pub mod Places
use slab_allocator.Base.{
  ℕ, zero, suc, ◌+◌, ◌-◌, ◌%◌, not, ◌&&◌, ◌==◌, if◌then◌else◌, List, [], ◌∷◌, Option, none, some,
  ◌>>=◌, get_or, set, Build,
}
use slab_allocator.Machine.Word.{nullptr, minus_one}
use slab_allocator.Machine.Memory.{Memory}
use slab_allocator.Pool.{Pool, free_batched_internal}
use slab_allocator.Slab.SizeClass.{max_cached_slabs, batch_sizes}
use slab_allocator.Slab.Cache.{ThreadLocalCache, is_empty, invalidate}

pub record Slab : Type 0 where
  pub epoch : ℕ
  pub slab_id : ℕ
  pub shared_pools : List Pool

pub record CacheEntry : Type 0 where
  pub epoch : ℕ
  pub owner : ℕ
  pub storage : List ThreadLocalCache

-- One round of the loop in `flush`.
pub flush_one : Build → ThreadLocalCache → Pool → Memory → Option (ThreadLocalCache × Pool × Memory)
flush_one b c p m = if is_empty c then some (c, p, m) else do
  (q, m') ← free_batched_internal b p m c.current (some c.objects)
  some (record c { current = 0 }, q, m')

-- The loop in `flush` over the caches and the pools of their classes; `none` if there are fewer
-- pools than caches.
pub flush_loop :
    Build
    → List ThreadLocalCache
    → List Pool
    → Memory
    → Option (List ThreadLocalCache × List Pool × Memory)
unfolding flush_one
flush_loop b [] pools m = some ([], pools, m)
flush_loop b (c ∷ caches) [] m = none
flush_loop b (c ∷ caches) (p ∷ pools) m = do
  (c', q, m₁) ← flush_one b c p m
  (caches', pools', m₂) ← flush_loop b caches pools m₁
  some (c' ∷ caches', q ∷ pools', m₂)

-- The slabs with another one at the address `at`.
unfoldable pub update : (ℕ → Slab) → ℕ → Slab → ℕ → Slab
update slabs at s = λ a. if a == at then s else slabs a

pub flush : Build → CacheEntry → (ℕ → Slab) → Memory → Option (CacheEntry × (ℕ → Slab) × Memory)
unfolding flush_loop update
flush b entry slabs m = if entry.owner == nullptr then some (entry, slabs, m) else do
  (storage, pools, m') ← flush_loop b entry.storage (slabs entry.owner).shared_pools m
  some (
    record entry { storage = storage },
    update slabs entry.owner (record (slabs entry.owner) { shared_pools = pools }),
    m',
  )

invalidate_each : List ThreadLocalCache → List ThreadLocalCache
unfolding invalidate
invalidate_each [] = []
invalidate_each (c ∷ caches) = invalidate c ∷ invalidate_each caches

pub invalidate_all : CacheEntry → CacheEntry
unfolding invalidate_each
invalidate_all entry =
    if entry.owner == nullptr
    then entry
    else record entry { storage = invalidate_each entry.storage }

pub set_batch_sizes : List ThreadLocalCache → List ℕ → List ThreadLocalCache
set_batch_sizes (c ∷ caches) (n ∷ sizes) =
    record c { batch_size = n } ∷ set_batch_sizes caches sizes
set_batch_sizes caches sizes = caches

pub init_cache_batch_sizes : CacheEntry → CacheEntry
unfolding set_batch_sizes
init_cache_batch_sizes entry = record entry { storage = set_batch_sizes entry.storage batch_sizes }

-- What stands for an entry out of range.
abbrev pub no_entry : CacheEntry
no_entry = record { epoch = 0; owner = nullptr; storage = [] }

-- `caches[i]`, at an index in range.
abbrev pub entry_at : List CacheEntry → ℕ → CacheEntry
entry_at caches i = get_or caches i no_entry

-- How `get_cached_slab` leaves its search: an entry of the slab, an empty one, or neither.
pub data Slot : Type 0 where
  found : (index : ℕ) → Slot
  claim : (index : ℕ) → Slot
  evict : Slot

-- The loop of `get_cached_slab` for the rounds from `i` on.
unfoldable pub scan_loop : List CacheEntry → ℕ → ℕ → ℕ → ℕ → ℕ → Slot
scan_loop caches self preferred zero i empty_slot =
    if empty_slot == minus_one then evict else claim empty_slot
scan_loop caches self preferred (suc rounds) i empty_slot =
    let owner = (entry_at caches i).owner in
    let next_empty =
      if not (i == preferred) && owner == nullptr && empty_slot == minus_one
      then i
      else empty_slot in
    let rest = scan_loop caches self preferred rounds (i + 1) next_empty in
    if not (i == preferred) && owner == self then found i else rest

unfoldable pub find_slot : List CacheEntry → ℕ → ℕ → Slot
unfolding scan_loop
find_slot caches self preferred =
    let owner = (entry_at caches preferred).owner in
    if owner == self
    then found preferred
    else scan_loop caches self preferred max_cached_slabs 0
        (if owner == nullptr then preferred else minus_one)

-- An entry for the slab at `self`, whose epoch it takes over. What the caches of the entry hold
-- stays.
pub claimed : CacheEntry → ℕ → Slab → CacheEntry
unfolding init_cache_batch_sizes
claimed entry self s = init_cache_batch_sizes (record entry { owner = self; epoch = s.epoch })

-- The index of the slab's entry, the thread's entries, the slabs and the memory.
pub use_slot :
    Build
    → List CacheEntry
    → ℕ
    → (ℕ → Slab)
    → Memory
    → Slot
    → Option (ℕ × List CacheEntry × (ℕ → Slab) × Memory)
unfolding flush claimed
use_slot b caches self slabs m (found i) = some (i, caches, slabs, m)
use_slot b caches self slabs m (claim i) =
    some (i, set caches i (claimed (entry_at caches i) self (slabs self)), slabs, m)
use_slot b caches self slabs m evict =
    let last = max_cached_slabs - 1 in
    do
      (entry, slabs', m') ← flush b (entry_at caches last) slabs m
      some (last, set caches last (claimed entry self (slabs' self)), slabs', m')

pub get_cached_slab :
    Build
    → List CacheEntry
    → ℕ
    → (ℕ → Slab)
    → Memory
    → Option (ℕ × List CacheEntry × (ℕ → Slab) × Memory)
unfolding find_slot use_slot
get_cached_slab b caches self slabs m =
    use_slot b caches self slabs m (find_slot caches self ((slabs self).slab_id % max_cached_slabs))
