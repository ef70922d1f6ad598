-- ===== src/Slab/Slots/Entry.antt =====
-- `get_cached_slab` (include/slab.h) as a whole: the calling slab gets an entry.
use slab_allocator.Base.{
  ℕ, zero, suc, ◌-◌, ◌%◌, ◌<◌, ◌≡◌, refl, ap, ◌≢◌, List, [], ◌∷◌, length, set, some, arith, Build,
}
use slab_allocator.Machine.Word.{nullptr}
use slab_allocator.Machine.Memory.{Memory}
use slab_allocator.Slab.SizeClass.{max_cached_slabs}
use slab_allocator.Slab.Slots.{
  Slab, CacheEntry, entry_at, Slot, found, claim, evict, find_slot, update, use_slot,
  get_cached_slab,
}
use slab_allocator.Slab.Slots.Flush.{Fronts, AllEmpty}
use slab_allocator.Slab.Cache.{ThreadLocalCache}

pub entry_at-set :
    (caches : List CacheEntry) (i : ℕ) (e : CacheEntry)
    → i < length caches
    → entry_at (set caches i e) i ≡ e
entry_at-set [] i e h = absurd (omega arith)
entry_at-set (c ∷ caches) zero e h = refl
entry_at-set (c ∷ caches) (suc i) e h = entry_at-set caches i e (omega arith)

pub set-entry_at : (caches : List CacheEntry) (i : ℕ) → set caches i (entry_at caches i) ≡ caches
set-entry_at [] i = refl
set-entry_at (c ∷ caches) zero = refl
set-entry_at (c ∷ caches) (suc i) = ap (◌∷◌ c) (set-entry_at caches i)

pub update-same : (slabs : ℕ → Slab) (at : ℕ) (s : Slab) → update slabs at s at ≡ s
unfolding update
update-same slabs at s = ground arith

-- The slab finds its entry in the preferred slot.
pub get_cached_slab-own :
    (b : Build) (caches : List CacheEntry) (self : ℕ) (slabs : ℕ → Slab) (m : Memory)
    → (entry_at caches ((slabs self).slab_id % max_cached_slabs)).owner ≡ self
    → get_cached_slab b caches self slabs m
      ≡ some ((slabs self).slab_id % max_cached_slabs, caches, slabs, m)
unfolding get_cached_slab find_slot use_slot
get_cached_slab-own b caches self slabs m e = ground (arith, e)

-- What `get_cached_slab` gives to the slab at `self`: the index of an entry that the slab owns, and
-- all other entries as they were.
abbrev pub Entered : List CacheEntry → ℕ → ℕ → List CacheEntry → Type 0
Entered caches self i caches' =
    (i < max_cached_slabs)
    × ((entry_at caches' i).owner ≡ self)
    × (length caches' ≡ max_cached_slabs)
    × ((j : ℕ) → j ≢ i → entry_at caches' j ≡ entry_at caches j)

-- The entry that may be taken over has caches in front of its owner's pools.
abbrev pub VictimFronts : List CacheEntry → (ℕ → Slab) → Memory → Type 0
VictimFronts caches slabs m =
    let victim = entry_at caches (max_cached_slabs - 1) in
    victim.owner ≢ nullptr
    → (users : List (List ℕ)) × Fronts m victim.storage (slabs victim.owner).shared_pools users

-- What else a call changes: an entry of the slab, or an empty one that it claims, leaves the slabs and
-- the memory as they were; from the last entry, which is taken over, all cached blocks have gone to the
-- pools of the former owner, and clients hold there what they held.
abbrev pub Flushed :
    (caches : List CacheEntry) (slabs : ℕ → Slab) (m : Memory)
    → VictimFronts caches slabs m
    → Slot
    → List CacheEntry
    → (ℕ → Slab)
    → Memory
    → Type 0
Flushed caches slabs m v (found i) caches' slabs' m' =
    (caches' ≡ caches) × (slabs' ≡ slabs) × (m' ≡ m)
Flushed caches slabs m v (claim i) caches' slabs' m' = (slabs' ≡ slabs) × (m' ≡ m)
Flushed caches slabs m v evict caches' slabs' m' =
    let victim = entry_at caches 3 in
    AllEmpty (entry_at caches' 3).storage
    × (used : victim.owner ≢ nullptr) × (storage : List ThreadLocalCache) × AllEmpty storage
    × Fronts m' storage (slabs' victim.owner).shared_pools (v used).0
