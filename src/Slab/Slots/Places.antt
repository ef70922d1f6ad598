-- ===== src/Slab/Slots/Places.antt =====
-- Finding the entry of a slab (include/slab.h) does not move the mappings of any slab's pools.
use slab_allocator.Base.{
  ℕ, ◌-◌, ◌≡◌, refl, sym, ◌∙◌, ◌==◌, ap, ap₂, Bool-cases, inl, inr, List, [], ◌∷◌, some, Build,
  OnSome, on_some, on_none, OnSome-bind, OnSome-if, arith,
}
use slab_allocator.Machine.Word.{nullptr}
use slab_allocator.Machine.Memory.{Memory}
use slab_allocator.Pool as Pool
use slab_allocator.Pool.{alloc_batched_internal, free_batched_internal}
use slab_allocator.Pool.Places.{place, places, free_batched_internal-place}
use slab_allocator.Slab.SizeClass.{max_cached_slabs}
use slab_allocator.Slab.Cache.{ThreadLocalCache, is_empty}
use slab_allocator.Slab.Slots.{
  Slab, Slot, found, claim, evict, CacheEntry, entry_at, flush_one, flush_loop, flush, update,
  use_slot, get_cached_slab,
}
use slab_allocator.Platform.Laws.{Region}

flush_one-place :
    (b : Build) (c : ThreadLocalCache) (p : Pool.Pool) (m : Memory)
    → OnSome (λ r. place r.1 ≡ place p) (flush_one b c p m)
unfolding flush_one
flush_one-place b c p m = OnSome-if (is_empty c) (on_some refl) (
    OnSome-bind (free_batched_internal b p m c.current (some c.objects))
      (free_batched_internal-place b p m c.current (some c.objects)) (λ r same. on_some same))

flush_loop-places :
    (b : Build) (caches : List ThreadLocalCache) (pools : List Pool.Pool) (m : Memory)
    → OnSome (λ r. places r.1 ≡ places pools) (flush_loop b caches pools m)
unfolding flush_loop
flush_loop-places b [] pools m = on_some refl
flush_loop-places b (c ∷ caches) [] m = on_none
flush_loop-places b (c ∷ caches) (p ∷ pools) m =
    OnSome-bind (flush_one b c p m) (flush_one-place b c p m) (λ r same.
      OnSome-bind (flush_loop b caches pools r.2) (flush_loop-places b caches pools r.2)
        (λ rs rest. on_some (ap₂ ◌∷◌ same rest)))

-- The mappings of the pools of the slab at an address.
abbrev pub laid : (ℕ → Slab) → ℕ → List Region
laid slabs a = places (slabs a).shared_pools

abbrev pub Kept : (ℕ → Slab) → (ℕ → Slab) → Type 0
Kept slabs slabs' = (a : ℕ) → laid slabs' a ≡ laid slabs a

pub update-Kept :
    (slabs : ℕ → Slab) (at : ℕ) (s : Slab)
    → places s.shared_pools ≡ laid slabs at
    → Kept slabs (update slabs at s)
unfolding update
update-Kept slabs at s same a = elim (Bool-cases (a == at)) [
  | inl e ↦ let here : a ≡ at = ground (arith, e) in rw e (same ∙ ap (laid slabs) (sym here))
  | inr e ↦ rw e refl
]

flush-Kept :
    (b : Build) (entry : CacheEntry) (slabs : ℕ → Slab) (m : Memory)
    → OnSome (λ r. Kept slabs r.1) (flush b entry slabs m)
unfolding flush
flush-Kept b entry slabs m = OnSome-if (entry.owner == nullptr) (on_some (λ a. refl)) (
    OnSome-bind (flush_loop b entry.storage (slabs entry.owner).shared_pools m)
      (flush_loop-places b entry.storage (slabs entry.owner).shared_pools m)
      (λ r same. on_some (update-Kept slabs entry.owner _ same)))

pub use_slot-Kept :
    (b : Build) (caches : List CacheEntry) (self : ℕ) (slabs : ℕ → Slab) (m : Memory) (slot : Slot)
    → OnSome (λ r. Kept slabs r.2) (use_slot b caches self slabs m slot)
unfolding use_slot
use_slot-Kept b caches self slabs m (found i) = on_some (λ a. refl)
use_slot-Kept b caches self slabs m (claim i) = on_some (λ a. refl)
use_slot-Kept b caches self slabs m evict =
    OnSome-bind (flush b (entry_at caches (max_cached_slabs - 1)) slabs m)
      (flush-Kept b (entry_at caches (max_cached_slabs - 1)) slabs m) (λ r kept. on_some kept)

pub get_cached_slab-Kept :
    (b : Build) (caches : List CacheEntry) (self : ℕ) (slabs : ℕ → Slab) (m : Memory)
    → OnSome (λ r. Kept slabs r.2) (get_cached_slab b caches self slabs m)
unfolding get_cached_slab
get_cached_slab-Kept b caches self slabs m = use_slot-Kept b caches self slabs m _
