-- ===== src/Slab/Operations/Local.antt =====
-- The invariant of a slab in the thread that uses it (src/slab.cpp), and one class under it.
use slab_allocator.Base.{
  ℕ, ◌%◌, ◌<◌, ◌≡◌, refl, ◌∙◌, ◌==◌, true, List, length, length-set, get_elem?, get_elem?-set_self,
  set, some, arith, Build,
}
use slab_allocator.Machine.Memory.{Memory}
use slab_allocator.Pool.{Pool}
use slab_allocator.Pool.Layout.{Elsewhere, Relisted}
use slab_allocator.Slab.SizeClass.{num_size_classes, max_cached_slabs}
use slab_allocator.Slab.Cache.{ThreadLocalCache}
use slab_allocator.Slab.Cache.Entries.{IsFront}
use slab_allocator.Slab.Slots.{Slab, CacheEntry, entry_at}
use slab_allocator.Slab.Slots.Flush.{Fronts}
use slab_allocator.Slab.Slots.Fronts.{Fronts-set, stock, stock-set}
use slab_allocator.Slab.Slots.Entry.{entry_at-set, set-entry_at, update-same, get_cached_slab-own}
use slab_allocator.Slab.Operations.{View, refresh, enter, put_pool, put_cache}

-- The slab's preferred slot.
abbrev pub slot : View → ℕ → ℕ
slot v self = (v.slabs self).slab_id % max_cached_slabs

-- The thread's preferred slot is the slab's and up to date; its caches and the slab's pools hold the
-- blocks that clients, class by class, do not.
pub record IsLocal (v : View) (self : ℕ) (users : List (List ℕ)) : Type 0 where
  pub entries : length v.caches ≡ max_cached_slabs
  pub owned : (entry_at v.caches (slot v self)).owner ≡ self
  pub current : (entry_at v.caches (slot v self)).epoch ≡ (v.slabs self).epoch
  pub classes : length (entry_at v.caches (slot v self)).storage ≡ num_size_classes
  pub fronts :
      Fronts v.memory (entry_at v.caches (slot v self)).storage (v.slabs self).shared_pools users

pub enter-IsLocal :
    (b : Build) (v : View) (self : ℕ) (users : List (List ℕ))
    → IsLocal v self users
    → enter b v self ≡ some (slot v self, v)
unfolding enter refresh
enter-IsLocal b v self users h =
    let mine = entry_at v.caches (slot v self) in
    let same : (mine.epoch == (v.slabs self).epoch) ≡ true = ground (arith, h.current) in
    rw
      (
        get_cached_slab-own b v.caches self v.slabs v.memory h.owned,
        same,
        set-entry_at v.caches (slot v self),
      )
      refl

-- The view after an operation on one class.
abbrev pub put : View → ℕ → ℕ → ThreadLocalCache → Pool → Memory → View
put v self index c q m = record (put_cache (put_pool v self index q) (slot v self) index c) {
  memory = m;
}

pub put-IsLocal :
    (v : View) (self index : ℕ) (users : List (List ℕ)) (p q : Pool) (c : ThreadLocalCache)
    (m : Memory) (u free : List ℕ)
    → IsLocal v self users
    → get_elem? (v.slabs self).shared_pools index ≡ some p
    → IsFront c q m u free
    → Relisted p q
    → ((j : ℕ) → Elsewhere p j → m j ≡ v.memory j)
    → IsLocal (put v self index c q m) self (set users index u)
unfolding put_pool put_cache
put-IsLocal v self index users p q c m u free h e front place same =
    let s = v.slabs self in
    let s' : Slab = record s { shared_pools = set s.shared_pools index q } in
    let mine = entry_at v.caches (slot v self) in
    let mine' : CacheEntry = record mine { storage = set mine.storage index c } in
    let at : entry_at (set v.caches (slot v self) mine') (slot v self) ≡ mine' =
      entry_at-set v.caches (slot v self) mine' (omega (arith, h.entries)) in
    let slab_at = update-same v.slabs self s' in
    record {
      entries = length-set v.caches (slot v self) mine' ∙ h.entries;
      owned = rw (slab_at, at) h.owned;
      current = rw (slab_at, at) h.current;
      classes = rw (slab_at, at) (length-set mine.storage index c ∙ h.classes);
      fronts = rw (slab_at, at) (Fronts-set index p q c u free h.fronts e front place same);
    }

pub put-stock :
    (v : View) (self index : ℕ) (p q : Pool) (c : ThreadLocalCache) (m : Memory)
    → get_elem? (v.slabs self).shared_pools index ≡ some p
    → Relisted p q
    → stock ((put v self index c q m).slabs self).shared_pools ≡ stock (v.slabs self).shared_pools
unfolding put_pool put_cache
put-stock v self index p q c m e r =
    let s = v.slabs self in
    let s' : Slab = record s { shared_pools = set s.shared_pools index q } in
    rw (update-same v.slabs self s') (stock-set s.shared_pools index p q e r)

-- The class's cache after the operation.
pub put-cache_at :
    (v : View) (self index : ℕ) (users : List (List ℕ)) (q : Pool) (c : ThreadLocalCache)
    (m : Memory)
    → IsLocal v self users
    → index < num_size_classes
    → let w = put v self index c q m in
      get_elem? (entry_at w.caches (slot w self)).storage index ≡ some c
unfolding put_pool put_cache
put-cache_at v self index users q c m h hot =
    let s = v.slabs self in
    let s' : Slab = record s { shared_pools = set s.shared_pools index q } in
    let mine = entry_at v.caches (slot v self) in
    let mine' : CacheEntry = record mine { storage = set mine.storage index c } in
    rw
      (
        update-same v.slabs self s',
        entry_at-set v.caches (slot v self) mine' (omega (arith, h.entries)),
      )
      (get_elem?-set_self mine.storage index c (omega (arith, h.classes)))
