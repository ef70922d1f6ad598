-- ===== src/Slab/Operations/First.antt =====
-- A thread's first call on a new slab (src/slab.cpp).
use slab_allocator.Base.{
  ℕ, ◌≤◌, ◌≡◌, refl, sym, ◌∙◌, ap, ◌==◌, ◌||◌, true, false, ltb, [], length, length-set, set, some,
  arith, All, Build,
}
use mathlib.Core.List.Perm
use slab_allocator.Machine.Word.{minus_one}
use slab_allocator.Slab.SizeClass.{num_size_classes, largest, size_to_index}
use slab_allocator.Slab.SizeClass.Choice.{size_to_index_lem}
use slab_allocator.Slab.Slots.{CacheEntry, entry_at, claimed}
use slab_allocator.Slab.Slots.Entry.{entry_at-set, set-entry_at}
use slab_allocator.Slab.Slots.Fronts.{stock}
use slab_allocator.Slab.Slots.Fresh.{
  IsFree, get_cached_slab-vacant, IsBlank, unheld, claimed_lem, unheld_at,
}
use slab_allocator.Slab.Lifetime.Pools.{FreshPools}
use slab_allocator.Slab.Operations.{View, refresh, enter, alloc, alloc_class}
use slab_allocator.Slab.Operations.Local.{IsLocal, slot, enter-IsLocal}
use slab_allocator.Slab.Operations.Outstanding.{Outstanding}

-- A new slab that the thread has not used: all blocks are free, and the preferred entry is empty and
-- as the thread started with it.
pub record IsNew (scale : ℕ) (v : View) (self : ℕ) : Type 0 where
  pub pools : FreshPools scale v.memory 0 (v.slabs self).shared_pools
  pub free : IsFree v.caches self (slot v self)
  pub classes : length (entry_at v.caches (slot v self)).storage ≡ num_size_classes
  pub blank : All IsBlank (entry_at v.caches (slot v self)).storage

-- The view with the slab's entry in place.
pub entered : View → ℕ → View
entered v self = record v {
  caches =
      set v.caches (slot v self) (claimed (entry_at v.caches (slot v self)) self (v.slabs self));
}

module _ (b : Build) (scale : ℕ) (v : View) (self : ℕ) (h : IsNew scale v self) where
  mine : CacheEntry
  mine = claimed (entry_at v.caches (slot v self)) self (v.slabs self)

  mine_at : entry_at (entered v self).caches (slot v self) ≡ mine
  unfolding entered mine
  mine_at =
      entry_at-set v.caches (slot v self) _ (omega (arith, h.free.entries, h.free.preferred_small))

  entered-IsLocal : IsLocal (entered v self) self (unheld (entry_at v.caches (slot v self)).storage)
  unfolding entered mine
  entered-IsLocal =
      let old = entry_at v.caches (slot v self) in
      let new = claimed_lem scale v.memory old self (v.slabs self) h.blank h.pools h.classes in
      record {
        entries = length-set v.caches (slot v self) _ ∙ h.free.entries;
        owned = rw mine_at new.0;
        current = rw mine_at new.1;
        classes = rw mine_at (new.2 ∙ h.classes);
        fronts = rw mine_at new.3;
      }

  enter-entered : enter b v self ≡ some (slot v self, entered v self)
  unfolding enter refresh entered mine
  enter-entered =
      let old = entry_at v.caches (slot v self) in
      let new = claimed_lem scale v.memory old self (v.slabs self) h.blank h.pools h.classes in
      let same : (mine.epoch == (v.slabs self).epoch) ≡ true = ground (arith, new.1) in
      rw (get_cached_slab-vacant b v.caches self v.slabs v.memory h.free, mine_at, same)
        (ap (λ cs. some (slot v self, record v { caches = cs }))
          (ap (set (entered v self).caches (slot v self)) (sym mine_at)
            ∙ set-entry_at (entered v self).caches (slot v self)))

  -- A thread's first `alloc` from a new slab is one from a slab with this thread's entry in place,
  -- empty caches and all blocks free.
  pub alloc-entered :
      (size : ℕ)
      → 1 ≤ size
      → size ≤ largest
      → alloc b v self size ≡ alloc b (entered v self) self size
  unfolding alloc alloc_class entered
  alloc-entered size lo hi =
      let hot = (size_to_index_lem size lo hi).0 in
      let good : (size == 0
            || size == minus_one
            || ltb largest size
            || size_to_index size == minus_one)
          ≡ false =
        ground (arith, hot) in
      let cached_class : ltb (size_to_index size) num_size_classes ≡ true = ground (arith, hot) in
      rw
        (good, cached_class, enter-entered, enter-IsLocal b (entered v self) self _ entered-IsLocal)
        refl

  -- That slab, by the blocks that clients hold: none.
  pub entered-Outstanding : Outstanding (entered v self) self (stock (v.slabs self).shared_pools) []
  entered-Outstanding = record {
    users = unheld (entry_at v.caches (slot v self)).storage;
    local = entered-IsLocal;
    holds = λ i hot. ([], unheld_at _ i (omega (arith, hot, h.classes)), Perm.refl []);
    in_stock = unfold entered in refl;
  }
