-- ===== src/Slab/Slots/Fresh.antt =====
-- A slab's first entry in a thread: the preferred one, with empty caches in front of full pools.
use slab_allocator.Base.{
  ℕ, zero, suc, ◌+◌, ◌%◌, ◌≤◌, ◌<◌, ◌≡◌, ◌≢◌, refl, sym, ◌==◌, true, false, List, [], ◌∷◌, length,
  set, some, arith, ap, get_elem?, All, Build, Bool-cases, inl, inr,
}
use slab_allocator.Machine.Word.{nullptr, minus_one}
use slab_allocator.Machine.Memory.{Memory}
use slab_allocator.Pool as Pool
use slab_allocator.Pool.Layout.{blocks}
use slab_allocator.Slab.SizeClass.{num_size_classes, max_cached_slabs, batch_sizes}
use slab_allocator.Slab.Cache.{ThreadLocalCache, object_count}
use slab_allocator.Slab.Cache.Entries.{IsFront, IsCache}
use slab_allocator.Slab.Slots.{
  Slab, CacheEntry, entry_at, claim, scan_loop, find_slot, get_cached_slab, use_slot, claimed,
  set_batch_sizes, init_cache_batch_sizes,
}
use slab_allocator.Slab.Slots.Flush.{Fronts, class, empty}
use slab_allocator.Slab.Lifetime.Pools.{FreshPools}

-- The slab has no entry yet, and its preferred one is empty.
pub record IsFree (caches : List CacheEntry) (self preferred : ℕ) : Type 0 where
  pub entries : length caches ≡ max_cached_slabs
  pub vacant : (entry_at caches preferred).owner ≡ nullptr
  pub nowhere : (j : ℕ) → j < max_cached_slabs → (entry_at caches j).owner ≢ self
  pub preferred_small : preferred < max_cached_slabs

scan_loop-vacant :
    (caches : List CacheEntry) (self preferred rounds i slot : ℕ)
    → ((j : ℕ) → j < i + rounds → (entry_at caches j).owner ≢ self)
    → slot < max_cached_slabs
    → scan_loop caches self preferred rounds i slot ≡ claim slot
unfolding scan_loop
scan_loop-vacant caches self preferred zero i slot h small =
    let real : (slot == minus_one) ≡ false = ground arith in rw real refl
scan_loop-vacant caches self preferred (suc rounds) i slot h small =
    let real : (slot == minus_one) ≡ false = ground arith in
    let other = h i (omega arith) in
    let foreign : ((entry_at caches i).owner == self) ≡ false = ground (arith, other) in
    let rest =
      scan_loop-vacant caches self preferred rounds (i + 1) slot (λ j lt. h j (omega arith))
        small in
    elim (Bool-cases (i == preferred)) [
      | inl e ↦ rw e rest
      | inr e ↦ elim (Bool-cases ((entry_at caches i).owner == nullptr)) [
        | inl e' ↦ rw (e, e', real, foreign) rest
        | inr e' ↦ rw (e, e', foreign) rest
      ]
    ]

pub get_cached_slab-vacant :
    (b : Build) (caches : List CacheEntry) (self : ℕ) (slabs : ℕ → Slab) (m : Memory)
    → let preferred = (slabs self).slab_id % max_cached_slabs in
      IsFree caches self preferred
      → get_cached_slab b caches self slabs m
        ≡ some (
          preferred,
          set caches preferred (claimed (entry_at caches preferred) self (slabs self)),
          slabs,
          m,
        )
unfolding get_cached_slab find_slot use_slot
get_cached_slab-vacant b caches self slabs m v =
    let preferred = (slabs self).slab_id % max_cached_slabs in
    let other = v.nowhere preferred v.preferred_small in
    let foreign : ((entry_at caches preferred).owner == self) ≡ false = ground (arith, other) in
    let here : ((entry_at caches preferred).owner == nullptr) ≡ true = ground (arith, v.vacant) in
    let scan =
      scan_loop-vacant caches self preferred max_cached_slabs 0 preferred
        (λ j lt. v.nowhere j (omega arith)) v.preferred_small in
    rw (foreign, here, scan) refl

-- Caches as `thread_local` storage starts with.
abbrev pub IsBlank : ThreadLocalCache → Type 0
IsBlank c = (length c.objects ≡ object_count) × (c.current ≡ 0)

-- Nobody holds a block of any class.
abbrev pub unheld : List ThreadLocalCache → List (List ℕ)
unheld [] = []
unheld (c ∷ caches) = [] ∷ unheld caches

pub blank-Fronts :
    (scale : ℕ) (m : Memory) (i : ℕ) (storage : List ThreadLocalCache) (sizes : List ℕ)
    (pools : List Pool.Pool)
    → All IsBlank storage
    → All (λ n. (1 ≤ n) × (n ≤ object_count)) sizes
    → FreshPools scale m i pools
    → length sizes ≡ length storage
    → i + length storage ≡ num_size_classes
    → Fronts m (set_batch_sizes storage sizes) pools (unheld storage)
unfolding set_batch_sizes
blank-Fronts scale m i [] [] [] bs ns f e k = empty
blank-Fronts scale m i (c ∷ storage) (n ∷ sizes) (p ∷ pools) bs ns f e k =
    let cache : IsCache (record c { batch_size = n }) = record {
      room = bs.0.0;
      bounded = omega (arith, bs.0.1);
      batch_pos = ns.0.0;
      batch_fits = ns.0.1;
    } in
    let front : IsFront (record c { batch_size = n }) p m [] (blocks p) = record {
      cache = cache;
      pool = rw bs.0.1 f.0.pool;
    } in
    class (blocks p) front f.1 (
      blank-Fronts scale m (suc i) storage sizes pools bs.1 ns.1 f.2 (omega (arith, e))
        (omega (arith, k)))
blank-Fronts scale m i [] [] (p ∷ pools) bs ns f e k =
    let top : i ≡ num_size_classes = omega (arith, k) in
    let size = f.0.size in
    let none : p.block_size ≡ 0 = rw top at size in
    absurd (omega (arith, none, f.0.pool.shaped.wide))
blank-Fronts scale m i [] (n ∷ sizes) pools bs ns f e k = absurd (omega (arith, e))
blank-Fronts scale m i (c ∷ storage) [] pools bs ns f e k = absurd (omega (arith, e))
blank-Fronts scale m i (c ∷ storage) (n ∷ sizes) [] bs ns f e k = absurd (omega (arith, f, k))

length-set_batch_sizes :
    (storage : List ThreadLocalCache) (sizes : List ℕ)
    → length (set_batch_sizes storage sizes) ≡ length storage
unfolding set_batch_sizes
length-set_batch_sizes [] sizes = refl
length-set_batch_sizes (c ∷ storage) [] = refl
length-set_batch_sizes (c ∷ storage) (n ∷ sizes) = ap suc (length-set_batch_sizes storage sizes)

-- A blank entry that a new slab claims.
pub claimed_lem :
    (scale : ℕ) (m : Memory) (e : CacheEntry) (self : ℕ) (s : Slab)
    → All IsBlank e.storage
    → FreshPools scale m 0 s.shared_pools
    → length e.storage ≡ num_size_classes
    → ((claimed e self s).owner ≡ self)
      × ((claimed e self s).epoch ≡ s.epoch)
      × (length (claimed e self s).storage ≡ length e.storage)
      × Fronts m (claimed e self s).storage s.shared_pools (unheld e.storage)
unfolding claimed init_cache_batch_sizes
claimed_lem scale m e self s blank pools classes = (
  refl,
  refl,
  length-set_batch_sizes e.storage batch_sizes,
  blank-Fronts scale m 0 e.storage batch_sizes s.shared_pools blank (ground arith) pools
      (sym classes) (omega (arith, classes)),
)

pub unheld_at :
    (storage : List ThreadLocalCache) (i : ℕ)
    → i < length storage
    → get_elem? (unheld storage) i ≡ some []
unheld_at [] i h = absurd (omega arith)
unheld_at (c ∷ storage) zero h = refl
unheld_at (c ∷ storage) (suc i) h = unheld_at storage i (omega arith)
