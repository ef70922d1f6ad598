-- ===== src/Slab/Lifetime.antt =====
-- The constructor and the destructor of `slab` (src/slab.cpp).
pub mod Pools
pub mod Making
pub mod DefaultScale
pub mod Laid
use slab_allocator.Base.{
  ℕ, zero, suc, ◌+◌, ◌%◌, not, ◌&&◌, ◌==◌, if◌then◌else◌, List, [], ◌∷◌, set, Build,
}
use slab_allocator.Machine.Word.{nullptr, add_word}
use slab_allocator.Machine.Memory.{Memory}
use slab_allocator.Platform.{Os, Result, ok, bad_alloc, aborted}
use slab_allocator.Pool as Pool
use slab_allocator.Slab.SizeClass.{num_size_classes, max_cached_slabs, class_size, scaled_count}
use slab_allocator.Slab.Slots.{Slab, CacheEntry, entry_at, invalidate_all}

-- The pools from the newest one on are destroyed, as the members of an array are.
pub destroy_pools : {S : Type 0} → Os S → List Pool.Pool → S → S
destroy_pools os [] s = s
destroy_pools os (p ∷ pools) s = destroy_pools os pools (Pool.destroy os p s).1

unfoldable pub reversed : List Pool.Pool → List Pool.Pool → List Pool.Pool
reversed [] done = done
reversed (p ∷ pools) done = reversed pools (p ∷ done)

-- The loop of the constructor for the classes from `i` on; `made` are the pools so far, the newest
-- first. An exception destroys them; the pools that have no memory yet have nothing to unmap.
unfoldable pub init_loop :
    {S : Type 0}
    → Build
    → Os S
    → ℕ
    → ℕ
    → ℕ
    → List Pool.Pool
    → Memory
    → S
    → Result (Unit {0}) (List Pool.Pool × Memory) S
unfolding destroy_pools reversed
init_loop b os scale zero i made m s = ok (reversed made [], m) s
init_loop b os scale (suc rounds) i made m s =
    elim (Pool.init b os Pool.cleared (class_size i) (scaled_count i scale) m s) [
      | ok (q, m') s' ↦ init_loop b os scale rounds (i + 1) (q ∷ made) m' s'
      | bad_alloc q s' ↦ bad_alloc tt (destroy_pools os made s')
      | aborted ↦ aborted
    ]

-- `next_slab_id` is the id of the new slab; it goes up whether or not the constructor throws.
unfoldable pub construct :
    {S : Type 0} → Build → Os S → ℕ → ℕ → Memory → S → ℕ × Result (Unit {0}) (Slab × Memory) S
unfolding init_loop add_word
construct b os scale next_slab_id m s = (
  add_word next_slab_id 1,
  elim (init_loop b os scale num_size_classes 0 [] m s) [
    | ok (pools, m') s' ↦
        ok (record { epoch = 0; slab_id = next_slab_id; shared_pools = pools }, m') s'
    | bad_alloc e s' ↦ bad_alloc e s'
    | aborted ↦ aborted
  ],
)

-- An entry that loses its slab.
released : List CacheEntry → ℕ → List CacheEntry
released caches i = set caches i (record (invalidate_all (entry_at caches i)) { owner = nullptr })

-- The loop of the destructor for the rounds from `i` on.
release_loop : List CacheEntry → ℕ → ℕ → ℕ → ℕ → List CacheEntry
unfolding released
release_loop caches self preferred zero i = caches
release_loop caches self preferred (suc rounds) i =
    let rest = release_loop caches self preferred rounds (i + 1) in
    if not (i == preferred) && (entry_at caches i).owner == self then released caches i else rest

-- The destructor in the thread that runs it: its own entry for the slab is given up, then the pools
-- are destroyed.
pub destroy : {S : Type 0} → Os S → List CacheEntry → ℕ → Slab → S → List CacheEntry × S
unfolding released release_loop destroy_pools reversed
destroy os caches self slab s =
    let preferred = slab.slab_id % max_cached_slabs in
    (
      if (entry_at caches preferred).owner == self
          then released caches preferred
          else release_loop caches self preferred max_cached_slabs 0,
      destroy_pools os (reversed slab.shared_pools []) s,
    )
