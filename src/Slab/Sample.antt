-- ===== src/Slab/Sample.antt =====
-- A slab in use by the thread that owns its entry, for the examples.
use mathlib.Core.List.Perm
use slab_allocator.Base.{ℕ, zero, suc, ◌+◌, ◌*◌, ◌^◌, ◌≤◌, ◌<◌, refl, List, [], ◌∷◌, arith}
use slab_allocator.Machine.Word.{nullptr}
use slab_allocator.Machine.Memory.{Memory, load_word}
use slab_allocator.Pool.{Pool}
use slab_allocator.Pool.Layout.{blocks_from}
use slab_allocator.Pool.Chain.{IsPool}
use slab_allocator.Slab.Cache.{ThreadLocalCache}
use slab_allocator.Slab.Cache.Entries.{IsCache}
use slab_allocator.Slab.Slots.{Slab, CacheEntry}
use slab_allocator.Slab.Slots.Flush.{Fronts, class, empty, SeparateFrom}
use slab_allocator.Slab.Operations.{View}
use slab_allocator.Slab.Operations.Local.{IsLocal}

abbrev pub nulls : ℕ → List ℕ
nulls zero = []
nulls (suc n) = nullptr ∷ nulls n

-- Nothing cached yet, in batches of two.
abbrev pub empty_cache : ThreadLocalCache
empty_cache = record { objects = nulls 128; current = 0; batch_size = 2 }

pub empty_cache-IsCache : IsCache empty_cache
empty_cache-IsCache = record {
  room = refl;
  bounded = omega arith;
  batch_pos = omega arith;
  batch_fits = omega arith;
}

-- Two blocks in the page at `base`, the first one handed out.
abbrev pub half_used : ℕ → Pool
half_used base = record {
  memory = base;
  capacity = 4096;
  free_count = 1;
  block_size = 32;
  block_count = 2;
  free_list = base + 32;
}

abbrev zeros : Memory
zeros = λ i. 0

half_used-IsPool :
    (base : ℕ)
    → 1 ≤ base
    → base + 4096 < 2 ^ 64
    → IsPool (half_used base) zeros (base ∷ []) ((base + 32) ∷ [])
unfolding load_word blocks_from
half_used-IsPool base h small = record {
  shaped = record {
    mapped = omega arith;
    exponent = 5;
    sized = refl;
    wide = omega arith;
    small = omega arith;
    fits = omega arith;
    in_space = omega arith;
  };
  chain = (refl, omega arith, refl);
  counted = refl;
  partition = Perm.refl (base ∷ (base + 32) ∷ []);
}

-- Such pools for `n` classes from `base` on, each behind an empty cache.
abbrev pub pools_from : ℕ → ℕ → List Pool
pools_from base zero = []
pools_from base (suc n) = half_used base ∷ pools_from (base + 4096) n

abbrev pub empty_caches : ℕ → List ThreadLocalCache
empty_caches zero = []
empty_caches (suc n) = empty_cache ∷ empty_caches n

abbrev pub users_from : ℕ → ℕ → List (List ℕ)
users_from base zero = []
users_from base (suc n) = (base ∷ []) ∷ users_from (base + 4096) n

pools_from-SeparateFrom :
    (base above n : ℕ) → base + 4096 ≤ above → SeparateFrom (half_used base) (pools_from above n)
pools_from-SeparateFrom base above zero h = tt
pools_from-SeparateFrom base above (suc n) h =
    (ground arith, pools_from-SeparateFrom base (above + 4096) n (omega arith))

pools_from-Fronts :
    (base n : ℕ)
    → 1 ≤ base
    → base + n * 4096 < 2 ^ 64
    → Fronts zeros (empty_caches n) (pools_from base n) (users_from base n)
pools_from-Fronts base zero h small = empty
pools_from-Fronts base (suc n) h small =
    class ((base + 32) ∷ [])
      (record { cache = empty_cache-IsCache; pool = half_used-IsPool base h (omega arith) })
      (pools_from-SeparateFrom base (base + 4096) n (omega arith))
      (pools_from-Fronts (base + 4096) n (omega arith) (omega arith))

-- The slab at 100 with ten such pools, in the slot that its number prefers.
abbrev pub used_slab : Slab
used_slab = record { epoch = 4; slab_id = 5; shared_pools = pools_from 4096 10 }

abbrev nobody : CacheEntry
nobody = record { epoch = 0; owner = 0; storage = [] }

abbrev pub used_view : View
used_view = record {
  caches =
      nobody ∷ record { epoch = 4; owner = 100; storage = empty_caches 10 } ∷ nobody ∷ nobody ∷ [];
  slabs = λ a. used_slab;
  memory = zeros;
}

pub used_view-IsLocal : IsLocal used_view 100 (users_from 4096 10)
used_view-IsLocal = record {
  entries = refl;
  owned = refl;
  current = refl;
  classes = refl;
  fronts = pools_from-Fronts 4096 10 (omega arith) (omega arith);
}
