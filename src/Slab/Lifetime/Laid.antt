-- ===== src/Slab/Lifetime/Laid.antt =====
-- The mappings of a slab in use (src/slab.cpp) and its destructor.
use mathlib.Core.List.{reverse_aux}
use slab_allocator.Base.{ℕ, suc, ◌≡◌, ◌≢◌, refl, sym, ◌∙◌, ap, List, [], ◌∷◌, ◌++◌, All}
use slab_allocator.Machine.Word.{nullptr}
use slab_allocator.Machine.Memory.{Memory}
use slab_allocator.Platform.{Os}
use slab_allocator.Platform.Laws.{Region, IsPosix}
use slab_allocator.Pool as Pool
use slab_allocator.Pool.Lifetime.{destroy-owner}
use slab_allocator.Pool.Places.{place, places}
use slab_allocator.Slab.Slots.{Slab, CacheEntry}
use slab_allocator.Slab.Lifetime.{destroy, destroy_pools, reversed}
use slab_allocator.Slab.Lifetime.Pools.{FreshPools, owned}

abbrev pub IsReal : Region → Type 0
IsReal r = r.base ≢ nullptr

-- Regions mapped one after the other, above those from before.
abbrev pub above : List Region → List Region → List Region
above rs base = reverse_aux rs [] ++ base

All-reverse_aux :
    (P : Region → Type 0) (xs ys : List Region) → All P xs → All P ys → All P (reverse_aux xs ys)
All-reverse_aux P [] ys a b = b
All-reverse_aux P (x ∷ xs) ys a b = All-reverse_aux P xs (x ∷ ys) a.1 (a.0, b)

places-reversed :
    (pools done : List Pool.Pool)
    → places (reversed pools done) ≡ reverse_aux (places pools) (places done)
unfolding reversed
places-reversed [] done = refl
places-reversed (p ∷ pools) done = places-reversed pools (p ∷ done)

owned-places :
    (pools : List Pool.Pool) (base : List Region) → owned pools base ≡ places pools ++ base
owned-places [] base = refl
owned-places (p ∷ pools) base = ap (◌∷◌ (place p)) (owned-places pools base)

-- The pools of a new slab are mapped one after the other.
pub owned-above :
    (pools : List Pool.Pool) (base : List Region)
    → owned (reversed pools []) base ≡ above (places pools) base
owned-above pools base =
    owned-places (reversed pools []) base ∙ ap (λ rs. rs ++ base) (places-reversed pools [])

pub FreshPools-IsReal :
    (scale : ℕ) (m : Memory) (i : ℕ) (pools : List Pool.Pool)
    → FreshPools scale m i pools
    → All IsReal (places pools)
FreshPools-IsReal scale m i [] f = tt
FreshPools-IsReal scale m i (p ∷ pools) f =
    (f.0.pool.shaped.mapped, FreshPools-IsReal scale m (suc i) pools f.2)

module _ {S : Type 0} {os : Os S} {mapped : S → List Region} (posix : IsPosix os mapped) where
  destroy_pools-places :
      (pools : List Pool.Pool) (base : List Region) (s : S)
      → All IsReal (places pools)
      → mapped s ≡ places pools ++ base
      → mapped (destroy_pools os pools s) ≡ base
  unfolding destroy_pools
  destroy_pools-places [] base s real e = e
  destroy_pools-places (p ∷ pools) base s real e =
      destroy_pools-places pools base (Pool.destroy os p s).1 real.1
        (destroy-owner posix p s (places pools ++ base) real.0 e)

  -- The destructor of a slab whose pools own the newest mappings brings back those below them.
  pub destroy-above :
      (caches : List CacheEntry) (self : ℕ) (slab : Slab) (base : List Region) (s : S)
      → All IsReal (places slab.shared_pools)
      → mapped s ≡ above (places slab.shared_pools) base
      → mapped (destroy os caches self slab s).1 ≡ base
  unfolding destroy
  destroy-above caches self slab base s real e =
      let back = places-reversed slab.shared_pools [] in
      destroy_pools-places (reversed slab.shared_pools []) base s
        (rw back (All-reverse_aux IsReal (places slab.shared_pools) [] real tt))
        (e ∙ ap (λ rs. rs ++ base) (sym back))
