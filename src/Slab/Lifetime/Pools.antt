-- ===== src/Slab/Lifetime/Pools.antt =====
-- The pools of a new slab, in the order of the classes and in the order in which they are made.
use slab_allocator.Base.{ℕ, zero, suc, ◌≡◌, refl, subst, List, [], ◌∷◌, ◌++◌, arith, All}
use slab_allocator.Machine.Memory.{Memory, load_word-agree}
use slab_allocator.Platform.{Os}
use slab_allocator.Platform.Laws.{Region, region, Disjoint, IsPosix}
use slab_allocator.Pool as Pool
use slab_allocator.Pool.Layout.{blocks, Elsewhere}
use slab_allocator.Pool.Chain.{IsPool, IsPool-agree, free-block}
use slab_allocator.Pool.Blocks.{block-inside}
use slab_allocator.Pool.Lifetime.{destroy-owner}
use slab_allocator.Slab.SizeClass.{num_size_classes, class_size, scaled_count}
use slab_allocator.Slab.Slots.Flush.{SeparateFrom}
use slab_allocator.Slab.Lifetime.{destroy_pools, reversed}

-- A pool of the class `i` with every block free.
pub record IsClass (scale i : ℕ) (p : Pool.Pool) (m : Memory) : Type 0 where
  pub pool : IsPool p m [] (blocks p)
  pub size : p.block_size ≡ class_size i
  pub count : p.block_count ≡ scaled_count i scale

-- Pools of the classes from `i` on, all apart.
abbrev pub FreshPools : ℕ → Memory → ℕ → List Pool.Pool → Type 0
FreshPools scale m i [] = i ≡ num_size_classes
FreshPools scale m i (p ∷ pools) =
    IsClass scale i p m × SeparateFrom p pools × FreshPools scale m (suc i) pools

-- Pools of the classes below `i`, the last one in front.
abbrev pub MadePools : ℕ → Memory → ℕ → List Pool.Pool → Type 0
MadePools scale m i [] = i ≡ zero
MadePools scale m zero (p ∷ made) = ⊥
MadePools scale m (suc i) (p ∷ made) =
    IsClass scale i p m × SeparateFrom p made × MadePools scale m i made

-- Each pool of the first list is apart from all of the second.
abbrev AllSeparate : List Pool.Pool → List Pool.Pool → Type 0
AllSeparate [] pools = Unit {0}
AllSeparate (p ∷ made) pools = SeparateFrom p pools × AllSeparate made pools

AllSeparate-nil : (made : List Pool.Pool) → AllSeparate made []
AllSeparate-nil [] = tt
AllSeparate-nil (p ∷ made) = (tt, AllSeparate-nil made)

AllSeparate-cons :
    (p : Pool.Pool) (made pools : List Pool.Pool)
    → SeparateFrom p made
    → AllSeparate made pools
    → AllSeparate made (p ∷ pools)
AllSeparate-cons p [] pools s a = tt
AllSeparate-cons p (q ∷ made) pools s a =
    ((ground (arith, s.0), a.0), AllSeparate-cons p made pools s.1 a.1)

reversed-FreshPools :
    (scale : ℕ) (m : Memory) (i : ℕ) (made pools : List Pool.Pool)
    → MadePools scale m i made
    → FreshPools scale m i pools
    → AllSeparate made pools
    → FreshPools scale m 0 (reversed made pools)
unfolding reversed
reversed-FreshPools scale m i [] pools w f a = subst (λ k. FreshPools scale m k pools) w f
reversed-FreshPools scale m zero (p ∷ made) pools w f a = absurd w
reversed-FreshPools scale m (suc i) (p ∷ made) pools w f a =
    reversed-FreshPools scale m i made (p ∷ pools) w.2 (w.0, a.0, f)
      (AllSeparate-cons p made pools w.1 a.1)

-- All classes are made: their pools in order.
pub MadePools-FreshPools :
    (scale : ℕ) (m : Memory) (made : List Pool.Pool)
    → MadePools scale m num_size_classes made
    → FreshPools scale m 0 (reversed made [])
MadePools-FreshPools scale m made w =
    reversed-FreshPools scale m num_size_classes made [] w refl (AllSeparate-nil made)

pub reversed-reversed :
    (xs ys zs : List Pool.Pool) → reversed (reversed xs ys) zs ≡ reversed ys (xs ++ zs)
unfolding reversed
reversed-reversed [] ys zs = refl
reversed-reversed (x ∷ xs) ys zs = reversed-reversed xs (x ∷ ys) zs

-- A new pool is written to; the others do not notice.
pub MadePools-agree :
    (scale : ℕ) (m m' : Memory) (i : ℕ) (q : Pool.Pool) (made : List Pool.Pool)
    → SeparateFrom q made
    → ((j : ℕ) → Elsewhere q j → m' j ≡ m j)
    → MadePools scale m i made
    → MadePools scale m' i made
MadePools-agree scale m m' i q [] s same w = w
MadePools-agree scale m m' zero q (p ∷ made) s same w = absurd w
MadePools-agree scale m m' (suc i) q (p ∷ made) s same w = (
  record {
    pool = IsPool-agree w.0.pool (λ x k.
        let inside = block-inside w.0.pool (free-block w.0.pool k) in
        load_word-agree m m' x
          (λ j lo hi. same j (ground (arith, s.0, inside, w.0.pool.shaped.wide))));
    size = w.0.size;
    count = w.0.count;
  },
  w.1,
  MadePools-agree scale m m' i q made s.1 same w.2,
)

-- The mappings of the pools, the newest first, above those from before.
abbrev pub owned : List Pool.Pool → List Region → List Region
owned [] base = base
owned (p ∷ made) base = region p.memory p.capacity ∷ owned made base

pub owned-SeparateFrom :
    (q : Pool.Pool) (made : List Pool.Pool) (base : List Region)
    → All (Disjoint (region q.memory q.capacity)) (owned made base)
    → SeparateFrom q made
owned-SeparateFrom q [] base a = tt
owned-SeparateFrom q (p ∷ made) base a = (a.0, owned-SeparateFrom q made base a.1)

module _ {S : Type 0} {os : Os S} {mapped : S → List Region} (posix : IsPosix os mapped) where
  -- Destroying the pools in the order opposite to that in which they were made unmaps them all.
  pub destroy_pools-owned :
      (scale : ℕ) (m : Memory) (i : ℕ) (made : List Pool.Pool) (base : List Region) (s : S)
      → MadePools scale m i made
      → mapped s ≡ owned made base
      → mapped (destroy_pools os made s) ≡ base
  unfolding destroy_pools
  destroy_pools-owned scale m i [] base s w e = e
  destroy_pools-owned scale m zero (p ∷ made) base s w e = absurd w
  destroy_pools-owned scale m (suc i) (p ∷ made) base s w e =
      destroy_pools-owned scale m i made base (Pool.destroy os p s).1 w.2
        (destroy-owner posix p s (owned made base) w.0.pool.shaped.mapped e)
