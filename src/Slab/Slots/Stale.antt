-- ===== src/Slab/Slots/Stale.antt =====
-- Entries that outlive a `reset` of their slab (include/slab.h): `invalidate_all` drops what they
-- hold, `flush` does not look at the epoch.
use slab_allocator.Base.{ℕ, ◌≡◌, refl, ◌≢◌, List, ◌∷◌, [], some, Build}
use slab_allocator.Machine.Memory.{Memory}
use slab_allocator.Pool.{Pool, alloc}
use slab_allocator.Pool.Chain.{IsPool}
use slab_allocator.Pool.DoubleFree.{alloc-free_again}
use slab_allocator.Slab.Cache.{ThreadLocalCache}
use slab_allocator.Slab.Cache.{invalidate}
use slab_allocator.Slab.Slots.{CacheEntry, flush_one, invalidate_each, invalidate_all}
use slab_allocator.Slab.Slots.Flush.{AllEmpty}
use slab_allocator.Machine.Word.{nullptr}
use slab_allocator.Platform.Laws.{ne-eqb}

invalidate_each-AllEmpty : (caches : List ThreadLocalCache) → AllEmpty (invalidate_each caches)
unfolding invalidate_each invalidate
invalidate_each-AllEmpty [] = tt
invalidate_each-AllEmpty (c ∷ caches) = (refl, invalidate_each-AllEmpty caches)

-- An entry that has an owner is emptied, and keeps the owner.
pub invalidate_all-AllEmpty :
    (entry : CacheEntry)
    → entry.owner ≢ nullptr
    → AllEmpty (invalidate_all entry).storage × ((invalidate_all entry).owner ≡ entry.owner)
unfolding invalidate_all
invalidate_all-AllEmpty entry h =
    rw (ne-eqb entry.owner h) (invalidate_each-AllEmpty entry.storage, refl)

-- When a cache holds one block, and that block is the first on the pool's free list already, as a
-- `reset` of the slab may leave it, one round of `flush` frees it once more, and the pool then hands
-- the same block out twice in a row; no assertion fails on the way.
pub flush_one-stale :
    {p : Pool} {m : Memory} {live rest : List ℕ} (b : Build) (x : ℕ) (tail : List ℕ) (batch : ℕ)
    → IsPool p m live (x ∷ rest)
    → (c : ThreadLocalCache) × (q : Pool) × (m' : Memory) × (flush_one b
          (record { objects = x ∷ tail; current = 1; batch_size = batch })
          p
          m
        ≡ some (c, q, m'))
      × (q₁ : Pool) × (alloc b q m' ≡ some (x, q₁))
      × (q₂ : Pool) × (alloc b q₁ m' ≡ some (x, q₂))
unfolding flush_one
flush_one-stale b x tail batch v =
    let twice = alloc-free_again x v b tail in
    (
      record { objects = x ∷ tail; current = 0; batch_size = batch },
      twice.0,
      twice.1,
      rw twice.2,
      twice.3,
      twice.4,
      twice.5,
      twice.6,
    )
