-- ===== src/Slab/Threads/Invariant.antt =====
-- The blocks of a slab are on its pools' lists, in the caches of the threads, or in clients' hands.
use slab_allocator.Base.{
  ℕ, zero, suc, ◌<◌, ◌≡◌, ◌≢◌, refl, ap, List, [], ◌∷◌, ◌++◌, length, get_elem?, set, Perm, some,
  arith, same_some,
}
use slab_allocator.Base.Held.{others}
use slab_allocator.Slab.SizeClass.{num_size_classes}
use slab_allocator.Slab.Cache.{ThreadLocalCache}
use slab_allocator.Slab.Cache.Entries.{cached}
use slab_allocator.Slab.Slots.{CacheEntry, entry_at}
use slab_allocator.Slab.Operations.Local.{IsLocal, slot}
use slab_allocator.Slab.Threads.{Crew, view}

-- The blocks of the class `i` in the caches of an entry, and of the slot `k` of a thread.
abbrev pub cached_class : List ThreadLocalCache → ℕ → List ℕ
cached_class [] i = []
cached_class (c ∷ caches) zero = cached c
cached_class (c ∷ caches) (suc i) = cached_class caches i

abbrev pub cached_in : ℕ → ℕ → List CacheEntry → List ℕ
cached_in k i caches = cached_class (entry_at caches k).storage i

-- The slot that the slab prefers, in each thread.
abbrev pub home : Crew → ℕ → ℕ
home c self = slot (view c 0) self

-- The thread `t` has an entry for the slab in the preferred slot; from where it stands, the blocks
-- in other threads' caches are in use as well as those of the clients.
pub record IsMember (c : Crew) (self : ℕ) (users : ℕ → List ℕ) (t : ℕ) : Type 0 where
  pub blocks : List (List ℕ)
  pub local : IsLocal (view c t) self blocks
  pub holds :
      (i : ℕ)
      → i < num_size_classes
      → (u : List ℕ) × (get_elem? blocks i ≡ some u)
        × Perm u (others (cached_in (home c self) i) c.entries t ++ users i)

-- Clients hold the blocks `users`, class by class.
pub record IsCrew (c : Crew) (self : ℕ) (users : ℕ → List ℕ) : Type 0 where
  pub member : (t : ℕ) → t < length c.entries → IsMember c self users t

pub cached_class-at :
    (caches : List ThreadLocalCache) (i : ℕ) (c : ThreadLocalCache)
    → get_elem? caches i ≡ some c
    → cached_class caches i ≡ cached c
cached_class-at [] i c e = cc
cached_class-at (x ∷ caches) zero c e = ap cached (same_some e)
cached_class-at (x ∷ caches) (suc i) c e = cached_class-at caches i c e

pub cached_class-set_other :
    (caches : List ThreadLocalCache) (i j : ℕ) (c : ThreadLocalCache)
    → j ≢ i
    → cached_class (set caches i c) j ≡ cached_class caches j
cached_class-set_other [] i j c h = refl
cached_class-set_other (x ∷ caches) zero zero c h = absurd (h refl)
cached_class-set_other (x ∷ caches) zero (suc j) c h = refl
cached_class-set_other (x ∷ caches) (suc i) zero c h = refl
cached_class-set_other (x ∷ caches) (suc i) (suc j) c h =
    cached_class-set_other caches i j c (omega arith)
