-- ===== src/Slab/Threads/Examples.antt =====
-- Two threads on one slab at concrete inputs (src/slab.cpp).
use slab_allocator.Base.{
  ℕ, zero, suc, ◌+◌, ◌<◌, ◌≡◌, ◌≢◌, ◌⊎◌, refl, List, [], ◌∷◌, length, get_elem?, get_or, Mem, Nodup,
  some, arith, debug, release,
}
use mathlib.Core.List.Perm
use slab_allocator.Machine.Word.{bit_ceil, bit_width, width_of}
use slab_allocator.Pool.{Pool}
use slab_allocator.Slab.Slots.Fronts.{Fronts-ClassAt}
use slab_allocator.Slab.SizeClass.{size_to_index}
use slab_allocator.Slab.Sample.{empty_caches, used_view, users_from, used_view-IsLocal}
use slab_allocator.Slab.Threads.{Crew, alloc_by, free_by}
use slab_allocator.Slab.Threads.Invariant.{IsCrew, IsMember, cached_class}
use slab_allocator.Slab.Threads.Calls.{with_class, Answered, alloc_by-IsCrew, free_by-IsCrew}
use slab_allocator.Slab.Threads.Interleavings.{System, Reach, here, next, freed}
use slab_allocator.Slab.Threads.Apart.{Apart, users-Apart}

-- Both threads have called `alloc` before; a client holds one block of each class.
abbrev pair : Crew
pair = record {
  entries = used_view.caches ∷ used_view.caches ∷ [];
  slabs = used_view.slabs;
  memory = used_view.memory;
}

abbrev pair_users : ℕ → List ℕ
pair_users i = get_or (users_from 4096 10) i []

empty_caches-cached : (n i : ℕ) → cached_class (empty_caches n) i ≡ []
empty_caches-cached zero i = refl
empty_caches-cached (suc n) zero = refl
empty_caches-cached (suc n) (suc i) = empty_caches-cached n i

users_from-at :
    (base n i : ℕ)
    → i < n
    → get_elem? (users_from base n) i ≡ some (get_or (users_from base n) i [])
users_from-at base zero i h = absurd (omega (arith, h))
users_from-at base (suc n) zero h = refl
users_from-at base (suc n) (suc i) h = users_from-at (base + 4096) n i (omega (arith, h))

pair-member : (t : ℕ) → t < 2 → IsMember pair 100 pair_users t
pair-member zero h = record {
  blocks = users_from 4096 10;
  local = used_view-IsLocal;
  holds = λ i hot. (_, users_from-at 4096 10 i hot, rw (empty_caches-cached 10 i) (Perm.refl _));
}
pair-member (suc zero) h = record {
  blocks = users_from 4096 10;
  local = used_view-IsLocal;
  holds = λ i hot. (_, users_from-at 4096 10 i hot, rw (empty_caches-cached 10 i) (Perm.refl _));
}
pair-member (suc (suc t)) h = absurd (omega (arith, h))

pair-IsCrew : IsCrew pair 100 pair_users
pair-IsCrew = record { member = pair-member }

abbrev pair_system : System
pair_system = record { crew = pair; users = pair_users }

alloc_by-IsCrew_example :
    (ptr : ℕ) × (c' : Crew) × (alloc_by debug pair 1 100 100 ≡ some (ptr, c'))
    × (length c'.entries ≡ 2)
    × Answered 100 pair_users 100 ptr c'
alloc_by-IsCrew_example =
    alloc_by-IsCrew debug pair 100 pair_users pair-IsCrew 1 (omega arith) 100 (omega arith)
      (omega arith)

free_by-IsCrew_example :
    (c' : Crew) × (free_by release pair 1 100 4096 8 ≡ some c')
    × (length c'.entries ≡ 2)
    × IsCrew c' 100 (with_class pair_users (size_to_index 8) [])
unfolding size_to_index bit_ceil bit_width width_of
free_by-IsCrew_example =
    free_by-IsCrew release pair 100 pair_users pair-IsCrew 1 (omega arith) 8 4096 [] (omega arith)
      (omega arith) (Perm.refl _)

-- The second thread frees the block of the smallest class, whichever thread got it.
handed_back :
    (c' : Crew) × (free_by release pair 1 100 4096 8 ≡ some c')
    × (length c'.entries ≡ 2)
    × IsCrew c' 100 (with_class pair_users (size_to_index 8) [])
unfolding size_to_index bit_ceil bit_width width_of
handed_back =
    free_by-IsCrew release pair 100 pair_users pair-IsCrew 1 (omega arith) 8 4096 [] (omega arith)
      (omega arith) (Perm.refl _)

abbrev later : System
later = record { crew = handed_back.0; users = with_class pair_users (size_to_index 8) [] }

later-Reach : Reach release 100 pair_system later
unfolding size_to_index bit_ceil bit_width width_of
later-Reach = next here (
    freed 1 8 4096 [] handed_back.0 (omega arith) (omega arith) (omega arith) (Perm.refl _)
      handed_back.1)

later_pool :
    (i : ℕ) → i < 10 → (p : Pool) × (get_elem? (later.crew.slabs 100).shared_pools i ≡ some p)
later_pool i hot =
    let first = handed_back.3.member 0 (omega (arith, handed_back.2)) in
    let here = Fronts-ClassAt i first.local.fronts (omega (arith, hot, first.local.classes)) in
    (here.pool, here.pool_at)

users-Apart_example :
    let p = (later_pool 1 (omega arith)).0 in
    let q = (later_pool 2 (omega arith)).0 in
    Nodup (later.users 1)
    × ((x y : ℕ)
        → Mem x (later.users 1)
        → Mem y (later.users 2)
        → (◌≢◌ {A = ℕ} 1 2) ⊎ (x ≢ y)
        → Apart p x q y)
users-Apart_example =
    users-Apart release 100 pair-IsCrew (omega arith) later-Reach 1 2 (later_pool 1 (omega arith)).0
      (later_pool 2 (omega arith)).0 (omega arith) (omega arith) (later_pool 1 (omega arith)).1
      (later_pool 2 (omega arith)).1
