-- ===== src/Pool/Places.antt =====
-- No operation of a pool in use moves its mapping (src/pool.cpp).
use slab_allocator.Base.{
  ℕ, zero, suc, ◌+◌, ◌≡◌, refl, ◌==◌, ap₂, Bool-cases, inl, inr, List, [], ◌∷◌, Option, none, some,
  Build, assert, set, get_elem?, OnSome, on_some, OnSome-bind, OnSome-if, OnSome-any, subst,
  same_some,
}
use slab_allocator.Machine.Word.{nullptr}
use slab_allocator.Machine.Memory.{Memory}
use slab_allocator.Platform.Laws.{Region, region}
use slab_allocator.Pool.{
  Pool, check_asserts, owns, pop, push, alloc, free, alloc_loop, alloc_batched_internal, free_one,
  free_loop, free_batched_internal,
}

abbrev pub place : Pool → Region
place p = region p.memory p.capacity

abbrev pub places : List Pool → List Region
places [] = []
places (p ∷ pools) = place p ∷ places pools

pub places-set :
    (pools : List Pool) (i : ℕ) (p q : Pool)
    → get_elem? pools i ≡ some p
    → place q ≡ place p
    → places (set pools i q) ≡ places pools
places-set [] i p q e same = refl
places-set (x ∷ pools) zero p q e same =
    let here : x ≡ p = same_some e in rw here (ap₂ ◌∷◌ same refl)
places-set (x ∷ pools) (suc i) p q e same = ap₂ ◌∷◌ refl (places-set pools i p q e same)

pub alloc-place :
    (b : Build) (p : Pool) (m : Memory) → OnSome (λ r. place r.1 ≡ place p) (alloc b p m)
unfolding alloc pop
alloc-place b p m =
    OnSome-if (p.free_list == nullptr) (on_some refl)
      (OnSome-bind (check_asserts b p) (OnSome-any _) (λ u t. on_some refl))

pub free-place :
    (b : Build) (p : Pool) (m : Memory) (ptr : ℕ)
    → OnSome (λ r. place r.0 ≡ place p) (free b p m ptr)
unfolding free push
free-place b p m ptr = OnSome-if (ptr == nullptr) (on_some refl) (
    OnSome-bind (check_asserts b p) (OnSome-any _)
      (λ u t. OnSome-bind (assert b (owns p ptr)) (OnSome-any _) (λ u' t'. on_some refl)))

alloc_loop-place :
    (rounds i : ℕ) (p : Pool) (m : Memory) (out : List ℕ)
    → place (alloc_loop rounds i p m out).2 ≡ place p
unfolding alloc_loop pop
alloc_loop-place zero i p m out = refl
alloc_loop-place (suc rounds) i p m out = elim (Bool-cases (p.free_list == nullptr)) [
  | inl e ↦ rw e refl
  | inr e ↦ rw e (alloc_loop-place rounds (i + 1) (pop p m) m (set out i p.free_list))
]

pub alloc_batched_internal-place :
    (b : Build) (p : Pool) (m : Memory) (n : ℕ) (out : Option (List ℕ))
    → OnSome (λ r. place r.2 ≡ place p) (alloc_batched_internal b p m n out)
unfolding alloc_batched_internal
alloc_batched_internal-place b p m n none = on_some refl
alloc_batched_internal-place b p m n (some out) =
    OnSome-if (p.free_list == nullptr) (on_some refl) (
      OnSome-bind (check_asserts b p) (OnSome-any _)
        (λ u t. on_some (alloc_loop-place n 0 p m out)))

free_one-place :
    (b : Build) (p : Pool) (m : Memory) (ptr : ℕ)
    → OnSome (λ r. place r.0 ≡ place p) (free_one b p m ptr)
unfolding free_one push
free_one-place b p m ptr =
    OnSome-if (ptr == nullptr) (on_some refl)
      (OnSome-bind (assert b (owns p ptr)) (OnSome-any _) (λ u t. on_some refl))

free_loop-place :
    (b : Build) (rounds i : ℕ) (p : Pool) (m : Memory) (blocks : List ℕ)
    → OnSome (λ r. place r.0 ≡ place p) (free_loop b rounds i p m blocks)
unfolding free_loop
free_loop-place b zero i p m blocks = on_some refl
free_loop-place b (suc rounds) i p m blocks =
    OnSome-bind (get_elem? blocks i) (OnSome-any _) (λ ptr t.
      OnSome-bind (free_one b p m ptr) (free_one-place b p m ptr) (λ r same.
        subst (λ z. OnSome (λ t. place t.0 ≡ z) (free_loop b rounds (i + 1) r.0 r.1 blocks)) same
          (free_loop-place b rounds (i + 1) r.0 r.1 blocks)))

pub free_batched_internal-place :
    (b : Build) (p : Pool) (m : Memory) (n : ℕ) (blocks : Option (List ℕ))
    → OnSome (λ r. place r.0 ≡ place p) (free_batched_internal b p m n blocks)
unfolding free_batched_internal
free_batched_internal-place b p m n none = on_some refl
free_batched_internal-place b p m n (some blocks) =
    OnSome-bind (check_asserts b p) (OnSome-any _) (λ u t. free_loop-place b n 0 p m blocks)
