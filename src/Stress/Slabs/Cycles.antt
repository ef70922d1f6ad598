-- ===== src/Stress/Slabs/Cycles.antt =====
-- The cycles of the first test of stress_tests/slab_stress.cpp: they end with blocks in the cache.
use slab_allocator.Base.{
  ℕ, zero, suc, ◌+◌, ◌^◌, ◌≤◌, ◌<◌, ◌≡◌, ◌⊎◌, inl, inr, refl, ◌==◌, false, List, [], ◌∷◌, ◌++◌,
  length, length-append, some, arith, All, Build,
}
use slab_allocator.Machine.Word.{nullptr}
use slab_allocator.Slab.SizeClass.{largest, size_to_index}
use slab_allocator.Slab.Operations.{View, get_total_free}
use slab_allocator.Slab.Operations.Calls.{CachedAt}
use slab_allocator.Slab.Operations.Outstanding.{Outstanding, alloc-Outstanding, free-Outstanding}
use slab_allocator.Slab.Operations.Figures.{get_total_free-CachedAt}
use slab_allocator.Stress.{Run, on, failed, ◌>>=◌, Passes, passes, repeat}
use slab_allocator.Stress.Slabs.{size_of, alloc_phase, free_phase, mixed_cycle, allocs_per_cycle}

-- The run goes on with a value that satisfies `P`, or a check of the program has failed.
pub data FailsOr {ℓ κ} {A : Type ℓ} (P : A → Type κ) : Run A → Type (ℓ ⊔ κ) where
  fails : FailsOr P failed
  goes : (a : A) → P a → FailsOr P (on a)

module _ {ℓ κ} {A : Type ℓ} {P : A → Type κ} where
  pub FailsOr->>= {ℓ' κ'} :
      {B : Type ℓ'} {Q : B → Type κ'} {m : Run A} {f : A → Run B}
      → FailsOr P m
      → ((a : A) → P a → FailsOr Q (f a))
      → FailsOr Q (m >>= f)
  FailsOr->>= fails k = fails
  FailsOr->>= (goes a p) k = k a p

  Passes-FailsOr : {m : Run A} → Passes P m → FailsOr P m
  Passes-FailsOr (passes a p) = goes a p

  FailsOr-map {κ'} :
      {Q : A → Type κ'} {m : Run A} → FailsOr P m → ((a : A) → P a → Q a) → FailsOr Q m
  FailsOr-map fails k = fails
  FailsOr-map (goes a p) k = goes a (k a p)

  pub FailsOr-failed {ℓ'} :
      {B : Type ℓ'} {m : Run A} {f : A → Run B}
      → FailsOr P m
      → ((a : A) → P a → f a ≡ failed)
      → (m >>= f) ≡ failed
  FailsOr-failed fails k = refl
  FailsOr-failed (goes a p) k = k a p

-- What each round establishes from what all rounds keep.
pub repeat-FailsOr {ℓ κ σ} :
    {A : Type ℓ} {P : A → Type κ} {Q : A → Type σ} (n : ℕ) (body : A → Run A)
    → ((a : A) → P a → FailsOr (λ a'. P a' × Q a') (body a))
    → (a : A) → P a
    → Q a
    → FailsOr (λ a'. P a' × Q a') (repeat n body a)
unfolding repeat
repeat-FailsOr zero body keep a p q = goes a (p, q)
repeat-FailsOr (suc n) body keep a p q =
    FailsOr->>= (keep a p) λ a' h. repeat-FailsOr n body keep a' h.0 h.1

abbrev Sized : List (ℕ × ℕ) → Type 0
Sized ptrs = All (λ (x : ℕ × ℕ). (1 ≤ x.1) × (x.1 ≤ largest)) ptrs

Sized-append : (xs ys : List (ℕ × ℕ)) → Sized xs → Sized ys → Sized (xs ++ ys)
Sized-append [] ys a b = b
Sized-append (x ∷ xs) ys a b = (a.0, Sized-append xs ys a.1 b)

pub size_of-range : (i : ℕ) → (1 ≤ size_of i) × (size_of i ≤ largest)
unfolding size_of
size_of-range i = ground arith

module _ (b : Build) (self total : ℕ) where
  pub alloc_phase-FailsOr :
      (rounds i : ℕ) (v : View) (ptrs : List (ℕ × ℕ))
      → Outstanding v self total ptrs
      → Sized ptrs
      → FailsOr
          (λ (r : View × List (ℕ × ℕ)).
            Outstanding r.0 self total r.1 × Sized r.1 × (rounds + length ptrs ≤ length r.1))
          (alloc_phase b self rounds i v ptrs)
  unfolding alloc_phase
  alloc_phase-FailsOr zero i v ptrs o sized = goes (v, ptrs) (o, sized, omega arith)
  alloc_phase-FailsOr (suc rounds) i v ptrs o sized =
      let range = size_of-range i in
      let call = alloc-Outstanding b v self total ptrs (size_of i) range.0 range.1 o in
      rw call.2 (elim call.3 [
        | inl none ↦ rw none fails
        | inr (real, o') ↦
            let yes : (call.0 == nullptr) ≡ false = ground (arith, real) in
            let longer = ptrs ++ (call.0, size_of i) ∷ [] in
            rw yes (
              FailsOr-map
                (alloc_phase-FailsOr rounds (suc i) call.1 longer o'
                  (Sized-append ptrs ((call.0, size_of i) ∷ []) sized (range, tt)))
                λ r h.
                  (h.0, h.1, omega (arith, h.2, length-append ptrs ((call.0, size_of i) ∷ []))))
      ])

  -- The thread has a block of some class in its cache.
  abbrev pub SomeCached : View → Type 0
  SomeCached v = (index : ℕ) × CachedAt v self index

  pub free_phase-Passes :
      (ptrs : List (ℕ × ℕ)) (v : View)
      → Outstanding v self total ptrs
      → Sized ptrs
      → SomeCached v ⊎ (1 ≤ length ptrs)
      → Passes (λ w. Outstanding w self total [] × SomeCached w) (free_phase b self ptrs v)
  unfolding free_phase
  free_phase-Passes [] v o sized (inl c) = passes v (o, c)
  free_phase-Passes [] v o sized (inr h) = absurd (omega arith)
  free_phase-Passes ((ptr, size) ∷ ptrs) v o sized ready =
      let freed = free-Outstanding b v self total ptr size ptrs sized.0.0 sized.0.1 o in
      rw freed.1
        (free_phase-Passes ptrs freed.0 freed.2 sized.1 (inl (size_to_index size, freed.3)))

  pub mixed_cycle-FailsOr :
      (v : View)
      → Outstanding v self total []
      → FailsOr (λ w. Outstanding w self total [] × SomeCached w) (mixed_cycle b self v)
  unfolding mixed_cycle
  mixed_cycle-FailsOr v o =
      FailsOr->>= (alloc_phase-FailsOr allocs_per_cycle 0 v [] o tt)
        λ r h. Passes-FailsOr (free_phase-Passes r.1 r.0 h.0 h.1 (inr (omega (arith, h.2))))

  -- The figure is too small then.
  pub total_free-small :
      (v : View)
      → total < 2 ^ 64
      → Outstanding v self total []
      → SomeCached v
      → (n : ℕ) × (get_total_free b (v.slabs self) ≡ some n) × (n < total)
  total_free-small v small o c =
      let figure =
        get_total_free-CachedAt b v self c.0 o.users o.local (omega (arith, o.in_stock, small))
          c.1 in
      (figure.0, figure.1, omega (arith, figure.2, o.in_stock))
