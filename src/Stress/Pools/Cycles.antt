-- ===== src/Stress/Pools/Cycles.antt =====
-- The cycles of stress_tests/pool_stress.cpp give every block back.
use mathlib.Core.List.{perm_middle, append-nil}
use slab_allocator.Base.{
  ℕ, ◌+◌, ◌*◌, ◌≤◌, ◌≡◌, refl, sym, ◌∙◌, ap, subst, List, [], ◌∷◌, ◌++◌, length, take, drop,
  take-append-drop, some, arith, Build, length-append, length-drop,
}
use slab_allocator.Machine.Word.{nullptr}
use slab_allocator.Machine.Memory.{Memory}
use slab_allocator.Platform.Laws.{ne-eqb}
use slab_allocator.Pool as Pool
use slab_allocator.Pool.{Pool, pop}
use slab_allocator.Pool.Layout.{Relisted, Relisted-trans}
use slab_allocator.Pool.Chain.{IsPool, IsPool-perm, count-free}
use slab_allocator.Pool.Blocks.{alloc-pop, pop-IsPool, pop-Relisted, free_lem, alloc-empty}
use slab_allocator.Pool.Lifetime.{get_free_space_lem}
use slab_allocator.Stress.{Passes, passes, Passes->>=, Passes-map}
use slab_allocator.Stress.Pools.{
  block_size, block_count, allocs_per_cycle, alloc_all, free_all, partial_cycle, full_cycle,
  all_returned,
}

-- The pool `p`, perhaps with another free list, with every block free.
pub record AllFree (p : Pool) (state : Pool × Memory) : Type 0 where
  pub free : List ℕ
  pub pool : IsPool state.0 state.1 [] free
  pub place : Relisted p state.0

pub alloc_all-Passes :
    (b : Build) (xs rest live : List ℕ) (p : Pool) (m : Memory)
    → IsPool p m live (xs ++ rest)
    → Passes
        (λ (r : List ℕ × Pool). (r.0 ≡ xs) × IsPool r.1 m (xs ++ live) rest × Relisted p r.1)
        (alloc_all b (length xs) p m)
unfolding alloc_all
alloc_all-Passes b [] rest live p m v = passes ([], p) (refl, v, refl)
alloc_all-Passes b (x ∷ xs) rest live p m v =
    rw (alloc-pop b x (xs ++ rest) v, ne-eqb x v.chain.1)
      (Passes->>= (alloc_all-Passes b xs rest (x ∷ live) (pop p m) m (pop-IsPool x (xs ++ rest) v))
        λ r h.
          passes (x ∷ r.0, r.1)
            (
              ap (◌∷◌ x) h.0,
              IsPool-perm h.1 (perm_middle xs live),
              Relisted-trans p (pop p m) r.1 (pop-Relisted p m) h.2,
            ))

pub free_all-Passes :
    (b : Build) (xs live free : List ℕ) (state : Pool × Memory)
    → IsPool state.0 state.1 (xs ++ live) free
    → Passes
        (λ (r : Pool × Memory). (free' : List ℕ) × IsPool r.0 r.1 live free' × Relisted state.0 r.0)
        (free_all b xs state)
unfolding free_all
free_all-Passes b [] live free state v = passes state (free, v, refl)
free_all-Passes b (x ∷ xs) live free (p, m) v =
    let back = free_lem b x v in
    rw back.2 (
      Passes-map (free_all-Passes b xs live (x ∷ free) (back.0, back.1) back.3)
        λ r h. (h.0, h.1, Relisted-trans p back.0 r.0 back.5 h.2))

eq-nil_of_length : (xs : List ℕ) → length xs ≡ 0 → xs ≡ []
eq-nil_of_length [] e = refl
eq-nil_of_length (x ∷ xs) e = absurd (omega arith)

-- After `n` allocations from a pool `p` with the blocks `free` free, the blocks handed out are those
-- in the list.
abbrev HandedOut : Pool → Memory → List ℕ → ℕ → List ℕ × Pool → Type 0
HandedOut p m free n r =
    IsPool r.1 m r.0 (drop n free) × Relisted p r.1 × (length (drop n free) + n ≡ p.block_count)

alloc_all-HandedOut :
    {p : Pool} (b : Build) (n : ℕ) (q : Pool) (m : Memory)
    → n ≤ p.block_count
    → (v : AllFree p (q, m)) → Passes (HandedOut p m v.free n) (alloc_all b n q m)
alloc_all-HandedOut {p} b n q m h v =
    let same_count : q.block_count ≡ p.block_count = ap (λ (z : Pool). z.block_count) v.place in
    let all_free : length v.free ≡ p.block_count = omega (arith, count-free v.pool, same_count) in
    let rest : length (drop n v.free) + n ≡ p.block_count =
      omega (arith, length-drop n v.free, all_free) in
    let taken : length (take n v.free) ≡ n = omega (
      arith,
      length-append (take n v.free) (drop n v.free),
      ap length (take-append-drop n v.free),
      all_free,
      rest,
    ) in
    let parts = subst (IsPool q m []) (sym (take-append-drop n v.free)) v.pool in
    let all = alloc_all-Passes b (take n v.free) (drop n v.free) [] q m parts in
    subst (λ k. Passes (HandedOut p m v.free n) (alloc_all b k q m)) taken
      (Passes-map all λ r e. (
        rw e.0 (subst (λ ys. IsPool r.1 m ys (drop n v.free)) (append-nil (take n v.free)) e.1),
        Relisted-trans p q r.1 v.place e.2,
        rest,
      ))

-- All blocks of the batch go back, whatever else is free.
free_all-AllFree :
    {p : Pool} (b : Build) (ptrs free : List ℕ) (q : Pool) (m : Memory)
    → IsPool q m ptrs free
    → Relisted p q
    → Passes (AllFree p) (free_all b ptrs (q, m))
free_all-AllFree {p} b ptrs free q m v place =
    Passes-map
      (free_all-Passes b ptrs [] free (q, m)
        (subst (λ ys. IsPool q m ys free) (sym (append-nil ptrs)) v))
      λ r h. record { free = h.0; pool = h.1; place = Relisted-trans p q r.0 place h.2 }

module _ {p : Pool} (b : Build) where
  pub partial_cycle-AllFree :
      (state : Pool × Memory)
      → allocs_per_cycle ≤ p.block_count
      → AllFree p state
      → Passes (AllFree p) (partial_cycle b state)
  unfolding partial_cycle
  partial_cycle-AllFree (q, m) h v =
      Passes->>= (alloc_all-HandedOut b allocs_per_cycle q m h v)
        λ r e. free_all-AllFree b r.0 (drop allocs_per_cycle v.free) r.1 m e.0 e.1

  pub full_cycle-AllFree :
      (state : Pool × Memory)
      → p.block_count ≡ block_count
      → AllFree p state
      → Passes (AllFree p) (full_cycle b state)
  unfolding full_cycle
  full_cycle-AllFree (q, m) h v =
      Passes->>= (alloc_all-HandedOut b block_count q m (omega arith) v) λ r e.
        let none_left : drop block_count v.free ≡ [] = eq-nil_of_length _ (omega (arith, e.2)) in
        let w = subst (IsPool r.1 m r.0) none_left e.0 in
        let refused : Pool.alloc b r.1 m ≡ some (nullptr, r.1) = alloc-empty b w in
        rw refused (free_all-AllFree b r.0 [] r.1 m w e.1)

  pub all_returned-AllFree :
      (state : Pool × Memory)
      → p.block_count ≡ block_count
      → p.block_size ≡ block_size
      → AllFree p state
      → Passes (AllFree p) (all_returned b state)
  unfolding all_returned
  all_returned-AllFree (q, m) h k v =
      let same_count : q.block_count ≡ p.block_count = ap (λ (z : Pool). z.block_count) v.place in
      let same_size : q.block_size ≡ p.block_size = ap (λ (z : Pool). z.block_size) v.place in
      let figure : Pool.get_free_space b q ≡ some (block_size * block_count) =
        (get_free_space_lem b v.pool).0
        ∙ ap some (grind (arith, count-free v.pool, same_count, same_size, h, k)) in
      rw figure (passes (q, m) v)
