-- ===== src/Stress/PoolThreads/Returning.antt =====
-- The second half of test 2 of stress_tests/pool_thread_stress.cpp: each worker frees the blocks
-- that it has taken.
use mathlib.Core.List.{append-nil, Nodup-append}
use slab_allocator.Base.{
  ℕ, ◌-◌, ◌*◌, ◌≤◌, ◌≡◌, refl, sym, subst, ap, ◌==◌, true, List, [], ◌∷◌, ◌++◌, length, Nodup,
  get_elem?, set, some, arith, Build,
}
use slab_allocator.Machine.Memory.{Memory}
use slab_allocator.Pool.{Pool}
use slab_allocator.Pool.Chain.{distinct}
use slab_allocator.Stress.{Passes, passes, Passes->>=}
use slab_allocator.Stress.Threads.Turns.{join-Joined}
use slab_allocator.Base.Held.{all_held, All-all_held, All-map, All-le_all_held}
use slab_allocator.Stress.PoolThreads.{
  Shared, Taker, taken, map_taken, give_action, give_finished, exhaustion_test,
}
use slab_allocator.Stress.PoolThreads.Exhausting.{taken_all}
use slab_allocator.Stress.PoolThreads.Inserting.{insert_locals-Passes}
use slab_allocator.Stress.PoolThreads.Use.{
  InUse, InUse-split, InUse-merge, fully_free-Passes, free-InUse,
}

abbrev mine : List ℕ → List ℕ
mine ptrs = ptrs

all_held-map_taken :
    (locals : List Taker) → all_held mine (map_taken locals) ≡ all_held taken locals
all_held-map_taken [] = refl
all_held-map_taken (l ∷ locals) = ap (λ us. taken l ++ us) (all_held-map_taken locals)

length-zero : (xs : List ℕ) → length xs ≡ 0 → xs ≡ []
length-zero [] e = refl
length-zero (x ∷ xs) e = absurd (omega arith)

give-finished : (xs : List ℕ) → length xs ≡ 0 → give_finished xs ≡ true
unfolding give_finished
give-finished [] e = refl
give-finished (x ∷ xs) e = absurd (omega arith)

module _ (p : Pool) (b : Build) where
  Holding : Shared → List (List ℕ) → Type 0
  Holding s locals = InUse p s.pool s.memory (all_held mine locals)

  give-Holding :
      (tid : ℕ) (s : Shared) (locals : List (List ℕ)) (l : List ℕ)
      → Holding s locals
      → get_elem? locals tid ≡ some l
      → Passes
          (λ (r : Shared × List ℕ). Holding r.0 (set locals tid r.1) × (length r.1 ≤ length l - 1))
          (give_action b tid (s, l))
  unfolding give_action Holding
  give-Holding tid s locals [] u e =
      passes (s, [])
        (InUse-merge mine locals tid e [] (InUse-split mine locals tid e u), omega arith)
  give-Holding tid s locals (x ∷ ptrs) u e =
      let back = free-InUse b x (InUse-split mine locals tid e u) in
      rw back.2 (passes _ (InUse-merge mine locals tid e ptrs back.3, omega arith))

  -- Test 2, whatever the schedules: all workers come to their end, no assertion fails, exactly the
  -- blocks of the pool have been handed out, none of them twice, and in the end all are back.
  pub exhaustion_test-Passes :
      (threads : ℕ) (schedule schedule' : List ℕ) (m : Memory)
      → p.block_count ≡ threads * 2048
      → 1 ≤ threads
      → InUse p p m []
      → Passes
          (λ (r : Pool × Memory). InUse p r.0 r.1 [])
          (exhaustion_test b threads schedule schedule' (p, m))
  unfolding exhaustion_test Holding
  exhaustion_test-Passes threads schedule schedule' m blocks some_threads u =
      Passes->>= (taken_all p threads b blocks some_threads schedule m u) λ r k.
        let counted : (r.0.counter == threads * 2048) ≡ true = ground (arith, k.2) in
        let different : Nodup (all_held taken r.1 ++ []) =
          subst Nodup (sym (append-nil (all_held taken r.1)))
            (Nodup-append.0 (distinct k.0.pool)).0 in
        rw counted (
          Passes->>= (insert_locals-Passes taken r.1 [] different) λ unique n.
            let all : (length unique == threads * 2048) ≡ true =
              ground (arith, n, ap length (append-nil (all_held taken r.1)), k.3) in
            let start : InUse p r.0.pool r.0.memory (all_held mine (map_taken r.1)) =
              rw (all_held-map_taken r.1) k.0 in
            let bounded =
              All-map (map_taken r.1)
                (λ l h. omega (arith, h, ap length (all_held-map_taken r.1), k.3))
                (All-le_all_held mine (map_taken r.1)) in
            rw all (
              Passes->>=
                (join-Joined length (give_action b) Holding give-Holding give_finished
                  (threads * 2048) schedule' (r.0, map_taken r.1) give-finished start bounded)
                λ r' k'.
                  let none : all_held mine r'.1 ≡ [] =
                    All-all_held mine r'.1 (All-map r'.1 length-zero k'.2) in
                  let back : InUse p r'.0.pool r'.0.memory [] =
                    subst (InUse p r'.0.pool r'.0.memory) none k'.0 in
                  Passes->>= (fully_free-Passes b back refl)
                    λ x h. passes (r'.0.pool, r'.0.memory) back))
