-- ===== src/Stress/PoolThreads/Churning.antt =====
-- Test 1 of stress_tests/pool_thread_stress.cpp: in every interleaving each round of each worker
-- takes a block and gives it back.
use mathlib.Core.List.{mem-cons_self}
use slab_allocator.Base.{
  ℕ, suc, ◌+◌, ◌-◌, ◌*◌, ◌%◌, ◌≤◌, ◌<◌, ◌≡◌, refl, subst, ◌∙◌, ◌==◌, ltb, true, false, Bool-cases,
  inl, inr, List, [], ◌∷◌, ◌++◌, length, length-set, get_elem?, set, some, arith, Build,
}
use slab_allocator.Machine.Word.{nullptr, add_word}
use slab_allocator.Machine.Memory.{Memory}
use slab_allocator.Pool.{Pool}
use slab_allocator.Stress.{Passes, passes, Passes->>=}
use slab_allocator.Base.{copies}
use slab_allocator.Stress.Threads.Turns.{join-Joined}
use slab_allocator.Base.Held.{
  all_held, total, total-set, total-le, total-copies, length-all_held, held_split, all_held-copies,
  length-copies, All-copies, All-all_held, All-total, All-map,
}
use slab_allocator.Stress.PoolThreads.{
  Shared, count, Churn, asking, holding, filled, released, iterations_per_thread, churn_size,
  churn_action, churn_finished, churn_test,
}
use slab_allocator.Stress.PoolThreads.Use.{
  InUse, InUse-split, InUse-merge, InUse-take, one, refused, alloc-Asked, memset-InUse,
  fully_free-Passes, free-InUse,
}

-- The block that a worker has, the rounds and the actions that it has left.
abbrev held : Churn → List ℕ
held (asking i) = []
held (holding i ptr) = ptr ∷ []
held (filled i ptr) = ptr ∷ []
held (released i) = []

abbrev rounds_left : Churn → ℕ
rounds_left (asking i) = iterations_per_thread - i
rounds_left (holding i ptr) = suc (iterations_per_thread - suc i)
rounds_left (filled i ptr) = suc (iterations_per_thread - suc i)
rounds_left (released i) = suc (iterations_per_thread - suc i)

abbrev left : Churn → ℕ
left (asking i) = 4 * (iterations_per_thread - i)
left (holding i ptr) = 4 * (iterations_per_thread - suc i) + 3
left (filled i ptr) = 4 * (iterations_per_thread - suc i) + 2
left (released i) = 4 * (iterations_per_thread - suc i) + 1

held_one : (l : Churn) → length (held l) ≤ 1
held_one (asking i) = omega arith
held_one (holding i ptr) = omega arith
held_one (filled i ptr) = omega arith
held_one (released i) = omega arith

left-finished : (l : Churn) → left l ≡ 0 → churn_finished l ≡ true
unfolding churn_finished
left-finished (asking i) e = ground (arith, e)
left-finished (holding i ptr) e = absurd (omega arith)
left-finished (filled i ptr) e = absurd (omega arith)
left-finished (released i) e = absurd (omega arith)

left-none : (l : Churn) → left l ≡ 0 → (held l ≡ []) × (rounds_left l ≡ 0)
left-none (asking i) e = (refl, omega arith)
left-none (holding i ptr) e = absurd (omega arith)
left-none (filled i ptr) e = absurd (omega arith)
left-none (released i) e = absurd (omega arith)

module _ (p : Pool) (threads : ℕ) where
  -- The pool has handed out what the workers hold, and each round that is over has been counted.
  record Going (s : Shared) (locals : List Churn) : Type 0 where
    pub use_of : InUse p s.pool s.memory (all_held held locals)
    pub workers : length locals ≡ threads
    pub counted : s.counter + total rounds_left locals ≡ threads * iterations_per_thread

  -- One worker acts: its blocks and its rounds change, those of the others do not.
  Going-set :
      (tid : ℕ) (s s' : Shared) (locals : List Churn) (l l' : Churn)
      → Going s locals
      → (e : get_elem? locals tid ≡ some l)
      → InUse p s'.pool s'.memory (held l' ++ (held_split held locals tid l e).0)
      → s'.counter + rounds_left l' ≡ s.counter + rounds_left l
      → Going s' (set locals tid l')
  Going-set tid s s' locals l l' g e u same = record {
    use_of = InUse-merge held locals tid e l' u;
    workers = length-set locals tid l' ∙ g.workers;
    counted = omega (arith, g.counted, total-set rounds_left locals tid l l' e, same);
  }

  module _ (b : Build) (size : p.block_size ≡ churn_size) (count_of : p.block_count ≡ threads * 256)
      (some_threads : 1 ≤ threads) (few : threads ≤ 16) where
    churn-Kept :
        (tid : ℕ) (s : Shared) (locals : List Churn) (l : Churn)
        → Going s locals
        → get_elem? locals tid ≡ some l
        → Passes
            (λ (r : Shared × Churn). Going r.0 (set locals tid r.1) × (left r.1 ≤ left l - 1))
            (churn_action b tid (s, l))
    unfolding churn_action count add_word
    churn-Kept tid s locals (asking i) g e = elim (Bool-cases (ltb i iterations_per_thread)) [
      | inl more ↦
          let early : i < iterations_per_thread = ground (arith, more) in
          elim (alloc-Asked b g.use_of) [
            | one x q ran real u ↦
                let really : (x == nullptr) ≡ false = ground (arith, real) in
                rw (more, ran, really)
                  (passes (record s { pool = q }, holding i x)
                    (
                      Going-set tid s _ locals (asking i) (holding i x) g e
                          (InUse-take held locals tid e x u) (omega arith),
                      omega arith,
                    ))
            | refused ran all ↦
                let few_held = total-le (λ l. length (held l)) 1 locals held_one in
                absurd
                  (omega (arith, all, count_of, few_held, g.workers, length-all_held held locals))
          ]
      | inr done ↦ rw done (
          passes (s, asking i)
            (
              Going-set tid s s locals (asking i) (asking i) g e
                  (InUse-split held locals tid e g.use_of) refl,
              ground (arith, done),
            ))
    ]
    churn-Kept tid s locals (holding i ptr) g e = passes _ (
      Going-set tid s _ locals (holding i ptr) (filled i ptr) g e
          (memset-InUse (InUse-split held locals tid e g.use_of) ptr ((tid + i) % 256) churn_size
            mem-cons_self (omega (arith, size)))
          refl,
      omega arith,
    )
    churn-Kept tid s locals (filled i ptr) g e =
        let back = free-InUse b ptr (InUse-split held locals tid e g.use_of) in
        rw back.2 (
          passes _
            (Going-set tid s _ locals (filled i ptr) (released i) g e back.3 refl, omega arith))
    churn-Kept tid s locals (released i) g e = passes _ (
      Going-set tid s _ locals (released i) (asking (suc i)) g e
          (InUse-split held locals tid e g.use_of)
          (omega (
            arith,
            g.counted,
            total-set rounds_left locals tid (released i) (asking (suc i)) e,
            few,
          )),
      omega arith,
    )

    -- Test 1, whatever the schedule: all workers come to their end, no assertion fails, both checks
    -- pass, and all blocks are back.
    pub churn_test-Passes :
        (schedule : List ℕ) (m : Memory)
        → InUse p p m []
        → Passes (λ (r : Pool × Memory). InUse p r.0 r.1 []) (churn_test b threads schedule (p, m))
    unfolding churn_test
    churn_test-Passes schedule m u =
        Passes->>=
          (join-Joined left (churn_action b) Going churn-Kept churn_finished
            (4 * iterations_per_thread) schedule
            (record { pool = p; memory = m; counter = 0 }, copies threads (asking 0)) left-finished
            (record {
              use_of = rw (all_held-copies held (asking 0) threads refl) u;
              workers = length-copies (asking 0) threads;
              counted = omega (arith, total-copies rounds_left (asking 0) threads);
            })
            (All-copies (λ l. left l ≤ 4 * iterations_per_thread) (asking 0) threads (omega arith)))
          λ r k.
            let nothing : all_held held r.1 ≡ [] =
              All-all_held held r.1 (All-map r.1 (λ l e. (left-none l e).0) k.2) in
            let no_rounds : total rounds_left r.1 ≡ length r.1 * 0 =
              All-total rounds_left 0 r.1 (All-map r.1 (λ l e. (left-none l e).1) k.2) in
            let positive : (r.0.counter == 0) ≡ false =
              ground (arith, k.0.counted, no_rounds, some_threads) in
            let back : InUse p r.0.pool r.0.memory [] =
              subst (InUse p r.0.pool r.0.memory) nothing k.0.use_of in
            rw positive
              (Passes->>= (fully_free-Passes b back refl) λ x h. passes (r.0.pool, r.0.memory) back)
