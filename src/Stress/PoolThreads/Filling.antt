-- ===== src/Stress/PoolThreads/Filling.antt =====
-- Test 3 of stress_tests/pool_thread_stress.cpp: in every interleaving all allocations of a cycle
-- succeed, and `reset` takes all blocks back at once.
use slab_allocator.Base.{
  ℕ, zero, suc, ◌+◌, ◌-◌, ◌*◌, ◌≤◌, ◌<◌, ◌≡◌, refl, ap, ◌∙◌, ◌==◌, ltb, true, false, Bool-cases,
  inl, inr, List, [], ◌∷◌, ◌++◌, length, length-append, length-set, get_elem?, set, some, arith,
  Build,
}
use slab_allocator.Machine.Word.{nullptr}
use slab_allocator.Machine.Memory.{Memory}
use slab_allocator.Pool.{Pool}
use slab_allocator.Pool.Layout.{blocks, Relisted-trans}
use slab_allocator.Pool.Init.{reset_lem}
use slab_allocator.Stress.{Passes, passes, Passes->>=}
use slab_allocator.Base.{copies}
use slab_allocator.Stress.Threads.Turns.{join-Joined}
use slab_allocator.Base.Held.{
  all_held, total, total-set, total-copies, length-all_held, held_split, all_held-copies,
  length-copies, All-copies,
}
use slab_allocator.Stress.PoolThreads.{
  Shared, count, Filler, filling, missed, allocs_per_thread, fill_action, fill_finished, fill_cycle,
  reset_test,
}
use slab_allocator.Stress.PoolThreads.Use.{
  InUse, InUse-split, InUse-merge, InUse-take, one, refused, alloc-Asked, fully_free-Passes,
}

abbrev kept : Filler → List ℕ
kept (filling i ptrs) = ptrs
kept (missed i ptrs) = ptrs

-- What the workers may still ask for, the one in front of the count included.
abbrev wanted : Filler → ℕ
wanted (filling i ptrs) = allocs_per_thread - i
wanted (missed i ptrs) = suc (allocs_per_thread - suc i)

-- A worker whose `alloc` has returned null.
abbrev misses : Filler → ℕ
misses (filling i ptrs) = 0
misses (missed i ptrs) = 1

abbrev left : Filler → ℕ
left (filling i ptrs) = 2 * (allocs_per_thread - i)
left (missed i ptrs) = 2 * (allocs_per_thread - suc i) + 1

left-finished : (l : Filler) → left l ≡ 0 → fill_finished l ≡ true
unfolding fill_finished
left-finished (filling i ptrs) e = ground (arith, e)
left-finished (missed i ptrs) e = absurd (omega arith)

module _ (p : Pool) (threads : ℕ) where
  -- No `alloc` has returned null, and what is handed out and what is wanted fit the pool.
  record Going (s : Shared) (locals : List Filler) : Type 0 where
    pub use_of : InUse p s.pool s.memory (all_held kept locals)
    pub workers : length locals ≡ threads
    pub never : s.counter ≡ 0
    pub no_misses : total misses locals ≡ 0
    pub room : length (all_held kept locals) + total wanted locals ≤ threads * allocs_per_thread

  Going-set :
      (tid : ℕ) (s s' : Shared) (locals : List Filler) (l l' : Filler)
      → Going s locals
      → (e : get_elem? locals tid ≡ some l)
      → InUse p s'.pool s'.memory (kept l' ++ (held_split kept locals tid l e).0)
      → s'.counter ≡ 0
      → misses l' ≡ 0
      → length (kept l') + wanted l' ≤ length (kept l) + wanted l
      → Going s' (set locals tid l')
  Going-set tid s s' locals l l' g e u zero_count no_miss less =
      let before = length-all_held kept locals in
      let after = length-all_held kept (set locals tid l') in
      record {
        use_of = InUse-merge kept locals tid e l' u;
        workers = length-set locals tid l' ∙ g.workers;
        never = zero_count;
        no_misses = omega (arith, g.no_misses, total-set misses locals tid l l' e, no_miss);
        room = omega (
          arith,
          g.room,
          before,
          after,
          total-set (λ k. length (kept k)) locals tid l l' e,
          total-set wanted locals tid l l' e,
          less,
        );
      }

  module _ (b : Build) (block_count : p.block_count ≡ threads * 512)
      (some_threads : 1 ≤ threads) where
    fill-Going :
        (tid : ℕ) (s : Shared) (locals : List Filler) (l : Filler)
        → Going s locals
        → get_elem? locals tid ≡ some l
        → Passes
            (λ (r : Shared × Filler). Going r.0 (set locals tid r.1) × (left r.1 ≤ left l - 1))
            (fill_action b tid (s, l))
    unfolding fill_action count
    fill-Going tid s locals (filling i ptrs) g e = elim (Bool-cases (ltb i allocs_per_thread)) [
      | inl more ↦
          let early : i < allocs_per_thread = ground (arith, more) in
          elim (alloc-Asked b g.use_of) [
            | one x q ran real u ↦
                let really : (x == nullptr) ≡ false = ground (arith, real) in
                let l' : Filler = filling (suc i) (ptrs ++ x ∷ []) in
                rw (more, ran, really)
                  (passes (record s { pool = q }, l')
                    (
                      Going-set tid s _ locals (filling i ptrs) l' g e
                          (InUse-take kept locals tid e x u) g.never refl
                          (omega (arith, early, length-append ptrs (x ∷ []))),
                      omega arith,
                    ))
            | refused ran all ↦ absurd (omega (arith, all, block_count, g.room, some_threads))
          ]
      | inr done ↦ rw done (
          passes (s, filling i ptrs)
            (
              Going-set tid s s locals (filling i ptrs) (filling i ptrs) g e
                  (InUse-split kept locals tid e g.use_of) g.never refl (omega arith),
              ground (arith, done),
            ))
    ]
    fill-Going tid s locals (missed i ptrs) g e =
        let l' : Filler = filling (suc i) ptrs in
        absurd (omega (arith, g.no_misses, total-set misses locals tid (missed i ptrs) l' e))

    -- A cycle, whatever its schedule.
    fill_cycle-Passes :
        (schedule : List ℕ) (q : Pool) (m : Memory)
        → InUse p q m []
        → Passes (λ (r : Pool × Memory). InUse p r.0 r.1 []) (fill_cycle b threads schedule (q, m))
    unfolding fill_cycle
    fill_cycle-Passes schedule q m u =
        Passes->>=
          (join-Joined left (fill_action b) Going fill-Going fill_finished (2 * allocs_per_thread)
            schedule (record { pool = q; memory = m; counter = 0 }, copies threads (filling 0 []))
            left-finished
            (record {
              use_of = rw start u;
              workers = length-copies (filling 0 []) threads;
              never = refl;
              no_misses = omega (arith, total-copies misses (filling 0 []) threads);
              room = omega (arith, ap length start, total-copies wanted (filling 0 []) threads);
            })
            (All-copies (λ l. left l ≤ 2 * allocs_per_thread) (filling 0 []) threads (omega arith)))
          λ r k.
            let none : (r.0.counter == 0) ≡ true = ground (arith, k.0.never) in
            let back = reset_lem b k.0.use_of.pool in
            let again : InUse p back.0 back.1 [] = record {
              free = blocks r.0.pool;
              pool = back.3;
              place = Relisted-trans p r.0.pool back.0 k.0.use_of.place back.5;
            } in
            rw (none, back.2)
              (Passes->>= (fully_free-Passes b again refl) λ x h. passes (back.0, back.1) again)
      where
        start : all_held kept (copies threads (filling 0 [])) ≡ []
        start = all_held-copies kept (filling 0 []) threads refl

    -- Test 3, whatever the schedules of its cycles: all workers come to their end, no `alloc` returns
    -- null, no assertion fails, and each `reset` makes the pool free again.
    pub reset_test-Passes :
        (schedules : ℕ → List ℕ) (rounds cycle : ℕ) (q : Pool) (m : Memory)
        → InUse p q m []
        → Passes
            (λ (r : Pool × Memory). InUse p r.0 r.1 [])
            (reset_test b threads schedules rounds cycle (q, m))
    unfolding reset_test
    reset_test-Passes schedules zero cycle q m u = passes (q, m) u
    reset_test-Passes schedules (suc rounds) cycle q m u =
        Passes->>= (fill_cycle-Passes (schedules cycle) q m u)
          λ r k. reset_test-Passes schedules rounds (suc cycle) r.0 r.1 k
