-- ===== src/Stress/PoolThreads/Exhausting.antt =====
-- Test 2 of stress_tests/pool_thread_stress.cpp: in every interleaving the workers take all blocks,
-- each block once, and then give them back.
use slab_allocator.Base.{
  ℕ, ◌+◌, ◌-◌, ◌*◌, ◌≤◌, ◌≡◌, ◌⊎◌, refl, sym, ap, ◌∙◌, ◌==◌, true, false, inl, inr, List, [], ◌∷◌,
  ◌++◌, length, length-append, length-set, length-perm, get_elem?, set, some, arith, Build,
}
use slab_allocator.Machine.Word.{nullptr, add_word}
use slab_allocator.Machine.Memory.{Memory}
use slab_allocator.Pool.{Pool}
use slab_allocator.Pool.Chain.{count-free}
use slab_allocator.Pool.Layout.{block_count-small}
use slab_allocator.Stress.{Passes, passes, Passes-map}
use slab_allocator.Stress.Threads.{join}
use slab_allocator.Base.{copies}
use slab_allocator.Stress.Threads.Turns.{join-Joined}
use slab_allocator.Base.Held.{
  all_held, total, total-set, total-copies, held_split, all_held-copies, length-copies, All-copies,
  All-total, All-map,
}
use slab_allocator.Stress.PoolThreads.{
  Shared, count, Taker, taking, counting, sated, taken, take_action, take_finished,
}
use slab_allocator.Stress.PoolThreads.Use.{
  InUse, InUse-split, InUse-merge, InUse-take, count-InUse, one, refused, alloc-Asked,
}

-- Whether a worker has a block that is not counted yet, whether it is at its end, and the actions
-- that it has left in a pool of `blocks` blocks.
abbrev owed : Taker → ℕ
owed (taking ptrs) = 0
owed (counting ptrs) = 1
owed (sated ptrs) = 0

abbrev ended : Taker → ℕ
ended (taking ptrs) = 0
ended (counting ptrs) = 0
ended (sated ptrs) = 1

abbrev left : ℕ → Taker → ℕ
left blocks (taking ptrs) = 2 * (blocks - length ptrs) + 1
left blocks (counting ptrs) = 2 * (blocks - length ptrs) + 2
left blocks (sated ptrs) = 0

left-finished : (blocks : ℕ) (l : Taker) → left blocks l ≡ 0 → take_finished l ≡ true
unfolding take_finished
left-finished blocks (taking ptrs) e = absurd (omega arith)
left-finished blocks (counting ptrs) e = absurd (omega arith)
left-finished blocks (sated ptrs) e = refl

left-ended : (blocks : ℕ) (l : Taker) → left blocks l ≡ 0 → (ended l ≡ 1) × (owed l ≡ 0)
left-ended blocks (taking ptrs) e = absurd (omega arith)
left-ended blocks (counting ptrs) e = absurd (omega arith)
left-ended blocks (sated ptrs) e = (refl, refl)

module _ (p : Pool) (threads : ℕ) where
  -- The pool has handed out what the workers have; all of that is counted but for what is about to
  -- be; and a worker comes to its end only when all blocks are taken.
  record Going (s : Shared) (locals : List Taker) : Type 0 where
    pub use_of : InUse p s.pool s.memory (all_held taken locals)
    pub workers : length locals ≡ threads
    pub counted : s.counter + total owed locals ≡ length (all_held taken locals)
    pub full : (total ended locals ≡ 0) ⊎ (length (all_held taken locals) ≡ p.block_count)

  -- One worker acts.
  Going-set :
      (tid : ℕ) (s s' : Shared) (locals : List Taker) (l l' : Taker)
      → Going s locals
      → (e : get_elem? locals tid ≡ some l)
      → InUse p s'.pool s'.memory (taken l' ++ (held_split taken locals tid l e).0)
      → s'.counter + owed l' + length (taken l) ≡ s.counter + owed l + length (taken l')
      → (total ended (set locals tid l') ≡ 0)
        ⊎ (length (all_held taken (set locals tid l')) ≡ p.block_count)
      → Going s' (set locals tid l')
  Going-set tid s s' locals l l' g e u same full =
      let parts = held_split taken locals tid l e in
      let before = length-perm parts.1 in
      let after = length-perm (parts.2 l') in
      let size = length-append (taken l) parts.0 in
      let size' = length-append (taken l') parts.0 in
      record {
        use_of = InUse-merge taken locals tid e l' u;
        workers = length-set locals tid l' ∙ g.workers;
        counted =
            omega (
              arith,
              g.counted,
              total-set owed locals tid l l' e,
              before,
              after,
              size,
              size',
              same,
            );
        full = full;
      }

  -- The blocks do not change hands.
  still :
      (tid : ℕ) (s : Shared) (locals : List Taker) (l l' : Taker)
      → Going s locals
      → (e : get_elem? locals tid ≡ some l) → taken l' ≡ taken l
      → length (all_held taken (set locals tid l')) ≡ length (all_held taken locals)
  still tid s locals l l' g e same =
      let parts = held_split taken locals tid l e in
      let after = length-perm (parts.2 l') in
      after ∙ ap (λ us. length (us ++ parts.0)) same ∙ sym (length-perm parts.1)

  module _ (b : Build) (blocks : p.block_count ≡ threads * 2048) (some_threads : 1 ≤ threads) where
    take-Going :
        (tid : ℕ) (s : Shared) (locals : List Taker) (l : Taker)
        → Going s locals
        → get_elem? locals tid ≡ some l
        → Passes
            (λ (r : Shared × Taker).
              Going r.0 (set locals tid r.1) × (left p.block_count r.1 ≤ left p.block_count l - 1))
            (take_action b tid (s, l))
    unfolding take_action count add_word
    take-Going tid s locals (taking ptrs) g e = elim (alloc-Asked b g.use_of) [
      | one x q ran real u ↦
          let really : (x == nullptr) ≡ false = ground (arith, real) in
          let l' : Taker = counting (ptrs ++ x ∷ []) in
          let parts = held_split taken locals tid (taking ptrs) e in
          let longer = length-append ptrs (x ∷ []) in
          let room = count-InUse u in
          let going = total-set ended locals tid (taking ptrs) l' e in
          let mine = length-append ptrs parts.0 in
          let all = length-perm parts.1 in
          rw (ran, really)
            (passes (record s { pool = q }, l')
              (
                Going-set tid s _ locals (taking ptrs) l' g e (InUse-take taken locals tid e x u)
                    (omega (arith, longer)) (inl (omega (arith, g.full, room, going))),
                omega (arith, room, all, mine, longer),
              ))
      | refused ran all ↦
          let l' : Taker = sated ptrs in
          rw ran (
            passes (s, l')
              (
                Going-set tid s s locals (taking ptrs) l' g e
                    (InUse-split taken locals tid e g.use_of) refl
                    (inr (still tid s locals (taking ptrs) l' g e refl ∙ all)),
                omega arith,
              ))
    ]
    take-Going tid s locals (counting ptrs) g e =
        let l' : Taker = taking ptrs in
        let going = total-set ended locals tid (counting ptrs) l' e in
        let owing = total-set owed locals tid (counting ptrs) l' e in
        let room = count-free g.use_of.pool in
        let small = block_count-small g.use_of.pool.shaped in
        let same = still tid s locals (counting ptrs) l' g e refl in
        passes _ (
          Going-set tid s _ locals (counting ptrs) l' g e (InUse-split taken locals tid e g.use_of)
              (omega (arith, owing, g.counted, room, small)) (ground (arith, g.full, going, same)),
          omega arith,
        )
    take-Going tid s locals (sated ptrs) g e =
        let going = total-set ended locals tid (sated ptrs) (sated ptrs) e in
        let same = still tid s locals (sated ptrs) (sated ptrs) g e refl in
        passes _ (
          Going-set tid s s locals (sated ptrs) (sated ptrs) g e
              (InUse-split taken locals tid e g.use_of) refl (ground (arith, g.full, going, same)),
          omega arith,
        )

    -- The first half: all blocks are taken, and counted.
    pub taken_all :
        (schedule : List ℕ) (m : Memory)
        → InUse p p m []
        → Passes
            (λ (r : Shared × List Taker).
              InUse p r.0.pool r.0.memory (all_held taken r.1)
              × (length r.1 ≡ threads)
              × (r.0.counter ≡ threads * 2048)
              × (length (all_held taken r.1) ≡ threads * 2048))
            (join
              (take_action b)
              take_finished
              (2 * (threads * 2048) + 1)
              schedule
              (record { pool = p; memory = m; counter = 0 }, copies threads (taking [])))
    taken_all schedule m u =
        Passes-map
          (join-Joined (left p.block_count) (take_action b) Going take-Going take_finished
            (2 * (threads * 2048) + 1) schedule
            (record { pool = p; memory = m; counter = 0 }, copies threads (taking []))
            (left-finished p.block_count)
            (record {
              use_of = rw start u;
              workers = length-copies (taking []) threads;
              counted = omega (arith, total-copies owed (taking []) threads, ap length start);
              full = inl (omega (arith, total-copies ended (taking []) threads));
            })
            (All-copies (λ l. left p.block_count l ≤ 2 * (threads * 2048) + 1) (taking []) threads
              (omega (arith, blocks))))
          λ r k.
            let over =
              All-total ended 1 r.1 (All-map r.1 (λ l e. (left-ended p.block_count l e).0) k.2) in
            let paid =
              All-total owed 0 r.1 (All-map r.1 (λ l e. (left-ended p.block_count l e).1) k.2) in
            let all : length (all_held taken r.1) ≡ threads * 2048 =
              omega (arith, k.0.full, over, k.0.workers, some_threads, blocks) in
            (k.0.use_of, k.0.workers, omega (arith, k.0.counted, paid, all), all)
      where
        start : all_held taken (copies threads (taking [])) ≡ []
        start = all_held-copies taken (taking []) threads refl
