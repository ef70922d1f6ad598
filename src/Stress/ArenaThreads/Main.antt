-- ===== src/Stress/ArenaThreads/Main.antt =====
-- stress_tests/arena_thread_stress.cpp as a whole.
use native.Mathlib.Nat.{mul-div_cancel_left}
use slab_allocator.Base.{
  ℕ, ◌+◌, ◌*◌, ◌/◌, ◌%◌, ◌^◌, ◌≤◌, ◌<◌, ◌≡◌, ◌≢◌, refl, ◌∙◌, ap, subst, ◌==◌, Bool, true, false,
  List, ◌∷◌, length, arith,
}
use slab_allocator.Machine.Memory.{Memory}
use slab_allocator.Platform.{Os, ok}
use slab_allocator.Platform.Laws.{Region, region, IsPosix}
use slab_allocator.Arena as Arena
use slab_allocator.Arena.{Arena, construct, destroy}
use slab_allocator.Arena.Lifetime.{Constructed, construct-Constructed, destroy-owner, get_used_lem}
use slab_allocator.Stress.{Run, failed, Passes, passes, Passes->>=, Passes-map, Passes-eq}
use slab_allocator.Stress.Threads.{worker_count}
use slab_allocator.Stress.Threads.Turns.{worker_count-range}
use slab_allocator.Stress.ArenaThreads.{
  alloc_size, allocs_per_thread, allocs_per_thread_per_cycle, cycles, bulk_test, exhaust_test,
  reset_test, with_arena, Schedules, main,
}
use slab_allocator.Stress.ArenaThreads.Calls.{Stock}
use slab_allocator.Stress.ArenaThreads.Draining.{exhaust-Drained}
use slab_allocator.Stress.ArenaThreads.Checking.{
  Same, insert_slots, bulk_test-Passes, reset_test-Passes,
}

module _ (threads m cap : ℕ) (some_threads : 1 ≤ threads)
    (few_left : cap < threads * 5000 * 32 + 4096) where
  abbrev attempts : ℕ
  attempts = threads * 5000 / threads + 2000

  too_many : cap < threads * attempts * 32
  too_many =
      let each : attempts ≡ 7000 = ap (λ k. k + 2000) (mul-div_cancel_left 5000 some_threads) in
      rw each (omega (arith, few_left, some_threads))

  -- The arena has room for as many blocks as the test expects.
  exhaust_test-Passes :
      (schedule : List (ℕ × Bool)) (a : Arena) (mem : Memory)
      → Stock m cap 0 a
      → cap / 32 ≡ threads * 5000
      → Passes (Same m cap) (exhaust_test threads schedule (a, mem))
  unfolding exhaust_test
  exhaust_test-Passes schedule a mem stock exact =
      Passes->>= (exhaust-Drained attempts threads m cap schedule a mem too_many stock) λ r g.
        let slots_all = threads * 5000 in
        let count : (r.0.counter == slots_all) ≡ true = ground (arith, g.successes, exact) in
        let figure : (Arena.get_used r.0.arena == slots_all * 32) ≡ true =
          rw (get_used_lem r.0.arena) (ground (arith, g.stock.used, exact)) in
        rw (count, figure)
          (Passes->>= (insert_slots m (cap / 32) r.1 g.with_workers) λ unique size.
            let every : (length unique == slots_all) ≡ true = ground (arith, size, exact) in
            rw every (passes (r.0.arena, r.0.memory) (g.stock.memory, g.stock.capacity)))

  -- The arena has room for more.
  exhaust_test-failed :
      (schedule : List (ℕ × Bool)) (a : Arena) (mem : Memory)
      → Stock m cap 0 a
      → cap / 32 ≢ threads * 5000
      → exhaust_test threads schedule (a, mem) ≡ failed
  unfolding exhaust_test
  exhaust_test-failed schedule a mem stock more =
      let (r, ran, g) =
        Passes-eq (exhaust-Drained attempts threads m cap schedule a mem too_many stock) in
      let count : (r.0.counter == threads * 5000) ≡ false = ground (arith, g.successes, more) in
      rw (ran, count) refl

module _ {S : Type 0} {os : Os S} {mapped : S → List Region} (posix : IsPosix os mapped)
    (pages : os.getpagesize ≡ 4096) where
  -- With the mappings of `s`, the kernel has memory for an arena.
  abbrev pub HasRoom : ℕ → S → Type 0
  HasRoom bytes s =
      (s' : S) → mapped s' ≡ mapped s → (a : Arena) × (s₁ : S) × (construct os bytes s' ≡ ok a s₁)

  -- A new arena, page by page.
  abbrev New : ℕ → Arena → Type 0
  New bytes a =
      Stock a.memory a.capacity 0 a
      × (bytes ≤ a.capacity)
      × (a.capacity < bytes + 4096)
      × (a.capacity % 4096 ≡ 0)

  made_New :
      (bytes : ℕ) (s s₁ : S) (a : Arena)
      → bytes + 4096 < 2 ^ 64
      → construct os bytes s ≡ ok a s₁
      → New bytes a × (mapped s₁ ≡ region a.memory a.capacity ∷ mapped s)
  made_New bytes s s₁ a small e =
      let made : Constructed os mapped bytes s (ok a s₁) =
        subst (Constructed os mapped bytes s) e
          (construct-Constructed posix bytes s (omega (arith, small, pages))) in
      (
        (
          record {
            valid = made.0;
            mapped = made.5.ne_null;
            memory = refl;
            capacity = refl;
            used = made.1;
          },
          made.2,
          omega (arith, made.3, pages),
          subst (λ p. a.capacity % p ≡ 0) pages made.4,
        ),
        made.6,
      )

  with_arena-Passes :
      (bytes : ℕ) (test : Arena × Memory → Run (Arena × Memory)) (mem : Memory) (s s' : S)
      → bytes + 4096 < 2 ^ 64
      → HasRoom bytes s
      → mapped s' ≡ mapped s
      → ((a : Arena) → New bytes a → Passes (Same a.memory a.capacity) (test (a, mem)))
      → Passes
          (λ (r : Memory × S). mapped r.1 ≡ mapped s)
          (with_arena os test mem (construct os bytes s'))
  unfolding with_arena
  with_arena-Passes bytes test mem s s' small room same passed =
      let (a, s₁, e) = room s' same in
      let (new, newest) = made_New bytes s' s₁ a small e in
      rw e (
        Passes->>= (passed a new) λ r k.
          passes (r.1, destroy os r.0 s₁)
            (destroy-owner posix r.0 s₁ (mapped s') (rw k.0 new.0.mapped) (rw (k.0, k.1) newest)
              ∙ same))

  with_arena-failed :
      (bytes : ℕ) (test : Arena × Memory → Run (Arena × Memory)) (mem : Memory) (s s' : S)
      → bytes + 4096 < 2 ^ 64
      → HasRoom bytes s
      → mapped s' ≡ mapped s
      → ((a : Arena) → New bytes a → test (a, mem) ≡ failed)
      → with_arena os test mem (construct os bytes s') ≡ failed
  unfolding with_arena
  with_arena-failed bytes test mem s s' small room same fails =
      let (a, s₁, e) = room s' same in
      let (new, newest) = made_New bytes s' s₁ a small e in rw (e, fails a new) refl

  first_test-Passes :
      (threads : ℕ) (schedule : List (ℕ × Bool)) (mem : Memory) (s : S)
      → threads ≤ 16
      → HasRoom (threads * allocs_per_thread * 32) s
      → Passes
          (λ (r : Memory × S). mapped r.1 ≡ mapped s)
          (with_arena os
            (bulk_test threads schedule)
            mem
            (construct os (threads * allocs_per_thread * alloc_size) s))
  first_test-Passes threads schedule mem s few room =
      with_arena-Passes (threads * allocs_per_thread * 32) (bulk_test threads schedule) mem s s
        (omega (arith, few)) room refl
        (λ a new. bulk_test-Passes threads a.memory a.capacity schedule a mem new.1 new.0)

  -- The program stress_tests/arena_thread_stress.cpp with fewer than 16 workers, on pages of 4096
  -- bytes, if the kernel has memory for its first two arenas: in every order in which the workers
  -- take their turns, and wherever an exchange fails for no reason, all workers come to their end, and
  -- the program returns 1. The arena of the second test is rounded up to whole pages and has room for
  -- more blocks than the test expects.
  pub arena_thread_stress-failed :
      (hw : ℕ) (order : Schedules) (m : Memory) (s : S)
      → worker_count hw < 16
      → HasRoom (worker_count hw * allocs_per_thread * 32) s
      → HasRoom (worker_count hw * 5000 * 32) s
      → main os hw order m s ≡ failed
  unfolding main
  arena_thread_stress-failed hw order m s few room₁ room₂ =
      let threads = worker_count hw in
      let range = worker_count-range hw in
      let (r, ran, same) =
        Passes-eq (first_test-Passes threads order.bulk m s (omega (arith, few)) room₁) in
      let second =
        with_arena-failed (threads * 5000 * 32) (exhaust_test threads order.exhaust) r.0 s r.1
          (omega (arith, few)) room₂ same
          (λ a new.
            exhaust_test-failed threads a.memory a.capacity range.0 (omega (arith, new.2))
              order.exhaust a r.0 new.0
              (λ exact. absurd (omega (arith, exact, new.1, new.2, new.3, few, range.0)))) in
      rw (ran, second) refl

  -- The program stress_tests/arena_thread_stress.cpp with 16 workers, on pages of 4096 bytes, if the
  -- kernel has memory for its three arenas: in every order in which the workers take their turns,
  -- and wherever an exchange fails for no reason, all workers come to their end, all checks of the
  -- three tests pass, and in the end nothing is mapped that was not mapped before.
  pub arena_thread_stress-Passes :
      (hw : ℕ) (order : Schedules) (m : Memory) (s : S)
      → worker_count hw ≡ 16
      → HasRoom (worker_count hw * allocs_per_thread * 32) s
      → HasRoom (worker_count hw * 5000 * 32) s
      → HasRoom (worker_count hw * allocs_per_thread_per_cycle * 32) s
      → Passes (λ s'. mapped s' ≡ mapped s) (main os hw order m s)
  unfolding main
  arena_thread_stress-Passes hw order m s all room₁ room₂ room₃ =
      let threads = worker_count hw in
      Passes->>= (first_test-Passes threads order.bulk m s (omega (arith, all)) room₁) λ r₁ same₁.
        Passes->>=
          (with_arena-Passes (threads * 5000 * 32) (exhaust_test threads order.exhaust) r₁.0 s r₁.1
            (omega (arith, all)) room₂ same₁
            (λ a new.
              exhaust_test-Passes threads a.memory a.capacity (omega (arith, all))
                (omega (arith, new.2)) order.exhaust a r₁.0 new.0
                (omega (arith, new.1, new.2, new.3, all))))
          λ r₂ same₂.
            Passes->>=
              (with_arena-Passes (threads * allocs_per_thread_per_cycle * 32)
                (reset_test threads order.reset cycles 0) r₂.0 s r₂.1 (omega (arith, all)) room₃
                same₂
                (λ a new.
                  Passes-map
                    (reset_test-Passes threads a.memory a.capacity order.reset cycles 0 (a, r₂.0)
                      new.1 new.0)
                    (λ r k. (k.memory, k.capacity))))
              λ r₃ same₃. passes r₃.1 same₃
