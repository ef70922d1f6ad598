-- ===== src/Stress/PoolThreads/Main.antt =====
-- stress_tests/pool_thread_stress.cpp as a whole: all of its checks pass in every interleaving.
use slab_allocator.Base.{
  ℕ, ◌+◌, ◌*◌, ◌^◌, ◌≤◌, ◌<◌, ◌≡◌, refl, sym, ◌∙◌, ap, subst, List, [], ◌∷◌, arith, Build,
}
use slab_allocator.Machine.Word.{bit_ceil, bit_width, width_of}
use slab_allocator.Machine.Memory.{Memory}
use slab_allocator.Platform.{Os, ok}
use slab_allocator.Platform.Laws.{Region, region, IsPosix}
use slab_allocator.Pool.{Pool, construct, destroy}
use slab_allocator.Pool.Layout.{blocks}
use slab_allocator.Pool.Init.{Initialised, done, init-Initialised, rounded_size}
use slab_allocator.Pool.Lifetime.{destroy-owner, construct-init}
use slab_allocator.Stress.{Run, on, ◌>>=◌, Passes, passes, Passes->>=}
use slab_allocator.Stress.Threads.{worker_count}
use slab_allocator.Stress.Threads.Turns.{worker_count-range}
use slab_allocator.Stress.PoolThreads.{
  Schedules, churn_size, churn_test, exhaustion_test, reset_test, with_pool, cycles, main,
}
use slab_allocator.Stress.PoolThreads.Use.{InUse}
use slab_allocator.Stress.PoolThreads.Churning.{churn_test-Passes}
use slab_allocator.Stress.PoolThreads.Returning.{exhaustion_test-Passes}
use slab_allocator.Stress.PoolThreads.Filling.{reset_test-Passes}

module _ {S : Type 0} {os : Os S} {mapped : S → List Region} (posix : IsPosix os mapped)
    (b : Build) where
  -- With the mappings of `s`, the kernel has memory for such a pool.
  abbrev pub HasRoom : ℕ → ℕ → S → Type 0
  HasRoom size count s =
      (m : Memory) (s' : S)
      → mapped s' ≡ mapped s
      → (state : Pool × Memory) × (s₁ : S) × (construct b os size count m s' ≡ ok state s₁)

  with_pool-Passes :
      (size count : ℕ) (test : Pool × Memory → Run (Pool × Memory)) (m : Memory) (s s' : S)
      → size ≤ 2 ^ 63
      → rounded_size size * count + os.getpagesize < 2 ^ 64
      → ((p : Pool) (m' : Memory)
          → p.block_count ≡ count
          → p.block_size ≡ rounded_size size
          → InUse p p m' []
          → Passes (λ (r : Pool × Memory). InUse p r.0 r.1 []) (test (p, m')))
      → HasRoom size count s
      → mapped s' ≡ mapped s
      → Passes
          (λ (r : Memory × S). mapped r.1 ≡ mapped s)
          (with_pool os test (construct b os size count m s'))
  with_pool-Passes size count test m s s' small fits keep room same =
      rw (room m s' same).2 (unfold with_pool in go made)
    where
      p : Pool
      p = (room m s' same).0.0

      m₁ : Memory
      m₁ = (room m s' same).0.1

      s₁ : S
      s₁ = (room m s' same).1

      made : Initialised os mapped size count m s' (ok (p, m₁) s₁)
      made =
          subst (Initialised os mapped size count m s')
            (construct-init b os size count m s' ∙ (room m s' same).2)
            (init-Initialised posix b size count m s' small fits)

      go :
          Initialised os mapped size count m s' (ok (p, m₁) s₁)
          → Passes
              (λ (r : Memory × S). mapped r.1 ≡ mapped s)
              (test (p, m₁) >>= λ r. on (r.1, (destroy os r.0 s₁).1))
      go (done v blocks_made block large fresh new kept) =
          Passes->>=
            (keep p m₁ blocks_made block (record { free = blocks p; pool = v; place = refl }))
            λ r u. passes _ (
              destroy-owner posix r.0 s₁ (mapped s') u.pool.shaped.mapped
                (new ∙ ap (λ (z : Pool). region z.memory z.capacity ∷ mapped s') (sym u.place))
              ∙ same)

  churn_size-rounded : rounded_size churn_size ≡ 128
  unfolding bit_ceil bit_width width_of
  churn_size-rounded = refl

  size_64-rounded : rounded_size 64 ≡ 64
  unfolding bit_ceil bit_width width_of
  size_64-rounded = refl

  size_96-rounded : rounded_size 96 ≡ 128
  unfolding bit_ceil bit_width width_of
  size_96-rounded = refl

  -- The program stress_tests/pool_thread_stress.cpp on a machine with any number of processors, if
  -- the kernel has memory for its three pools: in every order in which the workers take their
  -- turns, all workers come to their end, all checks of the three tests pass, no assertion fails,
  -- and in the end nothing is mapped that was not mapped before.
  pub pool_thread_stress-Passes :
      (hw : ℕ) (order : Schedules) (m : Memory) (s : S)
      → HasRoom churn_size (worker_count hw * 256) s
      → HasRoom 64 (worker_count hw * 2048) s
      → HasRoom 96 (worker_count hw * 512) s
      → Passes (λ s'. mapped s' ≡ mapped s) (main b os hw order m s)
  unfolding main
  pool_thread_stress-Passes hw order m s room₁ room₂ room₃ =
      let threads = worker_count hw in
      let range = worker_count-range hw in
      Passes->>=
        (with_pool-Passes churn_size (threads * 256) (churn_test b threads order.churn) m s s
          (omega arith) (rw churn_size-rounded (omega (arith, posix.page_small, range)))
          (λ p m' count block u.
            churn_test-Passes p threads b (block ∙ churn_size-rounded) count range.0 range.1
              order.churn m' u)
          room₁ refl)
        λ r₁ k₁.
          Passes->>=
            (with_pool-Passes 64 (threads * 2048) (exhaustion_test b threads order.take order.give)
              r₁.0 s r₁.1 (omega arith)
              (rw size_64-rounded (omega (arith, posix.page_small, range)))
              (λ p m' count block u.
                exhaustion_test-Passes p b threads order.take order.give m' count range.0 u)
              room₂ k₁)
            λ r₂ k₂.
              Passes->>=
                (with_pool-Passes 96 (threads * 512) (reset_test b threads order.fill cycles 0) r₂.0
                  s r₂.1 (omega arith) (rw size_96-rounded (omega (arith, posix.page_small, range)))
                  (λ p m' count block u.
                    reset_test-Passes p threads b count range.0 order.fill cycles 0 p m' u)
                  room₃ k₂)
                λ r₃ k₃. passes r₃.1 k₃
