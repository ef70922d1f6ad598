-- ===== src/Stress/Pools/Main.antt =====
-- stress_tests/pool_stress.cpp as a whole: all of its checks pass.
use slab_allocator.Base.{◌≡◌, refl, sym, ◌∙◌, ap, subst, List, ◌∷◌, arith, Build}
use slab_allocator.Machine.Word.{bit_ceil, bit_width, width_of}
use slab_allocator.Machine.Memory.{Memory}
use slab_allocator.Platform.{Os, ok}
use slab_allocator.Platform.Laws.{Region, region, IsPosix}
use slab_allocator.Pool.{Pool, construct, destroy}
use slab_allocator.Pool.Layout.{blocks}
use slab_allocator.Pool.Init.{Initialised, done, init-Initialised, rounded_size}
use slab_allocator.Pool.Lifetime.{destroy-owner, construct-init}
use slab_allocator.Stress.{on, ◌>>=◌, Passes, passes, Passes->>=, repeat-Passes}
use slab_allocator.Stress.Pools.{
  block_size, block_count, num_cycles, full_cycles, partial_cycle, full_cycle, partial_test,
  full_test, tests, main,
}
use slab_allocator.Stress.Pools.Cycles.{
  AllFree, partial_cycle-AllFree, full_cycle-AllFree, all_returned-AllFree,
}

module _ {p : Pool} (b : Build) (state : Pool × Memory) (count : p.block_count ≡ block_count)
    (size : p.block_size ≡ block_size) where
  partial_test-AllFree : AllFree p state → Passes (AllFree p) (partial_test b state)
  unfolding partial_test
  partial_test-AllFree v =
      Passes->>=
        (repeat-Passes num_cycles (partial_cycle b)
          (λ s w. partial_cycle-AllFree b s (omega arith) w) state v)
        λ s w. all_returned-AllFree b s count size w

  full_test-AllFree : AllFree p state → Passes (AllFree p) (full_test b state)
  unfolding full_test
  full_test-AllFree v =
      Passes->>=
        (repeat-Passes full_cycles (full_cycle b) (λ s w. full_cycle-AllFree b s count w) state v)
        λ s w. all_returned-AllFree b s count size w

block_size-rounded : rounded_size block_size ≡ block_size
unfolding bit_ceil bit_width width_of
block_size-rounded = refl

module _ {S : Type 0} {os : Os S} {mapped : S → List Region} (posix : IsPosix os mapped) where
  -- The program stress_tests/pool_stress.cpp passes: if its pool can be made, then in all of its
  -- cycles no allocation fails before the pool is exhausted, none succeeds after that, all space is
  -- free again behind each test, no assertion fails, and at the end the pool is unmapped.
  pub pool_stress-Passes :
      (b : Build) (m : Memory) (s s₁ : S) (state : Pool × Memory)
      → construct b os block_size block_count m s ≡ ok state s₁
      → Passes (λ s'. mapped s' ≡ mapped s) (main b os m s)
  unfolding main
  pool_stress-Passes b m s s₁ (p, m₁) e = rw e (unfold tests in go made)
    where
      made : Initialised os mapped block_size block_count m s (ok (p, m₁) s₁)
      made =
          subst (Initialised os mapped block_size block_count m s)
            (construct-init b os block_size block_count m s ∙ e)
            (init-Initialised posix b block_size block_count m s (omega arith)
              (rw block_size-rounded (omega (arith, posix.page_small))))

      go :
          Initialised os mapped block_size block_count m s (ok (p, m₁) s₁)
          → Passes
              (λ s'. mapped s' ≡ mapped s)
              (partial_test b (p, m₁) >>= λ state₁.
                full_test b state₁ >>= λ r. on (destroy os r.0 s₁).1)
      go (done v count size large fresh new same) =
          let block : p.block_size ≡ block_size = size ∙ block_size-rounded in
          let start : AllFree p (p, m₁) = record { free = blocks p; pool = v; place = refl } in
          Passes->>= (partial_test-AllFree b (p, m₁) count block start) λ r w.
            Passes->>= (full_test-AllFree b r count block w) λ r' w'. passes _ (
              destroy-owner posix r'.0 s₁ (mapped s) w'.pool.shaped.mapped
                (new ∙ ap (λ (z : Pool). region z.memory z.capacity ∷ mapped s) (sym w'.place)))
