-- ===== src/Stress/Arenas/Main.antt =====
-- stress_tests/arena_stress.cpp as a whole: all of its checks pass.
use slab_allocator.Base.{ℕ, ◌*◌, ◌≤◌, ◌^◌, ◌%◌, ◌≡◌, ◌≢◌, refl, ◌∙◌, subst, List, arith}
use slab_allocator.Machine.Word.{mul_word}
use slab_allocator.Platform.{Os, ok, page_size}
use slab_allocator.Platform.Laws.{Region, IsPosix}
use slab_allocator.Arena.{Arena, construct, destroy}
use slab_allocator.Arena.Lifetime.{Constructed, construct-Constructed, destroy-owner}
use slab_allocator.Stress.{Run, Passes, passes, Passes->>=, Passes-map}
use slab_allocator.Stress.Arenas.{many_small, many_resets, with_arena, main}
use slab_allocator.Stress.Arenas.Usage.{Unused, many_small-Passes, many_resets-Passes}

module _ {S : Type 0} {os : Os S} {mapped : S → List Region} (posix : IsPosix os mapped)
    (large : 4096 ≤ os.getpagesize) (small : os.getpagesize ≤ 2 ^ 32) where
  -- A test that keeps the arena's memory ends with the mappings from before.
  with_arena-Passes :
      (pages : ℕ) (test : Arena → Run Arena) (s s' : S) (a : Arena)
      → pages ≤ 1000
      → construct os (os.getpagesize * pages) s ≡ ok a s'
      → ((a.memory ≢ 0)
          → os.getpagesize * pages ≤ a.capacity
          → Unused a a
          → Passes (λ (r : Arena). (r.memory ≡ a.memory) × (r.capacity ≡ a.capacity)) (test a))
      → Passes
          (λ s₂. mapped s₂ ≡ mapped s)
          (with_arena os test (construct os (os.getpagesize * pages) s))
  unfolding with_arena
  with_arena-Passes pages test s s' a few e passed =
      let bytes = os.getpagesize * pages in
      let fits : os.getpagesize * pages ≤ os.getpagesize * 1000 = grind (arith, few) in
      let made : Constructed os mapped bytes s (ok a s') =
        subst (Constructed os mapped bytes s) e
          (construct-Constructed posix bytes s (omega arith)) in
      let unused : Unused a a = record {
        valid = made.0;
        memory = refl;
        capacity = refl;
        used = made.1;
      } in
      rw e (
        Passes->>= (passed made.5.ne_null made.2 unused) λ r same. passes (destroy os r s') (
          destroy-owner posix r s' (mapped s) (rw same.0 made.5.ne_null)
            (rw (same.0, same.1) made.6)))

  -- The program stress_tests/arena_stress.cpp passes on pages of 4096 bytes or more: if its
  -- first arena can be made, and the second one once the mappings are those from before, no allocation fails, the used size is never too small, each `reset` succeeds
  -- and leaves nothing in use, and at the end nothing is mapped that was not before. How often an
  -- exchange fails for no reason does not matter.
  pub arena_stress-Passes :
      (spurious : ℕ → ℕ) (s s₁ : S) (a₁ : Arena)
      → construct os (os.getpagesize * 1000) s ≡ ok a₁ s₁
      → ((s' : S)
          → mapped s' ≡ mapped s
          → (a₂ : Arena) × (s₂ : S) × (construct os (os.getpagesize * 4) s' ≡ ok a₂ s₂))
      → Passes (λ s'. mapped s' ≡ mapped s) (main os spurious s)
  unfolding main page_size mul_word
  arena_stress-Passes spurious s s₁ a₁ e₁ makes =
      let first : os.getpagesize * 1000 % 2 ^ 64 ≡ os.getpagesize * 1000 = omega (arith, small) in
      let second : os.getpagesize * 4 % 2 ^ 64 ≡ os.getpagesize * 4 = omega (arith, small) in
      rw (first, second)
        (Passes->>=
          (with_arena-Passes 1000 (many_small spurious) s s₁ a₁ (omega arith) e₁
            (λ real room v. many_small-Passes spurious a₁ a₁ real (omega (arith, large)) v))
          λ s' same.
            let made = makes s' same in
            Passes-map
              (with_arena-Passes 4 (many_resets spurious) s' made.1 made.0 (omega arith) made.2
                (λ real room v.
                  Passes-map
                    (many_resets-Passes spurious made.0 made.0 real (omega (arith, large)) v)
                    (λ r u. (u.memory, u.capacity))))
              (λ s₂ back. back ∙ same))
