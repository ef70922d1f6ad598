-- ===== src/Arena/Examples.antt =====
-- `arena` at concrete inputs: tests, and the theorems of the other modules applied.
use slab_allocator.Base.{◌<◌, ◌+◌, ℕ, ◌≡◌, refl, List, [], ◌∷◌, arith}
use slab_allocator.Machine.Word.{nullptr, round_to_page, and_word, not_word}
use slab_allocator.Platform.{ok, page_size, mem_alloc}
use slab_allocator.Platform.Laws.{region}
use slab_allocator.Platform.Sample.{sample_os, sample_os-IsPosix}
use slab_allocator.Arena.{Arena, construct, alloc, attempt}
use slab_allocator.Arena.Layout.{IsArena}
use slab_allocator.Arena.Layout.{align_up}
use slab_allocator.Arena.Alloc.{alloc_lem}
use slab_allocator.Arena.Threads.{
  looping, loaded, idle, Grant, Reach, here, next, call, load, swap, retry, at,
}
use slab_allocator.Arena.Threads.Invariant.{
  Reach-Inv, Reach-Apart, Apart, Stacked, give_up_justified,
}
use slab_allocator.Arena.Lifetime.{Constructed, construct-Constructed}

-- One page at 4096, of which 20 bytes are used.
abbrev pub page_arena : Arena
page_arena = record { memory = 4096; used = 20; capacity = 4096 }

pub page_arena-IsArena : IsArena page_arena
page_arena-IsArena = record {
  memory_aligned = refl;
  capacity_aligned = refl;
  within = omega arith;
  in_space = omega arith;
}

alloc_lem_example : alloc 2 page_arena 100 ≡ (4128, record page_arena { used = 132 })
alloc_lem_example = alloc_lem 2 page_arena 100 page_arena-IsArena

alloc_too_large : alloc 0 page_arena 4065 ≡ (nullptr, page_arena)
unfolding alloc and_word not_word
alloc_too_large = refl

construct-Constructed_example : Constructed sample_os (λ s. s) 5000 [] (construct sample_os 5000 [])
unfolding sample_os
construct-Constructed_example = construct-Constructed sample_os-IsPosix 5000 [] (omega arith)

-- What the constructor makes on the sample kernel.
abbrev fresh_arena : Arena
fresh_arena = record { memory = 4096; used = 0; capacity = 8192 }

-- Arenas of 1000 and of 4 pages.
pub construct_large :
    construct sample_os 4096000 []
    ≡ ok (record { memory = 4096; used = 0; capacity = 4096000 }) (region 4096 4096000 ∷ [])
unfolding construct sample_os page_size mem_alloc round_to_page
construct_large = refl

pub construct_four :
    construct sample_os 16384 []
    ≡ ok (record { memory = 4096; used = 0; capacity = 16384 }) (region 4096 16384 ∷ [])
unfolding construct sample_os page_size mem_alloc round_to_page
construct_four = refl

-- An arena of `bytes` bytes on an empty kernel has room for `capacity`.
abbrev pub Makes : ℕ → ℕ → Type 0
Makes bytes capacity =
    construct sample_os bytes []
    ≡ ok (record { memory = 4096; used = 0; capacity = capacity }) (region 4096 capacity ∷ [])

pub construct_rounded : Makes 640000 643072 × Makes 160000 163840 × Makes 256000 258048
unfolding construct sample_os page_size mem_alloc round_to_page
construct_rounded = (refl, refl, refl)

pub construct_exact : Makes 10240000 10240000 × Makes 2560000 2560000
unfolding construct sample_os page_size mem_alloc round_to_page
construct_exact = (refl, refl)

-- Threads 1 and 2 load the same offset; 1 wins, 2 goes round again.
both_loaded : Reach page_arena (record {
  arena = record page_arena { used = 0 };
  phase =
      at (at (at (at (λ _. idle) 1 (looping 10)) 2 (looping 30)) 1 (loaded 10 0)) 2 (loaded 30 0);
  grants = [];
})
both_loaded =
    next
      (next
        (next (next here (call 1 10 refl (omega arith) (omega arith)))
          (call 2 30 refl (omega arith) (omega arith)))
        (load 1 10 refl))
      (load 2 30 refl)

abbrev granted : List Grant
granted =
    record { thread = 2; offset = 16; size = 30 }
    ∷ record { thread = 1; offset = 0; size = 10 }
    ∷ []

both_granted : Reach page_arena (record {
  arena = record page_arena { used = 46 };
  phase =
      at
        (at
          (at
            (at
              (at
                (at (at (at (λ _. idle) 1 (looping 10)) 2 (looping 30)) 1 (loaded 10 0))
                2
                (loaded 30 0))
              1
              idle)
            2
            (looping 30))
          2
          (loaded 30 10))
        2
        idle;
  grants = granted;
})
unfolding attempt and_word not_word
both_granted =
    next
      (next
        (next (next both_loaded (swap 1 10 0 0 10 refl refl refl)) (retry 2 30 0 0 30 refl refl))
        (load 2 30 refl))
      (swap 2 30 10 16 46 refl refl refl)

Reach-Inv_example : Stacked 46 granted
Reach-Inv_example = (Reach-Inv page_arena-IsArena both_granted).stacked

Reach-Apart_example :
    Apart
      (record { thread = 2; offset = 16; size = 30 })
      (record { thread = 1; offset = 0; size = 10 })
Reach-Apart_example =
    (Reach-Apart 0 1 _ _ page_arena-IsArena both_granted (omega arith) refl refl).0

-- More than a page is refused.
too_much : Reach page_arena (record {
  arena = record page_arena { used = 0 };
  phase = at (at (λ _. idle) 1 (looping 5000)) 1 (loaded 5000 0);
  grants = [];
})
too_much = next (next here (call 1 5000 refl (omega arith) (omega arith))) (load 1 5000 refl)

give_up_justified_example : 4096 < align_up 0 + 5000
unfolding attempt and_word not_word
give_up_justified_example = give_up_justified 1 5000 0 page_arena-IsArena too_much refl refl
