-- ===== src/Stress/Examples.antt =====
-- The theorems about the programs of stress_tests/ and the adapters, applied on the sample kernel.
use slab_allocator.Base.{ℕ, List, zero, suc, ◌≡◌, [], ◌∷◌, arith, debug}
use slab_allocator.Platform.Laws.{region}
use slab_allocator.Platform.Sample.{sample_os, sample_os-IsPosix}
use slab_allocator.Arena.Examples.{
  construct_large, construct_four, construct_rounded, construct_exact, Makes,
}
use slab_allocator.Arena.{Arena, construct}
use slab_allocator.Platform.{ok}
use slab_allocator.Base.{ap, ◌∙◌}
use slab_allocator.Platform.Laws.{Region}
use slab_allocator.Pool.Examples as PoolExamples
use slab_allocator.Pool.Examples.{zeros, unlinked}
use slab_allocator.Pool.{init_free_list}
use slab_allocator.Stress.{Passes}
use slab_allocator.Stress.Threads.{worker_count}
use slab_allocator.Stress.PoolThreads as PoolThreads
use slab_allocator.Stress.PoolThreads.{Schedules}
use slab_allocator.Stress.PoolThreads.Main.{pool_thread_stress-Passes}
use slab_allocator.Base.{All, ◌<◌, refl}
use slab_allocator.Slab.Slots.{CacheEntry, entry_at}
use slab_allocator.Slab.Slots.Fresh.{IsBlank}
use slab_allocator.Slab.Sample.{empty_caches, used_slab}
use slab_allocator.Slab.Examples.{construct_default}
use slab_allocator.Stress.{failed}
use slab_allocator.Stress.Slabs as Slabs
use slab_allocator.Stress.Slabs.Main.{IsUntouched, slab_stress-failed}
use slab_allocator.Stress.ArenaThreads as ArenaThreads
use slab_allocator.Stress.ArenaThreads.Main.{arena_thread_stress-failed, arena_thread_stress-Passes}
use slab_allocator.Base.{true, false}
use slab_allocator.Stress.Pools as Pools
use slab_allocator.Stress.Pools.Main.{pool_stress-Passes}
use slab_allocator.Stress.Arenas as Arenas
use slab_allocator.Stress.Arenas.Main.{arena_stress-Passes}

pool_stress-Passes_example : Passes (λ s'. s' ≡ []) (Pools.main debug sample_os zeros [])
pool_stress-Passes_example =
    pool_stress-Passes sample_os-IsPosix debug zeros [] (region 4096 1282048 ∷ [])
      (
        record (init_free_list unlinked zeros).0 { free_count = 10000 },
        (init_free_list unlinked zeros).1,
      )
      PoolExamples.construct_large

arena_stress-Passes_example : Passes (λ s'. s' ≡ []) (Arenas.main sample_os (λ i. i) [])
unfolding sample_os
arena_stress-Passes_example =
    arena_stress-Passes sample_os-IsPosix (omega arith) (omega arith) (λ i. i) []
      (region 4096 4096000 ∷ []) (record { memory = 4096; used = 0; capacity = 4096000 })
      construct_large
      (λ s' same. (
        record { memory = 4096; used = 0; capacity = 16384 },
        region 4096 16384 ∷ [],
        rw same construct_four,
      ))

-- The workers of the first test alternate at first; the others run one after the other.
abbrev schedules : Schedules
schedules = record {
  churn = 0 ∷ 3 ∷ 7 ∷ 0 ∷ 3 ∷ [];
  take = [];
  give = 2 ∷ [];
  fill = λ cycle. cycle ∷ [];
}

pool_thread_stress-Passes_example :
    Passes (λ s'. s' ≡ []) (PoolThreads.main debug sample_os 1 schedules zeros [])
unfolding worker_count
pool_thread_stress-Passes_example =
    pool_thread_stress-Passes sample_os-IsPosix debug 1 schedules zeros []
      (λ m s' same. (
        PoolExamples.linked_of (PoolExamples.unlinked_of 32768 128 256) m,
        region 4096 32768 ∷ [],
        rw same (PoolExamples.construct_churn m),
      ))
      (λ m s' same. (
        PoolExamples.linked_of (PoolExamples.unlinked_of 131072 64 2048) m,
        region 4096 131072 ∷ [],
        rw same (PoolExamples.construct_exhaustion m),
      ))
      (λ m s' same. (
        PoolExamples.linked_of (PoolExamples.unlinked_of 65536 128 512) m,
        region 4096 65536 ∷ [],
        rw same (PoolExamples.construct_reset m),
      ))

-- The entries of a thread as it starts.
abbrev unused : CacheEntry
unused = record { epoch = 0; owner = 0; storage = empty_caches 10 }

abbrev unused_entries : List CacheEntry
unused_entries = unused ∷ unused ∷ unused ∷ unused ∷ []

all_unused : (i : ℕ) → i < 4 → entry_at unused_entries i ≡ unused
all_unused zero h = refl
all_unused (suc zero) h = refl
all_unused (suc (suc zero)) h = refl
all_unused (suc (suc (suc zero))) h = refl
all_unused (suc (suc (suc (suc i)))) h = absurd (omega arith)

empty_caches-IsBlank : All IsBlank (empty_caches 10)
empty_caches-IsBlank = ground arith

unused_entries-IsUntouched : IsUntouched unused_entries
unused_entries-IsUntouched = record {
  entries = refl;
  vacant = λ i lt. rw (all_unused i lt) refl;
  classes = λ i lt. rw (all_unused i lt) refl;
  blank = λ i lt. rw (all_unused i lt) empty_caches-IsBlank;
}

slab_stress-failed_example :
    Slabs.main debug sample_os 1048576 1048576 7 unused_entries (λ a. used_slab) zeros [] ≡ failed
slab_stress-failed_example =
    slab_stress-failed sample_os-IsPosix debug 1048576 1048576 7 unused_entries (λ a. used_slab)
      zeros (construct_default zeros).1 [] (construct_default zeros).2 (construct_default zeros).0
      unused_entries-IsUntouched (omega arith) (construct_default zeros).3

-- One exchange fails for no reason, others because a worker was overtaken.
abbrev contended : ArenaThreads.Schedules
contended = record {
  bulk = (0, false) ∷ (1, false) ∷ (1, false) ∷ (0, false) ∷ (0, true) ∷ [];
  exhaust = (0, false) ∷ (0, true) ∷ [];
  reset = λ cycle. (cycle, false) ∷ (0, false) ∷ [];
}

arena_room :
    (bytes capacity : ℕ)
    → Makes bytes capacity
    → (s' : List Region) → s' ≡ []
    → (a : Arena) × (s₁ : List Region) × (construct sample_os bytes s' ≡ ok a s₁)
arena_room bytes capacity made s' same = (
  record { memory = 4096; used = 0; capacity = capacity },
  region 4096 capacity ∷ [],
  ap (construct sample_os bytes) same ∙ made,
)

arena_thread_stress-failed_example : ArenaThreads.main sample_os 1 contended (λ i. 0) [] ≡ failed
unfolding worker_count sample_os
arena_thread_stress-failed_example =
    arena_thread_stress-failed sample_os-IsPosix refl 1 contended (λ i. 0) [] (omega arith)
      (arena_room 640000 643072 construct_rounded.0) (arena_room 160000 163840 construct_rounded.1)

arena_thread_stress-Passes_example :
    Passes (λ s'. s' ≡ []) (ArenaThreads.main sample_os 64 contended (λ i. 0) [])
unfolding worker_count sample_os
arena_thread_stress-Passes_example =
    arena_thread_stress-Passes sample_os-IsPosix refl 64 contended (λ i. 0) [] refl
      (arena_room 10240000 10240000 construct_exact.0)
      (arena_room 2560000 2560000 construct_exact.1) (arena_room 256000 258048 construct_rounded.2)
