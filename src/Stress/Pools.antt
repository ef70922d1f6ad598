-- ===== src/Stress/Pools.antt =====
-- stress_tests/pool_stress.cpp: one pool of 10000 blocks, used by half and in full.
pub mod Cycles
pub mod Main
use slab_allocator.Base.{
  ℕ, zero, suc, ◌*◌, not, ◌==◌, List, [], ◌∷◌, Option, none, some, Build, if◌then◌else◌,
}
use slab_allocator.Machine.Word.{nullptr}
use slab_allocator.Machine.Memory.{Memory}
use slab_allocator.Platform.{Os, Result, ok, bad_alloc}
use slab_allocator.Pool as Pool
use slab_allocator.Pool.{Pool}
use slab_allocator.Stress.{Run, on, ◌>>=◌, ◌>>◌, call, expect, repeat}

abbrev pub block_size : ℕ
block_size = 128

abbrev pub block_count : ℕ
block_count = 10000

abbrev pub num_cycles : ℕ
num_cycles = 1000

abbrev pub allocs_per_cycle : ℕ
allocs_per_cycle = 5000

abbrev pub full_cycles : ℕ
full_cycles = 100

-- `count` blocks, the first one in front; null fails the test.
pub alloc_all : Build → ℕ → Pool → Memory → Run (List ℕ × Pool)
alloc_all b zero p m = on ([], p)
alloc_all b (suc count) p m = do
  (ptr, q) ← call (Pool.alloc b p m)
  expect (not (ptr == nullptr))
  (ptrs, r) ← alloc_all b count q m
  on (ptr ∷ ptrs, r)

pub free_all : Build → List ℕ → Pool × Memory → Run (Pool × Memory)
free_all b [] state = on state
free_all b (ptr ∷ ptrs) (p, m) = do state ← call (Pool.free b p m ptr); free_all b ptrs state

-- One cycle of the first test.
pub partial_cycle : Build → Pool × Memory → Run (Pool × Memory)
partial_cycle b (p, m) = do (ptrs, q) ← alloc_all b allocs_per_cycle p m; free_all b ptrs (q, m)

-- One cycle of the second test: when all blocks are taken, one more is refused.
pub full_cycle : Build → Pool × Memory → Run (Pool × Memory)
full_cycle b (p, m) = do
  (ptrs, q) ← alloc_all b block_count p m
  (should_fail, r) ← call (Pool.alloc b q m)
  expect (should_fail == nullptr)
  free_all b ptrs (r, m)

-- The sanity check behind each test.
pub all_returned : Build → Pool × Memory → Run (Pool × Memory)
all_returned b (p, m) = do
  n ← call (Pool.get_free_space b p)
  expect (n == block_size * block_count)
  on (p, m)

pub partial_test : Build → Pool × Memory → Run (Pool × Memory)
partial_test b state = do state' ← repeat num_cycles (partial_cycle b) state; all_returned b state'

pub full_test : Build → Pool × Memory → Run (Pool × Memory)
full_test b state = do state' ← repeat full_cycles (full_cycle b) state; all_returned b state'

-- The rest of the program when its pool is made; the pool is destroyed at the end.
pub tests : {S : Type 0} → Build → Os S → Result Pool (Pool × Memory) S → Run S
tests b os (ok state s) = do
  state₁ ← partial_test b state
  (p, m) ← full_test b state₁
  on (Pool.destroy os p s).1
tests b os (bad_alloc p s) = Run.aborted
tests b os Result.aborted = Run.aborted

-- The state of the kernel at the end.
pub main : {S : Type 0} → Build → Os S → Memory → S → Run S
unfolding tests
main b os m s = tests b os (Pool.construct b os block_size block_count m s)
