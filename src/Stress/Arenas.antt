-- ===== src/Stress/Arenas.antt =====
-- stress_tests/arena_stress.cpp: many small blocks from one arena, and cycles of allocation and reset.
pub mod Usage
pub mod Main
use slab_allocator.Base.{
  ℕ, zero, suc, ◌+◌, ◌*◌, not, ◌==◌, ltb, if◌then◌else◌, List, [], ◌∷◌, length,
}
use slab_allocator.Machine.Word.{nullptr, mul_word}
use slab_allocator.Platform.{Os, Result, ok, bad_alloc, page_size}
use slab_allocator.Arena as Arena
use slab_allocator.Arena.{Arena}
use slab_allocator.Stress.{Run, on, ◌>>=◌, ◌>>◌, expect, repeat}

abbrev pub small_allocs : ℕ
small_allocs = 100000

abbrev pub small_size : ℕ
small_size = 8

abbrev pub reset_cycles : ℕ
reset_cycles = 10000

abbrev pub allocs_per_reset : ℕ
allocs_per_reset = 100

abbrev pub alloc_size : ℕ
alloc_size = 100

-- `count` blocks of `size` bytes, pushed to `ptrs`; null fails the test. `spurious` says how often
-- the exchange fails for no reason in each call.
pub alloc_all : (ℕ → ℕ) → ℕ → ℕ → Arena → List ℕ → Run (List ℕ × Arena)
alloc_all spurious zero size a ptrs = on (ptrs, a)
alloc_all spurious (suc count) size a ptrs = do
  let (ptr, a') = Arena.alloc (spurious count) a size
  expect (not (ptr == nullptr))
  alloc_all spurious count size a' (ptr ∷ ptrs)

-- The first test with its arena.
pub many_small : (ℕ → ℕ) → Arena → Run Arena
many_small spurious a = do
  (ptrs, a') ← alloc_all spurious small_allocs small_size a []
  expect (not (length ptrs == 0))
  expect (not (ltb (Arena.get_used a') (length ptrs * small_size)))
  on a'

-- One cycle of the second test.
pub reset_cycle : (ℕ → ℕ) → Arena → Run Arena
reset_cycle spurious a = do
  (ptrs, a₁) ← alloc_all spurious allocs_per_reset alloc_size a []
  expect (not (ltb (Arena.get_used a₁) (allocs_per_reset * alloc_size)))
  let (result, a₂) = Arena.reset a₁
  expect (result == 0)
  expect (Arena.get_used a₂ == 0)
  on a₂

pub many_resets : (ℕ → ℕ) → Arena → Run Arena
many_resets spurious a = do
  a' ← repeat reset_cycles (reset_cycle spurious) a
  expect (Arena.get_used a' == 0)
  on a'

-- A test with the arena that was made for it, which is destroyed at the end.
pub with_arena : {S : Type 0} → Os S → (Arena → Run Arena) → Result (Unit {0}) Arena S → Run S
with_arena os test (ok a s) = do a' ← test a; on (Arena.destroy os a' s)
with_arena os test (bad_alloc e s) = Run.aborted
with_arena os test Result.aborted = Run.aborted

-- The state of the kernel at the end.
pub main : {S : Type 0} → Os S → (ℕ → ℕ) → S → Run S
unfolding mul_word
main os spurious s = do
  s₁ ← with_arena os (many_small spurious) (Arena.construct os (mul_word (page_size os) 1000) s)
  with_arena os (many_resets spurious) (Arena.construct os (mul_word (page_size os) 4) s₁)
