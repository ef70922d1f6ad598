-- ===== src/Stress/Slabs.antt =====
-- stress_tests/slab_stress.cpp: a slab of the default scale, with blocks of four sizes at a time and
-- with one block at a time.
pub mod Cycles
pub mod Main
use slab_allocator.Base.{
  ℕ, zero, suc, ◌+◌, ◌%◌, not, ◌==◌, List, [], ◌∷◌, ◌++◌, Option, none, some, Build, if◌then◌else◌,
}
use slab_allocator.Machine.Word.{nullptr}
use slab_allocator.Machine.Memory.{Memory}
use slab_allocator.Platform.{Os, Result, ok, bad_alloc, aborted}
use slab_allocator.Slab.Slots.{Slab, CacheEntry, update}
use slab_allocator.Slab.Operations.{View, alloc, free, get_total_free}
use slab_allocator.Slab.Lifetime.{construct, destroy}
use slab_allocator.Stress.{Run, on, ◌>>=◌, ◌>>◌, call, expect, repeat}

abbrev pub num_cycles : ℕ
num_cycles = 10000

abbrev pub allocs_per_cycle : ℕ
allocs_per_cycle = 100

abbrev pub rapid_cycles : ℕ
rapid_cycles = 1000000

-- The size of the request `i`.
unfoldable pub size_of : ℕ → ℕ
size_of i =
    if i % 4 == 0 then 32 else (if i % 4 == 1 then 64 else (if i % 4 == 2 then 128 else 256))

-- The requests from `i` on; null fails the test.
pub alloc_phase : Build → ℕ → ℕ → ℕ → View → List (ℕ × ℕ) → Run (View × List (ℕ × ℕ))
unfolding size_of
alloc_phase b self zero i v ptrs = on (v, ptrs)
alloc_phase b self (suc rounds) i v ptrs = do
  (ptr, w) ← call (alloc b v self (size_of i))
  expect (not (ptr == nullptr))
  alloc_phase b self rounds (suc i) w (ptrs ++ (ptr, size_of i) ∷ [])

pub free_phase : Build → ℕ → List (ℕ × ℕ) → View → Run View
free_phase b self [] v = on v
free_phase b self ((ptr, size) ∷ ptrs) v = do
  w ← call (free b v self ptr size)
  free_phase b self ptrs w

-- One cycle of the first test.
pub mixed_cycle : Build → ℕ → View → Run View
unfolding alloc_phase free_phase
mixed_cycle b self v = do
  (w, ptrs) ← alloc_phase b self allocs_per_cycle 0 v []
  free_phase b self ptrs w

-- One cycle of the second test.
pub rapid_cycle : Build → ℕ → View → Run View
rapid_cycle b self v = do
  (ptr, w) ← call (alloc b v self 64)
  expect (not (ptr == nullptr))
  call (free b w self ptr 64)

-- A number of cycles, and the sanity check behind them.
pub checked_cycles : Build → ℕ → ℕ → (View → Run View) → View → Run View
checked_cycles b self n cycle v = do
  initial_free ← call (get_total_free b (v.slabs self))
  w ← repeat n cycle v
  total_free ← call (get_total_free b (w.slabs self))
  expect (total_free == initial_free)
  on w

-- A test on the slab at `self`, which is destroyed behind it: the thread's entries, the slabs, the
-- memory and the kernel.
pub with_slab :
    {S : Type 0}
    → Os S
    → ℕ
    → (View → Run View)
    → List CacheEntry
    → (ℕ → Slab)
    → Result (Unit {0}) (Slab × Memory) S
    → Run (View × S)
unfolding update
with_slab os self test caches slabs (ok (slab, m) s) = do
  w ← test (record { caches = caches; slabs = update slabs self slab; memory = m })
  let (caches', s') = destroy os w.caches self (w.slabs self) s
  on (record w { caches = caches' }, s')
with_slab os self test caches slabs (bad_alloc e s) = Run.aborted
with_slab os self test caches slabs aborted = Run.aborted

-- The slabs of the two tests stand at `first` and `second`; the state of the kernel at the end.
pub main :
    {S : Type 0} → Build → Os S → ℕ → ℕ → ℕ → List CacheEntry → (ℕ → Slab) → Memory → S → Run S
unfolding with_slab checked_cycles mixed_cycle rapid_cycle
main b os first second next_slab_id caches slabs m s =
    let (next_slab_id', made) = construct b os 1 next_slab_id m s in
    do
      (v, s₁) ←
          with_slab os first (checked_cycles b first num_cycles (mixed_cycle b first)) caches slabs
            made
      (w, s₂) ←
          with_slab os second (checked_cycles b second rapid_cycles (rapid_cycle b second)) v.caches
            v.slabs (construct b os 1 next_slab_id' v.memory s₁).1
      on s₂
