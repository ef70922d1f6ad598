-- ===== src/Stress/ArenaThreads/Calls.antt =====
-- One action of a worker's `alloc` in stress_tests/arena_thread_stress.cpp.
use slab_allocator.Base.{
  ℕ, suc, ◌+◌, ◌*◌, ◌%◌, ◌^◌, ◌≤◌, ◌<◌, ◌≡◌, ◌≢◌, ◌==◌, ltb, Bool, true, false, Bool-cases, inl,
  inr, if◌then◌else◌, arith,
}
use slab_allocator.Machine.Word.{nullptr, add_word}
use slab_allocator.Arena.{Arena, exchange}
use slab_allocator.Arena.Layout.{IsArena, align_up}
use slab_allocator.Arena.Alloc.{attempt_lem}
use slab_allocator.Stress.ArenaThreads.{
  Calling, entering, looping, loaded, Progress, within, returned, exchanged, alloc_action,
}

-- An arena of which `k` blocks are used.
pub record Stock (m cap k : ℕ) (a : Arena) : Type 0 where
  pub valid : IsArena a
  pub mapped : m ≢ nullptr
  pub memory : a.memory ≡ m
  pub capacity : a.capacity ≡ cap
  pub used : a.used ≡ k * 32

-- A load gave an offset that was in use at some time.
abbrev pub IsOld : ℕ → Calling → Type 0
IsOld used entering = Unit {0}
IsOld used looping = Unit {0}
IsOld used (loaded current) = (current ≤ used) × (current % 32 ≡ 0)

pub IsOld-le : (used used' : ℕ) (call : Calling) → used ≤ used' → IsOld used call → IsOld used' call
IsOld-le used used' entering h o = tt
IsOld-le used used' looping h o = tt
IsOld-le used used' (loaded current) h o = (omega (arith, h, o.0), o.1)

-- How far the call is, for a thread alone.
abbrev pub rank : ℕ → Calling → ℕ
rank used entering = 0
rank used looping = 2
rank used (loaded current) = if current == used then 3 else 1

-- The call goes on, is refused because the arena is full, or gets the next block.
pub data Moves (fails : Bool) (m cap k : ℕ) (a : Arena) (call : Calling) : Progress → Type 0 where
  goes_on :
      (call' : Calling)
      → IsOld a.used call'
      → (fails ≡ false → rank a.used call < rank a.used call')
      → Moves fails m cap k a call (within call' a)
  refused : cap < k * 32 + 32 → Moves fails m cap k a call (returned nullptr a)
  given :
      (a' : Arena)
      → k * 32 + 32 ≤ cap
      → Stock m cap (suc k) a'
      → Moves fails m cap k a call (returned (m + k * 32) a')

exchanged-Moves :
    (fails : Bool) {m cap k : ℕ} (a : Arena) (current : ℕ)
    → Stock m cap k a
    → IsOld a.used (loaded current)
    → current + 32 ≤ a.capacity
    → Moves fails m cap k a
        (loaded current)
        (exchanged fails a current (exchange current (current + 32)))
unfolding exchanged add_word
exchanged-Moves true a current v o fits = goes_on looping tt (λ e. cc)
exchanged-Moves false {m} {cap} {k} a current v o fits = elim (Bool-cases (a.used == current)) [
  | inl same ↦
      let here : current ≡ k * 32 = ground (arith, same, v.used) in
      let address : (a.memory + current) % 2 ^ 64 ≡ m + k * 32 =
        omega (arith, here, v.memory, fits, v.valid.in_space) in
      rw (same, address)
        (given (record a { used = current + 32 }) (omega (arith, here, fits, v.capacity))
          (record {
            valid = record {
              memory_aligned = v.valid.memory_aligned;
              capacity_aligned = v.valid.capacity_aligned;
              within = fits;
              in_space = v.valid.in_space;
            };
            mapped = v.mapped;
            memory = v.memory;
            capacity = v.capacity;
            used = omega (arith, here);
          }))
  | inr moved ↦
      let stale : (current == a.used) ≡ false = ground (arith, moved) in
      rw moved (goes_on looping tt (λ e. rw stale (omega arith)))
]

now-IsOld : {m cap k : ℕ} (a : Arena) → Stock m cap k a → IsOld a.used (loaded a.used)
now-IsOld a v = (omega arith, omega (arith, v.used))

-- Whatever other workers have done since the load.
pub alloc_action-Moves :
    (fails : Bool) {m cap k : ℕ} (a : Arena) (call : Calling)
    → Stock m cap k a
    → IsOld a.used call
    → Moves fails m cap k a call (alloc_action fails a call)
unfolding alloc_action exchanged
alloc_action-Moves fails a entering v o =
    let real : (a.memory == nullptr) ≡ false = ground (arith, v.memory, v.mapped) in
    let now : (a.used == a.used) ≡ true = ground arith in
    rw real (goes_on (loaded a.used) (now-IsOld a v) (λ e. rw now (omega arith)))
alloc_action-Moves fails a looping v o =
    let now : (a.used == a.used) ≡ true = ground arith in
    goes_on (loaded a.used) (now-IsOld a v) (λ e. rw now (omega arith))
alloc_action-Moves fails {m} {cap} {k} a (loaded current) v o =
    let aligned : align_up current ≡ current = omega (arith, o.1) in
    let known = attempt_lem a 32 current v.valid (omega (arith, o.0, v.valid.within)) in
    elim (Bool-cases (ltb a.capacity (current + 32))) [
      | inl full ↦
          rw (known, aligned, full) (refused (ground (arith, full, o.0, v.capacity, v.used)))
      | inr fits ↦
          rw (known, aligned, fits) (exchanged-Moves fails a current v o (ground (arith, fits)))
    ]
