-- ===== src/Arena/Threads.antt =====
-- `arena::alloc` called by any number of threads: the loads and compare-exchanges of their loops
-- interleave in any order, and `compare_exchange_weak` may fail for no reason. The threads are
-- numbers. `reset` and `clear` are not thread safe and have no step here.
pub mod Invariant
use slab_allocator.Base.{
  ℕ, ◌+◌, ◌%◌, ◌≤◌, ◌<◌, ◌≡◌, refl, ◌≢◌, List, [], ◌∷◌, arith, ◌==◌, if◌then◌else◌, Bool-cases, inl,
  inr, ◌⊎◌, zero, suc, get_elem?, some,
}
use slab_allocator.Machine.Word.{nullptr}
use slab_allocator.Arena.{Arena, refuse, exchange, attempt}
use slab_allocator.Arena.Layout.{IsArena}
use slab_allocator.Arena.Alloc.{attempt_lem}

-- Where a thread stands: outside `alloc`, at the head of the loop, or behind the load.
pub data Phase : Type 0 where
  idle : Phase
  looping : (length : ℕ) → Phase
  loaded : (length current : ℕ) → Phase

-- A block that was handed out.
pub record Grant : Type 0 where
  pub thread : ℕ
  pub offset : ℕ
  pub size : ℕ

pub record System : Type 0 where
  pub arena : Arena
  pub phase : ℕ → Phase
  pub grants : List Grant

abbrev pub at : (ℕ → Phase) → ℕ → Phase → ℕ → Phase
at f t p = λ u. if u == t then p else f u

pub data Step (s : System) : System → Type 0 where
  call :
      (t length : ℕ)
      → s.phase t ≡ idle
      → length ≢ 0
      → s.arena.memory ≢ nullptr
      → Step s (record s { phase = at s.phase t (looping length) })
  load :
      (t length : ℕ)
      → s.phase t ≡ looping length
      → Step s (record s { phase = at s.phase t (loaded length s.arena.used) })
  give_up :
      (t length current : ℕ)
      → s.phase t ≡ loaded length current
      → attempt s.arena length current ≡ refuse
      → Step s (record s { phase = at s.phase t idle })
  swap :
      (t length current aligned desired : ℕ)
      → s.phase t ≡ loaded length current
      → attempt s.arena length current ≡ exchange aligned desired
      → s.arena.used ≡ current
      → Step s (record {
        arena = record s.arena { used = desired };
        phase = at s.phase t idle;
        grants = record { thread = t; offset = aligned; size = length } ∷ s.grants;
      })
  retry :
      (t length current aligned desired : ℕ)
      → s.phase t ≡ loaded length current
      → attempt s.arena length current ≡ exchange aligned desired
      → Step s (record s { phase = at s.phase t (looping length) })

-- An arena that nobody has used yet.
abbrev pub start : Arena → System
start a = record { arena = record a { used = 0 }; phase = λ _. idle; grants = [] }

pub data Reach (a : Arena) : System → Type 0 where
  here : Reach a (start a)
  next : {s t : System} → Reach a s → Step s t → Reach a t
