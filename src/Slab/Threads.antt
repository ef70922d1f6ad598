-- ===== src/Slab/Threads.antt =====
-- Several threads on one slab (src/slab.cpp). A call that finds the slab's entry in the thread's own
-- array locks a pool once at most, and works on that array besides: it is one action. `reset` is not
-- thread safe and has no place here.
pub mod Invariant
pub mod Work
pub mod Calls
pub mod Interleavings
pub mod Apart
pub mod Examples
use slab_allocator.Base.{ℕ, List, [], set, get_or, Option, some, ◌>>=◌, Build}
use slab_allocator.Machine.Memory.{Memory}
use slab_allocator.Slab.Slots.{Slab, CacheEntry}
use slab_allocator.Slab.Operations as Operations
use slab_allocator.Slab.Operations.{View}

-- The arrays of the threads (`thread_local slab::caches`), the slabs by their address, the memory.
pub record Crew : Type 0 where
  pub entries : List (List CacheEntry)
  pub slabs : ℕ → Slab
  pub memory : Memory

-- What the thread `t` works on, and the state with its work done.
abbrev pub view : Crew → ℕ → View
view c t = record { caches = get_or c.entries t []; slabs = c.slabs; memory = c.memory }

abbrev pub store : Crew → ℕ → View → Crew
store c t v = record { entries = set c.entries t v.caches; slabs = v.slabs; memory = v.memory }

pub alloc_by : Build → Crew → ℕ → ℕ → ℕ → Option (ℕ × Crew)
alloc_by b c t self size = do
  (ptr, v) ← Operations.alloc b (view c t) self size
  some (ptr, store c t v)

pub free_by : Build → Crew → ℕ → ℕ → ℕ → ℕ → Option Crew
free_by b c t self ptr size = do v ← Operations.free b (view c t) self ptr size; some (store c t v)
