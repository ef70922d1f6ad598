-- ===== src/Stress/ArenaThreads.antt =====
-- stress_tests/arena_thread_stress.cpp: threads that share one arena, without a lock. A worker's load
-- of the offset is one action, and so are its exchange and each access to the atomic counter. The
-- spin on the start flag does nothing and is left out.
pub mod Calls
pub mod Use
pub mod Bulk
pub mod Checking
pub mod Exhausting
pub mod Draining
pub mod Main
use slab_allocator.Base.{
  ℕ, zero, suc, ◌+◌, ◌*◌, ◌/◌, ◌%◌, not, ◌==◌, ltb, ◌||◌, Bool, true, false, List, [], ◌∷◌, ◌++◌,
  length, copies, if◌then◌else◌,
}
use slab_allocator.Base.Held.{lists_of}
use slab_allocator.Machine.Word.{nullptr, add_word, mul_word}
use slab_allocator.Machine.Memory.{Memory, memset}
use slab_allocator.Platform.{Os, Result, ok, bad_alloc}
use slab_allocator.Arena as Arena
use slab_allocator.Arena.{Arena, Attempt, refuse, exchange, attempt}
use slab_allocator.Stress.{Run, on, ◌>>=◌, ◌>>◌, expect}
use slab_allocator.Stress.Threads.{join_contended, worker_count}
use slab_allocator.Stress.PoolThreads.{insert_locals}

abbrev pub alloc_size : ℕ
alloc_size = 32

-- Where a worker stands in `a.alloc(alloc_size)`: at the call, at the head of the loop, or behind
-- the load of the offset.
pub data Calling : Type 0 where
  entering looping : Calling
  loaded : (current : ℕ) → Calling

-- What an action of the call leads to: the call goes on, or it returns.
pub data Progress : Type 0 where
  within : Calling → Arena → Progress
  returned : (ptr : ℕ) → Arena → Progress

-- The exchange; it fails if the offset has changed since the load, or for no reason.
pub exchanged : Bool → Arena → ℕ → Attempt → Progress
unfolding add_word
exchanged fails a current refuse = returned nullptr a
exchanged fails a current (exchange aligned desired) =
    if fails || not (a.used == current)
    then within looping a
    else returned (add_word a.memory aligned) (record a { used = desired })

pub alloc_action : Bool → Arena → Calling → Progress
unfolding exchanged
alloc_action fails a entering =
    if alloc_size == 0 || a.memory == nullptr then returned nullptr a else within (loaded a.used) a
alloc_action fails a looping = within (loaded a.used) a
alloc_action fails a (loaded current) = exchanged fails a current (attempt a alloc_size current)

-- What the workers share: the arena, the memory and the atomic counter of the test.
pub record Shared : Type 0 where
  pub arena : Arena
  pub memory : Memory
  pub counter : ℕ

-- `counter.fetch_add(1)`
pub count : Shared → Shared
unfolding add_word
count s = record s { counter = add_word s.counter 1 }

-- A worker in its round `i` with the blocks that it has listed: in `alloc`, behind an `alloc` that
-- gave a block, and behind one that gave null.
pub data Asker : Type 0 where
  asking : (i : ℕ) (call : Calling) (ptrs : List ℕ) → Asker
  served : (i ptr : ℕ) (ptrs : List ℕ) → Asker
  missed : (i : ℕ) (ptrs : List ℕ) → Asker

-- `allocated[tid]`
abbrev pub listed : Asker → List ℕ
listed (asking i call ptrs) = ptrs
listed (served i ptr ptrs) = ptrs
listed (missed i ptrs) = ptrs

answered : Shared → ℕ → List ℕ → Progress → Shared × Asker
answered s i ptrs (within call a) = (record s { arena = a }, asking i call ptrs)
answered s i ptrs (returned ptr a) =
    (record s { arena = a }, if ptr == nullptr then missed i ptrs else served i ptr ptrs)

-- Tests 1 and 3: a worker with `allocs` rounds. Only in test 1 does it list its blocks.
pub bulk_action : Bool → ℕ → ℕ → Bool → ℕ → Shared × Asker → Run (Shared × Asker)
unfolding alloc_action answered count
bulk_action lists allocs cycle fails tid (s, asking i call ptrs) =
    if ltb i allocs
    then on (answered s i ptrs (alloc_action fails s.arena call))
    else on (s, asking i call ptrs)
bulk_action lists allocs cycle fails tid (s, served i ptr ptrs) = on (
  record s { memory = memset s.memory ptr ((tid + i + cycle) % 256) alloc_size },
  asking (suc i) entering (if lists then ptrs ++ ptr ∷ [] else ptrs),
)
bulk_action lists allocs cycle fails tid (s, missed i ptrs) =
    on (count s, asking (suc i) entering ptrs)

pub finished : ℕ → Asker → Bool
finished allocs (asking i call ptrs) = not (ltb i allocs)
finished allocs (served i ptr ptrs) = false
finished allocs (missed i ptrs) = false

abbrev pub allocs_per_thread : ℕ
allocs_per_thread = 20000

-- `seen`, from `total` on.
pub count_listed : List (List ℕ) → ℕ → ℕ
unfolding add_word
count_listed [] total = total
count_listed (ptrs ∷ allocated) total = count_listed allocated (add_word total (length ptrs))

abbrev pub start : ℕ → List Asker
start threads = copies threads (asking 0 entering [])

pub bulk_test : ℕ → List (ℕ × Bool) → Arena × Memory → Run (Arena × Memory)
unfolding bulk_action finished count_listed
bulk_test threads schedule (a, m) =
    let total = threads * allocs_per_thread in
    do
      (s, locals) ←
          join_contended (bulk_action true allocs_per_thread 0) (finished allocs_per_thread)
            (6 * allocs_per_thread) schedule
            (record { arena = a; memory = m; counter = 0 }, start threads)
      expect (s.counter == 0)
      unique ← insert_locals (lists_of listed locals) []
      expect (count_listed (lists_of listed locals) 0 == total)
      expect (Arena.get_used s.arena == total * alloc_size)
      on (s.arena, s.memory)

-- Test 2.
pub exhaust_action : ℕ → Bool → ℕ → Shared × Asker → Run (Shared × Asker)
unfolding alloc_action answered count
exhaust_action attempts fails tid (s, asking i call ptrs) =
    if ltb i attempts
    then on (answered s i ptrs (alloc_action fails s.arena call))
    else on (s, asking i call ptrs)
exhaust_action attempts fails tid (s, served i ptr ptrs) =
    on (count s, asking (suc i) entering (ptrs ++ ptr ∷ []))
exhaust_action attempts fails tid (s, missed i ptrs) = on (s, asking (suc i) entering ptrs)

pub exhaust_test : ℕ → List (ℕ × Bool) → Arena × Memory → Run (Arena × Memory)
unfolding exhaust_action finished
exhaust_test threads schedule (a, m) =
    let capacity_slots = threads * 5000 in
    let attempts = capacity_slots / threads + 2000 in
    do
      (s, locals) ←
          join_contended (exhaust_action attempts) (finished attempts) (6 * attempts) schedule
            (record { arena = a; memory = m; counter = 0 }, start threads)
      expect (s.counter == capacity_slots)
      expect (Arena.get_used s.arena == capacity_slots * alloc_size)
      unique ← insert_locals (lists_of listed locals) []
      expect (length unique == capacity_slots)
      on (s.arena, s.memory)

abbrev pub cycles : ℕ
cycles = 75

abbrev pub allocs_per_thread_per_cycle : ℕ
allocs_per_thread_per_cycle = 500

pub reset_cycle : ℕ → ℕ → List (ℕ × Bool) → Arena × Memory → Run (Arena × Memory)
unfolding bulk_action finished
reset_cycle threads cycle schedule (a, m) =
    let cycle_bytes = threads * allocs_per_thread_per_cycle * alloc_size in
    do
      (s, locals) ←
          join_contended (bulk_action false allocs_per_thread_per_cycle cycle)
            (finished allocs_per_thread_per_cycle) (6 * allocs_per_thread_per_cycle) schedule
            (record { arena = a; memory = m; counter = 0 }, start threads)
      expect (s.counter == 0)
      expect (Arena.get_used s.arena == cycle_bytes)
      let (result, a') = Arena.reset s.arena
      expect (result == 0)
      expect (Arena.get_used a' == 0)
      on (a', s.memory)

-- The cycles from `cycle` on, each with its own schedule.
pub reset_test : ℕ → (ℕ → List (ℕ × Bool)) → ℕ → ℕ → Arena × Memory → Run (Arena × Memory)
unfolding reset_cycle
reset_test threads schedules zero cycle state = on state
reset_test threads schedules (suc rounds) cycle state = do
  state' ← reset_cycle threads cycle (schedules cycle) state
  reset_test threads schedules rounds (suc cycle) state'

-- A test between the construction and the destruction of its arena.
pub with_arena :
    {S : Type 0}
    → Os S
    → (Arena × Memory → Run (Arena × Memory))
    → Memory
    → Result (Unit {0}) Arena S
    → Run (Memory × S)
with_arena os test m (ok a s) = do (a', m') ← test (a, m); on (m', Arena.destroy os a' s)
with_arena os test m (bad_alloc e s) = Run.aborted
with_arena os test m Result.aborted = Run.aborted

-- In which order the workers take their turns, test by test.
pub record Schedules : Type 0 where
  pub bulk : List (ℕ × Bool)
  pub exhaust : List (ℕ × Bool)
  pub reset : ℕ → List (ℕ × Bool)

-- The state of the kernel at the end.
pub main : {S : Type 0} → Os S → ℕ → Schedules → Memory → S → Run S
unfolding bulk_test exhaust_test reset_test with_arena
main os hw order m s =
    let threads = worker_count hw in
    do
      (m₁, s₁) ←
          with_arena os (bulk_test threads order.bulk) m
            (Arena.construct os (threads * allocs_per_thread * alloc_size) s)
      (m₂, s₂) ←
          with_arena os (exhaust_test threads order.exhaust) m₁
            (Arena.construct os (threads * 5000 * alloc_size) s₁)
      (m₃, s₃) ←
          with_arena os (reset_test threads order.reset cycles 0) m₂
            (Arena.construct os (threads * allocs_per_thread_per_cycle * alloc_size) s₂)
      on s₃
