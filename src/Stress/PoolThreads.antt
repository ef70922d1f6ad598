-- ===== src/Stress/PoolThreads.antt =====
-- stress_tests/pool_thread_stress.cpp: threads that share one pool. A member function of the pool
-- runs under the pool's mutex, so that each call is one action; so is each atomic access. The spin
-- on the start flag does nothing and is left out.
pub mod Use
pub mod Churning
pub mod Inserting
pub mod Exhausting
pub mod Returning
pub mod Filling
pub mod Main
use slab_allocator.Base.{
  ℕ, zero, suc, ◌+◌, ◌*◌, ◌/◌, ◌%◌, not, ◌==◌, ltb, ◌||◌, Bool, true, false, List, [], ◌∷◌, ◌++◌,
  length, Option, none, some, Build, if◌then◌else◌,
}
use slab_allocator.Machine.Word.{nullptr, add_word, mul_word}
use slab_allocator.Machine.Memory.{Memory, memset}
use slab_allocator.Platform.{Os, Result, ok, bad_alloc}
use slab_allocator.Pool as Pool
use slab_allocator.Pool.{Pool}
use slab_allocator.Stress.{Run, on, ◌>>=◌, ◌>>◌, call, expect}
use slab_allocator.Stress.Threads.{join, worker_count}
use slab_allocator.Base.{copies}
use slab_allocator.Base.Held.{lists_of}

-- What the workers share: the pool, the memory and the atomic counter of the test.
pub record Shared : Type 0 where
  pub pool : Pool
  pub memory : Memory
  pub counter : ℕ

-- `counter.fetch_add(1)`
pub count : Shared → Shared
unfolding add_word
count s = record s { counter = add_word s.counter 1 }

-- The sanity check behind each test.
pub fully_free : Build → Pool → Run (Unit {0})
unfolding mul_word
fully_free b p = do
  n ← call (Pool.get_free_space b p)
  expect (n == mul_word (Pool.get_block_size p) (Pool.get_block_count p))

-- Test 1: a worker in its round `i`, in front of `alloc`, of `memset`, of `free` and of the count.
pub data Churn : Type 0 where
  asking : (i : ℕ) → Churn
  holding filled : (i ptr : ℕ) → Churn
  released : (i : ℕ) → Churn

abbrev pub iterations_per_thread : ℕ
iterations_per_thread = 200000

abbrev pub churn_size : ℕ
churn_size = 128

pub churn_action : Build → ℕ → Shared × Churn → Run (Shared × Churn)
unfolding count
churn_action b tid (s, asking i) =
    if ltb i iterations_per_thread
    then (do
      (ptr, q) ← call (Pool.alloc b s.pool s.memory)
      on (record s { pool = q }, if ptr == nullptr then asking (suc i) else holding i ptr))
    else on (s, asking i)
churn_action b tid (s, holding i ptr) =
    on (record s { memory = memset s.memory ptr ((tid + i) % 256) churn_size }, filled i ptr)
churn_action b tid (s, filled i ptr) = do
  (q, m) ← call (Pool.free b s.pool s.memory ptr)
  on (record s { pool = q; memory = m }, released i)
churn_action b tid (s, released i) = on (count s, asking (suc i))

pub churn_finished : Churn → Bool
churn_finished (asking i) = not (ltb i iterations_per_thread)
churn_finished (holding i ptr) = false
churn_finished (filled i ptr) = false
churn_finished (released i) = false

pub churn_test : Build → ℕ → List ℕ → Pool × Memory → Run (Pool × Memory)
unfolding churn_action churn_finished fully_free
churn_test b threads schedule (p, m) = do
  (s, locals) ←
      join (churn_action b) churn_finished (4 * iterations_per_thread) schedule
        (record { pool = p; memory = m; counter = 0 }, copies threads (asking 0))
  expect (not (s.counter == 0))
  fully_free b s.pool
  on (s.pool, s.memory)

-- Test 2: a worker in front of `alloc`, in front of the count, and at its end, with the blocks that
-- it has.
pub data Taker : Type 0 where
  taking counting sated : (ptrs : List ℕ) → Taker

pub take_action : Build → ℕ → Shared × Taker → Run (Shared × Taker)
unfolding count
take_action b tid (s, taking ptrs) = do
  (ptr, q) ← call (Pool.alloc b s.pool s.memory)
  on (record s { pool = q }, if ptr == nullptr then sated ptrs else counting (ptrs ++ ptr ∷ []))
take_action b tid (s, counting ptrs) = on (count s, taking ptrs)
take_action b tid (s, sated ptrs) = on (s, sated ptrs)

pub take_finished : Taker → Bool
take_finished (taking ptrs) = false
take_finished (counting ptrs) = false
take_finished (sated ptrs) = true

-- `allocated[tid]`
abbrev pub taken : Taker → List ℕ
taken (taking ptrs) = ptrs
taken (counting ptrs) = ptrs
taken (sated ptrs) = ptrs

abbrev pub map_taken : List Taker → List (List ℕ)
map_taken = lists_of taken

unfoldable pub contains : List ℕ → ℕ → Bool
contains [] x = false
contains (y ∷ ys) x = y == x || contains ys x

-- The inserts into `unique_ptrs`; one of a pointer that is there already fails the test.
pub insert_all : List ℕ → List ℕ → Run (List ℕ)
unfolding contains
insert_all [] unique = on unique
insert_all (ptr ∷ ptrs) unique = do
  expect (not (contains unique ptr))
  insert_all ptrs (ptr ∷ unique)

pub insert_locals : List (List ℕ) → List ℕ → Run (List ℕ)
unfolding insert_all
insert_locals [] unique = on unique
insert_locals (ptrs ∷ allocated) unique = do
  unique' ← insert_all ptrs unique
  insert_locals allocated unique'

-- A worker of the second half, with the blocks that it still has to free.
pub give_action : Build → ℕ → Shared × List ℕ → Run (Shared × List ℕ)
give_action b tid (s, []) = on (s, [])
give_action b tid (s, ptr ∷ ptrs) = do
  (q, m) ← call (Pool.free b s.pool s.memory ptr)
  on (record s { pool = q; memory = m }, ptrs)

pub give_finished : List ℕ → Bool
give_finished [] = true
give_finished (ptr ∷ ptrs) = false

pub exhaustion_test : Build → ℕ → List ℕ → List ℕ → Pool × Memory → Run (Pool × Memory)
unfolding take_action take_finished insert_locals give_action give_finished fully_free
exhaustion_test b threads schedule schedule' (p, m) = do
  (s, locals) ←
      join (take_action b) take_finished (2 * (threads * 2048) + 1) schedule
        (record { pool = p; memory = m; counter = 0 }, copies threads (taking []))
  expect (s.counter == threads * 2048)
  unique ← insert_locals (map_taken locals) []
  expect (length unique == threads * 2048)
  (s', rest) ← join (give_action b) give_finished (threads * 2048) schedule' (s, map_taken locals)
  fully_free b s'.pool
  on (s'.pool, s'.memory)

-- Test 3: a worker in its round `i`, and one whose `alloc` has returned null, in front of the count.
pub data Filler : Type 0 where
  filling missed : (i : ℕ) (ptrs : List ℕ) → Filler

abbrev pub allocs_per_thread : ℕ
allocs_per_thread = 256

abbrev pub cycles : ℕ
cycles = 150

pub fill_action : Build → ℕ → Shared × Filler → Run (Shared × Filler)
unfolding count
fill_action b tid (s, filling i ptrs) =
    if ltb i allocs_per_thread
    then (do
      (ptr, q) ← call (Pool.alloc b s.pool s.memory)
      on (
        record s { pool = q },
        if ptr == nullptr then missed i ptrs else filling (suc i) (ptrs ++ ptr ∷ []),
      ))
    else on (s, filling i ptrs)
fill_action b tid (s, missed i ptrs) = on (count s, filling (suc i) ptrs)

pub fill_finished : Filler → Bool
fill_finished (filling i ptrs) = not (ltb i allocs_per_thread)
fill_finished (missed i ptrs) = false

pub fill_cycle : Build → ℕ → List ℕ → Pool × Memory → Run (Pool × Memory)
unfolding fill_action fill_finished fully_free
fill_cycle b threads schedule (p, m) = do
  (s, locals) ←
      join (fill_action b) fill_finished (2 * allocs_per_thread) schedule
        (record { pool = p; memory = m; counter = 0 }, copies threads (filling 0 []))
  expect (s.counter == 0)
  (q, m') ← call (Pool.reset b s.pool s.memory)
  fully_free b q
  on (q, m')

-- The cycles from `cycle` on, each with its own schedule.
pub reset_test : Build → ℕ → (ℕ → List ℕ) → ℕ → ℕ → Pool × Memory → Run (Pool × Memory)
unfolding fill_cycle
reset_test b threads schedules zero cycle state = on state
reset_test b threads schedules (suc rounds) cycle state = do
  state' ← fill_cycle b threads (schedules cycle) state
  reset_test b threads schedules rounds (suc cycle) state'

-- A test between the construction and the destruction of its pool.
pub with_pool :
    {S : Type 0}
    → Os S
    → (Pool × Memory → Run (Pool × Memory))
    → Result Pool (Pool × Memory) S
    → Run (Memory × S)
with_pool os test (ok state s) = do (p, m) ← test state; on (m, (Pool.destroy os p s).1)
with_pool os test (bad_alloc p s) = Run.aborted
with_pool os test Result.aborted = Run.aborted

-- In which order the workers take their turns, test by test.
pub record Schedules : Type 0 where
  pub churn : List ℕ
  pub take : List ℕ
  pub give : List ℕ
  pub fill : ℕ → List ℕ

-- The state of the kernel at the end.
pub main : {S : Type 0} → Build → Os S → ℕ → Schedules → Memory → S → Run S
unfolding churn_test exhaustion_test reset_test with_pool
main b os hw order m s =
    let threads = worker_count hw in
    do
      (m₁, s₁) ←
          with_pool os (churn_test b threads order.churn)
            (Pool.construct b os churn_size (threads * 256) m s)
      (m₂, s₂) ←
          with_pool os (exhaustion_test b threads order.take order.give)
            (Pool.construct b os 64 (threads * 2048) m₁ s₁)
      (m₃, s₃) ←
          with_pool os (reset_test b threads order.fill cycles 0)
            (Pool.construct b os 96 (threads * 512) m₂ s₂)
      on s₃
