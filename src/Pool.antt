-- ===== src/Pool.antt =====
-- include/pool.h and src/pool.cpp: `pool`, blocks of one size with a free list inside them.
-- Each operation that locks the pool's mutex is one function here: it runs as a whole.
pub mod Layout
pub mod Owns
pub mod Places
pub mod Chain
pub mod Blocks
pub mod Contents
pub mod Init
pub mod Batch
pub mod Lifetime
pub mod Flaws
pub mod DoubleFree
pub mod Examples
use slab_allocator.Base.{
  ℕ, zero, suc, ◌+◌, Bool, true, false, not, ◌&&◌, ◌||◌, ◌==◌, ltb, leb, if◌then◌else◌, List,
  Option, none, some, ◌>>=◌, ◌>>◌, Build, assert, get_elem?, set,
}
use slab_allocator.Machine.Word.{
  nullptr, minus_one, add_word, sub_word, mul_word, and_word, bit_ceil, round_to_page,
}
use slab_allocator.Machine.Memory.{Memory, load_word, store_word, memset}
use slab_allocator.Platform.{Os, Result, ok, bad_alloc, aborted, mem_alloc, mem_free, page_size}

pub record Pool : Type 0 where
  pub memory : ℕ
  pub capacity : ℕ
  pub free_count : ℕ
  pub block_size : ℕ
  pub block_count : ℕ
  pub free_list : ℕ

-- `sizeof(void*)`
abbrev pub pointer_size : ℕ
pointer_size = 8

-- `clear`, which sets every field; so does the default constructor.
unfoldable pub cleared : Pool
cleared = record {
  memory = nullptr;
  capacity = minus_one;
  free_count = minus_one;
  block_size = minus_one;
  block_count = minus_one;
  free_list = nullptr;
}

pub clear : Pool → Pool
unfolding cleared
clear p = cleared

pub check_asserts : Build → Pool → Option (Unit {0})
check_asserts b p = do
  assert b (not (p.memory == nullptr))
  assert b (not (p.capacity == minus_one))
  assert b (not (p.free_count == minus_one))
  assert b (not (p.block_size == minus_one))
  assert b (not (p.block_count == minus_one))

-- The loop of `init_free_list` over the block indices below `i`, downwards: the list built so far
-- and the memory.
free_list_loop : Pool → ℕ → ℕ → Memory → ℕ × Memory
free_list_loop p zero list m = (list, m)
free_list_loop p (suc i) list m =
    let block = add_word p.memory (mul_word i p.block_size) in
    free_list_loop p i block (store_word m block list)

pub init_free_list : Pool → Memory → Pool × Memory
unfolding free_list_loop
init_free_list p m =
    let (list, m') = free_list_loop p p.block_count nullptr m in (record p { free_list = list }, m')

-- `init` expects a cleared pool.
unfoldable pub init_asserts : Build → Pool → Option (Unit {0})
init_asserts b p = do
  assert b (p.memory == nullptr)
  assert b (p.capacity == minus_one)
  assert b (p.free_count == minus_one)
  assert b (p.block_size == minus_one)
  assert b (p.block_count == minus_one)

-- The rest of `init`, when the block size and count are in place.
unfoldable pub init_sized : {S : Type 0} → Os S → Pool → Memory → S → Result Pool (Pool × Memory) S
init_sized os p m s =
    let total_needed = mul_word p.block_size p.block_count in
    let capacity = round_to_page total_needed (page_size os) in
    let (ptr, s') = mem_alloc os capacity s in
    let (q, m') = init_free_list (record p { capacity = capacity; memory = ptr }) m in
    if ptr == nullptr
    then bad_alloc (record p { capacity = capacity }) s'
    else ok (record q { free_count = p.block_count }, m') s'

-- An exception leaves the pool with its block size, count and capacity set.
unfoldable pub init :
    {S : Type 0} → Build → Os S → Pool → ℕ → ℕ → Memory → S → Result Pool (Pool × Memory) S
unfolding init_asserts
init b os p block_size block_count m s =
    let raised = if ltb block_size pointer_size then pointer_size else block_size in
    elim (init_asserts b p) [
      | none ↦ aborted
      | some _ ↦
          init_sized os (record p { block_size = bit_ceil raised; block_count = block_count }) m s
    ]

-- The constructor with a block size and count.
pub construct : {S : Type 0} → Build → Os S → ℕ → ℕ → Memory → S → Result Pool (Pool × Memory) S
unfolding cleared
construct b os block_size block_count m s = init b os cleared block_size block_count m s

pub destroy : {S : Type 0} → Os S → Pool → S → Pool × S
destroy os p s =
    if p.memory == nullptr
    then (p, s)
    else (record p { memory = nullptr; free_list = nullptr }, (mem_free os p.memory p.capacity s).1)

-- The new pool, and what is left of the other one.
pub move_construct : Pool → Pool × Pool
unfolding clear
move_construct other = (other, clear other)

-- `same` says that both are one object: then nothing happens.
pub move_assign : {S : Type 0} → Os S → Bool → Pool → Pool → S → Pool × Pool × S
unfolding clear
move_assign os true self other s = (self, other, s)
move_assign os false self other s = (
  other,
  clear other,
  if self.memory == nullptr then s else (mem_free os self.memory self.capacity s).1,
)

-- Takes the first block off the free list.
pub pop : Pool → Memory → Pool
unfolding sub_word
pop p m = record p { free_list = load_word m p.free_list; free_count = sub_word p.free_count 1 }

-- Puts a block in front of the free list.
pub push : Pool → Memory → ℕ → Pool × Memory
unfolding add_word
push p m ptr = (
  record p { free_list = ptr; free_count = add_word p.free_count 1 },
  store_word m ptr p.free_list,
)

pub alloc : Build → Pool → Memory → Option (ℕ × Pool)
unfolding check_asserts pop
alloc b p m =
    if p.free_list == nullptr
    then some (nullptr, p)
    else do check_asserts b p; some (p.free_list, pop p m)

pub calloc : Build → Pool → Memory → Option (ℕ × Pool × Memory)
unfolding alloc
calloc b p m = do
  (ptr, q) ← alloc b p m
  some (ptr, q, if ptr == nullptr then m else memset m ptr 0 p.block_size)

pub reset : Build → Pool → Memory → Option (Pool × Memory)
unfolding check_asserts init_free_list
reset b p m = do
  check_asserts b p
  let (q, m') = init_free_list p m
  some (record q { free_count = p.block_count }, m')

unfoldable pub owns : Pool → ℕ → Bool
unfolding add_word sub_word
owns p ptr =
    if ltb ptr p.memory || leb (add_word p.memory p.capacity) ptr
    then false
    else and_word (sub_word ptr p.memory) (sub_word p.block_size 1) == 0

pub free : Build → Pool → Memory → ℕ → Option (Pool × Memory)
unfolding check_asserts owns push
free b p m ptr =
    if ptr == nullptr
    then some (p, m)
    else do check_asserts b p; assert b (owns p ptr); some (push p m ptr)

-- The loop of `alloc_batched_internal` for the rounds from `i` on: the number of blocks taken, the
-- array `out` and the pool.
alloc_loop : ℕ → ℕ → Pool → Memory → List ℕ → ℕ × List ℕ × Pool
unfolding pop
alloc_loop zero i p m out = (i, out, p)
alloc_loop (suc rounds) i p m out =
    let rest = alloc_loop rounds (i + 1) (pop p m) m (set out i p.free_list) in
    if p.free_list == nullptr then (i, out, p) else rest

-- `out` is `none` for a null pointer, else the array that it points to.
pub alloc_batched_internal :
    Build → Pool → Memory → ℕ → Option (List ℕ) → Option (ℕ × Option (List ℕ) × Pool)
unfolding check_asserts alloc_loop
alloc_batched_internal b p m num_objects none = some (0, none, p)
alloc_batched_internal b p m num_objects (some out) =
    if p.free_list == nullptr then some (0, some out, p) else do
      check_asserts b p
      let (taken, out', q) = alloc_loop num_objects 0 p m out
      some (taken, some out', q)

-- One round of the loop of `free_batched_internal`.
free_one : Build → Pool → Memory → ℕ → Option (Pool × Memory)
unfolding owns push
free_one b p m ptr =
    if ptr == nullptr then some (p, m) else do assert b (owns p ptr); some (push p m ptr)

-- The rounds from `i` on; `none` if `in` is read behind its end.
free_loop : Build → ℕ → ℕ → Pool → Memory → List ℕ → Option (Pool × Memory)
unfolding free_one
free_loop b zero i p m blocks = some (p, m)
free_loop b (suc rounds) i p m blocks = do
  ptr ← get_elem? blocks i
  (q, m') ← free_one b p m ptr
  free_loop b rounds (i + 1) q m' blocks

-- `in` is `none` for a null pointer, else the array that it points to.
pub free_batched_internal : Build → Pool → Memory → ℕ → Option (List ℕ) → Option (Pool × Memory)
unfolding check_asserts free_loop
free_batched_internal b p m num_objects none = some (p, m)
free_batched_internal b p m num_objects (some blocks) = do
  check_asserts b p
  free_loop b num_objects 0 p m blocks

pub get_free_space : Build → Pool → Option ℕ
unfolding check_asserts mul_word
get_free_space b p = do check_asserts b p; some (mul_word p.free_count p.block_size)

pub get_capacity : Build → Pool → Option ℕ
unfolding check_asserts
get_capacity b p = do check_asserts b p; some p.capacity

unfoldable pub get_block_size : Pool → ℕ
get_block_size p = p.block_size

unfoldable pub get_block_count : Pool → ℕ
get_block_count p = p.block_count

pub get_memory_start : Pool → ℕ
get_memory_start p = p.memory

pub get_memory_end : Pool → ℕ
unfolding add_word
get_memory_end p = add_word p.memory p.capacity
