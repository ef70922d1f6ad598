-- ===== src/Arena.antt =====
-- include/arena.h and src/arena.cpp: the bump allocator `arena`.
pub mod Layout
pub mod Alloc
pub mod Threads
pub mod Lifetime
pub mod Examples
use slab_allocator.Base.{
  ℕ, zero, suc, ◌+◌, ◌-◌, ◌^◌, Bool, true, false, ◌||◌, ◌==◌, ltb, if◌then◌else◌,
}
use slab_allocator.Machine.Word.{nullptr, add_word, sub_word, not_word, and_word, round_to_page}
use slab_allocator.Machine.Memory.{Memory, memset}
use slab_allocator.Platform.{Os, Result, ok, bad_alloc, mem_alloc, mem_free, page_size}

pub record Arena : Type 0 where
  pub memory : ℕ
  pub used : ℕ
  pub capacity : ℕ

-- `-1` as an `int`
abbrev pub failure : ℕ
failure = 2 ^ 32 - 1

-- `alignof(std::max_align_t)` on the 64-bit System V ABI
abbrev pub alignment : ℕ
alignment = 16

-- The constructor. An exception leaves no arena behind.
pub construct : {S : Type 0} → Os S → ℕ → S → Result (Unit {0}) Arena S
construct os bytes s =
    let capacity = round_to_page bytes (page_size os) in
    let (ptr, s') = mem_alloc os capacity s in
    if ptr == nullptr
    then bad_alloc tt s'
    else ok (record { memory = ptr; used = 0; capacity = capacity }) s'

-- The destructor; what `munmap` answers is only reported.
pub destroy : {S : Type 0} → Os S → Arena → S → S
destroy os a s = if a.memory == nullptr then s else (mem_free os a.memory a.capacity s).1

pub reset : Arena → ℕ × Arena
reset a = (0, record a { used = 0 })

-- What the move operations leave of the other arena.
moved_from : Arena → Arena
unfolding reset
moved_from other = record (reset other).1 { capacity = 0; used = 0; memory = nullptr }

-- The new arena, and what is left of the other one.
pub move_construct : Arena → Arena × Arena
unfolding moved_from
move_construct other = (other, moved_from other)

-- `same` says that both are one object: then nothing happens.
pub move_assign : {S : Type 0} → Os S → Bool → Arena → Arena → S → Arena × Arena × S
unfolding moved_from
move_assign os true self other s = (self, other, s)
move_assign os false self other s = (
  other,
  moved_from other,
  if self.memory == nullptr then s else (mem_free os self.memory self.capacity s).1,
)

-- What one round of the loop in `alloc` makes of the offset that it loaded: nothing is left, or it
-- tries to exchange that offset for `desired` and to hand out the block at `aligned`.
pub data Attempt : Type 0 where
  refuse : Attempt
  exchange : (aligned desired : ℕ) → Attempt

pub attempt : Arena → ℕ → ℕ → Attempt
unfolding add_word sub_word
attempt a length current =
    let aligned = and_word (sub_word (add_word current alignment) 1) (not_word (alignment - 1)) in
    if ltb (sub_word a.capacity aligned) length
    then refuse
    else exchange aligned (add_word aligned length)

-- The loop with no other thread: `compare_exchange_weak` fails `spurious` times for no reason, and
-- then finds what was loaded.
alloc_loop : ℕ → Arena → ℕ → ℕ × Arena
alloc_loop zero a length = elim (attempt a length a.used) [
  | refuse ↦ (nullptr, a)
  | exchange aligned desired ↦ (add_word a.memory aligned, record a { used = desired })
]
alloc_loop (suc spurious) a length = elim (attempt a length a.used) [
  | refuse ↦ (nullptr, a)
  | exchange aligned desired ↦ alloc_loop spurious a length
]

pub alloc : ℕ → Arena → ℕ → ℕ × Arena
unfolding alloc_loop attempt add_word
alloc spurious a length =
    if length == 0 || a.memory == nullptr then (nullptr, a) else alloc_loop spurious a length

pub calloc : ℕ → Arena → ℕ → Memory → ℕ × Arena × Memory
calloc spurious a length m =
    let (ptr, a') = alloc spurious a length in
    (ptr, a', if ptr == nullptr then m else memset m ptr 0 length)

-- When `munmap` fails, `used` and `capacity` stay.
clear_with : Bool → Arena → ℕ × Arena
clear_with true a = (0, record a { memory = nullptr; used = 0; capacity = 0 })
clear_with false a = (failure, record a { memory = nullptr })

pub clear : {S : Type 0} → Os S → Arena → S → ℕ × Arena × S
unfolding clear_with
clear os a s =
    if a.memory == nullptr
    then (0, record a { used = 0; capacity = 0 }, s)
    else (let (freed, s') = mem_free os a.memory a.capacity s in
        let (status, a') = clear_with freed a in (status, a', s'))

pub get_used : Arena → ℕ
get_used a = a.used

pub get_capacity : Arena → ℕ
get_capacity a = a.capacity
