-- ===== src/Lib.antt =====
-- A model of the memory allocators of this repository, with the theorems that make them correct.
--
-- The parts and how they interact. `platform_mem` (include/platform.h) maps and unmaps pages.
-- `arena` (include/arena.h, src/arena.cpp) maps one region and hands out its bytes by rising
-- address, without a lock. `pool` (include/pool.h, src/pool.cpp) maps one region, cuts it into
-- blocks of one size and keeps the free ones in a list whose links stand in the blocks. `slab`
-- (include/slab.h, src/slab.cpp) has a pool for each of ten size classes, and in each thread a
-- `thread_local_cache` before each pool, which is filled and emptied in batches.
--
-- Base: lists, Boolean tests and the assertions, which are compiled in a debug build and absent
--   in a release build (Base/Checked); every theorem about a function with assertions holds in
--   both. A failed assertion, and a read or write outside of an array, is `none`.
-- Machine: `size_t`, pointers and `uintptr_t` are numbers below 2^64, with the wrap of unsigned
--   arithmetic written out; `std::bit_width` and `std::bit_ceil`; a memory of bytes with loads and
--   stores of 8 bytes and `memset`. Pointers are addresses in that memory.
-- Platform: the calls of `mmap`, `munmap` and `getpagesize` are a parameter, the record `Os` over
--   a state of the kernel. `IsPosix` (Platform/Laws) states what POSIX says of them: a mapping is
--   a new region on a page boundary, or the call fails and maps nothing; unmapping a region that
--   is mapped succeeds. Platform/Sample is a kernel that satisfies it.
-- Arena: the record `Arena` holds `memory`, `used` and `capacity`; `construct`, `destroy`,
--   `move_construct`, `move_assign`, `alloc`, `calloc`, `reset`, `clear`, `get_used` and
--   `get_capacity` are the member functions. The loop of `alloc` is run for any number of failed
--   exchanges, which is an argument: no fuel can run out, since the exchange after them succeeds
--   or the request is refused. Arena/Threads has the loads and exchanges of any number of threads as
--   a step relation, with spurious failures and stale offsets.
-- Pool: the record `Pool` has the fields of the class but the mutex; an operation that locks it is
--   one function. `IsPool` (Pool/Chain) relates a pool and the memory to the list of free blocks
--   and the blocks in use, and the operations are shown to act on these lists. The loop over an
--   array runs as often as the code's counter says.
-- Slab: SizeClass has the tables, the class of a request and the block count of a class. Cache has
--   `thread_local_cache`, and the parts of `slab::alloc` and `slab::free` that work on one cache and
--   the pool behind it: `cache_alloc` and `cache_free`. `IsFront` says that the blocks of the pool
--   are in the cache, in clients' hands or on the pool's list.
--   Slots has `cache_entry` and `get_cached_slab`: a thread's entries are a list of four, and slabs
--   are known by their address. Operations has `alloc`, `calloc`, `free`, `reset`, `owns` and the
--   figures of `slab`, run by one thread on its own entries, the slabs and the memory (`View`);
--   `IsLocal` (Operations/Local) is the invariant of a slab in a thread whose preferred entry is the
--   slab's (in Operations/First the thread's first call puts it there), and Operations/Outstanding
--   takes the slab for the list of the blocks that clients hold; Operations/Resetting is about `reset`.
--   Lifetime is its constructor and destructor. Threads has any number of threads on one slab, each
--   with its own entries, and every order of their calls of `alloc` and `free`: a call that finds the
--   slab's entry works on its thread's array and locks a pool at most once, so it is one action.
-- DynamicSlab: the list of nodes as the list of their addresses, the newest first; the slab of a node
--   is known by the node's address, apart from the bytes of the memory, which is the same as long as
--   nothing else writes to the node (`Spares` in DynamicSlab/Calls); `palloc`, `free`,
--   `calloc`, the figures, construction and destruction, on a `World` of one thread. Standing is the
--   stack of mappings that belongs to the nodes; Pool/Places, Slab/Cache/Places, Slab/Slots/Places
--   and Slab/Operations/Places show that no operation moves a mapping, whatever the memory holds.
-- Adapters: the three allocators for containers, by functions with the name of the allocator's
--   backing: `allocate_arena` is `arena_allocator::allocate`.
-- Stress: the programs of stress_tests/, composed of the operations above; `Run` says how a part of a
--   program ends. Pools is pool_stress.cpp, Arenas is arena_stress.cpp. PoolThreads is
--   pool_thread_stress.cpp, Slabs slab_stress.cpp. Threads runs workers in the order of a schedule,
--   an argument, one call or atomic access at a time, and behind the schedule each worker for as many
--   turns as its loop can have, so that `join` has all of them at their end. ArenaThreads is
--   arena_thread_stress.cpp, whose workers' loads and exchanges in `arena::alloc` are actions of their
--   own: `join_contended` lets the workers disturb each other for as long as the schedule says, with
--   exchanges that fail for no reason where it says so, and then each goes on alone for 6 actions a
--   round, which is enough (an overtaken load, its failed exchange, and a call without trouble).
-- The files named Examples hold tests at concrete inputs, and the theorems applied to such.
--
-- Not modelled: the warnings on stderr, which change nothing; the WIN32 branch of
-- include/platform.h; the clocks and the output of stress_tests/, its programs that compare
-- allocators, and those with threads on a slab; the unit tests. Clients are taken to free a block at
-- most once and to write only into blocks that they hold, where a theorem says so.
mod Base
pub mod Machine
pub mod Platform
pub mod Arena
pub mod Pool
pub mod Slab
pub mod DynamicSlab
pub mod Adapters
pub mod Stress
