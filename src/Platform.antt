-- ===== src/Platform.antt =====
-- include/platform.h: the POSIX side of `platform_mem`. The system calls are a parameter, `Os`,
-- over a state `S` of the kernel.
pub mod Laws
pub mod Sample
use slab_allocator.Base.{ℕ, Bool, ◌==◌, if◌then◌else◌}
use slab_allocator.Machine.Word.{nullptr, minus_one}

-- `mmap` with the fixed arguments of the code takes a length and returns an address or
-- `MAP_FAILED`; `munmap` takes an address and a length and returns 0 on success.
pub record Os (S : Type 0) : Type 0 where
  pub getpagesize : ℕ
  pub mmap : ℕ → S → ℕ × S
  pub munmap : ℕ → ℕ → S → ℕ × S

-- `MAP_FAILED` is `(void*)-1`.
abbrev pub map_failed : ℕ
map_failed = minus_one

-- How a call ends: with a value, with an exception that leaves an `E` behind, or in a failed assert.
pub data Result (E A S : Type 0) : Type 0 where
  ok : A → S → Result E A S
  bad_alloc : E → S → Result E A S
  aborted : Result E A S

module _ {S : Type 0} (os : Os S) where
  unfoldable pub mem_alloc : ℕ → S → ℕ × S
  mem_alloc size s =
      let (ptr, s') = os.mmap size s in (if ptr == map_failed then nullptr else ptr, s')

  unfoldable pub mem_free : ℕ → ℕ → S → Bool × S
  mem_free ptr size s = let (status, s') = os.munmap ptr size s in (status == 0, s')

  unfoldable pub page_size : ℕ
  page_size = os.getpagesize
