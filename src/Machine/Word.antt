-- ===== src/Machine/Word.antt =====
-- `size_t`, pointers and `uintptr_t` as numbers below 2^64, with the wrap of unsigned arithmetic
-- written out; `std::bit_width` and `std::bit_ceil` of <bit>.
use Prim.Native.Nat.{bit_and}
use slab_allocator.Base.{ℕ, zero, suc, ◌+◌, ◌-◌, ◌*◌, ◌/◌, ◌%◌, ◌^◌, ◌==◌, leb, if◌then◌else◌}

abbrev pub word_mod : ℕ
word_mod = 2 ^ 64

-- `(size_t)-1`
abbrev pub minus_one : ℕ
minus_one = 2 ^ 64 - 1

-- the null pointer
abbrev pub nullptr : ℕ
nullptr = 0

unfoldable pub add_word : ℕ → ℕ → ℕ
add_word a b = (a + b) % 2 ^ 64

unfoldable pub sub_word : ℕ → ℕ → ℕ
sub_word a b = (a + 2 ^ 64 - b) % 2 ^ 64

unfoldable pub mul_word : ℕ → ℕ → ℕ
mul_word a b = a * b % 2 ^ 64

-- `~a`
unfoldable pub not_word : ℕ → ℕ
not_word a = 2 ^ 64 - 1 - a

unfoldable pub and_word : ℕ → ℕ → ℕ
and_word a b = bit_and a b

-- The number of binary digits among the lowest `n`.
unfoldable pub width_of : ℕ → ℕ → ℕ
width_of zero x = 0
width_of (suc n) x = if x == 0 then 0 else suc (width_of n (x / 2))

-- `std::bit_width` of a `size_t`
unfoldable pub bit_width : ℕ → ℕ
bit_width x = width_of 64 x

-- `std::bit_ceil`: the least power of two that is not below `x`
unfoldable pub bit_ceil : ℕ → ℕ
bit_ceil x = if leb x 1 then 1 else 2 ^ bit_width (x - 1)

-- `((n + page_size - 1) / page_size) * page_size`, the rounding of `arena::arena` and `pool::init`
unfoldable pub round_to_page : ℕ → ℕ → ℕ
unfolding add_word sub_word mul_word
round_to_page n page_size = mul_word (sub_word (add_word n page_size) 1 / page_size) page_size
