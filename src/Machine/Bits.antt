-- ===== src/Machine/Bits.antt =====
-- Laws of `&` with a mask, and of `std::bit_width` and `std::bit_ceil`.
use Prim.Native.Nat.{digits, bit_and, bit_and-bitwise}
use native.Mathlib.Nat.{two-pow-succ, one-le-pow}
use slab_allocator.Base.{
  ℕ, zero, suc, ◌+◌, ◌-◌, ◌*◌, ◌/◌, ◌%◌, ◌^◌, ◌≤◌, ◌<◌, min, ◌≡◌, refl, arith,
}
use slab_allocator.Machine.Word.{and_word, not_word}

-- What the native `&` stands for, on `n` digits.
abbrev and_on : ℕ → ℕ → ℕ → ℕ
and_on n a b = digits (λ b. zero) min n a b

and_on-enough : (n k a b : ℕ) → a ≤ n → a ≤ k → and_on n a b ≡ and_on k a b
and_on-enough zero zero a b p q = refl
and_on-enough zero (suc k) zero b p q = refl
and_on-enough zero (suc k) (suc a) b p q = elim p [ ]
and_on-enough (suc n) zero zero b p q = refl
and_on-enough (suc n) zero (suc a) b p q = elim q [ ]
and_on-enough (suc n) (suc k) zero b p q = refl
and_on-enough (suc n) (suc k) (suc a) b p q =
    let rest = and_on-enough n k (suc a / 2) (b / 2) (omega arith) (omega arith) in
    omega (arith, rest)

-- One digit of `&`.
bit_and-half : (a b : ℕ) → bit_and a b ≡ bit_and (a / 2) (b / 2) * 2 + min (a % 2) (b % 2)
bit_and-half zero b =
    let at_zero = λ (c : ℕ). bit_and-bitwise 0 c in omega (arith, at_zero b, at_zero (b / 2))
bit_and-half (suc a) b =
    let half = suc a / 2 in
    let enough = and_on-enough a half half (b / 2) (omega arith) (omega arith) in
    omega (arith, bit_and-bitwise (suc a) b, bit_and-bitwise half (b / 2), enough)

bit_and-none : (n a : ℕ) → a ≤ n → bit_and a 0 ≡ 0
bit_and-none n zero h = refl
bit_and-none zero (suc a) h = elim h [ ]
bit_and-none (suc n) (suc a) h =
    omega (arith, bit_and-half (suc a) 0, bit_and-none n (suc a / 2) (omega arith))

half_mask : (p : ℕ) → 1 ≤ p → (p + p - 1) / 2 ≡ p - 1
half_mask p h = omega arith

odd_mask : (p : ℕ) → 1 ≤ p → (p + p - 1) % 2 ≡ 1
odd_mask p h = omega arith

mod-double : (a p : ℕ) → 1 ≤ p → a % (p + p) ≡ a / 2 % p * 2 + a % 2
mod-double a p h = grind arith

-- A mask of `k` ones keeps the remainder by 2^k.
pub bit_and-mask : (k a : ℕ) → bit_and a (2 ^ k - 1) ≡ a % 2 ^ k
bit_and-mask zero a = omega (arith, bit_and-none a a (omega arith))
bit_and-mask (suc k) a =
    let p = 2 ^ k in
    let halves = two-pow-succ k in
    let pos = one-le-pow k 2 (omega arith) in
    rw (halves, bit_and-half a (p + p - 1), half_mask p pos, odd_mask p pos, bit_and-mask k (a / 2))
      (omega (arith, mod-double a p pos))

-- `x & ~15` rounds down to a multiple of 16.
pub and_word-not_word_15 : (x : ℕ) → x < 2 ^ 64 → and_word x (not_word 15) ≡ x / 16 * 16
unfolding and_word not_word
and_word-not_word_15 x h =
    let high = bit_and-mask 60 (x / 2 / 2 / 2 / 2) in
    omega (
      arith,
      bit_and-half x (2 ^ 64 - 16),
      bit_and-half (x / 2) (2 ^ 63 - 8),
      bit_and-half (x / 2 / 2) (2 ^ 62 - 4),
      bit_and-half (x / 2 / 2 / 2) (2 ^ 61 - 2),
      high,
    )

-- A mask made from a power of two, as `offset & (block_size - 1)`.
pub and_word-mask : (k a : ℕ) → and_word a (2 ^ k - 1) ≡ a % 2 ^ k
unfolding and_word
and_word-mask k a = bit_and-mask k a
