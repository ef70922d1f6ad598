-- ===== src/Machine/PowerOfTwo.antt =====
-- `std::bit_width` and `std::bit_ceil`: what they compute of a `size_t`.
use native.Mathlib.Nat.{two-pow-succ, one-le-pow}
use slab_allocator.Base.{
  ℕ, zero, suc, ◌+◌, ◌-◌, ◌/◌, ◌^◌, ◌≤◌, ◌<◌, ◌≡◌, refl, arith, ◌==◌, leb, inl, inr, Bool-cases,
}
use slab_allocator.Machine.Word.{width_of, bit_width, bit_ceil}

pow_pos : (k : ℕ) → 1 ≤ 2 ^ k
pow_pos k = one-le-pow k 2 (omega arith)

width_of-le : (n x j : ℕ) → x < 2 ^ j → width_of n x ≤ j
unfolding width_of
width_of-le zero x j h = omega arith
width_of-le (suc n) x zero h = ground arith
width_of-le (suc n) x (suc j) h =
    ground (arith, width_of-le n (x / 2) j (omega (arith, two-pow-succ j)))

width_of-above : (n x : ℕ) → x < 2 ^ n → x < 2 ^ width_of n x
unfolding width_of
width_of-above zero x h = h
width_of-above (suc n) x h = elim (Bool-cases (x == 0)) [
  | inl e ↦ rw e (ground arith)
  | inr e ↦
      let half : x / 2 < 2 ^ n = omega (arith, two-pow-succ n) in
      rw (e, two-pow-succ) (omega (arith, width_of-above n (x / 2) half))
]

width_of-below : (n x : ℕ) → 1 ≤ x → x < 2 ^ n → 2 ^ width_of n x ≤ x + x
unfolding width_of
width_of-below zero x p h = absurd (omega arith)
width_of-below (suc n) zero p h = absurd (omega arith)
width_of-below (suc n) (suc zero) p h = ground (arith, width_of-zero n)
  where
    width_of-zero : (n : ℕ) → width_of n 0 ≡ 0
    width_of-zero zero = refl
    width_of-zero (suc n) = refl
width_of-below (suc n) (suc (suc x)) p h =
    let half : suc (suc x) / 2 < 2 ^ n = omega (arith, two-pow-succ n) in
    let step : width_of (suc n) (suc (suc x)) ≡ suc (width_of n (suc (suc x) / 2)) = ground arith in
    rw (step, two-pow-succ) (omega (arith, width_of-below n (suc (suc x) / 2) (omega arith) half))

-- `bit_ceil` gives a power of two that is not below its argument and less than twice as large.
pub bit_ceil_bounds :
    (x : ℕ)
    → 1 ≤ x
    → x ≤ 2 ^ 63
    → (k : ℕ) × (bit_ceil x ≡ 2 ^ k) × (k ≤ 63) × (x ≤ 2 ^ k) × (2 ^ k < x + x)
unfolding bit_ceil bit_width
bit_ceil_bounds x p h = elim (Bool-cases (leb x 1)) [
  | inl e ↦ (0, rw e, omega arith, ground arith, ground arith)
  | inr e ↦ (
    width_of 64 (x - 1),
    rw e,
    width_of-le 64 (x - 1) 63 (omega arith),
    omega (arith, width_of-above 64 (x - 1) (omega arith)),
    omega (arith, width_of-below 64 (x - 1) (ground arith) (omega arith)),
  )
]
