-- ===== src/Pool/Owns.antt =====
-- `pool::owns` and the debug checks.
use slab_allocator.Base.{
  ℕ, ◌+◌, ◌-◌, ◌*◌, ◌%◌, ◌^◌, ◌≤◌, ◌<◌, ◌≡◌, refl, ◌↔◌, inl, inr, ◌||◌, ◌==◌, ltb, leb,
  if◌then◌else◌, true, false, some, arith, Mem, Build, debug, release, Bool-cases,
}
use slab_allocator.Machine.Bits.{and_word-mask}
use slab_allocator.Pool.{Pool, owns, check_asserts}
use slab_allocator.Pool.Layout.{IsShaped, blocks, blocks_from-ge, blocks_from-end, blocks_from-mod}

-- `owns` without the wrap of machine words.
owns_lem :
    (p : Pool) (ptr : ℕ)
    → IsShaped p
    → ptr < 2 ^ 64
    → owns p ptr ≡ (
        if ltb ptr p.memory || leb (p.memory + p.capacity) ptr
        then false
        else (ptr - p.memory) % p.block_size == 0)
unfolding owns
owns_lem p ptr v h =
    let mask : (p.block_size + 2 ^ 64 - 1) % 2 ^ 64 ≡ 2 ^ v.exponent - 1 =
      omega (arith, v.wide, v.small, v.sized) in
    let end : (p.memory + p.capacity) % 2 ^ 64 ≡ p.memory + p.capacity =
      omega (arith, v.in_space) in
    elim (Bool-cases (ltb ptr p.memory)) [
      | inl e ↦ rw e
      | inr e ↦
          let offset : (ptr + 2 ^ 64 - p.memory) % 2 ^ 64 ≡ ptr - p.memory = ground arith in
          rw (mask, end, offset, and_word-mask, v.sized)
    ]

-- For a pool of the shape that `init` establishes, `owns` holds of just the machine words that are
-- addresses in the pool's memory and a multiple of the block size behind its start.
pub owns_iff :
    (p : Pool) (ptr : ℕ)
    → IsShaped p
    → ptr < 2 ^ 64
    → (owns p ptr ≡ true)
      ↔ ((p.memory ≤ ptr) × (ptr < p.memory + p.capacity) × ((ptr - p.memory) % p.block_size ≡ 0))
owns_iff p ptr v h = rw (owns_lem p ptr v h) (λ e. ground arith, λ e. ground arith)

pub blocks-owned : (p : Pool) {a : ℕ} → IsShaped p → Mem a (blocks p) → owns p a ≡ true
blocks-owned p {a} v m =
    let inside = blocks_from-end p.memory p.block_size p.block_count m in
    (owns_iff p a v (omega (arith, v.fits, v.in_space, v.wide))).1 (
      blocks_from-ge p.memory p.block_size p.block_count m,
      omega (arith, v.fits, v.wide),
      blocks_from-mod p.memory p.block_size p.block_count m,
    )

-- In a pool that is in use the debug checks pass, so both builds go on; one block more than there
-- are does not trip them.
pub check_asserts-pass :
    (b : Build) (p : Pool)
    → IsShaped p
    → p.free_count ≤ p.block_count + 1
    → check_asserts b p ≡ some tt
unfolding check_asserts
check_asserts-pass release p v h = refl
check_asserts-pass debug p v h =
    let small : p.block_count ≤ p.block_count * p.block_size = grind (arith, v.wide) in
    ground (arith, v.fits, v.in_space, v.small, v.mapped)
