-- ===== src/Pool/Layout.antt =====
-- Where the blocks of a pool lie.
use mathlib.Core.List.{mem-cons, not-mem-nil, Nodup-cons, Nodup-nil}
use mathlib.Core.Logic.Or
use native.Mathlib.Bridge.{le_prop}
use native.Mathlib.Nat.{ℕ_set, add-mod_right}
use slab_allocator.Base.{
  ℕ, zero, suc, ◌+◌, ◌-◌, ◌*◌, ◌%◌, ◌^◌, ◌≤◌, ◌<◌, ◌≡◌, refl, ◌⊎◌, ◌≢◌, List, [], ◌∷◌, Mem, Nodup,
  length, arith, ap, ◌∙◌,
}
use slab_allocator.Pool.{Pool}

-- `n` blocks of `size` bytes from `base` on.
unfoldable pub blocks_from : ℕ → ℕ → ℕ → List ℕ
blocks_from base size zero = []
blocks_from base size (suc n) = base ∷ blocks_from (base + size) size n

-- The blocks of a pool, by rising address.
abbrev pub blocks : Pool → List ℕ
blocks p = blocks_from p.memory p.block_size p.block_count

-- Bytes outside the pool's memory.
abbrev pub Elsewhere : Pool → ℕ → Type 0
Elsewhere p j = (j < p.memory) ⊎ (p.memory + p.capacity ≤ j)

-- What `init` establishes and nothing changes afterwards: the blocks are a power of two in size, can
-- hold a pointer, and lie in the pool's memory.
pub record IsShaped (p : Pool) : Type 0 where
  pub mapped : p.memory ≢ 0
  pub exponent : ℕ
  pub sized : p.block_size ≡ 2 ^ exponent
  pub wide : 8 ≤ p.block_size
  pub small : p.block_size ≤ 2 ^ 63
  pub fits : p.block_count * p.block_size ≤ p.capacity
  pub in_space : p.memory + p.capacity < 2 ^ 64

-- `q` is `p` with another free list and count.
abbrev pub Relisted : Pool → Pool → Type 0
Relisted p q = q ≡ record p { free_list = q.free_list; free_count = q.free_count }

pub Relisted-trans : (p q r : Pool) → Relisted p q → Relisted q r → Relisted p r
Relisted-trans p q r h k =
    k ∙ ap (λ (s : Pool). record s { free_list = r.free_list; free_count = r.free_count }) h

-- The shape does not depend on the free list and its count.
pub reshape :
    {p : Pool} (list count : ℕ)
    → IsShaped p
    → IsShaped (record p { free_list = list; free_count = count })
reshape list count v = record {
  mapped = v.mapped;
  exponent = v.exponent;
  sized = v.sized;
  wide = v.wide;
  small = v.small;
  fits = v.fits;
  in_space = v.in_space;
}

pub block_count-small : {p : Pool} → IsShaped p → p.block_count < 2 ^ 61
block_count-small {p} v =
    let eight : p.block_count * 8 ≤ p.block_count * p.block_size = grind (arith, v.wide) in
    omega (arith, v.fits, v.in_space)

pub length-blocks_from : (base size n : ℕ) → length (blocks_from base size n) ≡ n
unfolding blocks_from
length-blocks_from base size zero = refl
length-blocks_from base size (suc n) = ap suc (length-blocks_from (base + size) size n)

pub blocks_from-ge : (base size n : ℕ) {a : ℕ} → Mem a (blocks_from base size n) → base ≤ a
unfolding blocks_from
blocks_from-ge base size zero m = absurd (not-mem-nil m)
blocks_from-ge base size (suc n) m =
    Or.elim le_prop (mem-cons.0 m) (λ e. omega arith)
      (λ k. omega (arith, blocks_from-ge (base + size) size n k))

pub blocks_from-end :
    (base size n : ℕ) {a : ℕ} → Mem a (blocks_from base size n) → a + size ≤ base + n * size
unfolding blocks_from
blocks_from-end base size zero m = absurd (not-mem-nil m)
blocks_from-end base size (suc n) m =
    Or.elim le_prop (mem-cons.0 m) (λ e. omega arith)
      (λ k. omega (arith, blocks_from-end (base + size) size n k))

-- Two blocks overlap nowhere.
pub blocks_from-apart :
    (base size n : ℕ) {a b : ℕ}
    → Mem a (blocks_from base size n)
    → Mem b (blocks_from base size n)
    → a < b
    → a + size ≤ b
unfolding blocks_from
blocks_from-apart base size zero m k lt = absurd (not-mem-nil m)
blocks_from-apart base size (suc n) {a} {b} m k lt =
    Or.elim le_prop (mem-cons.0 m)
      (λ e.
        Or.elim le_prop (mem-cons.0 k) (λ e'. absurd (omega arith))
          (λ k'. omega (arith, blocks_from-ge (base + size) size n k')))
      (λ m'.
        Or.elim le_prop (mem-cons.0 k)
          (λ e'. absurd (omega (arith, blocks_from-ge (base + size) size n m')))
          (λ k'. blocks_from-apart (base + size) size n m' k' lt))

pub blocks_from-mod :
    (base size n : ℕ) {a : ℕ} → Mem a (blocks_from base size n) → (a - base) % size ≡ 0
unfolding blocks_from
blocks_from-mod base size zero m = absurd (not-mem-nil m)
blocks_from-mod base size (suc n) {a} m =
    Or.elim (ℕ_set _ _) (mem-cons.0 m) (λ e. grind arith)
      (λ k.
        let above = blocks_from-ge (base + size) size n k in
        let ih = blocks_from-mod (base + size) size n k in
        let gap : a - base ≡ a - (base + size) + size = omega arith in
        rw gap (add-mod_right (a - (base + size)) size ∙ ih))

pub blocks_from-Nodup : (base size n : ℕ) → 1 ≤ size → Nodup (blocks_from base size n)
unfolding blocks_from
blocks_from-Nodup base size zero h = Nodup-nil
blocks_from-Nodup base size (suc n) h = Nodup-cons.1 (
  (λ m. absurd (omega (arith, blocks_from-ge (base + size) size n m))),
  blocks_from-Nodup (base + size) size n h,
)
