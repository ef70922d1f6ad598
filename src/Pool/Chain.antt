-- ===== src/Pool/Chain.antt =====
-- The free list in memory, and the invariant of a pool in use.
use mathlib.Core.List.{
  mem-cons_self, mem-cons_of_mem, mem-append_right, mem-append_left, Nodup-append,
}
use mathlib.Core.List.Perm
use slab_allocator.Base.{
  ℕ, ◌+◌, ◌≡◌, ◌≢◌, List, [], ◌∷◌, ◌++◌, Mem, Perm, Nodup, length, arith, length-append,
  length-perm, sym, ◌∙◌,
}
use slab_allocator.Machine.Word.{nullptr}
use slab_allocator.Machine.Memory.{Memory, Apart, load_word}
use slab_allocator.Pool.{Pool}
use slab_allocator.Pool.Layout.{
  IsShaped, blocks, blocks_from-apart, blocks_from-Nodup, length-blocks_from,
}

-- From `head` the pointers in the blocks lead through `xs` to null.
abbrev pub Chain : Memory → ℕ → List ℕ → Type 0
Chain m head [] = head ≡ nullptr
Chain m head (x ∷ xs) = (head ≡ x) × (x ≢ nullptr) × Chain m (load_word m x) xs

-- The pool `p` over the memory `m` has handed out the blocks `live`, and the blocks `free` are on
-- its free list, in this order. Together they are all its blocks.
pub record IsPool (p : Pool) (m : Memory) (live free : List ℕ) : Type 0 where
  pub shaped : IsShaped p
  pub chain : Chain m p.free_list free
  pub counted : p.free_count ≡ length free
  pub partition : Perm (live ++ free) (blocks p)

pub Chain-agree :
    (m m' : Memory) (head : ℕ) (xs : List ℕ)
    → ((x : ℕ) → Mem x xs → load_word m' x ≡ load_word m x)
    → Chain m head xs
    → Chain m' head xs
Chain-agree m m' head [] same c = c
Chain-agree m m' head (x ∷ xs) same c = (
  c.0,
  c.1,
  rw (same x mem-cons_self)
      (Chain-agree m m' (load_word m x) xs (λ y k. same y (mem-cons_of_mem x k)) c.2),
)

module _ {p : Pool} {m : Memory} {live free : List ℕ} (v : IsPool p m live free) where
  pub free-block : {a : ℕ} → Mem a free → Mem a (blocks p)
  free-block k = (Perm.mem_iff v.partition).0 (mem-append_right live k)

  pub live-block : {a : ℕ} → Mem a live → Mem a (blocks p)
  live-block k = (Perm.mem_iff v.partition).0 (mem-append_left free k)

  pub distinct : Nodup (live ++ free)
  distinct =
      Perm.nodup (Perm.symm v.partition)
        (blocks_from-Nodup p.memory p.block_size p.block_count (omega (arith, v.shaped.wide)))

  pub live-ne-free : {a b : ℕ} → Mem a live → Mem b free → a ≢ b
  live-ne-free {a} {b} k l e = (Nodup-append.0 distinct).2 a k (rw e l)

  pub count-free : length live + length free ≡ p.block_count
  count-free =
      sym (length-append live free)
      ∙ length-perm v.partition
      ∙ length-blocks_from p.memory p.block_size p.block_count

  -- The invariant speaks of the blocks that are handed out in no order.
  pub IsPool-perm : {live' : List ℕ} → Perm live live' → IsPool p m live' free
  IsPool-perm h = record {
    shaped = v.shaped;
    chain = v.chain;
    counted = v.counted;
    partition = Perm.trans (Perm.append_right free (Perm.symm h)) v.partition;
  }

  -- A write that spares the first word of each free block keeps the invariant.
  pub IsPool-agree :
      {m' : Memory}
      → ((x : ℕ) → Mem x free → load_word m' x ≡ load_word m x)
      → IsPool p m' live free
  IsPool-agree {m'} same = record {
    shaped = v.shaped;
    chain = Chain-agree m m' p.free_list free same v.chain;
    counted = v.counted;
    partition = v.partition;
  }

-- Two different blocks share no word.
pub blocks-Apart :
    (p : Pool) {a b : ℕ} → IsShaped p → Mem a (blocks p) → Mem b (blocks p) → a ≢ b → Apart a b
blocks-Apart p {a} {b} v k l ne =
    let up = blocks_from-apart p.memory p.block_size p.block_count k l in
    let down = blocks_from-apart p.memory p.block_size p.block_count l k in
    ground (arith, up, down, v.wide)
