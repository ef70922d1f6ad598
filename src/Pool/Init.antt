-- ===== src/Pool/Init.antt =====
-- `pool::init`, `pool::reset` and the free list that both build.
use mathlib.Core.List.Perm
use native.Mathlib.Nat.{pow-le-pow_right}
use slab_allocator.Base.{
  ℕ, zero, suc, ◌+◌, ◌-◌, ◌*◌, ◌%◌, ◌^◌, ◌≤◌, ◌<◌, ◌≡◌, refl, sym, ◌∙◌, ap, ap₂, subst, inl, inr,
  List, [], ◌∷◌, some, arith, Build, debug, release, if◌then◌else◌, ltb,
}
use slab_allocator.Machine.Word.{nullptr, add_word, mul_word, bit_ceil, round_to_page}
use slab_allocator.Machine.PowerOfTwo.{bit_ceil_bounds}
use slab_allocator.Machine.PageRounding.{round_to_page_bounds}
use slab_allocator.Machine.Memory.{
  Memory, store_word, load_word-store_word, load_word-store_word-Apart, store_word-outside,
}
use slab_allocator.Platform.{Os, Result, ok, bad_alloc, mem_alloc, page_size}
use slab_allocator.Platform.Laws.{Region, region, IsPosix, IsFresh, mem_alloc_cases, ne-eqb}
use slab_allocator.Pool.{
  Pool, cleared, free_list_loop, init_free_list, init_sized, init, reset, pointer_size,
}
use slab_allocator.Pool.Layout.{
  Relisted, Elsewhere, IsShaped, reshape, blocks, blocks_from, blocks_from-ge, length-blocks_from,
}
use slab_allocator.Pool.Chain.{Chain, Chain-agree, IsPool}
use slab_allocator.Pool.Blocks.{asserts-pass}

-- The state of the loop: the blocks from index `i` on are linked, and nothing was written outside
-- the pool.
record Linked (p : Pool) (i : ℕ) (m₀ : Memory) (list : ℕ) (m : Memory) : Type 0 where
  small : list < 2 ^ 64
  chain : Chain m list (blocks_from (p.memory + i * p.block_size) p.block_size (p.block_count - i))
  same : (j : ℕ) → Elsewhere p j → m j ≡ m₀ j

link_one :
    (p : Pool) (i : ℕ) (m₀ : Memory) (list : ℕ) (m : Memory)
    → IsShaped p
    → suc i ≤ p.block_count
    → Linked p (suc i) m₀ list m
    → Linked p i m₀ (p.memory + i * p.block_size) (store_word m (p.memory + i * p.block_size) list)
unfolding blocks_from
link_one p i m₀ list m v h l =
    let block = p.memory + i * p.block_size in
    let room : suc i * p.block_size ≤ p.block_count * p.block_size = grind arith in
    let left : p.block_count - i ≡ suc (p.block_count - suc i) = omega arith in
    let here : p.memory + suc i * p.block_size ≡ block + p.block_size = omega arith in
    record {
      small = omega (arith, v.in_space, v.fits, v.wide);
      chain = rw left (
        refl,
        omega (arith, v.mapped),
        rw (load_word-store_word m block list l.small) (
            Chain-agree m (store_word m block list) list
              (blocks_from (block + p.block_size) p.block_size (p.block_count - suc i))
              (λ x k.
                let above =
                  blocks_from-ge (block + p.block_size) p.block_size (p.block_count - suc i) k in
                load_word-store_word-Apart m block list x (inl (omega (arith, v.wide))))
              (subst (λ a. Chain m list (blocks_from a p.block_size (p.block_count - suc i))) here
                l.chain)),
      );
      same =
          λ j o. store_word-outside m block list j (omega (arith, o, v.fits, v.wide)) ∙ l.same j o;
    }

-- One round of the loop, without the wrap of machine words.
loop_step :
    (p : Pool) (i : ℕ) (list : ℕ) (m : Memory)
    → IsShaped p
    → suc i ≤ p.block_count
    → free_list_loop p (suc i) list m
      ≡ free_list_loop p i
          (p.memory + i * p.block_size)
          (store_word m (p.memory + i * p.block_size) list)
unfolding free_list_loop add_word mul_word
loop_step p i list m v h =
    let room : suc i * p.block_size ≤ p.block_count * p.block_size = grind arith in
    let block : (p.memory + i * p.block_size % 2 ^ 64) % 2 ^ 64 ≡ p.memory + i * p.block_size =
      omega (arith, v.fits, v.in_space) in
    ap (λ (a : ℕ). free_list_loop p i a (store_word m a list)) block

loop-Linked :
    (p : Pool) (i : ℕ) (m₀ : Memory) (list : ℕ) (m : Memory)
    → IsShaped p
    → i ≤ p.block_count
    → Linked p i m₀ list m
    → Linked p 0 m₀ (free_list_loop p i list m).0 (free_list_loop p i list m).1
loop-Linked p zero m₀ list m v h l = unfold free_list_loop in l
loop-Linked p (suc i) m₀ list m v h l =
    let block = p.memory + i * p.block_size in
    rw (loop_step p i list m v h) (
      loop-Linked p i m₀ block (store_word m block list) v (omega arith)
        (link_one p i m₀ list m v h l))

-- `init_free_list` frees every block, by rising address, and writes to the pool's memory alone.
init_free_list-IsPool :
    (p : Pool) (count : ℕ) (m : Memory)
    → IsShaped p
    → count ≡ p.block_count
    → let (q, m') = init_free_list p m in
      IsPool (record q { free_count = count }) m' [] (blocks p)
      × ((j : ℕ) → Elsewhere p j → m' j ≡ m j)
unfolding init_free_list
init_free_list-IsPool p count m v e =
    let none_left : p.block_count - p.block_count ≡ 0 = omega arith in
    let first : blocks_from (p.memory + 0 * p.block_size) p.block_size (p.block_count - 0)
        ≡ blocks p =
      ap₂ (λ (a n : ℕ). blocks_from a p.block_size n) (omega arith) (omega arith) in
    let linked = loop-Linked p p.block_count m nullptr m v (omega arith) (record {
      small = omega arith;
      chain = unfold blocks_from in rw none_left refl;
      same = λ j o. refl;
    }) in
    (
      record {
        shaped = reshape _ _ v;
        chain = subst (Chain _ _) first linked.chain;
        counted = e ∙ sym (length-blocks_from p.memory p.block_size p.block_count);
        partition = Perm.refl (blocks p);
      },
      linked.same,
    )

-- `pool::reset` of a pool in use frees every block again, whoever holds it, and writes to the pool's
-- memory alone; nothing else of the pool changes, and no assertion fails.
pub reset_lem :
    {p : Pool} {m : Memory} {live rest : List ℕ} (b : Build)
    → IsPool p m live rest
    → (q : Pool) × (m' : Memory) × (reset b p m ≡ some (q, m'))
      × IsPool q m' [] (blocks p)
      × ((j : ℕ) → Elsewhere p j → m' j ≡ m j)
      × Relisted p q
unfolding reset
reset_lem {p} {m} b v =
    let whole = init_free_list-IsPool p p.block_count m v.shaped refl in
    (
      record (init_free_list p m).0 { free_count = p.block_count },
      (init_free_list p m).1,
      rw (asserts-pass v b),
      whole.0,
      whole.1,
      unfold init_free_list in refl,
    )

-- The block size that `init` takes for a requested one.
abbrev pub rounded_size : ℕ → ℕ
rounded_size n = bit_ceil (if ltb n pointer_size then pointer_size else n)

size_bounds :
    (size : ℕ)
    → size ≤ 2 ^ 63
    → (k : ℕ) × (rounded_size size ≡ 2 ^ k)
      × (size ≤ rounded_size size)
      × (8 ≤ rounded_size size)
      × (rounded_size size ≤ 2 ^ 63)
size_bounds size h =
    let raised : ℕ = if ltb size pointer_size then pointer_size else size in
    let wide : (8 ≤ raised) × (size ≤ raised) × (raised ≤ 2 ^ 63) = ground arith in
    let up = bit_ceil_bounds raised (omega arith) (omega arith) in
    let top : 2 ^ up.0 ≤ 2 ^ 63 = pow-le-pow_right (omega arith) up.2 in
    (up.0, up.1, omega (arith, up.1), omega (arith, up.1), omega (arith, up.1))

module _ {S : Type 0} (os : Os S) (mapped : S → List Region) where
  -- What `init` makes. On success every block is free, the block size is a power of two that holds
  -- a pointer and the requested size, the pool owns one new region, and no byte outside of it is
  -- written. An exception leaves no mapping behind, and no assertion fails.
  pub data Initialised (size count : ℕ) (m : Memory) (s : S)
      : Result Pool (Pool × Memory) S → Type 0 where
    done :
        {q : Pool} {m' : Memory} {s' : S}
        → IsPool q m' [] (blocks q)
        → q.block_count ≡ count
        → q.block_size ≡ rounded_size size
        → size ≤ q.block_size
        → IsFresh os mapped q.capacity q.memory s
        → mapped s' ≡ region q.memory q.capacity ∷ mapped s
        → ((j : ℕ) → Elsewhere q j → m' j ≡ m j)
        → Initialised size count m s (ok (q, m') s')
    thrown :
        {q : Pool} {s' : S} → mapped s' ≡ mapped s → Initialised size count m s (bad_alloc q s')

module _ {S : Type 0} {os : Os S} {mapped : S → List Region} (posix : IsPosix os mapped) where
  init_sized-Initialised :
      (size count : ℕ) (m : Memory) (s : S)
      → size ≤ 2 ^ 63
      → rounded_size size * count + os.getpagesize < 2 ^ 64
      → Initialised os mapped size count m s (
          init_sized os
            (record cleared { block_size = rounded_size size; block_count = count })
            m
            s)
  unfolding init_sized init_free_list page_size mul_word
  init_sized-Initialised size count m s small h =
      let block = rounded_size size in
      let known = size_bounds size small in
      let total : block * count % 2 ^ 64 ≡ block * count = omega arith in
      let n = round_to_page (block * count) os.getpagesize in
      let room = round_to_page_bounds (block * count) os.getpagesize posix.page_pos h in
      rw total (elim (mem_alloc_cases posix n s) [
        | inl (null, same) ↦ rw null (thrown same)
        | inr (fresh, new) ↦
            let p = record cleared {
              block_size = block;
              block_count = count;
              capacity = n;
              memory = (mem_alloc os n s).0;
            } in
            let shaped : IsShaped p = record {
              mapped = fresh.ne_null;
              exponent = known.0;
              sized = known.1;
              wide = known.3;
              small = known.4;
              fits = omega arith;
              in_space = fresh.in_space;
            } in
            let whole = init_free_list-IsPool p count m shaped refl in
            rw (ne-eqb _ fresh.ne_null) (done whole.0 refl refl known.2 fresh new whole.1)
      ])

  -- `pool::init` of a cleared pool makes a pool with every block free, of a block size that is a
  -- power of two, holds a pointer and the requested size, in one new region, and writes to that
  -- region alone; or it throws and leaves no mapping behind. The requested size is at most 2^63, and
  -- all blocks together and a page more fit a machine word.
  pub init-Initialised :
      (b : Build) (size count : ℕ) (m : Memory) (s : S)
      → size ≤ 2 ^ 63
      → rounded_size size * count + os.getpagesize < 2 ^ 64
      → Initialised os mapped size count m s (init b os cleared size count m s)
  unfolding init cleared
  init-Initialised debug size count m s small h = init_sized-Initialised size count m s small h
  init-Initialised release size count m s small h = init_sized-Initialised size count m s small h
