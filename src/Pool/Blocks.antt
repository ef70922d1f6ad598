-- ===== src/Pool/Blocks.antt =====
-- `pool::alloc` and `pool::free` as operations on the list of free blocks, and `pool::calloc`.
use mathlib.Core.List.{mem-cons_self, perm_middle}
use mathlib.Core.List.Perm
use slab_allocator.Base.{
  ℕ, ◌+◌, ◌-◌, ◌%◌, ◌^◌, ◌≤◌, ◌<◌, ◌≡◌, refl, ◌≢◌, ◌⊎◌, List, [], ◌∷◌, Mem, some, arith,
  assert-true, Build,
}
use slab_allocator.Machine.Word.{nullptr}
use slab_allocator.Machine.Memory.{
  Memory, store_word, load_word-store_word, load_word-store_word-Apart, store_word-outside,
}
use slab_allocator.Pool.{Pool, pop, push, alloc, free, check_asserts}
use slab_allocator.Pool.Layout.{
  Relisted, reshape, block_count-small, blocks, blocks_from-ge, blocks_from-end, blocks_from-mod,
}
use slab_allocator.Pool.Owns.{blocks-owned, check_asserts-pass}
use slab_allocator.Pool.Chain.{
  Chain, IsPool, Chain-agree, free-block, live-block, live-ne-free, count-free, blocks-Apart,
}

module _ {p : Pool} {m : Memory} {live free : List ℕ} (v : IsPool p m live free) where
  pub asserts-pass : (b : Build) → check_asserts b p ≡ some tt
  asserts-pass b = check_asserts-pass b p v.shaped (omega (arith, count-free v, v.counted))

  -- A block of the pool lies in its memory.
  pub block-inside :
      {a : ℕ} → Mem a (blocks p) → (p.memory ≤ a) × (a + p.block_size ≤ p.memory + p.capacity)
  block-inside k = (
    blocks_from-ge p.memory p.block_size p.block_count k,
    omega (arith, blocks_from-end p.memory p.block_size p.block_count k, v.shaped.fits),
  )

  -- The head of the free list is a machine word, and null exactly when nothing is free.
  pub free_list-small : p.free_list < 2 ^ 64
  free_list-small = head_small free v.chain (λ x k. free-block v k)
    where
      head_small :
          (xs : List ℕ)
          → Chain m p.free_list xs
          → ((x : ℕ) → Mem x xs → Mem x (blocks p))
          → p.free_list < 2 ^ 64
      head_small [] c h = omega arith
      head_small (x ∷ xs) c h = omega (arith, block-inside (h x mem-cons_self), v.shaped.in_space)

pub pop-IsPool :
    {p : Pool} {m : Memory} {live : List ℕ} (x : ℕ) (rest : List ℕ)
    → IsPool p m live (x ∷ rest)
    → IsPool (pop p m) m (x ∷ live) rest
unfolding pop
pop-IsPool {p} {m} {live} x rest v = record {
  shaped = reshape _ _ v.shaped;
  chain = rw v.chain.0 v.chain.2;
  counted = omega (arith, v.counted, count-free v, block_count-small v.shaped);
  partition = Perm.trans (Perm.symm (perm_middle live rest)) v.partition;
}

pub pop-Relisted : (p : Pool) (m : Memory) → Relisted p (pop p m)
unfolding pop
pop-Relisted p m = refl

pub push-IsPool :
    {p : Pool} {m : Memory} {live rest : List ℕ} (x : ℕ)
    → IsPool p m (x ∷ live) rest
    → IsPool (push p m x).0 (push p m x).1 live (x ∷ rest)
unfolding push
push-IsPool {p} {m} {live} {rest} x v =
    let inside = block-inside v (live-block v mem-cons_self) in
    record {
      shaped = reshape _ _ v.shaped;
      chain = (
        refl,
        omega (arith, inside.0, v.shaped.mapped),
        rw (load_word-store_word m x p.free_list (free_list-small v)) (
            Chain-agree m (store_word m x p.free_list) p.free_list rest
              (λ y k. load_word-store_word-Apart m x p.free_list y (
                blocks-Apart p v.shaped (live-block v mem-cons_self) (free-block v k)
                  (live-ne-free v mem-cons_self k)))
              v.chain),
      );
      counted = omega (arith, v.counted, count-free v, block_count-small v.shaped);
      partition = Perm.trans (perm_middle live rest) v.partition;
    }

-- The branch of `alloc` that hands out a block.
pub alloc-pop :
    {p : Pool} {m : Memory} {live : List ℕ} (b : Build) (x : ℕ) (rest : List ℕ)
    → IsPool p m live (x ∷ rest)
    → alloc b p m ≡ some (x, pop p m)
unfolding alloc
alloc-pop b x rest v = ground (arith, v.chain.0, v.chain.1, asserts-pass v b)

-- The branch of `alloc` that refuses.
pub alloc-empty :
    {p : Pool} {m : Memory} {live : List ℕ} (b : Build)
    → IsPool p m live []
    → alloc b p m ≡ some (nullptr, p)
unfolding alloc
alloc-empty b v = ground (arith, v.chain)

-- The branch of `free` that takes a block back.
pub free-push :
    {p : Pool} {m : Memory} {live rest : List ℕ} (b : Build) (x : ℕ)
    → IsPool p m (x ∷ live) rest
    → free b p m x ≡ some (push p m x)
unfolding free
free-push {p} {m} b x v =
    let x_block = live-block v mem-cons_self in
    let ne : x ≢ nullptr = omega (arith, block-inside v x_block, v.shaped.mapped) in
    ground (arith, ne, asserts-pass v b, blocks-owned p v.shaped x_block, assert-true b)

-- What `alloc` promises of its result, by the list of free blocks: null and an unchanged pool when
-- it is empty, else its first block, which now counts as handed out.
abbrev pub Allocated : Pool → Memory → List ℕ → List ℕ → ℕ × Pool → Type 0
Allocated p m live [] (ptr, q) = (ptr ≡ nullptr) × (q ≡ p)
Allocated p m live (x ∷ rest) (ptr, q) =
    (ptr ≡ x)
    × IsPool q m (x ∷ live) rest
    × (p.memory ≤ ptr)
    × (ptr + p.block_size ≤ p.memory + p.capacity)
    × ((ptr - p.memory) % p.block_size ≡ 0)
    × Relisted p q

-- `pool::alloc` of a pool that meets the invariant returns, in either build: null and the pool
-- unchanged when no block is free, else the first free block, which lies in the pool's memory on a
-- multiple of the block size and then counts as handed out; the invariant holds again, and nothing
-- of the pool changes but its free list and count.
pub alloc-Allocated :
    {p : Pool} {m : Memory} {live : List ℕ} (b : Build) (rest : List ℕ)
    → IsPool p m live rest
    → (r : ℕ × Pool) × (alloc b p m ≡ some r) × Allocated p m live rest r
unfolding alloc
alloc-Allocated {p} {m} b [] v = ((nullptr, p), ground (arith, v.chain), (refl, refl))
alloc-Allocated {p} {m} b (x ∷ rest) v =
    let x_block = free-block v mem-cons_self in
    (
      (x, pop p m),
      alloc-pop b x rest v,
      (
        refl,
        pop-IsPool x rest v,
        (block-inside v x_block).0,
        (block-inside v x_block).1,
        blocks_from-mod p.memory p.block_size p.block_count x_block,
        unfold pop in refl,
      ),
    )

-- A block that is handed out can be freed: `pool::free` passes its assertions, puts the block in
-- front of the free list, keeps the invariant, changes nothing else of the pool, and writes to no
-- other byte than the first eight of that block.
pub free_lem :
    {p : Pool} {m : Memory} {live rest : List ℕ} (b : Build) (x : ℕ)
    → IsPool p m (x ∷ live) rest
    → (q : Pool) × (m' : Memory) × (free b p m x ≡ some (q, m'))
      × IsPool q m' live (x ∷ rest)
      × ((i : ℕ) → (i < x) ⊎ (x + 8 ≤ i) → m' i ≡ m i)
      × Relisted p q
free_lem {p} {m} b x v = (
  (push p m x).0,
  (push p m x).1,
  free-push b x v,
  push-IsPool x v,
  unfold push in λ i h. store_word-outside m x p.free_list i h,
  unfold push in refl,
)
