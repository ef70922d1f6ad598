-- ===== src/Pool/DoubleFree.antt =====
-- What becomes of a pool (src/pool.cpp) when the first block of its free list is freed once more.
use mathlib.Core.List.{mem-cons_self}
use slab_allocator.Base.{ℕ, ◌+◌, ◌≤◌, ◌≡◌, refl, ◌∙◌, List, ◌∷◌, some, arith, Build, assert-true}
use slab_allocator.Machine.Memory.{Memory, load_word, load_word-store_word}
use slab_allocator.Platform.Laws.{ne-eqb}
use slab_allocator.Pool.{Pool, pop, push, alloc, free_one, free_loop, free_batched_internal}
use slab_allocator.Pool.Layout.{IsShaped, reshape, block_count-small}
use slab_allocator.Pool.Owns.{blocks-owned, check_asserts-pass}
use slab_allocator.Pool.Chain.{IsPool, free-block, count-free}
use slab_allocator.Pool.Blocks.{asserts-pass, free_list-small}

module _ {p : Pool} {m : Memory} {live rest : List ℕ} (x : ℕ) (v : IsPool p m live (x ∷ rest)) where
  free_one-head : (b : Build) → free_one b p m x ≡ some (push p m x)
  unfolding free_one
  free_one-head b =
      rw (ne-eqb x v.chain.1, blocks-owned p v.shaped (free-block v mem-cons_self), assert-true b)

  -- The block is then linked to itself.
  push-head : load_word (push p m x).1 x ≡ x
  unfolding push
  push-head = load_word-store_word m x p.free_list (free_list-small v) ∙ v.chain.0

  alloc-head :
      (b : Build) (q : Pool)
      → IsShaped q
      → q.free_list ≡ x
      → q.free_count ≤ q.block_count + 1
      → alloc b q (push p m x).1 ≡ some (x, pop q (push p m x).1)
  unfolding alloc
  alloc-head b q w e n = ground (arith, check_asserts-pass b q w n, v.chain.1)

  count_small : p.free_count ≤ p.block_count
  count_small = omega (arith, v.counted, count-free v)

  -- A batch of one block, which is the first one on the free list already: the assertions pass, and
  -- then the pool hands the block out twice in a row.
  pub alloc-free_again :
      (b : Build) (tail : List ℕ)
      → (q : Pool) × (m' : Memory) × (free_batched_internal b p m 1 (some (x ∷ tail))
          ≡ some (q, m'))
        × (q₁ : Pool) × (alloc b q m' ≡ some (x, q₁))
        × (q₂ : Pool) × (alloc b q₁ m' ≡ some (x, q₂))
  unfolding free_batched_internal free_loop
  alloc-free_again b tail =
      let q = (push p m x).0 in
      let m' = (push p m x).1 in
      let room = block_count-small v.shaped in
      let q_shaped : IsShaped q = unfold push in reshape _ _ v.shaped in
      let q_head : q.free_list ≡ x = unfold push in refl in
      let q_count : q.free_count ≡ p.free_count + 1 = unfold push in omega (arith, count_small) in
      let q_blocks : q.block_count ≡ p.block_count = unfold push in refl in
      let again : IsShaped (pop q m') = unfold pop in reshape _ _ q_shaped in
      let again_head : (pop q m').free_list ≡ x = unfold pop in rw q_head push-head in
      let again_count : (pop q m').free_count ≤ (pop q m').block_count + 1 =
        unfold pop in omega (arith, q_count, q_blocks, count_small) in
      (
        q,
        m',
        rw (asserts-pass v b, free_one-head b),
        pop q m',
        alloc-head b q q_shaped q_head (omega (arith, q_count, q_blocks, count_small)),
        pop (pop q m') m',
        alloc-head b (pop q m') again again_head again_count,
      )
