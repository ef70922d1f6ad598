-- ===== src/Pool/Contents.antt =====
-- What stands in the blocks: the client's writes and the pool's own pointers keep apart.
use mathlib.Core.List.{mem-cons_self}
use slab_allocator.Base.{
  ℕ, ◌+◌, ◌^◌, ◌≤◌, ◌<◌, ◌≡◌, refl, sym, ◌∙◌, ap, subst, ◌⊎◌, List, ◌∷◌, Mem, some, arith, Build,
}
use slab_allocator.Machine.Memory.{Memory, memset, load_word-store_word, load_word-agree}
use slab_allocator.Pool.{Pool, pop, push, alloc, calloc, free}
use slab_allocator.Pool.Layout.{Relisted, blocks_from-apart, block_count-small}
use slab_allocator.Pool.Chain.{
  IsPool, IsPool-agree, free-block, live-block, live-ne-free, count-free,
}
use slab_allocator.Pool.Blocks.{
  pop-IsPool, push-IsPool, alloc-pop, free_lem, free-push, free_list-small,
}

-- The byte `i` lies in none of the blocks.
abbrev pub Outside : Pool → List ℕ → ℕ → Type 0
Outside p live i = (x : ℕ) → Mem x live → (i < x) ⊎ (x + p.block_size ≤ i)

-- Writes into the blocks in use leave the free list intact.
pub write-IsPool :
    {p : Pool} {m m' : Memory} {live rest : List ℕ}
    → IsPool p m live rest
    → ((i : ℕ) → Outside p live i → m' i ≡ m i)
    → IsPool p m' live rest
write-IsPool {p} {m} {m'} {live} {rest} v same =
    IsPool-agree v (λ y k. load_word-agree m m' y (λ i lo hi. same i (outside y i k lo hi)))
  where
    outside : (y i : ℕ) → Mem y rest → y ≤ i → i < y + 8 → Outside p live i
    outside y i k lo hi x l =
        let y_block = free-block v k in
        let x_block = live-block v l in
        let up = blocks_from-apart p.memory p.block_size p.block_count x_block y_block in
        let down = blocks_from-apart p.memory p.block_size p.block_count y_block x_block in
        ground (arith, up, down, v.shaped.wide, live-ne-free v l k)

-- `pool::alloc` hands out the first free block; whatever the clients then write into their blocks,
-- this one included, the free list is intact, and `pool::free` takes the block back: it is the first
-- free one again. No assertion fails, and the invariant holds after each call.
pub free-alloc :
    {p : Pool} {m m' : Memory} {live : List ℕ} (b : Build) (x : ℕ) (rest : List ℕ)
    → IsPool p m live (x ∷ rest)
    → ((i : ℕ) → Outside p (x ∷ live) i → m' i ≡ m i)
    → (q : Pool) × (alloc b p m ≡ some (x, q))
      × IsPool q m' (x ∷ live) rest
      × (q' : Pool) × (m'' : Memory) × (free b q m' x ≡ some (q', m''))
      × IsPool q' m'' live (x ∷ rest)
free-alloc {p} {m} {m'} b x rest v same =
    let same_size : (pop p m).block_size ≡ p.block_size = unfold pop in refl in
    let w =
      write-IsPool (pop-IsPool x rest v)
        (λ i o. same i (λ y k. subst (λ n. (i < y) ⊎ (y + n ≤ i)) same_size (o y k))) in
    let back = free_lem b x w in (pop p m, alloc-pop b x rest v, w, back.0, back.1, back.2, back.3)

-- Popping undoes pushing.
alloc-push :
    {p : Pool} {m : Memory} {live rest : List ℕ} (b : Build) (x : ℕ)
    → IsPool p m (x ∷ live) rest
    → alloc b (push p m x).0 (push p m x).1 ≡ some (x, p)
alloc-push {p} {m} {live} {rest} b x v =
    alloc-pop b x rest (push-IsPool x v) ∙ ap (λ r. some (x, r)) popped
  where
    small : p.free_count < 2 ^ 61
    small = omega (arith, v.counted, count-free v, block_count-small v.shaped)

    popped : pop (push p m x).0 (push p m x).1 ≡ p
    popped =
        unfold push pop in
        rw (load_word-store_word m x p.free_list (free_list-small v)) (ground (arith, small))

-- A block that is handed out and then freed is the next one to be handed out, and then the pool is as before.
pub alloc-free :
    {p q : Pool} {m m' : Memory} {live rest : List ℕ} (b : Build) (x : ℕ)
    → IsPool p m (x ∷ live) rest
    → free b p m x ≡ some (q, m')
    → alloc b q m' ≡ some (x, p)
alloc-free {p} {q} {m} {m'} b x v e =
    let same : some (push p m x) ≡ some (q, m') = sym (free-push b x v) ∙ e in
    let again = alloc-push b x v in ground (arith, same, again)

-- `pool::calloc` hands out the first free block, if there is one, with all of its bytes zero; it
-- changes no other byte, keeps the invariant, and changes nothing of the pool but its free list and
-- count.
pub calloc_lem :
    {p : Pool} {m : Memory} {live : List ℕ} (b : Build) (x : ℕ) (rest : List ℕ)
    → IsPool p m live (x ∷ rest)
    → (q : Pool) × (m' : Memory) × (calloc b p m ≡ some (x, q, m'))
      × IsPool q m' (x ∷ live) rest
      × ((i : ℕ) → x ≤ i → i < x + p.block_size → m' i ≡ 0)
      × ((i : ℕ) → (i < x) ⊎ (x + p.block_size ≤ i) → m' i ≡ m i)
      × Relisted p q
unfolding calloc memset
calloc_lem {p} {m} b x rest v =
    let q = pop p m in
    let m' = memset m x 0 p.block_size in
    let zero_inside : (i : ℕ) → x ≤ i → i < x + p.block_size → m' i ≡ 0 = λ i lo hi. ground arith in
    let same_outside : (i : ℕ) → (i < x) ⊎ (x + p.block_size ≤ i) → m' i ≡ m i =
      λ i h. ground arith in
    let same_size : q.block_size ≡ p.block_size = unfold pop in refl in
    (
      q,
      m',
      ground (arith, alloc-pop b x rest v, v.chain.1),
      write-IsPool (pop-IsPool x rest v) (λ i o.
          same_outside i (subst (λ n. (i < x) ⊎ (x + n ≤ i)) same_size (o x mem-cons_self))),
      zero_inside,
      same_outside,
      unfold pop in refl,
    )
