-- ===== src/Pool/Lifetime.antt =====
-- Destruction, moves and the figures that a pool reports.
use slab_allocator.Base.{
  ℕ, ◌+◌, ◌*◌, ◌%◌, ◌^◌, ◌≤◌, ◌≡◌, refl, ◌∙◌, ap, ◌≢◌, List, ◌∷◌, length, some, arith, Build, false,
}
use slab_allocator.Machine.Word.{nullptr}
use slab_allocator.Machine.Memory.{Memory}
use slab_allocator.Platform.{Os, mem_free}
use slab_allocator.Platform.Laws.{
  Region, region, unmap, IsPosix, mem_free_ok, holds_region_head, unmap_head, ne-eqb,
}
use slab_allocator.Pool.{
  init, construct, Pool, cleared, destroy, move_construct, move_assign, get_free_space,
}
use slab_allocator.Pool.Chain.{IsPool, count-free}
use slab_allocator.Pool.Blocks.{asserts-pass}

-- The constructor is `init` of a cleared pool.
pub construct-init :
    {S : Type 0} (b : Build) (os : Os S) (size count : ℕ) (m : Memory) (s : S)
    → init b os cleared size count m s ≡ construct b os size count m s
unfolding construct
construct-init b os size count m s = refl

module _ {S : Type 0} {os : Os S} {mapped : S → List Region} (posix : IsPosix os mapped) where
  freed-owner :
      (p : Pool) (s : S) (rest : List Region)
      → mapped s ≡ region p.memory p.capacity ∷ rest
      → mapped (mem_free os p.memory p.capacity s).1 ≡ rest
  freed-owner p s rest e =
      let r = region p.memory p.capacity in
      let freed = mem_free_ok posix p.memory p.capacity s (rw e (holds_region_head r rest)) in
      freed.1 ∙ ap (unmap r) e ∙ unmap_head r rest

  pub destroy-owner :
      (p : Pool) (s : S) (rest : List Region)
      → p.memory ≢ nullptr
      → mapped s ≡ region p.memory p.capacity ∷ rest
      → mapped (destroy os p s).1 ≡ rest
  unfolding destroy
  destroy-owner p s rest ne e = rw (ne-eqb p.memory ne) (freed-owner p s rest e)

  -- A pool in use that owns the newest mapping is moved to another object: the new one meets the
  -- invariant, and the mapping is unmapped once, whichever of the two objects is destroyed first.
  pub destroy-move_construct :
      {p : Pool} {m : Memory} {live free : List ℕ} (s : S) (rest : List Region)
      → IsPool p m live free
      → mapped s ≡ region p.memory p.capacity ∷ rest
      → let (q, old) = move_construct p in
        (mapped (destroy os old (destroy os q s).1).1 ≡ rest)
        × (mapped (destroy os q (destroy os old s).1).1 ≡ rest)
        × IsPool q m live free
  unfolding move_construct destroy cleared
  destroy-move_construct {p} s rest v e =
      let gone = destroy-owner p s rest v.shaped.mapped e in (gone, gone, v)

  -- Assigning from a pool in use to another object, which owns the newest mapping, unmaps that
  -- mapping and nothing else; the other pool is then cleared, and its blocks belong to the target.
  pub move_assign_lem :
      (p : Pool) {q : Pool} {m : Memory} {live free : List ℕ} (s : S) (rest : List Region)
      → p.memory ≢ nullptr
      → mapped s ≡ region p.memory p.capacity ∷ rest
      → IsPool q m live free
      → let (self, other, s') = move_assign os false p q s in
        IsPool self m live free × (other ≡ cleared) × (mapped s' ≡ rest)
  unfolding move_assign
  move_assign_lem p {q} s rest ne e v = (v, refl, rw (ne-eqb p.memory ne) (freed-owner p s rest e))

-- Of a pool in use `get_free_space` is the total size of the free blocks, which together with the
-- blocks handed out fits the capacity; no assertion fails.
pub get_free_space_lem :
    {p : Pool} {m : Memory} {live free : List ℕ} (b : Build)
    → IsPool p m live free
    → (get_free_space b p ≡ some (length free * p.block_size))
      × (length free * p.block_size + length live * p.block_size ≤ p.capacity)
unfolding get_free_space
get_free_space_lem {p} {live} {free} b v =
    let all_blocks : (length live + length free) * p.block_size ≤ p.capacity =
      rw (count-free v) v.shaped.fits in
    let word : p.free_count * p.block_size % 2 ^ 64 ≡ length free * p.block_size =
      rw v.counted (omega (arith, v.shaped.in_space)) in
    (rw (asserts-pass v b) (ap some word), omega arith)
