-- ===== src/Stress/PoolThreads/Use.antt =====
-- The shared pool of stress_tests/pool_thread_stress.cpp as a bag of blocks.
use slab_allocator.Base.{
  ℕ, ◌+◌, ◌*◌, ◌%◌, ◌^◌, ◌≤◌, ◌≡◌, ◌≢◌, ◌∙◌, ap, List, [], ◌∷◌, ◌++◌, length, Perm, Mem, some,
  arith, Build, ◌==◌, true,
}
use mathlib.Core.List.{perm_append_comm}
use mathlib.Core.List.Perm
use slab_allocator.Base.{get_elem?, set}
use slab_allocator.Base.Held.{all_held, held_split}
use slab_allocator.Machine.Word.{nullptr, mul_word}
use slab_allocator.Machine.Memory.{Memory, memset}
use slab_allocator.Pool as Pool
use slab_allocator.Pool.{Pool}
use slab_allocator.Pool.Layout.{Relisted, Relisted-trans}
use slab_allocator.Pool.Chain.{IsPool, IsPool-perm, count-free}
use slab_allocator.Pool.Blocks.{alloc-pop, pop-IsPool, pop-Relisted, free_lem, alloc-empty}
use slab_allocator.Pool.Contents.{write-IsPool}
use slab_allocator.Pool.Lifetime.{get_free_space_lem}
use slab_allocator.Stress.{Passes, passes}
use slab_allocator.Stress.PoolThreads.{fully_free}

-- The pool `p`, perhaps with another free list, with the blocks `held` handed out.
pub record InUse (p q : Pool) (m : Memory) (held : List ℕ) : Type 0 where
  pub free : List ℕ
  pub pool : IsPool q m held free
  pub place : Relisted p q

module _ {p q : Pool} {m : Memory} {held : List ℕ} (u : InUse p q m held) where
  pub InUse-perm : {held' : List ℕ} → Perm held held' → InUse p q m held'
  InUse-perm h = record { free = u.free; pool = IsPool-perm u.pool h; place = u.place }

  pub count-InUse : length held + length u.free ≡ p.block_count
  count-InUse = count-free u.pool ∙ ap (λ (z : Pool). z.block_count) u.place

  -- A worker fills its block.
  pub memset-InUse :
      (x value size : ℕ) → Mem x held → size ≤ p.block_size → InUse p q (memset m x value size) held
  unfolding memset
  memset-InUse x value size k h =
      let same_size : q.block_size ≡ p.block_size = ap (λ (z : Pool). z.block_size) u.place in
      record {
        free = u.free;
        pool = write-IsPool u.pool (λ i o. ground (arith, o x k, same_size));
        place = u.place;
      }

module _ {p q : Pool} {m : Memory} {held : List ℕ} (b : Build) (u : InUse p q m held) where
  -- What `alloc` does: hand out one block more, or refuse when all are handed out.
  pub data Asked : Type 0 where
    one :
        (x : ℕ) (q' : Pool)
        → Pool.alloc b q m ≡ some (x, q')
        → x ≢ nullptr
        → InUse p q' m (x ∷ held)
        → Asked
    refused : Pool.alloc b q m ≡ some (nullptr, q) → length held ≡ p.block_count → Asked

  pub alloc-Asked : Asked
  alloc-Asked = go u.free u.pool u.place
    where
      go : (free : List ℕ) → IsPool q m held free → Relisted p q → Asked
      go [] v r =
          refused (alloc-empty b v)
            (omega (arith, count-free v, ap (λ (z : Pool). z.block_count) r))
      go (x ∷ rest) v r = one x (Pool.pop q m) (alloc-pop b x rest v) v.chain.1 (record {
        free = rest;
        pool = pop-IsPool x rest v;
        place = Relisted-trans p q (Pool.pop q m) r (pop-Relisted q m);
      })

  -- All blocks are back.
  pub fully_free-Passes : held ≡ [] → Passes (λ (x : Unit {0}). Unit {0}) (fully_free b q)
  unfolding fully_free mul_word Pool.get_block_size Pool.get_block_count
  fully_free-Passes none =
      let all : length u.free ≡ q.block_count = omega (arith, count-free u.pool, ap length none) in
      let product : length u.free * q.block_size ≡ q.block_size * q.block_count =
        rw all (omega arith) in
      let word : (q.block_size * q.block_count) % 2 ^ 64 ≡ q.block_size * q.block_count =
        grind (arith, u.pool.shaped.fits, u.pool.shaped.in_space) in
      let yes : (q.block_size * q.block_count == q.block_size * q.block_count) ≡ true =
        ground arith in
      rw ((get_free_space_lem b u.pool).0, product, word, yes) (passes tt tt)

-- A worker frees its block.
pub free-InUse :
    {p q : Pool} {m : Memory} {held : List ℕ} (b : Build) (x : ℕ)
    → InUse p q m (x ∷ held)
    → (q' : Pool) × (m' : Memory) × (Pool.free b q m x ≡ some (q', m')) × InUse p q' m' held
free-InUse {p} {q} b x u =
    let back = free_lem b x u.pool in
    (
      back.0,
      back.1,
      back.2,
      record { free = x ∷ u.free; pool = back.3; place = Relisted-trans p q back.0 u.place back.5 },
    )

-- One of the workers acts on its own blocks.
module _ {κ} {L : Type κ} (held : L → List ℕ) (locals : List L) (tid : ℕ) {l : L}
    (e : get_elem? locals tid ≡ some l) {p q : Pool} {m : Memory} where
  pub InUse-split :
      InUse p q m (all_held held locals)
      → InUse p q m (held l ++ (held_split held locals tid l e).0)
  InUse-split u = InUse-perm u (held_split held locals tid l e).1

  pub InUse-merge :
      (l' : L)
      → InUse p q m (held l' ++ (held_split held locals tid l e).0)
      → InUse p q m (all_held held (set locals tid l'))
  InUse-merge l' u = InUse-perm u (Perm.symm ((held_split held locals tid l e).2 l'))

  -- A new block comes behind those that the worker has.
  pub InUse-take :
      (x : ℕ)
      → InUse p q m (x ∷ all_held held locals)
      → InUse p q m ((held l ++ x ∷ []) ++ (held_split held locals tid l e).0)
  InUse-take x u = InUse-perm u (
      Perm.trans (Perm.append_left (x ∷ []) (held_split held locals tid l e).1)
        (Perm.append_right (held_split held locals tid l e).0 (perm_append_comm (x ∷ []) (held l))))
