-- ===== src/Pool/Batch.antt =====
-- `pool::alloc_batched_internal` and `pool::free_batched_internal`: many blocks under one lock.
use mathlib.Core.List.{mem-cons_self, perm_middle, reverse_aux}
use mathlib.Core.List.Perm
use slab_allocator.Base.{
  ℕ, zero, suc, ◌+◌, ◌≤◌, ◌≡◌, refl, sym, ◌∙◌, ap, subst, ◌≢◌, inl, inr, List, [], ◌∷◌, ◌++◌, Perm,
  length, some, arith, Build, ◌==◌, Bool-cases, if◌then◌else◌, set, take, drop, assert-true,
  take-nil, drop-nil, length-take-le, drop-next, true,
}
use slab_allocator.Machine.Word.{nullptr}
use slab_allocator.Machine.Memory.{Memory, store_word-outside}
use slab_allocator.Platform.Laws.{ne-eqb}
use slab_allocator.Pool.{
  Pool, pop, push, alloc_loop, alloc_batched_internal, free_one, free_loop, free_batched_internal,
}
use slab_allocator.Pool.Chain.{IsPool, IsPool-perm, live-block}
use slab_allocator.Pool.Layout.{Relisted, Relisted-trans, Elsewhere}
use slab_allocator.Pool.Owns.{blocks-owned}
use slab_allocator.Pool.Blocks.{pop-IsPool, push-IsPool, asserts-pass, block-inside}

-- The array with `xs` written into it from index `i` on.
put_all : List ℕ → ℕ → List ℕ → List ℕ
put_all out i [] = out
put_all out i (x ∷ xs) = put_all (set out i x) (i + 1) xs

put_all-cons :
    (o : ℕ) (out : List ℕ) (i : ℕ) (xs : List ℕ)
    → put_all (o ∷ out) (suc i) xs ≡ o ∷ put_all out i xs
unfolding put_all
put_all-cons o out i [] = refl
put_all-cons o out i (x ∷ xs) =
    let e : suc i + 1 ≡ suc (i + 1) = omega arith in rw e (put_all-cons o (set out i x) (i + 1) xs)

put_all-append :
    (out xs : List ℕ) → length xs ≤ length out → put_all out 0 xs ≡ xs ++ drop (length xs) out
unfolding put_all
put_all-append out [] h = refl
put_all-append [] (x ∷ xs) h = absurd (omega arith)
put_all-append (o ∷ out) (x ∷ xs) h =
    put_all-cons x out 0 xs ∙ ap (◌∷◌ x) (put_all-append out xs (omega arith))

alloc_loop-lem :
    (m : Memory) (rounds i : ℕ) (out rest live : List ℕ) (p : Pool)
    → IsPool p m live rest
    → (q : Pool) × (alloc_loop rounds i p m out
        ≡ (i + length (take rounds rest), put_all out i (take rounds rest), q))
      × IsPool q m (take rounds rest ++ live) (drop rounds rest)
      × Relisted p q
unfolding alloc_loop put_all
alloc_loop-lem m zero i out rest live p v = (p, ground arith, v, refl)
alloc_loop-lem m (suc rounds) i out [] live p v = (p, ground (arith, v.chain), v, refl)
alloc_loop-lem m (suc rounds) i out (x ∷ rest) live p v =
    let ih =
      alloc_loop-lem m rounds (i + 1) (set out i x) rest (x ∷ live) (pop p m)
        (pop-IsPool x rest v) in
    (
      ih.0,
      ground (arith, v.chain.0, v.chain.1, ih.1),
      IsPool-perm ih.2 (perm_middle (take rounds rest) live),
      Relisted-trans p (pop p m) ih.0 (unfold pop in refl) ih.3,
    )

-- In a pool that meets the invariant, a batch takes the first blocks of the free list, as many as there are up to the number asked for,
-- and writes them to the start of the array, which must be long enough; the rest of the array stays,
-- and of the pool all but the free list and its count.
pub alloc_batched_lem :
    {p : Pool} {m : Memory} {live : List ℕ} (b : Build) (n : ℕ) (out rest : List ℕ)
    → IsPool p m live rest
    → n ≤ length out
    → let taken = take n rest in
      (q : Pool) × (alloc_batched_internal b p m n (some out)
        ≡ some (length taken, some (taken ++ drop (length taken) out), q))
      × IsPool q m (taken ++ live) (drop n rest)
      × Relisted p q
unfolding alloc_batched_internal
alloc_batched_lem {p} {m} {live} b n out [] v h = (
  p,
  rw (v.chain, take-nil n) refl,
  subst (λ xs. IsPool p m (xs ++ live) (drop n [])) (sym (take-nil n))
      (subst (IsPool p m live) (sym (drop-nil n)) v),
  refl,
)
alloc_batched_lem {p} {m} {live} b n out (x ∷ rest) v h =
    let loop = alloc_loop-lem m n 0 out (x ∷ rest) live p v in
    let written =
      put_all-append out (take n (x ∷ rest)) (omega (arith, length-take-le n (x ∷ rest))) in
    (
      loop.0,
      ground (arith, v.chain.0, v.chain.1, asserts-pass v b, loop.1, written),
      loop.2,
      loop.3,
    )

-- The entries that `free_batched_internal` does not skip.
unfoldable pub given : List ℕ → List ℕ
given [] = []
given (x ∷ xs) = if x == nullptr then given xs else x ∷ given xs

free_one-skips :
    (b : Build) (p : Pool) (m : Memory) (y : ℕ)
    → (y == nullptr) ≡ true
    → free_one b p m y ≡ some (p, m)
unfolding free_one
free_one-skips b p m y e = rw e

free_one-push :
    {p : Pool} {m : Memory} {live rest : List ℕ} (b : Build) (y : ℕ)
    → IsPool p m (y ∷ live) rest
    → free_one b p m y ≡ some (push p m y)
unfolding free_one
free_one-push {p} b y v =
    let y_block = live-block v mem-cons_self in
    let ne : y ≢ nullptr = omega (arith, block-inside v y_block, v.shaped.mapped) in
    rw (ne-eqb y ne, blocks-owned p v.shaped y_block, assert-true b)

push-Elsewhere :
    {p : Pool} {m : Memory} {live rest : List ℕ} (y : ℕ)
    → IsPool p m (y ∷ live) rest
    → (j : ℕ) → Elsewhere p j
    → (push p m y).1 j ≡ m j
unfolding push
push-Elsewhere {p} {m} y v j o =
    let inside = block-inside v (live-block v mem-cons_self) in
    store_word-outside m y p.free_list j (omega (arith, inside, v.shaped.wide))

free_loop-lem :
    (b : Build) (all tail ys : List ℕ) (i : ℕ) (p : Pool) (m : Memory) (live rest left : List ℕ)
    → drop i all ≡ ys ++ tail
    → IsPool p m live rest
    → Perm live (given ys ++ left)
    → (q : Pool) × (m' : Memory) × (free_loop b (length ys) i p m all ≡ some (q, m'))
      × IsPool q m' left (reverse_aux (given ys) rest)
      × ((j : ℕ) → Elsewhere p j → m' j ≡ m j)
      × Relisted p q
unfolding free_loop given
free_loop-lem b all tail [] i p m live rest left e v h =
    (p, m, refl, IsPool-perm v h, λ j o. refl, refl)
free_loop-lem b all tail (y ∷ ys) i p m live rest left e v h =
    let got = (drop-next i all y (ys ++ tail) e).0 in
    elim (Bool-cases (y == nullptr)) [
      | inl null ↦
          let ih =
            free_loop-lem b all tail ys (i + 1) p m live rest left
              (drop-next i all y (ys ++ tail) e).1 v (rw null at h) in
          rw (got, free_one-skips b p m y null, null) ih
      | inr real ↦
          let w = IsPool-perm v (rw real at h) in
          let ih =
            free_loop-lem b all tail ys (i + 1) (push p m y).0 (push p m y).1 (given ys ++ left)
              (y ∷ rest) left (drop-next i all y (ys ++ tail) e).1 (push-IsPool y w)
              (Perm.refl _) in
          (
            ih.0,
            ih.1,
            rw (got, free_one-push b y w) ih.2,
            rw real ih.3,
            λ j o. unfold push in ih.4 j o ∙ push-Elsewhere y w j o,
            Relisted-trans p (push p m y).0 ih.0 (unfold push in refl) ih.5,
          )
    ]

-- A batch of blocks that are handed out, with null entries between them, is freed as a whole: the
-- last one is in front of the free list afterwards, and the invariant holds. Null entries are skipped, no assertion fails,
-- the array behind the batch is not read, nothing of the pool changes but its free list and count,
-- and no byte outside the pool is written.
pub free_batched_lem :
    {p : Pool} {m : Memory} {live rest : List ℕ} (b : Build) (ys tail left : List ℕ)
    → IsPool p m live rest
    → Perm live (given ys ++ left)
    → (q : Pool) × (m' : Memory) × (free_batched_internal b p m (length ys) (some (ys ++ tail))
        ≡ some (q, m'))
      × IsPool q m' left (reverse_aux (given ys) rest)
      × ((j : ℕ) → Elsewhere p j → m' j ≡ m j)
      × Relisted p q
unfolding free_batched_internal
free_batched_lem {p} {m} {live} {rest} b ys tail left v h =
    let loop = free_loop-lem b (ys ++ tail) tail ys 0 p m live rest left refl v h in
    (loop.0, loop.1, rw (asserts-pass v b) loop.2, loop.3, loop.4, loop.5)
