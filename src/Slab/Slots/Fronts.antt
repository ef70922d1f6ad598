-- ===== src/Slab/Slots/Fronts.antt =====
-- One class among the caches and pools of a slab: it is looked up, worked on and put back.
use slab_allocator.Base.{
  ℕ, zero, suc, ◌+◌, ◌*◌, ◌≤◌, ◌<◌, ◌≡◌, refl, sym, ◌∙◌, ap, subst, ◌⊎◌, List, [], ◌∷◌, length,
  get_elem?, set, some, arith,
}
use slab_allocator.Machine.Memory.{Memory}
use slab_allocator.Pool.{Pool}
use slab_allocator.Pool.Layout.{Elsewhere, Relisted}
use slab_allocator.Slab.Cache.{ThreadLocalCache}
use slab_allocator.Slab.Cache.Entries.{IsFront}
use slab_allocator.Slab.Slots.Flush.{
  Fronts, empty, class, SeparateFrom, Fronts-agree, IsFront-agree,
}

-- The class at an index.
pub record ClassAt (caches : List ThreadLocalCache) (pools : List Pool) (users : List (List ℕ))
    (m : Memory) (index : ℕ) : Type 0 where
  pub cache : ThreadLocalCache
  pub pool : Pool
  pub held : List ℕ
  pub free : List ℕ
  pub cache_at : get_elem? caches index ≡ some cache
  pub pool_at : get_elem? pools index ≡ some pool
  pub held_at : get_elem? users index ≡ some held
  pub front : IsFront cache pool m held free

pub Fronts-ClassAt :
    {m : Memory} {caches : List ThreadLocalCache} {pools : List Pool} {users : List (List ℕ)}
    (index : ℕ)
    → Fronts m caches pools users
    → index < length caches
    → ClassAt caches pools users m index
Fronts-ClassAt index empty h = absurd (omega arith)
Fronts-ClassAt zero (class {c = c} {p = p} {u = u} free v apart rest) h = record {
  cache = c;
  pool = p;
  held = u;
  free = free;
  cache_at = refl;
  pool_at = refl;
  held_at = refl;
  front = v;
}
Fronts-ClassAt (suc index) (class free v apart rest) h =
    let k = Fronts-ClassAt index rest (omega arith) in
    record {
      cache = k.cache;
      pool = k.pool;
      held = k.held;
      free = k.free;
      cache_at = k.cache_at;
      pool_at = k.pool_at;
      held_at = k.held_at;
      front = k.front;
    }

pub separate_at :
    (p : Pool) (pools : List Pool) (index : ℕ) (x : Pool)
    → SeparateFrom p pools
    → get_elem? pools index ≡ some x
    → (p.memory + p.capacity ≤ x.memory) ⊎ (x.memory + x.capacity ≤ p.memory)
separate_at p [] index x s e = cc
separate_at p (q ∷ pools) zero x s e = ground (arith, s.0, e)
separate_at p (q ∷ pools) (suc index) x s e = separate_at p pools index x s.1 e

SeparateFrom-set :
    (p : Pool) (pools : List Pool) (index : ℕ) (x y : Pool)
    → SeparateFrom p pools
    → get_elem? pools index ≡ some x
    → y.memory ≡ x.memory
    → y.capacity ≡ x.capacity
    → SeparateFrom p (set pools index y)
SeparateFrom-set p [] index x y s e h k = tt
SeparateFrom-set p (q ∷ pools) zero x y s e h k = (ground (arith, s.0, e, h, k), s.1)
SeparateFrom-set p (q ∷ pools) (suc index) x y s e h k =
    (s.0, SeparateFrom-set p pools index x y s.1 e h k)

SeparateFrom-same :
    (p q : Pool) (pools : List Pool)
    → q.memory ≡ p.memory
    → q.capacity ≡ p.capacity
    → SeparateFrom p pools
    → SeparateFrom q pools
SeparateFrom-same p q [] h k s = tt
SeparateFrom-same p q (x ∷ pools) h k s = (omega (arith, s.0), SeparateFrom-same p q pools h k s.1)

-- An operation on one class, which writes to that class's pool only, leaves the other classes alone.
pub Fronts-set :
    {m m' : Memory} {caches : List ThreadLocalCache} {pools : List Pool} {users : List (List ℕ)}
    (index : ℕ) (p q : Pool) (c' : ThreadLocalCache) (u' free' : List ℕ)
    → Fronts m caches pools users
    → get_elem? pools index ≡ some p
    → IsFront c' q m' u' free'
    → Relisted p q
    → ((j : ℕ) → Elsewhere p j → m' j ≡ m j)
    → Fronts m' (set caches index c') (set pools index q) (set users index u')
Fronts-set index p q c' u' free' empty e v place same = cc
Fronts-set zero p q c' u' free' (class {p = x} {pools = pools} free w apart rest) e v place same =
    let here : x ≡ p = cc in
    let far : SeparateFrom p pools = subst (λ y. SeparateFrom y pools) here apart in
    class free' v
      (SeparateFrom-same p q pools (ap (λ (z : Pool). z.memory) place)
        (ap (λ (z : Pool). z.capacity) place) far)
      (Fronts-agree p far same rest)
Fronts-set (suc index) p q c' u' free' (class {p = x} {pools = pools} free w apart rest) e v place
      same =
    let far = separate_at x pools index p apart e in
    class free (IsFront-agree w (λ j lo hi. same j (ground (arith, far))))
      (SeparateFrom-set x pools index p q apart e (ap (λ (z : Pool). z.memory) place)
        (ap (λ (z : Pool). z.capacity) place))
      (Fronts-set index p q c' u' free' rest e v place same)

-- The size of all blocks of all classes together.
abbrev pub stock : List Pool → ℕ
stock [] = 0
stock (p ∷ pools) = p.block_count * p.block_size + stock pools

pub stock-set :
    (pools : List Pool) (index : ℕ) (p q : Pool)
    → get_elem? pools index ≡ some p
    → Relisted p q
    → stock (set pools index q) ≡ stock pools
stock-set [] index p q e r = refl
stock-set (x ∷ pools) zero p q e r =
    let here : x ≡ p = cc in
    ap (λ n. n + stock pools)
      (ap (λ (z : Pool). z.block_count * z.block_size) r
        ∙ ap (λ (z : Pool). z.block_count * z.block_size) (sym here))
stock-set (x ∷ pools) (suc index) p q e r =
    ap (λ n. x.block_count * x.block_size + n) (stock-set pools index p q e r)
