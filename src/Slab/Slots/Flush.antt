-- ===== src/Slab/Slots/Flush.antt =====
-- `cache_entry::flush`: every cache of an entry gives its blocks back to the pool of its class.
use mathlib.Core.List.{mem-append_left, reverse_aux}
use mathlib.Core.List.Perm
use slab_allocator.Base.{
  ℕ, ◌+◌, ◌≤◌, ◌<◌, ◌≡◌, refl, sym, ◌∙◌, ap, subst, ◌⊎◌, inl, inr, List, [], ◌∷◌, ◌++◌, Perm,
  length, some, arith, Build, Bool-cases, take, drop, take-append-drop, length-append, length-drop,
}
use slab_allocator.Machine.Memory.{Memory, load_word-agree}
use slab_allocator.Pool.{Pool, free_batched_internal}
use slab_allocator.Pool.Layout.{Elsewhere, Relisted}
use slab_allocator.Pool.Chain.{IsPool-agree, free-block}
use slab_allocator.Pool.Blocks.{block-inside}
use slab_allocator.Pool.Batch.{given, free_batched_lem}
use slab_allocator.Slab.Cache.{ThreadLocalCache, is_empty}
use slab_allocator.Slab.Cache.Entries.{IsFront, cached}
use slab_allocator.Slab.Cache.Free.{Taken, given-live}
use slab_allocator.Slab.Slots.{flush_one, flush_loop}

flush_one-front :
    {c : ThreadLocalCache} {p : Pool} {m : Memory} {users : List ℕ} (b : Build) (free : List ℕ)
    → IsFront c p m users free
    → (c' : ThreadLocalCache) × (q : Pool) × (m' : Memory) × (flush_one b c p m ≡ some (c', q, m'))
      × (cached c' ≡ [])
      × Taken p m users c' q m'
unfolding flush_one
flush_one-front {c} {p} {m} {users} b free v = elim (Bool-cases (is_empty c)) [
  | inl empty ↦
      let none : c.current ≡ 0 = ground (arith, empty) in
      (
        c,
        p,
        m,
        rw empty,
        ap (λ k. take k c.objects) none,
        record { free' = free; front = v; place = refl; same = λ j o. refl },
      )
  | inr some_left ↦
      let batch = cached c in
      let size : length batch ≡ c.current = omega (
        arith,
        length-append batch (drop c.current c.objects),
        ap length (take-append-drop c.current c.objects),
        length-drop c.current c.objects,
        v.cache.room,
        v.cache.bounded,
      ) in
      let all_given = given-live batch v.pool (λ x k. mem-append_left users k) in
      let apart : Perm (batch ++ users) (given batch ++ users) = rw all_given (Perm.refl _) in
      let back = free_batched_lem b batch (drop c.current c.objects) users v.pool apart in
      let ran : free_batched_internal b p m c.current (some c.objects) ≡ some (back.0, back.1) =
        subst (λ k. free_batched_internal b p m k (some c.objects) ≡ some (back.0, back.1)) size
          (subst
            (λ ys. free_batched_internal b p m (length batch) (some ys) ≡ some (back.0, back.1))
            (take-append-drop c.current c.objects) back.2) in
      (
        record c { current = 0 },
        back.0,
        back.1,
        rw (some_left, ran),
        refl,
        record {
          free' = reverse_aux (given batch) free;
          front = record {
            cache = record {
              room = v.cache.room;
              bounded = omega arith;
              batch_pos = v.cache.batch_pos;
              batch_fits = v.cache.batch_fits;
            };
            pool = back.3;
          };
          place = back.5;
          same = back.4;
        },
      )
]

-- A front only depends on the bytes of its pool.
pub IsFront-agree :
    {c : ThreadLocalCache} {p : Pool} {m m' : Memory} {users free : List ℕ}
    → IsFront c p m users free
    → ((j : ℕ) → p.memory ≤ j → j < p.memory + p.capacity → m' j ≡ m j)
    → IsFront c p m' users free
IsFront-agree {p} {m} {m'} v same = record {
  cache = v.cache;
  pool = IsPool-agree v.pool (λ x k.
      let inside = block-inside v.pool (free-block v.pool k) in
      load_word-agree m m' x (λ i lo hi. same i (omega arith) (omega (arith, v.pool.shaped.wide))));
}

-- The memory of the pool lies apart from that of the others.
abbrev pub SeparateFrom : Pool → List Pool → Type 0
SeparateFrom p [] = Unit {0}
SeparateFrom p (q ∷ pools) =
    ((p.memory + p.capacity ≤ q.memory) ⊎ (q.memory + q.capacity ≤ p.memory)) × SeparateFrom p pools

-- The byte lies in none of the pools.
abbrev pub Nowhere : List Pool → ℕ → Type 0
Nowhere [] j = Unit {0}
Nowhere (p ∷ pools) j = Elsewhere p j × Nowhere pools j

-- The caches of an entry and the pools of their classes; clients hold the blocks `users`, class by
-- class.
pub data Fronts (m : Memory) : List ThreadLocalCache → List Pool → List (List ℕ) → Type 0 where
  empty : Fronts m [] [] []
  class :
      {c : ThreadLocalCache} {p : Pool} {u : List ℕ} {caches : List ThreadLocalCache}
      {pools : List Pool} {users : List (List ℕ)} (free : List ℕ)
      → IsFront c p m u free
      → SeparateFrom p pools
      → Fronts m caches pools users
      → Fronts m (c ∷ caches) (p ∷ pools) (u ∷ users)

abbrev pub AllEmpty : List ThreadLocalCache → Type 0
AllEmpty [] = Unit {0}
AllEmpty (c ∷ caches) = (cached c ≡ []) × AllEmpty caches

-- The pools are the same but for their free lists.
abbrev pub AllRelisted : List Pool → List Pool → Type 0
AllRelisted [] qs = qs ≡ []
AllRelisted (p ∷ ps) qs =
    (q : Pool) × (rest : List Pool) × (qs ≡ q ∷ rest) × Relisted p q × AllRelisted ps rest

pub AllRelisted-SeparateFrom :
    (p q : Pool) (ps qs : List Pool)
    → Relisted p q
    → AllRelisted ps qs
    → SeparateFrom p ps
    → SeparateFrom q qs
AllRelisted-SeparateFrom p q [] qs r rs s = subst (SeparateFrom q) (sym rs) tt
AllRelisted-SeparateFrom p q (x ∷ ps) qs r (y, rest, e, ry, rs) (s, ss) =
    let q_memory : q.memory ≡ p.memory = ap (λ (z : Pool). z.memory) r in
    let q_capacity : q.capacity ≡ p.capacity = ap (λ (z : Pool). z.capacity) r in
    let y_memory : y.memory ≡ x.memory = ap (λ (z : Pool). z.memory) ry in
    let y_capacity : y.capacity ≡ x.capacity = ap (λ (z : Pool). z.capacity) ry in
    subst (SeparateFrom q) (sym e) (omega arith, AllRelisted-SeparateFrom p q ps rest r rs ss)

pub inside-Nowhere :
    (p : Pool) (ps : List Pool) (j : ℕ)
    → SeparateFrom p ps
    → p.memory ≤ j
    → j < p.memory + p.capacity
    → Nowhere ps j
inside-Nowhere p [] j s lo hi = tt
inside-Nowhere p (x ∷ ps) j (s, ss) lo hi = (ground arith, inside-Nowhere p ps j ss lo hi)

-- The other fronts do not notice writes to one pool.
pub Fronts-agree :
    {m m' : Memory} {caches : List ThreadLocalCache} {pools : List Pool} {users : List (List ℕ)}
    (p : Pool)
    → SeparateFrom p pools
    → ((j : ℕ) → Elsewhere p j → m' j ≡ m j)
    → Fronts m caches pools users
    → Fronts m' caches pools users
Fronts-agree p s same empty = empty
Fronts-agree p s same (class free v apart rest) =
    class free (IsFront-agree v (λ j lo hi. same j (ground (arith, s.0)))) apart
      (Fronts-agree p s.1 same rest)

-- The loop of `flush` on the caches of an entry and the pools of their classes, which lie apart and
-- meet the invariant, returns: every cache is
-- empty afterwards, and the blocks in clients' hands are as before, so all others are on the pools'
-- lists; no assertion fails, and no byte outside the pools is written.
pub flush_loop_lem :
    (b : Build) (caches : List ThreadLocalCache) (m : Memory) {pools : List Pool}
    {users : List (List ℕ)}
    → Fronts m caches pools users
    → (caches' : List ThreadLocalCache) × (pools' : List Pool) × (m' : Memory) × (flush_loop b
          caches pools m
        ≡ some (caches', pools', m'))
      × Fronts m' caches' pools' users
      × AllEmpty caches'
      × AllRelisted pools pools'
      × ((j : ℕ) → Nowhere pools j → m' j ≡ m j)
unfolding flush_loop
flush_loop_lem b [] m empty = ([], [], m, refl, empty, tt, refl, λ j o. refl)
flush_loop_lem b (c ∷ caches) m (class {p = p} {pools = pools} free v apart rest) =
    let first = flush_one-front b free v in
    let taken = first.5 in
    let others = flush_loop_lem b caches first.2 (Fronts-agree p apart taken.same rest) in
    let kept = IsFront-agree taken.front (λ j lo hi.
      let place : first.1.memory ≡ p.memory = ap (λ (z : Pool). z.memory) taken.place in
      let size : first.1.capacity ≡ p.capacity = ap (λ (z : Pool). z.capacity) taken.place in
      others.7 j (inside-Nowhere p pools j apart (omega arith) (omega arith))) in
    (
      first.0 ∷ others.0,
      first.1 ∷ others.1,
      others.2,
      rw (first.3, others.3),
      class taken.free' kept
          (AllRelisted-SeparateFrom p first.1 pools others.1 taken.place others.6 apart) others.4,
      (first.4, others.5),
      (first.1, others.1, refl, taken.place, others.6),
      λ j o. others.7 j o.1 ∙ taken.same j o.0,
    )
