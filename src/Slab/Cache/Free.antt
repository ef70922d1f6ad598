-- ===== src/Slab/Cache/Free.antt =====
-- `slab::free` (src/slab.cpp) on one size class: a block back to the cache, a batch back to the pool.
use mathlib.Core.List.{
  mem-cons_of_mem, append-nil, mem-cons_self, mem-append_left, mem-append_right, append_assoc,
  perm_append_comm, reverse_aux,
}
use mathlib.Core.List.Perm
use slab_allocator.Base.{
  ◌≤◌, length-append, ℕ, ◌+◌, ◌-◌, ◌%◌, ◌<◌, ◌^◌, ◌≡◌, refl, sym, ◌∙◌, ap, subst, ◌≢◌, inl, inr,
  List, [], ◌∷◌, ◌++◌, Mem, Perm, length, some, ◌==◌, true, false, if◌then◌else◌, arith, Build,
  Bool-cases, take, drop, take-append-drop, length-drop, take_all,
}
use slab_allocator.Machine.Word.{nullptr}
use slab_allocator.Machine.Memory.{Memory}
use slab_allocator.Platform.Laws.{ne-eqb}
use slab_allocator.Pool.{Pool, free_batched_internal}
use slab_allocator.Pool.Layout.{Relisted, Elsewhere}
use slab_allocator.Pool.Chain.{IsPool, IsPool-perm, live-block}
use slab_allocator.Pool.Blocks.{block-inside}
use slab_allocator.Pool.Batch.{given, free_batched_lem}
use slab_allocator.Slab.Cache.{
  ThreadLocalCache, object_count, is_full, push, flush_batch, cache_free,
}
use slab_allocator.Slab.Cache.Entries.{IsFront, cached, push_lem}

-- Blocks of a pool in use are not null, so a batch of them has nothing to skip.
pub given-live :
    {p : Pool} {m : Memory} {live free : List ℕ} (xs : List ℕ)
    → IsPool p m live free
    → ((x : ℕ) → Mem x xs → Mem x live)
    → given xs ≡ xs
unfolding given
given-live [] v h = refl
given-live (x ∷ xs) v h =
    let x_block = live-block v (h x mem-cons_self) in
    let ne : x ≢ nullptr = omega (arith, block-inside v x_block, v.shaped.mapped) in
    rw (ne-eqb x ne) (ap (◌∷◌ x) (given-live xs v (λ y k. h y (mem-cons_of_mem x k))))

-- What `free` does to a front: the block goes back to it, and no byte outside the pool is written.
pub record Taken (p : Pool) (m : Memory) (users : List ℕ) (c' : ThreadLocalCache) (q : Pool)
    (m' : Memory) : Type 0 where
  pub free' : List ℕ
  pub front : IsFront c' q m' users free'
  pub place : Relisted p q
  pub same : (j : ℕ) → Elsewhere p j → m' j ≡ m j

-- A full cache gives a batch back, and then has room.
flush_batch-front :
    {c : ThreadLocalCache} {p : Pool} {m : Memory} {users : List ℕ} (b : Build) (free : List ℕ)
    → IsFront c p m users free
    → c.current ≡ object_count
    → (c' : ThreadLocalCache) × (q : Pool) × (m' : Memory) × (flush_batch b c p m
        ≡ some (c', q, m'))
      × (c'.current < object_count)
      × (t : Taken p m users c' q m') × (cached c' ≡ take (c.current - c.batch_size) c.objects)
      × (t.free' ≡ reverse_aux (drop (c.current - c.batch_size) c.objects) free)
unfolding flush_batch
flush_batch-front {c} {p} {m} {users} b free v e =
    let n = c.current - c.batch_size in
    let kept = take n c.objects in
    let batch = drop n c.objects in
    let from : (c.current + 2 ^ 64 - c.batch_size) % 2 ^ 64 ≡ n =
      omega (arith, v.cache.batch_fits, v.cache.batch_pos) in
    let whole : cached c ≡ kept ++ batch =
      ap (λ k. take k c.objects) (e ∙ sym v.cache.room)
      ∙ take_all c.objects
      ∙ sym (take-append-drop n c.objects) in
    let pool = subst (λ ys. IsPool p m (ys ++ users) free) whole v.pool in
    let all_given =
      given-live batch pool (λ x k. mem-append_left users (mem-append_right kept k)) in
    let size : length batch ≡ c.batch_size =
      omega (arith, length-drop n c.objects, v.cache.room, v.cache.batch_fits) in
    let apart : Perm ((kept ++ batch) ++ users) (given batch ++ (kept ++ users)) =
      rw (all_given, sym (append_assoc batch kept users))
        (Perm.append_right users (perm_append_comm kept batch)) in
    let back = free_batched_lem b batch [] (kept ++ users) pool apart in
    let ran : free_batched_internal b p m c.batch_size (some batch) ≡ some (back.0, back.1) =
      subst (λ k. free_batched_internal b p m k (some batch) ≡ some (back.0, back.1)) size
        (subst (λ ys. free_batched_internal b p m (length batch) (some ys) ≡ some (back.0, back.1))
          (append-nil batch) back.2) in
    (
      record c { current = n },
      back.0,
      back.1,
      rw (from, ran),
      omega (arith, e, v.cache.batch_pos),
      record {
        free' = reverse_aux (given batch) free;
        front = record {
          cache = record {
            room = v.cache.room;
            bounded = omega (arith, e);
            batch_pos = v.cache.batch_pos;
            batch_fits = v.cache.batch_fits;
          };
          pool = back.3;
        };
        place = back.5;
        same = back.4;
      },
      refl,
      ap (λ ys. reverse_aux ys free) all_given,
    )

-- A push keeps the front when the block came from a client.
push-Taken :
    {c : ThreadLocalCache} {p₀ p : Pool} {m₀ m : Memory} {users : List ℕ} (b : Build) (ptr : ℕ)
    → c.current < object_count
    → (t : Taken p₀ m₀ (ptr ∷ users) c p m)
    → (c' : ThreadLocalCache) × (push b c ptr ≡ some c')
      × (t' : Taken p₀ m₀ users c' p m) × (1 ≤ length (cached c'))
      × (cached c' ≡ cached c ++ ptr ∷ [])
      × (t'.free' ≡ t.free')
push-Taken {c} {p₀} {p} {m₀} {m} {users} b ptr room t =
    let pushed = push_lem b c ptr t.front.cache room in
    let moved : Perm (cached c ++ ptr ∷ users) (cached pushed.0 ++ users) =
      rw pushed.3 (rw append_assoc (Perm.refl _)) in
    (
      pushed.0,
      pushed.1,
      record {
        free' = t.free';
        front = record { cache = pushed.2; pool = IsPool-perm t.front.pool moved };
        place = t.place;
        same = t.same;
      },
      omega (arith, ap length pushed.3, length-append (cached c) (ptr ∷ [])),
      pushed.3,
      refl,
    )

-- What a cache keeps when a block comes in, and what goes back to the pool: of a full cache, the last
-- batch.
abbrev pub staying : ThreadLocalCache → List ℕ
staying c =
    if c.current == object_count then take (c.current - c.batch_size) c.objects else cached c

abbrev pub leaving : ThreadLocalCache → List ℕ
leaving c = if c.current == object_count then drop (c.current - c.batch_size) c.objects else []

-- The part of `slab::free` that works on one class takes back a block that a client holds: the cache
-- has it as its last block then, behind those that it had; if it was full, its last batch is gone from it and stands, reversed, in
-- front of the pool's free list, else that list has not changed. The invariant holds again, no
-- assertion fails, nothing of the pool changes but its free list and count, and no byte outside the
-- pool is written.
pub cache_free-Taken :
    {c : ThreadLocalCache} {p : Pool} {m : Memory} {users free : List ℕ} (b : Build) (ptr : ℕ)
    → IsFront c p m (ptr ∷ users) free
    → (c' : ThreadLocalCache) × (q : Pool) × (m' : Memory) × (cache_free b c p m ptr
        ≡ some (c', q, m'))
      × (t : Taken p m users c' q m') × (1 ≤ length (cached c'))
      × (cached c' ≡ staying c ++ ptr ∷ [])
      × (t.free' ≡ reverse_aux (leaving c) free)
unfolding cache_free
cache_free-Taken {c} {p} {m} {users} {free} b ptr v = elim (Bool-cases (is_full c)) [
  | inl full ↦
      let flushed = flush_batch-front b free v (ground (arith, full)) in
      let pushed = push-Taken b ptr flushed.4 flushed.5 in
      let at_end : (c.current == object_count) ≡ true = ground (arith, full) in
      (
        pushed.0,
        flushed.1,
        flushed.2,
        rw (full, flushed.3, pushed.1),
        pushed.2,
        pushed.3,
        rw at_end (pushed.4 ∙ ap (λ xs. xs ++ ptr ∷ []) flushed.6),
        rw at_end (pushed.5 ∙ flushed.7),
      )
  | inr space ↦
      let pushed =
        push-Taken b ptr (ground (arith, space, v.cache.bounded))
          (record { free' = free; front = v; place = refl; same = λ j o. refl }) in
      let open_end : (c.current == object_count) ≡ false = ground (arith, space) in
      (
        pushed.0,
        p,
        m,
        rw (space, pushed.1),
        pushed.2,
        pushed.3,
        rw open_end pushed.4,
        rw open_end pushed.5,
      )
]
