-- ===== src/Stress/ArenaThreads/Draining.antt =====
-- How test 2 of stress_tests/arena_thread_stress.cpp leaves its arena and its counter.
use mathlib.Core.List.Perm
use slab_allocator.Base.{
  ℕ, ◌+◌, ◌*◌, ◌/◌, ◌≤◌, ◌<◌, ◌≡◌, ◌⊎◌, refl, sym, ◌∙◌, ap, subst, Bool, true, inl, inr, List, [],
  ◌∷◌, ◌++◌, length, get_elem?, some, Perm, All, arith,
}
use slab_allocator.Base.Held.{
  total, total-copies, all_held, all_held-copies, length-copies, All-copies, All-at,
}
use slab_allocator.Machine.Memory.{Memory}
use slab_allocator.Arena.{Arena}
use slab_allocator.Stress.{Passes, Passes-map}
use slab_allocator.Stress.Threads.{join_contended}
use slab_allocator.Stress.Threads.Contention.{join_contended-Joined}
use slab_allocator.Stress.ArenaThreads.{
  entering, Asker, asking, served, missed, Shared, exhaust_action, finished, listed, start,
}
use slab_allocator.Stress.ArenaThreads.Calls.{Stock}
use slab_allocator.Stress.ArenaThreads.Use.{held, left, left-finished, slots}
use slab_allocator.Stress.ArenaThreads.Exhausting.{got, counted, Fine, Exhaust, exhaust_action-Next}

module _ (n threads m cap : ℕ) where
  left-bounded :
      (s : Shared) (locals : List Asker) (tid : ℕ) (l : Asker)
      → Exhaust n threads m cap s locals
      → get_elem? locals tid ≡ some l
      → left n s.arena.used l ≤ 6 * n
  left-bounded s locals tid (asking i call ptrs) b e = omega arith
  left-bounded s locals tid (served i ptr ptrs) b e =
      omega (arith, (All-at (Fine cap n s.arena.used) locals tid b.going.fine e).0)
  left-bounded s locals tid (missed i ptrs) b e =
      omega (arith, (All-at (Fine cap n s.arena.used) locals tid b.going.fine e).0)

  joined-Exhaust :
      (schedule : List (ℕ × Bool)) (s : Shared) (locals : List Asker)
      → Exhaust n threads m cap s locals
      → Passes
          (λ (r : Shared × List Asker).
            Exhaust n threads m cap r.0 r.1
            × (length r.1 ≡ length locals)
            × All (λ l. finished n l ≡ true) r.1)
          (join_contended (exhaust_action n) (finished n) (6 * n) schedule (s, locals))
  joined-Exhaust schedule s locals b =
      join_contended-Joined (exhaust_action n) (Exhaust n threads m cap)
        (λ s l. left n s.arena.used l) (exhaust_action-Next n threads m cap) (finished n) (6 * n)
        left-bounded (λ s l. left-finished n s.arena.used l) schedule (s, locals) b

  -- At their end the workers have listed all that they got; no attempt was refused, or the arena is
  -- full.
  ended_lists :
      (used : ℕ) (locals : List Asker)
      → All (Fine cap n used) locals
      → All (λ l. finished n l ≡ true) locals
      → (all_held held locals ≡ all_held listed locals)
        × (total counted locals ≡ total got locals)
        × ((total got locals ≡ length locals * n) ⊎ (cap < used + 32))
  unfolding finished
  ended_lists used [] f d = (refl, refl, inl (omega arith))
  ended_lists used (asking i call ptrs ∷ locals) f d =
      let rest = ended_lists used locals f.1 d.1 in
      let end : i ≡ n = ground (arith, f.0.1, d.0) in
      (
        ap (λ us. ptrs ++ us) rest.0,
        omega (arith, rest.1),
        elim f.0.2 [
          | inr full ↦ inr full
          | inl each ↦ elim rest.2 [
            | inr full ↦ inr full
            | inl others ↦ inl (grind (arith, each, others, end))
          ]
        ],
      )
  ended_lists used (served i ptr ptrs ∷ locals) f d = cc
  ended_lists used (missed i ptrs ∷ locals) f d = cc

  -- All blocks of the arena are given, counted, and with the workers.
  pub record Drained (s : Shared) (locals : List Asker) : Type 0 where
    pub stock : Stock m cap (cap / 32) s.arena
    pub successes : s.counter ≡ cap / 32
    pub with_workers : Perm (slots m (cap / 32)) (all_held listed locals)

  start-Exhaust :
      (a : Arena) (mem : Memory)
      → Stock m cap 0 a
      → Exhaust n threads m cap (record { arena = a; memory = mem; counter = 0 }) (start threads)
  start-Exhaust a mem stock =
      let none_got : total got (start threads) ≡ 0 =
        total-copies got (asking 0 entering []) threads ∙ omega arith in
      let none_counted : total counted (start threads) ≡ 0 =
        total-copies counted (asking 0 entering []) threads ∙ omega arith in
      record {
        going = record {
          stock = rw none_got stock;
          fine =
              All-copies (Fine cap n a.used) (asking 0 entering []) threads
                (tt, omega arith, inl refl);
          listed = λ yes.
              rw (none_got, all_held-copies held (asking 0 entering []) threads refl) (Perm.refl _);
        };
        workers = length-copies (asking 0 entering []) threads;
        successes = sym none_counted;
      }

  pub exhaust-Drained :
      (schedule : List (ℕ × Bool)) (a : Arena) (mem : Memory)
      → cap < threads * n * 32
      → Stock m cap 0 a
      → Passes
          (λ (r : Shared × List Asker). Drained r.0 r.1)
          (join_contended
            (exhaust_action n)
            (finished n)
            (6 * n)
            schedule
            (record { arena = a; memory = mem; counter = 0 }, start threads))
  exhaust-Drained schedule a mem short stock =
      Passes-map (joined-Exhaust schedule _ (start threads) (start-Exhaust a mem stock)) λ r k.
        let (same, counts, ends) = ended_lists r.0.arena.used r.1 k.0.going.fine k.2 in
        let all : length r.1 * n ≡ threads * n = ap (λ t. t * n) k.0.workers in
        let g = k.0.going in
        let inside : total got r.1 * 32 ≤ cap =
          omega (arith, g.stock.used, g.stock.valid.within, g.stock.capacity) in
        let full : cap < total got r.1 * 32 + 32 = elim ends [
          | inl every ↦ absurd (omega (arith, every, all, short, inside))
          | inr none_left ↦ omega (arith, none_left, g.stock.used)
        ] in
        let amount : total got r.1 ≡ cap / 32 = omega (arith, inside, full) in
        record {
          stock = subst (λ z. Stock m cap z r.0.arena) amount g.stock;
          successes = k.0.successes ∙ counts ∙ amount;
          with_workers =
              subst (λ z. Perm (slots m z) (all_held listed r.1)) amount
                (subst (Perm (slots m (total got r.1))) same (g.listed refl));
        }
