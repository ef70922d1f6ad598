-- ===== src/Stress/ArenaThreads/Checking.antt =====
-- The checks behind the joins in stress_tests/arena_thread_stress.cpp.
use mathlib.Core.List.{append-nil}
use mathlib.Core.List.Perm
use slab_allocator.Base.{
  ℕ, zero, suc, ◌+◌, ◌*◌, ◌^◌, ◌%◌, ◌≤◌, ◌<◌, ◌≡◌, refl, sym, ◌∙◌, ap, ◌==◌, Bool, true, false,
  List, [], ◌∷◌, ◌++◌, length, length-append, length-perm, Nodup, Perm, arith,
}
use slab_allocator.Base.Held.{all_held, lists_of}
use slab_allocator.Machine.Word.{add_word}
use slab_allocator.Machine.Memory.{Memory}
use slab_allocator.Arena as Arena
use slab_allocator.Arena.{Arena}
use slab_allocator.Arena.Lifetime.{get_used_lem, reset_lem}
use slab_allocator.Stress.{Passes, passes, Passes->>=, Passes-map}
use slab_allocator.Stress.PoolThreads.{insert_locals}
use slab_allocator.Stress.PoolThreads.Inserting.{insert_locals-Passes}
use slab_allocator.Stress.ArenaThreads.{
  Asker, listed, count_listed, bulk_test, reset_cycle, reset_test, allocs_per_thread,
  allocs_per_thread_per_cycle,
}
use slab_allocator.Stress.ArenaThreads.Calls.{Stock}
use slab_allocator.Stress.ArenaThreads.Use.{slots, slots-Nodup, length-slots}
use slab_allocator.Stress.ArenaThreads.Bulk.{bulk-Given}

count_listed_lem :
    (locals : List Asker) (t : ℕ)
    → t + length (all_held listed locals) < 2 ^ 64
    → count_listed (lists_of listed locals) t ≡ t + length (all_held listed locals)
unfolding count_listed add_word
count_listed_lem [] t h = omega arith
count_listed_lem (l ∷ locals) t h =
    let parts = length-append (listed l) (all_held listed locals) in
    let here : (t + length (listed l)) % 2 ^ 64 ≡ t + length (listed l) = omega (arith, h, parts) in
    ap (count_listed (lists_of listed locals)) here
    ∙ count_listed_lem locals (t + length (listed l)) (omega (arith, h, parts))
    ∙ omega (arith, parts)

-- The first blocks of the arena are in the lists: no pointer is there twice, and they are all there.
pub insert_slots :
    (m k : ℕ) (locals : List Asker)
    → Perm (slots m k) (all_held listed locals)
    → Passes (λ r. length r ≡ k) (insert_locals (lists_of listed locals) [])
insert_slots m k locals order =
    let none_twice : Nodup (all_held listed locals ++ []) =
      rw (append-nil (all_held listed locals)) (Perm.nodup order (slots-Nodup m k)) in
    Passes-map (insert_locals-Passes listed locals [] none_twice) λ r e.
      e
      ∙ ap length (append-nil (all_held listed locals))
      ∙ sym (length-perm order)
      ∙ length-slots m k

pub count_slots :
    (m k : ℕ) (locals : List Asker)
    → Perm (slots m k) (all_held listed locals)
    → k < 2 ^ 64
    → count_listed (lists_of listed locals) 0 ≡ k
count_slots m k locals order small =
    let size = sym (length-perm order) ∙ length-slots m k in
    count_listed_lem locals 0 (omega (arith, size, small)) ∙ omega (arith, size)

-- The arena is still the one that the test was given.
abbrev pub Same : ℕ → ℕ → Arena × Memory → Type 0
Same m cap r = (r.0.memory ≡ m) × (r.0.capacity ≡ cap)

pub bulk_test-Passes :
    (threads m cap : ℕ) (schedule : List (ℕ × Bool)) (a : Arena) (mem : Memory)
    → threads * allocs_per_thread * 32 ≤ cap
    → Stock m cap 0 a
    → Passes (Same m cap) (bulk_test threads schedule (a, mem))
unfolding bulk_test
bulk_test-Passes threads m cap schedule a mem room stock =
    Passes->>= (bulk-Given true allocs_per_thread threads m cap room 0 schedule a mem stock) λ r g.
      let total = threads * allocs_per_thread in
      let order = g.with_workers refl in
      let small : total < 2 ^ 64 = omega (arith, room, g.stock.valid.in_space, g.stock.capacity) in
      let none : (r.0.counter == 0) ≡ true = ground (arith, g.none_missed) in
      let all : (count_listed (lists_of listed r.1) 0 == total) ≡ true =
        ground (arith, count_slots m total r.1 order small) in
      let figure : (Arena.get_used r.0.arena == total * 32) ≡ true =
        rw (get_used_lem r.0.arena) (ground (arith, g.stock.used)) in
      rw none (
        Passes->>= (insert_slots m total r.1 order) λ unique size.
          rw (all, figure) (passes (r.0.arena, r.0.memory) (g.stock.memory, g.stock.capacity)))

-- The arena is empty again.
reset_cycle-Passes :
    (threads m cap cycle : ℕ) (schedule : List (ℕ × Bool)) (state : Arena × Memory)
    → threads * allocs_per_thread_per_cycle * 32 ≤ cap
    → Stock m cap 0 state.0
    → Passes (λ (r : Arena × Memory). Stock m cap 0 r.0) (reset_cycle threads cycle schedule state)
unfolding reset_cycle
reset_cycle-Passes threads m cap cycle schedule (a, mem) room stock =
    Passes->>=
      (bulk-Given false allocs_per_thread_per_cycle threads m cap room cycle schedule a mem stock)
      λ r g.
        let total = threads * allocs_per_thread_per_cycle in
        let none : (r.0.counter == 0) ≡ true = ground (arith, g.none_missed) in
        let figure : (Arena.get_used r.0.arena == total * 32) ≡ true =
          rw (get_used_lem r.0.arena) (ground (arith, g.stock.used)) in
        let emptied = record r.0.arena { used = 0 } in
        rw (none, figure, reset_lem r.0.arena, get_used_lem emptied)
          (passes (emptied, r.0.memory)
            (record {
              valid = record {
                memory_aligned = g.stock.valid.memory_aligned;
                capacity_aligned = g.stock.valid.capacity_aligned;
                within = omega arith;
                in_space = g.stock.valid.in_space;
              };
              mapped = g.stock.mapped;
              memory = g.stock.memory;
              capacity = g.stock.capacity;
              used = refl;
            }))

pub reset_test-Passes :
    (threads m cap : ℕ) (schedules : ℕ → List (ℕ × Bool)) (rounds cycle : ℕ)
    (state : Arena × Memory)
    → threads * allocs_per_thread_per_cycle * 32 ≤ cap
    → Stock m cap 0 state.0
    → Passes
        (λ (r : Arena × Memory). Stock m cap 0 r.0)
        (reset_test threads schedules rounds cycle state)
unfolding reset_test
reset_test-Passes threads m cap schedules zero cycle state room stock = passes state stock
reset_test-Passes threads m cap schedules (suc rounds) cycle state room stock =
    Passes->>= (reset_cycle-Passes threads m cap cycle (schedules cycle) state room stock)
      λ state' k. reset_test-Passes threads m cap schedules rounds (suc cycle) state' room k
