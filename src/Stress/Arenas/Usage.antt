-- ===== src/Stress/Arenas/Usage.antt =====
-- What the tests of stress_tests/arena_stress.cpp use of their arenas.
use slab_allocator.Base.{
  ℕ, zero, suc, ◌+◌, ◌*◌, ◌≤◌, ◌≡◌, ◌≢◌, refl, ◌∙◌, ap, subst, List, [], ◌∷◌, length, arith, true,
  false, ◌==◌, ◌||◌, ltb,
}
use slab_allocator.Machine.Word.{nullptr}
use slab_allocator.Platform.Laws.{ne-eqb}
use slab_allocator.Arena as Arena
use slab_allocator.Arena.{Arena}
use slab_allocator.Arena.Layout.{IsArena, align_up}
use slab_allocator.Arena.Alloc.{alloc_lem}
use slab_allocator.Arena.Lifetime.{reset_lem, get_used_lem}
use slab_allocator.Stress.{Passes, passes, Passes->>=, repeat-Passes}
use slab_allocator.Stress.Arenas.{
  small_allocs, small_size, reset_cycles, allocs_per_reset, alloc_size, alloc_all, many_small,
  reset_cycle, many_resets,
}

-- `k` blocks of `size` bytes have been taken from an empty arena at the memory of `a`; each takes at
-- most `units` times 16 bytes.
pub record Used (a : Arena) (size units k : ℕ) (r : List ℕ × Arena) : Type 0 where
  pub valid : IsArena r.1
  pub memory : r.1.memory ≡ a.memory
  pub capacity : r.1.capacity ≡ a.capacity
  pub count : length r.0 ≡ k
  pub enough : k * size ≤ r.1.used
  pub limit : r.1.used ≤ k * units * 16

alloc_step :
    (n size units k : ℕ) (a : Arena) (ptrs : List ℕ) (c : Arena)
    → a.memory ≢ nullptr
    → 1 ≤ size
    → size ≤ units * 16
    → suc k * units * 16 ≤ a.capacity
    → Used a size units k (ptrs, c)
    → (ptr : ℕ) × (c' : Arena) × (Arena.alloc n c size ≡ (ptr, c'))
      × (ptr ≢ nullptr)
      × Used a size units (suc k) (ptr ∷ ptrs, c')
alloc_step n size units k a ptrs c mapped some_size fits room u =
    let one_more : suc k * units * 16 ≡ k * units * 16 + units * 16 = grind arith in
    let one_size : suc k * size ≡ k * size + size = grind arith in
    let below : align_up c.used ≤ k * units * 16 = omega (arith, u.limit) in
    let given : (size == 0 || c.memory == nullptr || ltb c.capacity (align_up c.used + size))
        ≡ false =
      ground (arith, u.memory, u.capacity) in
    (
      c.memory + align_up c.used,
      record c { used = align_up c.used + size },
      alloc_lem n c size u.valid ∙ (rw given refl),
      omega (arith, u.memory),
      record {
        valid = record {
          memory_aligned = u.valid.memory_aligned;
          capacity_aligned = u.valid.capacity_aligned;
          within = omega (arith, u.capacity);
          in_space = u.valid.in_space;
        };
        memory = u.memory;
        capacity = u.capacity;
        count = ap suc u.count;
        enough = omega (arith, u.enough);
        limit = omega arith;
      },
    )

pub alloc_all-Used :
    (spurious : ℕ → ℕ) (count size units k : ℕ) (a : Arena) (ptrs : List ℕ) (c : Arena)
    → a.memory ≢ nullptr
    → 1 ≤ size
    → size ≤ units * 16
    → (k + count) * units * 16 ≤ a.capacity
    → Used a size units k (ptrs, c)
    → Passes (Used a size units (k + count)) (alloc_all spurious count size c ptrs)
unfolding alloc_all
alloc_all-Used spurious zero size units k a ptrs c mapped some_size fits room u =
    passes (ptrs, c) (let e : k + 0 ≡ k = omega arith in rw e u)
alloc_all-Used spurious (suc count) size units k a ptrs c mapped some_size fits room u =
    let order : suc k + count ≡ k + suc count = omega arith in
    let left : (k + suc count) * units * 16 ≡ suc k * units * 16 + count * units * 16 =
      grind arith in
    let s =
      alloc_step (spurious count) size units k a ptrs c mapped some_size fits (omega arith) u in
    let rest =
      alloc_all-Used spurious count size units (suc k) a (s.0 ∷ ptrs) s.1 mapped some_size fits
        (rw order room) s.4 in
    rw (s.2, ne-eqb s.0 s.3)
      (subst (λ n. Passes (Used a size units n) (alloc_all spurious count size s.1 (s.0 ∷ ptrs)))
        order rest)

-- An arena at the memory of `a` that nobody has used since its `reset`.
pub record Unused (a c : Arena) : Type 0 where
  pub valid : IsArena c
  pub memory : c.memory ≡ a.memory
  pub capacity : c.capacity ≡ a.capacity
  pub used : c.used ≡ 0

Unused-Used : {a c : Arena} (size units : ℕ) → Unused a c → Used a size units 0 ([], c)
Unused-Used size units v = record {
  valid = v.valid;
  memory = v.memory;
  capacity = v.capacity;
  count = refl;
  enough = omega arith;
  limit = omega (arith, v.used);
}

pub many_small-Passes :
    (spurious : ℕ → ℕ) (a c : Arena)
    → a.memory ≢ nullptr
    → small_allocs * 16 ≤ a.capacity
    → Unused a c
    → Passes
        (λ (r : Arena). (r.memory ≡ a.memory) × (r.capacity ≡ a.capacity))
        (many_small spurious c)
unfolding many_small
many_small-Passes spurious a c mapped room v =
    Passes->>=
      (alloc_all-Used spurious small_allocs small_size 1 0 a [] c mapped (omega arith) (omega arith)
        (omega arith) (Unused-Used small_size 1 v))
      λ r u.
        let some_left : (length r.0 == 0) ≡ false = ground (arith, u.count) in
        let enough : ltb r.1.used (length r.0 * small_size) ≡ false =
          ground (arith, u.count, u.enough) in
        rw (some_left, get_used_lem r.1, enough) (passes r.1 (u.memory, u.capacity))

reset_cycle-Unused :
    (spurious : ℕ → ℕ) (a c : Arena)
    → a.memory ≢ nullptr
    → allocs_per_reset * 112 ≤ a.capacity
    → Unused a c
    → Passes (Unused a) (reset_cycle spurious c)
unfolding reset_cycle
reset_cycle-Unused spurious a c mapped room v =
    Passes->>=
      (alloc_all-Used spurious allocs_per_reset alloc_size 7 0 a [] c mapped (omega arith)
        (omega arith) (omega arith) (Unused-Used alloc_size 7 v))
      λ r u.
        let enough : ltb r.1.used (allocs_per_reset * alloc_size) ≡ false =
          ground (arith, u.enough) in
        let cleared : Arena = record r.1 { used = 0 } in
        rw (get_used_lem r.1, enough, reset_lem r.1, get_used_lem cleared)
          (passes cleared (record {
            valid = record {
              memory_aligned = u.valid.memory_aligned;
              capacity_aligned = u.valid.capacity_aligned;
              within = omega arith;
              in_space = u.valid.in_space;
            };
            memory = u.memory;
            capacity = u.capacity;
            used = refl;
          }))

pub many_resets-Passes :
    (spurious : ℕ → ℕ) (a c : Arena)
    → a.memory ≢ nullptr
    → allocs_per_reset * 112 ≤ a.capacity
    → Unused a c
    → Passes (Unused a) (many_resets spurious c)
unfolding many_resets
many_resets-Passes spurious a c mapped room v =
    Passes->>=
      (repeat-Passes reset_cycles (reset_cycle spurious)
        (λ d w. reset_cycle-Unused spurious a d mapped room w) c v)
      λ d w.
        let none_used : (Arena.get_used d == 0) ≡ true = ground (arith, get_used_lem d, w.used) in
        rw none_used (passes d w)
