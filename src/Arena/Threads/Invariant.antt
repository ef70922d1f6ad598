-- ===== src/Arena/Threads/Invariant.antt =====
-- What every interleaving of calls of `arena::alloc` (src/arena.cpp) keeps.
use slab_allocator.Base.{
  ℕ, ◌+◌, ◌%◌, ◌≤◌, ◌<◌, ◌≡◌, refl, ◌≢◌, List, [], ◌∷◌, arith, ◌==◌, Bool-cases, inl, inr, ◌⊎◌,
  zero, suc, get_elem?, some,
}
use slab_allocator.Arena.{Arena, refuse, exchange, attempt}
use slab_allocator.Arena.Layout.{IsArena, align_up}
use slab_allocator.Arena.Alloc.{attempt_lem}
use slab_allocator.Arena.Threads.{
  Phase, idle, looping, loaded, Grant, System, at, Step, call, load, give_up, swap, retry, start,
  Reach, here, next,
}

-- The blocks lie one behind the other below `top`, the newest last, each on a multiple of 16.
abbrev pub Stacked : ℕ → List Grant → Type 0
Stacked top [] = Unit {0}
Stacked top (g ∷ gs) =
    (g.offset + g.size ≤ top) × (g.offset % 16 ≡ 0) × (1 ≤ g.size) × Stacked g.offset gs

-- What a thread remembers: its request is not empty, and the offset that it loaded has been in
-- `used`, which never goes back.
abbrev pub Remembers : ℕ → Phase → Type 0
Remembers used idle = Unit {0}
Remembers used (looping length) = 1 ≤ length
Remembers used (loaded length current) = (1 ≤ length) × (current ≤ used)

pub record Inv (a : Arena) (s : System) : Type 0 where
  pub valid : IsArena s.arena
  pub same_memory : s.arena.memory ≡ a.memory
  pub same_capacity : s.arena.capacity ≡ a.capacity
  pub stacked : Stacked s.arena.used s.grants
  pub remembers : (t : ℕ) → Remembers s.arena.used (s.phase t)

Remembers-mono : (u u' : ℕ) (p : Phase) → u ≤ u' → Remembers u p → Remembers u' p
Remembers-mono u u' idle h r = tt
Remembers-mono u u' (looping l) h r = r
Remembers-mono u u' (loaded l c) h r = omega arith

Stacked-mono : (top top' : ℕ) (gs : List Grant) → top ≤ top' → Stacked top gs → Stacked top' gs
Stacked-mono top top' [] h s = tt
Stacked-mono top top' (g ∷ gs) h s = (omega arith, s.1, s.2, s.3)

Remembers-at :
    (u : ℕ) (f : ℕ → Phase) (t : ℕ) (p : Phase)
    → ((i : ℕ) → Remembers u (f i))
    → Remembers u p
    → (i : ℕ) → Remembers u (at f t p i)
Remembers-at u f t p all new i = elim (Bool-cases (i == t)) [
  | inl e ↦ rw e new
  | inr e ↦ rw e (all i)
]

-- What a round that does not refuse is about to do.
exchange_bounds :
    (a : Arena) (length current aligned desired : ℕ)
    → IsArena a
    → current ≤ a.capacity
    → attempt a length current ≡ exchange aligned desired
    → (aligned % 16 ≡ 0)
      × (current ≤ aligned)
      × (desired ≡ aligned + length)
      × (desired ≤ a.capacity)
exchange_bounds a length current aligned desired v h e =
    ground (arith, attempt_lem a length current v h)

Step-Inv : {a : Arena} {s s' : System} → Step s s' → Inv a s → Inv a s'
Step-Inv {s} (call t length e h mapped) v = record {
  valid = v.valid;
  same_memory = v.same_memory;
  same_capacity = v.same_capacity;
  stacked = v.stacked;
  remembers = Remembers-at s.arena.used s.phase t (looping length) v.remembers (omega arith);
}
Step-Inv {s} (load t length e) v = record {
  valid = v.valid;
  same_memory = v.same_memory;
  same_capacity = v.same_capacity;
  stacked = v.stacked;
  remembers =
      Remembers-at s.arena.used s.phase t (loaded length s.arena.used) v.remembers
        (rw e at (v.remembers t), omega arith);
}
Step-Inv {s} (give_up t length current e r) v = record {
  valid = v.valid;
  same_memory = v.same_memory;
  same_capacity = v.same_capacity;
  stacked = v.stacked;
  remembers = Remembers-at s.arena.used s.phase t idle v.remembers tt;
}
Step-Inv {a} {s} (swap t length current aligned desired e x same) v =
    let known : Remembers s.arena.used (loaded length current) = rw e at (v.remembers t) in
    let fits =
      exchange_bounds s.arena length current aligned desired v.valid (omega (arith, v.valid.within))
        x in
    record {
      valid = record {
        memory_aligned = v.valid.memory_aligned;
        capacity_aligned = v.valid.capacity_aligned;
        within = fits.3;
        in_space = v.valid.in_space;
      };
      same_memory = v.same_memory;
      same_capacity = v.same_capacity;
      stacked = (
        omega arith,
        fits.0,
        known.0,
        Stacked-mono s.arena.used aligned s.grants (omega arith) v.stacked,
      );
      remembers =
          Remembers-at desired s.phase t idle
            (λ u. Remembers-mono s.arena.used desired (s.phase u) (omega arith) (v.remembers u)) tt;
    }
Step-Inv {s} (retry t length current aligned desired e x) v =
    let known : Remembers s.arena.used (loaded length current) = rw e at (v.remembers t) in
    record {
      valid = v.valid;
      same_memory = v.same_memory;
      same_capacity = v.same_capacity;
      stacked = v.stacked;
      remembers = Remembers-at s.arena.used s.phase t (looping length) v.remembers known.0;
    }

start-Inv : (a : Arena) → IsArena a → Inv a (start a)
start-Inv a v = record {
  valid = record {
    memory_aligned = v.memory_aligned;
    capacity_aligned = v.capacity_aligned;
    within = omega arith;
    in_space = v.in_space;
  };
  same_memory = refl;
  same_capacity = refl;
  stacked = tt;
  remembers = λ t. tt;
}

-- In every interleaving, from a well-formed arena on, the arena stays well formed in the same memory, the blocks that have been
-- handed out lie one behind the other on multiples of 16 and below `used`, and no thread holds an
-- offset above `used`.
pub Reach-Inv : {a : Arena} {s : System} → IsArena a → Reach a s → Inv a s
Reach-Inv {a} v here = start-Inv a v
Reach-Inv v (next r st) = Step-Inv st (Reach-Inv v r)

-- Two blocks share no byte.
abbrev pub Apart : Grant → Grant → Type 0
Apart g h = (g.offset + g.size ≤ h.offset) ⊎ (h.offset + h.size ≤ g.offset)

Stacked-below :
    (top : ℕ) (gs : List Grant) (i : ℕ) (g : Grant)
    → Stacked top gs
    → get_elem? gs i ≡ some g
    → (g.offset + g.size ≤ top) × (g.offset % 16 ≡ 0) × (1 ≤ g.size)
Stacked-below top [] i g s e = cc
Stacked-below top (x ∷ gs) zero g s e = ground arith
Stacked-below top (x ∷ gs) (suc i) g s e = omega (arith, Stacked-below x.offset gs i g s.3 e)

Stacked-Apart :
    (top : ℕ) (gs : List Grant) (i j : ℕ) (g h : Grant)
    → Stacked top gs
    → i < j
    → get_elem? gs i ≡ some g
    → get_elem? gs j ≡ some h
    → h.offset + h.size ≤ g.offset
Stacked-Apart top [] i j g h s lt p q = cc
Stacked-Apart top (x ∷ gs) i zero g h s lt p q = absurd (omega arith)
Stacked-Apart top (x ∷ gs) zero (suc j) g h s lt p q =
    ground (arith, Stacked-below x.offset gs j h s.3 q)
Stacked-Apart top (x ∷ gs) (suc i) (suc j) g h s lt p q =
    Stacked-Apart x.offset gs i j g h s.3 (omega arith) p q

-- In every interleaving, from a well-formed arena on, two different calls of `alloc` get blocks that
-- share no byte, and every block ends within the capacity of the arena.
pub Reach-Apart :
    {a : Arena} {s : System} (i j : ℕ) (g h : Grant)
    → IsArena a
    → Reach a s
    → i ≢ j
    → get_elem? s.grants i ≡ some g
    → get_elem? s.grants j ≡ some h
    → Apart g h × (g.offset + g.size ≤ a.capacity)
Reach-Apart {a} {s} i j g h v r ne p q =
    let w = Reach-Inv v r in
    let inside = Stacked-below s.arena.used s.grants i g w.stacked p in
    ground (
      arith,
      w.valid.within,
      w.same_capacity,
      Stacked-Apart s.arena.used s.grants i j g h w.stacked,
      Stacked-Apart s.arena.used s.grants j i h g w.stacked,
    )

-- In every interleaving, from a well-formed arena on, a thread is refused only if its request, from the
-- first multiple of 16 at or above the present `used` on, ends behind the capacity, although the
-- offset that the thread loaded may be old.
pub give_up_justified :
    {a : Arena} {s : System} (t length current : ℕ)
    → IsArena a
    → Reach a s
    → s.phase t ≡ loaded length current
    → attempt s.arena length current ≡ refuse
    → s.arena.capacity < align_up s.arena.used + length
give_up_justified {a} {s} t length current v r e x =
    let w = Reach-Inv v r in
    let known : Remembers s.arena.used (loaded length current) = rw e at (w.remembers t) in
    ground (
      arith,
      known,
      w.valid.within,
      attempt_lem s.arena length current w.valid (omega (arith, w.valid.within)),
    )
