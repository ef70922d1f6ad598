-- ===== src/Slab/Threads/Apart.antt =====
-- What the threads of a crew hold of one slab (src/slab.cpp) lies apart.
use mathlib.Core.List.{mem-append_right, Nodup-append}
use mathlib.Core.List.Perm
use slab_allocator.Base.{
  ℕ, zero, suc, ◌+◌, ◌≤◌, ◌<◌, ◌≡◌, ◌≢◌, ◌⊎◌, inl, inr, refl, sym, ◌∙◌, ap, subst, ◌==◌, Bool-cases,
  List, ◌++◌, length, get_elem?, Perm, Mem, Nodup, some, arith, same_some, Build,
}
use slab_allocator.Base.Held.{others}
use slab_allocator.Machine.Memory.{Memory}
use slab_allocator.Pool.{Pool}
use slab_allocator.Pool.Layout.{
  blocks, IsShaped, blocks_from-apart, blocks_from-ge, blocks_from-end,
}
use slab_allocator.Slab.Slots.{entry_at}
use slab_allocator.Slab.Operations.Local.{slot}
use slab_allocator.Pool.Chain.{distinct, live-block}
use slab_allocator.Slab.SizeClass.{num_size_classes}
use slab_allocator.Slab.Cache.{ThreadLocalCache}
use slab_allocator.Slab.Cache.Entries.{cached}
use slab_allocator.Slab.Slots.Flush.{Fronts, empty, class}
use slab_allocator.Slab.Slots.Fronts.{ClassAt, Fronts-ClassAt, separate_at}
use slab_allocator.Slab.Threads.{Crew, view}
use slab_allocator.Slab.Threads.Invariant.{IsCrew, IsMember, home, cached_in}
use slab_allocator.Slab.Threads.Interleavings.{System, Reach, Reach-IsRunning}

-- Different pools lie apart.
Fronts-separate :
    {m : Memory} {caches : List ThreadLocalCache} {pools : List Pool} {users : List (List ℕ)}
    (i j : ℕ) (p q : Pool)
    → Fronts m caches pools users
    → i ≢ j
    → get_elem? pools i ≡ some p
    → get_elem? pools j ≡ some q
    → (p.memory + p.capacity ≤ q.memory) ⊎ (q.memory + q.capacity ≤ p.memory)
Fronts-separate i j p q empty ne e e' = cc
Fronts-separate zero zero p q (class free v apart rest) ne e e' = absurd (ne refl)
Fronts-separate zero (suc j) p q (class {p = x} {pools = pools} free v apart rest) ne e e' =
    let here : x ≡ p = same_some e in
    subst (λ (z : Pool). (z.memory + z.capacity ≤ q.memory) ⊎ (q.memory + q.capacity ≤ z.memory))
      here (separate_at x pools j q apart e')
Fronts-separate (suc i) zero p q (class {p = x} {pools = pools} free v apart rest) ne e e' =
    let here : x ≡ q = same_some e' in
    let far = separate_at x pools i p apart e in
    subst (λ (z : Pool). (p.memory + p.capacity ≤ z.memory) ⊎ (z.memory + z.capacity ≤ p.memory))
      here (ground (arith, far))
Fronts-separate (suc i) (suc j) p q (class free v apart rest) ne e e' =
    Fronts-separate i j p q rest (λ same. ne (ap suc same)) e e'

module _ {c : Crew} {self : ℕ} {users : ℕ → List ℕ} (k : IsCrew c self users)
    (some_threads : 1 ≤ length c.entries) (i : ℕ) (hot : i < num_size_classes) where
  abbrev first : IsMember c self users 0
  first = k.member 0 some_threads

  -- The class as the first thread sees it.
  abbrev in_first :
      ClassAt
        (entry_at (view c 0).caches (slot (view c 0) self)).storage
        (c.slabs self).shared_pools
        first.blocks
        c.memory
        i
  in_first = Fronts-ClassAt i first.local.fronts (omega (arith, hot, first.local.classes))

  order : Perm in_first.held (others (cached_in (home c self) i) c.entries 0 ++ users i)
  order =
      let mine = first.holds i hot in
      subst (λ us. Perm us (others (cached_in (home c self) i) c.entries 0 ++ users i))
        (same_some (sym mine.1 ∙ in_first.held_at)) mine.2

  users-Nodup : Nodup (users i)
  users-Nodup =
      let all = (Nodup-append.0 (Nodup-append.0 (distinct in_first.front.pool)).0).1 in
      (Nodup-append.0 (Perm.nodup order all)).1

  users-blocks :
      (p : Pool)
      → get_elem? (c.slabs self).shared_pools i ≡ some p
      → {x : ℕ} → Mem x (users i)
      → Mem x (blocks p)
  users-blocks p e {x} m =
      let here : in_first.pool ≡ p = same_some (sym in_first.pool_at ∙ e) in
      subst (λ z. Mem x (blocks z)) here
        (live-block in_first.front.pool (
          mem-append_right (cached in_first.cache) (
            (Perm.mem_iff order).1
              (mem-append_right (others (cached_in (home c self) i) c.entries 0) m))))

  pool_of : (p : Pool) → get_elem? (c.slabs self).shared_pools i ≡ some p → IsShaped p
  pool_of p e = subst IsShaped (same_some (sym in_first.pool_at ∙ e)) in_first.front.pool.shaped

inside :
    (p : Pool)
    → IsShaped p
    → {x : ℕ} → Mem x (blocks p)
    → (p.memory ≤ x) × (x + p.block_size ≤ p.memory + p.capacity)
inside p v m = (
  blocks_from-ge p.memory p.block_size p.block_count m,
  omega (arith, blocks_from-end p.memory p.block_size p.block_count m, v.fits),
)

-- The blocks `x` and `y` of the pools `p` and `q` share no byte.
abbrev pub Apart : Pool → ℕ → Pool → ℕ → Type 0
Apart p x q y = (x + p.block_size ≤ y) ⊎ (y + q.block_size ≤ x)

-- In every order of calls of `alloc` and `free` by several threads, from a state that meets the
-- invariant on, no block is in the hands of two clients, and
-- different blocks that clients hold share no byte, whether of one class or of two, and whichever
-- threads got them.
pub users-Apart :
    (b : Build) (self : ℕ) {s s' : System}
    → IsCrew s.crew self s.users
    → 1 ≤ length s.crew.entries
    → Reach b self s s'
    → (i j : ℕ) (p q : Pool) → i < num_size_classes
    → j < num_size_classes
    → get_elem? (s'.crew.slabs self).shared_pools i ≡ some p
    → get_elem? (s'.crew.slabs self).shared_pools j ≡ some q
    → Nodup (s'.users i)
      × ((x y : ℕ) → Mem x (s'.users i) → Mem y (s'.users j) → (i ≢ j) ⊎ (x ≢ y) → Apart p x q y)
users-Apart b self {s} {s'} k some_threads r i j p q hot_i hot_j e e' =
    let run = Reach-IsRunning b self (length s.crew.entries) (k, refl) r in
    let still : 1 ≤ length s'.crew.entries = omega (arith, run.1, some_threads) in
    (
      users-Nodup run.0 still i hot_i,
      λ x y m n different.
          let x_block = users-blocks run.0 still i hot_i p e m in
          let y_block = users-blocks run.0 still j hot_j q e' n in
          elim (Bool-cases (i == j)) [
            | inl one ↦
                let same : i ≡ j = ground (arith, one) in
                let ne : x ≢ y = elim different [
                  | inl other ↦ absurd (other same)
                  | inr other ↦ other
                ] in
                let one_pool : q ≡ p = same_some (sym e' ∙ (rw same at e)) in
                let y_here : Mem y (blocks p) = subst (λ z. Mem y (blocks z)) one_pool y_block in
                let up = blocks_from-apart p.memory p.block_size p.block_count x_block y_here in
                let down = blocks_from-apart p.memory p.block_size p.block_count y_here x_block in
                let size : q.block_size ≡ p.block_size = ap (λ (z : Pool). z.block_size) one_pool in
                ground (arith, up, down, ne, size)
            | inr two ↦
                let ne : i ≢ j = ground (arith, two) in
                let far = Fronts-separate i j p q (run.0.member 0 still).local.fronts ne e e' in
                let x_in = inside p (pool_of run.0 still i hot_i p e) x_block in
                let y_in = inside q (pool_of run.0 still j hot_j q e') y_block in
                ground (arith, far, x_in, y_in)
          ],
    )
