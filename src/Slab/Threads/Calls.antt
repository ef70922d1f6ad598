-- ===== src/Slab/Threads/Calls.antt =====
-- `slab::alloc` and `slab::free` (src/slab.cpp) as calls of any of several threads.
use mathlib.Core.List.{mem-append_right, perm_middle, Nodup-append, Nodup-cons}
use mathlib.Core.List.Perm
use slab_allocator.Base.{
  ℕ, ◌≤◌, ◌<◌, ◌≡◌, ◌≢◌, ◌⊎◌, inl, inr, refl, sym, ◌∙◌, subst, ◌==◌, true, false, if◌then◌else◌,
  List, [], ◌∷◌, ◌++◌, length, length-set, Perm, Mem, some, arith, same_some, Build,
}
use slab_allocator.Base.Held.{others}
use slab_allocator.Machine.Word.{nullptr}
use slab_allocator.Pool.{Pool}
use slab_allocator.Pool.Chain.{distinct}
use slab_allocator.Slab.SizeClass.{largest, size_to_index}
use slab_allocator.Slab.SizeClass.Choice.{size_to_index_lem}
use slab_allocator.Slab.Cache.{ThreadLocalCache}
use slab_allocator.Slab.Cache.Alloc.{Served, block, exhausted}
use slab_allocator.Slab.Slots.{entry_at}
use slab_allocator.Slab.Slots.Fronts.{ClassAt}
use slab_allocator.Slab.Operations.Local.{slot, put}
use slab_allocator.Slab.Operations.Calls.{class_at, alloc-put, free-put}
use slab_allocator.Slab.Threads.{Crew, view, store, alloc_by, free_by}
use slab_allocator.Slab.Threads.Invariant.{IsCrew, IsMember, home, cached_in}
use slab_allocator.Slab.Threads.Work.{after-IsCrew}

-- The clients' blocks with those of one class replaced.
abbrev pub with_class : (ℕ → List ℕ) → ℕ → List ℕ → ℕ → List ℕ
with_class users index u = λ i. if i == index then u else users i

pub with_class-same :
    (users : ℕ → List ℕ) (index : ℕ) (u : List ℕ) → with_class users index u index ≡ u
with_class-same users index u = let here : (index == index) ≡ true = ground arith in rw here refl

pub with_class-other :
    (users : ℕ → List ℕ) (index : ℕ) (u : List ℕ) (j : ℕ)
    → j ≢ index
    → with_class users index u j ≡ users j
with_class-other users index u j ne =
    let foreign : (j == index) ≡ false = ground (arith, ne) in rw foreign refl

-- The two answers to a request of `size` bytes, and what holds afterwards.
abbrev pub Answered : ℕ → (ℕ → List ℕ) → ℕ → ℕ → Crew → Type 0
Answered self users size ptr c' =
    ((ptr ≡ nullptr) × IsCrew c' self users)
    ⊎ ((ptr ≢ nullptr)
        × (Mem ptr (users (size_to_index size)) → ⊥)
        × IsCrew c' self (with_class users (size_to_index size) (ptr ∷ users (size_to_index size))))

module _ (b : Build) (c : Crew) (self : ℕ) (users : ℕ → List ℕ) (k : IsCrew c self users) (t : ℕ)
    (small : t < length c.entries) where
  abbrev member : IsMember c self users t
  member = k.member t small

  abbrev seen :
      (size : ℕ) (lo : 1 ≤ size) (hi : size ≤ largest)
      → ClassAt
          (entry_at (view c t).caches (slot (view c t) self)).storage
          (c.slabs self).shared_pools
          member.blocks
          c.memory
          (size_to_index size)
  seen size lo hi = class_at b (view c t) self member.blocks member.local size lo hi

  -- What is in use from where the thread stands.
  seen_held :
      (size : ℕ) (lo : 1 ≤ size) (hi : size ≤ largest)
      → Perm (seen size lo hi).held (
          others (cached_in (home c self) (size_to_index size)) c.entries t
          ++ users (size_to_index size))
  seen_held size lo hi =
      let mine = member.holds (size_to_index size) (size_to_index_lem size lo hi).0 in
      subst
        (λ us. Perm us (
          others (cached_in (home c self) (size_to_index size)) c.entries t
          ++ users (size_to_index size)))
        (same_some (sym mine.1 ∙ (seen size lo hi).held_at)) mine.2

  Served-Answered :
      (size : ℕ) (lo : 1 ≤ size) (hi : size ≤ largest) {x : ℕ} {c' : ThreadLocalCache} {q : Pool}
      → let n = seen size lo hi in
        Served n.cache n.pool c.memory n.held n.free x c' q
        → Answered self users size x
            (store c t (put (view c t) self (size_to_index size) c' q c.memory))
  Served-Answered size lo hi {c' = c'} {q = q} (block {x = x} free' real front place) =
      let n = seen size lo hi in
      let index = size_to_index size in
      let hot = (size_to_index_lem size lo hi).0 in
      let rest = others (cached_in (home c self) index) c.entries t in
      let more : Perm (x ∷ n.held) (rest ++ x ∷ users index) =
        Perm.trans (Perm.append_left (x ∷ []) (seen_held size lo hi))
          (Perm.symm (perm_middle rest (users index))) in
      let unused : Mem x n.held → ⊥ =
        (Nodup-cons.0 (Nodup-append.0 (Nodup-append.0 (distinct front.pool)).0).1).0 in
      inr (
        real,
        λ m. unused ((Perm.mem_iff (seen_held size lo hi)).1 (mem-append_right rest m)),
        after-IsCrew c self users (with_class users index (x ∷ users index)) k t small index hot
            n.pool q c' c.memory (x ∷ n.held) free' n.pool_at front place (λ j o. refl)
            (rw (with_class-same users index (x ∷ users index)) more)
            (with_class-other users index (x ∷ users index)),
      )
  Served-Answered size lo hi {c' = c'} {q = q} (exhausted empty none front place) =
      let n = seen size lo hi in
      let hot = (size_to_index_lem size lo hi).0 in
      inl (
        refl,
        after-IsCrew c self users users k t small (size_to_index size) hot n.pool q c' c.memory
            n.held n.free n.pool_at front place (λ j o. refl) (seen_held size lo hi) (λ j ne. refl),
      )

  -- A request that a size class fits, of any of several threads on a slab that meet the invariant: `alloc` returns null and the clients hold what
  -- they held; or it returns a block that no client held, which is then one of theirs. The
  -- invariant holds again, in all threads.
  pub alloc_by-IsCrew :
      (size : ℕ)
      → 1 ≤ size
      → size ≤ largest
      → (ptr : ℕ) × (c' : Crew) × (alloc_by b c t self size ≡ some (ptr, c'))
        × (length c'.entries ≡ length c.entries)
        × Answered self users size ptr c'
  unfolding alloc_by
  alloc_by-IsCrew size lo hi =
      let call = alloc-put b (view c t) self member.blocks member.local size lo hi in
      let v = put (view c t) self (size_to_index size) call.1 call.2 c.memory in
      (
        call.0,
        store c t v,
        rw call.3 refl,
        length-set c.entries t v.caches,
        Served-Answered size lo hi call.4,
      )

  -- A block of the request's class that a client holds, freed by any of several threads that meet the
  -- invariant, whichever thread got it:
  -- `free` returns, no assertion fails, the block is no client's any more, and the invariant holds
  -- again, in all threads.
  pub free_by-IsCrew :
      (size ptr : ℕ) (rest : List ℕ)
      → 1 ≤ size
      → size ≤ largest
      → let index = size_to_index size in
        Perm (users index) (ptr ∷ rest)
        → (c' : Crew) × (free_by b c t self ptr size ≡ some c')
          × (length c'.entries ≡ length c.entries)
          × IsCrew c' self (with_class users index rest)
  unfolding free_by
  free_by-IsCrew size ptr rest lo hi order =
      let n = seen size lo hi in
      let index = size_to_index size in
      let hot = (size_to_index_lem size lo hi).0 in
      let foreign = others (cached_in (home c self) index) c.entries t in
      let mine : Perm n.held (ptr ∷ (foreign ++ rest)) =
        Perm.trans (Perm.trans (seen_held size lo hi) (Perm.append_left foreign order))
          (perm_middle foreign rest) in
      let freed =
        free-put b (view c t) self member.blocks member.local size ptr (foreign ++ rest) lo hi
          mine in
      let taken = freed.4 in
      let v = put (view c t) self index freed.0 freed.1 freed.2 in
      (
        store c t v,
        rw freed.3 refl,
        length-set c.entries t v.caches,
        after-IsCrew c self users (with_class users index rest) k t small index hot n.pool freed.1
            freed.0 freed.2 (foreign ++ rest) taken.free' n.pool_at taken.front taken.place
            taken.same (rw (with_class-same users index rest) (Perm.refl _))
            (with_class-other users index rest),
      )
