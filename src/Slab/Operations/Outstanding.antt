-- ===== src/Slab/Operations/Outstanding.antt =====
-- A slab (src/slab.cpp) seen as the list of the blocks that its clients hold, with their sizes.
use mathlib.Core.List.{perm_append_comm, append-nil}
use mathlib.Core.List.Perm
use slab_allocator.Base.{
  same_some, ℕ, ◌≤◌, ◌<◌, ◌≡◌, ◌≢◌, ◌⊎◌, refl, sym, ◌∙◌, ap, subst, ◌==◌, true, false,
  if◌then◌else◌, List, [], ◌∷◌, ◌++◌, get_elem?, get_elem?-set_self, get_elem?-set_other,
  get_elem?-length, set, Perm, some, arith, Build, Bool-cases, inl, inr,
}
use slab_allocator.Machine.Word.{nullptr}
use slab_allocator.Slab.SizeClass.{num_size_classes, largest, size_to_index}
use slab_allocator.Slab.SizeClass.Choice.{size_to_index_lem}
use slab_allocator.Slab.Slots.{entry_at}
use slab_allocator.Slab.Slots.Fronts.{ClassAt, stock}
use slab_allocator.Slab.Operations.{View, alloc, free}
use slab_allocator.Slab.Operations.Local.{IsLocal, slot}
use slab_allocator.Slab.Operations.Calls.{
  Given, given, none_left, CachedAt, class_at, alloc-Given, free-IsLocal,
}

-- The blocks of one class in a list of blocks with their sizes.
abbrev pub held_of : ℕ → List (ℕ × ℕ) → List ℕ
held_of i [] = []
held_of i ((ptr, size) ∷ ptrs) =
    if size_to_index size == i then ptr ∷ held_of i ptrs else held_of i ptrs

held_of-append :
    (i : ℕ) (xs ys : List (ℕ × ℕ)) → held_of i (xs ++ ys) ≡ held_of i xs ++ held_of i ys
held_of-append i [] ys = refl
held_of-append i ((ptr, size) ∷ xs) ys = elim (Bool-cases (size_to_index size == i)) [
  | inl e ↦ rw e (ap (◌∷◌ ptr) (held_of-append i xs ys))
  | inr e ↦ rw e (held_of-append i xs ys)
]

-- The slab meets the invariant, clients hold the blocks in the list, and all blocks together have the
-- size `total`.
pub record Outstanding (v : View) (self total : ℕ) (ptrs : List (ℕ × ℕ)) : Type 0 where
  pub users : List (List ℕ)
  pub local : IsLocal v self users
  pub holds :
      (i : ℕ)
      → i < num_size_classes
      → (u : List ℕ) × (get_elem? users i ≡ some u) × Perm u (held_of i ptrs)
  pub in_stock : stock (v.slabs self).shared_pools ≡ total

-- One class has changed hands.
holds-set :
    (users : List (List ℕ)) (index : ℕ) (held : List ℕ) (ptrs ptrs' : List (ℕ × ℕ))
    → ((i : ℕ)
        → i < num_size_classes
        → (u : List ℕ) × (get_elem? users i ≡ some u) × Perm u (held_of i ptrs))
    → Perm held (held_of index ptrs')
    → ((i : ℕ) → i ≢ index → held_of i ptrs' ≡ held_of i ptrs)
    → (i : ℕ) → i < num_size_classes
    → (u : List ℕ) × (get_elem? (set users index held) i ≡ some u) × Perm u (held_of i ptrs')
holds-set users index held ptrs ptrs' h order same i hot = elim (Bool-cases (i == index)) [
  | inl e ↦
      let here : i ≡ index = ground (arith, e) in
      let old = h i hot in
      (
        held,
        rw here (
            get_elem?-set_self users index held
              (get_elem?-length users index old.0 (rw (sym here) old.1))),
        rw here order,
      )
  | inr e ↦
      let other : i ≢ index = ground (arith, e) in
      let old = h i hot in
      (old.0, get_elem?-set_other users index i held other ∙ old.1, rw (same i other) old.2)
]

module _ (b : Build) (v : View) (self total : ℕ) (ptrs : List (ℕ × ℕ)) where
  -- A request that a size class fits: `alloc` returns null, or a block that is then the last one of
  -- those outstanding.
  pub alloc-Outstanding :
      (size : ℕ)
      → 1 ≤ size
      → size ≤ largest
      → Outstanding v self total ptrs
      → (ptr : ℕ) × (v' : View) × (alloc b v self size ≡ some (ptr, v'))
        × ((ptr ≡ nullptr)
            ⊎ ((ptr ≢ nullptr) × Outstanding v' self total (ptrs ++ (ptr, size) ∷ [])))
  alloc-Outstanding size lo hi o =
      let call = alloc-Given b v self o.users o.local size lo hi in
      (call.0, call.1, call.2, go call.3)
    where
      index : ℕ
      index = size_to_index size

      k :
          ClassAt
            (entry_at v.caches (slot v self)).storage
            (v.slabs self).shared_pools
            o.users
            v.memory
            index
      k = class_at b v self o.users o.local size lo hi

      order : (ptr : ℕ) → Perm (ptr ∷ k.held) (held_of index (ptrs ++ (ptr, size) ∷ []))
      order ptr =
          let mine = o.holds index (size_to_index_lem size lo hi).0 in
          let here : (size_to_index size == index) ≡ true = ground arith in
          let old : Perm k.held (held_of index ptrs) =
            subst (λ u. Perm u (held_of index ptrs)) (same_some (sym mine.1 ∙ k.held_at)) mine.2 in
          rw (held_of-append index ptrs ((ptr, size) ∷ []), here)
            (Perm.trans (Perm.append_left (ptr ∷ []) old)
              (perm_append_comm (ptr ∷ []) (held_of index ptrs)))

      go :
          {ptr : ℕ} {v' : View}
          → Given v self
              (size_to_index size)
              o.users
              (class_at b v self o.users o.local size lo hi)
              ptr
              v'
          → (ptr ≡ nullptr)
            ⊎ ((ptr ≢ nullptr) × Outstanding v' self total (ptrs ++ (ptr, size) ∷ []))
      go (none_left full local) = inl refl
      go (given {ptr = ptr} real local same) = inr (
        real,
        record {
          users = set o.users index (ptr ∷ k.held);
          local = local;
          holds =
              holds-set o.users index (ptr ∷ k.held) ptrs (ptrs ++ (ptr, size) ∷ []) o.holds
                (order ptr)
                (λ i ne.
                  let foreign : (size_to_index size == i) ≡ false = ground (arith, ne) in
                  held_of-append i ptrs ((ptr, size) ∷ [])
                  ∙ rw foreign (append-nil (held_of i ptrs)));
          in_stock = same ∙ o.in_stock;
        },
      )

-- Freeing the first of the outstanding blocks with the size that it was asked for: `free` returns,
-- the other blocks are outstanding as before, and the class's cache is not empty.
pub free-Outstanding :
    (b : Build) (v : View) (self total ptr size : ℕ) (ptrs : List (ℕ × ℕ))
    → 1 ≤ size
    → size ≤ largest
    → Outstanding v self total ((ptr, size) ∷ ptrs)
    → (v' : View) × (free b v self ptr size ≡ some v')
      × Outstanding v' self total ptrs
      × CachedAt v' self (size_to_index size)
free-Outstanding b v self total ptr size ptrs lo hi o =
    let index = size_to_index size in
    let hot = (size_to_index_lem size lo hi).0 in
    let mine = o.holds index hot in
    let self_index : (size_to_index size == index) ≡ true = ground arith in
    let order : Perm mine.0 (ptr ∷ held_of index ptrs) = rw self_index at mine.2 in
    let freed =
      free-IsLocal b v self o.users o.local size ptr mine.0 (held_of index ptrs) lo hi mine.1
        order in
    (
      freed.0,
      freed.1,
      record {
        users = set o.users index (held_of index ptrs);
        local = freed.2;
        holds =
            holds-set o.users index (held_of index ptrs) ((ptr, size) ∷ ptrs) ptrs o.holds
              (Perm.refl _)
              (λ i ne.
                let foreign : (size_to_index size == i) ≡ false = ground (arith, ne) in rw foreign);
        in_stock = freed.3 ∙ o.in_stock;
      },
      freed.4,
    )
