-- ===== src/DynamicSlab/Standing.antt =====
-- The mappings of a `dynamic_slab` (src/dynamic_slab.cpp): for each node its own and those of the
-- pools of its slab, the newest node first.
use slab_allocator.Base.{
  ℕ, ◌≤◌, ◌≡◌, refl, sym, ◌∙◌, ap₂, subst, ◌==◌, false, List, [], ◌∷◌, ◌++◌, All, arith, Build,
  OnSome, on_some, OnSome-bind, OnSome-if, OnSome-map,
}
use slab_allocator.Machine.Word.{nullptr}
use slab_allocator.Platform.Laws.{Region, region, Disjoint}
use slab_allocator.Slab.Slots.{Slab, update}
use slab_allocator.Slab.Slots.Places.{Kept, laid}
use slab_allocator.Slab.Operations as Operations
use slab_allocator.Slab.Operations.{View}
use slab_allocator.Slab.Operations.Places.{alloc-Kept}
use slab_allocator.Slab.Lifetime.Laid.{IsReal, above}
use slab_allocator.DynamicSlab.{try_nodes}

-- `slab_size` is `sizeof(slab_node)`; `base` is what was mapped before.
abbrev pub standing : (ℕ → Slab) → ℕ → List ℕ → List Region → List Region
standing slabs slab_size [] base = base
standing slabs slab_size (node ∷ nodes) base =
    above (laid slabs node) (region node slab_size ∷ standing slabs slab_size nodes base)

-- The pools of the nodes are mapped.
abbrev pub AllReal : (ℕ → Slab) → List ℕ → Type 0
AllReal slabs nodes = All (λ node. All IsReal (laid slabs node)) nodes

abbrev pub KeptAt : (ℕ → Slab) → (ℕ → Slab) → List ℕ → Type 0
KeptAt slabs slabs' nodes = All (λ node. laid slabs' node ≡ laid slabs node) nodes

pub Kept-KeptAt :
    (slabs slabs' : ℕ → Slab) (nodes : List ℕ) → Kept slabs slabs' → KeptAt slabs slabs' nodes
Kept-KeptAt slabs slabs' [] k = tt
Kept-KeptAt slabs slabs' (node ∷ nodes) k = (k node, Kept-KeptAt slabs slabs' nodes k)

pub standing-KeptAt :
    (slabs slabs' : ℕ → Slab) (slab_size : ℕ) (nodes : List ℕ) (base : List Region)
    → KeptAt slabs slabs' nodes
    → standing slabs' slab_size nodes base ≡ standing slabs slab_size nodes base
standing-KeptAt slabs slabs' slab_size [] base k = refl
standing-KeptAt slabs slabs' slab_size (node ∷ nodes) base k =
    ap₂ (λ rs below. above rs (region node slab_size ∷ below)) k.0
      (standing-KeptAt slabs slabs' slab_size nodes base k.1)

pub AllReal-KeptAt :
    (slabs slabs' : ℕ → Slab) (nodes : List ℕ)
    → KeptAt slabs slabs' nodes
    → AllReal slabs nodes
    → AllReal slabs' nodes
AllReal-KeptAt slabs slabs' [] k real = tt
AllReal-KeptAt slabs slabs' (node ∷ nodes) k real =
    (subst (All IsReal) (sym k.0) real.0, AllReal-KeptAt slabs slabs' nodes k.1 real.1)

All-append : (P : Region → Type 0) (xs ys : List Region) → All P (xs ++ ys) → All P ys
All-append P [] ys a = a
All-append P (x ∷ xs) ys a = All-append P xs ys a.1

-- A slab at an address apart from all mappings is not at that of a node.
pub fresh-KeptAt :
    (slabs : ℕ → Slab) (slab : Slab) (slab_size at : ℕ) (nodes : List ℕ) (base : List Region)
    → 1 ≤ slab_size
    → All (Disjoint (region at slab_size)) (standing slabs slab_size nodes base)
    → KeptAt slabs (update slabs at slab) nodes
unfolding update
fresh-KeptAt slabs slab slab_size at [] base wide a = tt
fresh-KeptAt slabs slab slab_size at (node ∷ nodes) base wide a =
    let own =
      All-append (Disjoint (region at slab_size)) _
        (region node slab_size ∷ standing slabs slab_size nodes base) a in
    let other : (node == at) ≡ false = ground (arith, own.0, wide) in
    (rw other refl, fresh-KeptAt slabs slab slab_size at nodes base wide own.1)

pub try_nodes-Kept :
    (b : Build) (nodes : List ℕ) (v : View) (size : ℕ)
    → OnSome (λ r. Kept v.slabs r.1.slabs) (try_nodes b nodes v size)
unfolding try_nodes
try_nodes-Kept b [] v size = on_some (λ a. refl)
try_nodes-Kept b (node ∷ nodes) v size =
    OnSome-bind (Operations.alloc b v node size) (alloc-Kept b v node size) (λ r kept.
      OnSome-if (r.0 == nullptr)
        (OnSome-map (try_nodes b nodes r.1 size) (try_nodes-Kept b nodes r.1 size)
          (λ q kept' a. kept' a ∙ kept a))
        (on_some kept))
