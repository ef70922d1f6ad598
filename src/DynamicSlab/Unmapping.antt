-- ===== src/DynamicSlab/Unmapping.antt =====
-- No call of a `dynamic_slab` (src/dynamic_slab.cpp) loses a mapping.
use slab_allocator.Base.{
  ℕ, ◌≤◌, ◌≡◌, refl, sym, ◌∙◌, ap, ap₂, subst, ◌||◌, ◌==◌, Bool-cases, if◌then◌else◌, inl, inr,
  List, [], ◌∷◌, All, Option, some, ◌>>=◌, Build, OnSome, on_some, OnSome-bind, OnSome-if,
}
use slab_allocator.Machine.Word.{nullptr, minus_one, add_word}
use slab_allocator.Machine.Memory.{memset}
use slab_allocator.Platform.{Os}
use slab_allocator.Platform.Laws.{Region, region, Disjoint, IsPosix, ne-eqb}
use slab_allocator.Pool.Places.{places}
use slab_allocator.Slab.SizeClass.{size_to_index, index_to_size_class}
use slab_allocator.Slab.Slots.{Slab, update}
use slab_allocator.Slab.Slots.Entry.{update-same}
use slab_allocator.Slab.Slots.Places.{Kept, laid}
use slab_allocator.Slab.Operations as Operations
use slab_allocator.Slab.Operations.{View}
use slab_allocator.Slab.Operations.Places.{alloc-Kept, free-Kept}
use slab_allocator.Slab.Lifetime.Making.{ClassesFit}
use slab_allocator.Slab.Lifetime.Laid.{IsReal, above}
use slab_allocator.DynamicSlab.{
  DynamicSlab, World, with_view, create_node, try_nodes, grow, palloc, calloc, free_nodes, free,
}
use slab_allocator.DynamicSlab.Standing.{
  standing, AllReal, Kept-KeptAt, standing-KeptAt, AllReal-KeptAt, fresh-KeptAt, try_nodes-Kept,
}
use slab_allocator.DynamicSlab.Nodes.{NewNode, not_made, made, create_node-NewNode}

module _ {S : Type 0} {os : Os S} {mapped : S → List Region} (posix : IsPosix os mapped) (b : Build)
    (slab_size scale : ℕ) (fit : ClassesFit os mapped scale) where
  -- The mappings are those of the nodes, above `base`.
  pub record IsStanding (base : List Region) (d : DynamicSlab) (w : World S) : Type 0 where
    pub scaled : d.scale ≡ scale
    pub held : mapped w.kernel ≡ standing w.view.slabs slab_size d.nodes base
    pub real : AllReal w.view.slabs d.nodes

  with_view-IsStanding :
      {base : List Region} {d : DynamicSlab} {w : World S} (v : View)
      → IsStanding base d w
      → Kept w.view.slabs v.slabs
      → IsStanding base d (with_view w v)
  with_view-IsStanding {base} {d} {w} v k kept =
      let at = Kept-KeptAt w.view.slabs v.slabs d.nodes kept in
      record {
        scaled = k.scaled;
        held = k.held ∙ sym (standing-KeptAt w.view.slabs v.slabs slab_size d.nodes base at);
        real = AllReal-KeptAt w.view.slabs v.slabs d.nodes at k.real;
      }

  pub made-IsStanding :
      {base : List Region} {d : DynamicSlab} {w w' : World S} {node : ℕ} (count : ℕ) (slab : Slab)
      → 1 ≤ slab_size
      → IsStanding base d w
      → w'.view.slabs ≡ update w.view.slabs node slab
      → All (Disjoint (region node slab_size)) (mapped w.kernel)
      → All IsReal (places slab.shared_pools)
      → mapped w'.kernel
        ≡ above (places slab.shared_pools) (region node slab_size ∷ mapped w.kernel)
      → IsStanding base (record d { nodes = node ∷ d.nodes; node_count = count }) w'
  made-IsStanding {base} {d} {w} {w'} {node} count slab wide k slabs apart real new =
      let at =
        fresh-KeptAt w.view.slabs slab slab_size node d.nodes base wide
          (subst (All (Disjoint (region node slab_size))) k.held apart) in
      let here : laid (update w.view.slabs node slab) node ≡ places slab.shared_pools =
        ap (λ (z : Slab). places z.shared_pools) (update-same w.view.slabs node slab) in
      let slabs' = update w.view.slabs node slab in
      record {
        scaled = k.scaled;
        held =
            subst (λ f. mapped w'.kernel ≡ standing f slab_size (node ∷ d.nodes) base) (sym slabs)
              (new
                ∙ ap₂ (λ rs below. above rs (region node slab_size ∷ below)) (sym here)
                    (k.held ∙ sym (standing-KeptAt w.view.slabs slabs' slab_size d.nodes base at)));
        real =
            subst (λ f. AllReal f (node ∷ d.nodes)) (sym slabs)
              (
                subst (All IsReal) (sym here) real,
                AllReal-KeptAt w.view.slabs slabs' d.nodes at k.real,
              );
      }

  module _ (wide : 1 ≤ slab_size) where
    grow-IsStanding :
        (base : List Region) (d : DynamicSlab) (w : World S) (size : ℕ)
        → IsStanding base d w
        → OnSome (λ r. IsStanding base r.1 r.2) (grow b os slab_size d w size)
    unfolding grow
    grow-IsStanding base d w size k =
        let (answer, returns, how) = create_node-NewNode posix b slab_size scale fit w in
        OnSome-bind (create_node b os slab_size d.scale w)
          (subst (λ z. OnSome (NewNode posix b slab_size w) (create_node b os slab_size z w))
            (sym k.scaled)
            (subst (OnSome (NewNode posix b slab_size w)) (sym returns) (on_some how)))
          (λ r node. go r node)
      where
        go :
            (r : ℕ × World S)
            → NewNode posix b slab_size w r
            → OnSome
                (λ (t : ℕ × DynamicSlab × World S). IsStanding base t.1 t.2)
                (if◌then◌else◌ {A = Option (ℕ × DynamicSlab × World S)}
                  (r.0 == nullptr)
                  (some (nullptr, d, r.1))
                  (Operations.alloc b r.1.view r.0 size >>= λ q. some (
                    q.0,
                    record d { nodes = r.0 ∷ d.nodes; node_count = add_word d.node_count 1 },
                    with_view r.1 q.1,
                  )))
        go (node, w') (not_made slabs same) = on_some (record {
          scaled = k.scaled;
          held = same ∙ k.held ∙ ap (λ f. standing f slab_size d.nodes base) (sym slabs);
          real = subst (λ f. AllReal f d.nodes) (sym slabs) k.real;
        })
        go (node, w') (made slab real slabs apart mapped_pools new) =
            let next =
              made-IsStanding {w' = w'} (add_word d.node_count 1) slab wide k slabs apart
                mapped_pools new in
            rw (ne-eqb node real) (
              OnSome-bind (Operations.alloc b w'.view node size) (alloc-Kept b w'.view node size)
                (λ q kept. on_some (with_view-IsStanding q.1 next kept)))

    pub palloc-IsStanding :
        (base : List Region) (d : DynamicSlab) (w : World S) (size : ℕ)
        → IsStanding base d w
        → OnSome (λ r. IsStanding base r.1 r.2) (palloc b os slab_size d w size)
    unfolding palloc
    palloc-IsStanding base d w size k = OnSome-if (size == 0 || size == minus_one) (on_some k) (
        OnSome-bind (try_nodes b d.nodes w.view size) (try_nodes-Kept b d.nodes w.view size)
          (λ r kept.
            let moved = with_view-IsStanding r.1 k kept in
            OnSome-if (r.0 == nullptr)
              (OnSome-bind (try_nodes b d.nodes r.1 size) (try_nodes-Kept b d.nodes r.1 size)
                (λ q kept'.
                  let again = with_view-IsStanding q.1 moved kept' in
                  OnSome-if (q.0 == nullptr) (grow-IsStanding base d (with_view w q.1) size again)
                    (on_some again)))
              (on_some moved)))

    pub calloc-IsStanding :
        (base : List Region) (d : DynamicSlab) (w : World S) (size : ℕ)
        → IsStanding base d w
        → OnSome (λ r. IsStanding base r.1 r.2) (calloc b os slab_size d w size)
    unfolding calloc
    calloc-IsStanding base d w size k =
        OnSome-bind (palloc b os slab_size d w size) (palloc-IsStanding base d w size k) (λ r held.
          let w' = r.2 in
          let v = w'.view in
          let index = size_to_index size in
          let zeroed = record v { memory = memset v.memory r.0 0 (index_to_size_class index) } in
          elim (Bool-cases (r.0 == nullptr || index == minus_one)) [
            | inl e ↦ rw e (on_some held)
            | inr e ↦ rw e (on_some (with_view-IsStanding zeroed held (λ a. refl)))
          ])

  free_nodes-Kept :
      (nodes : List ℕ) (v : View) (ptr size : ℕ)
      → OnSome (λ (v' : View). Kept v.slabs v'.slabs) (free_nodes b nodes v ptr size)
  unfolding free_nodes
  free_nodes-Kept [] v ptr size = on_some (λ a. refl)
  free_nodes-Kept (node ∷ nodes) v ptr size =
      OnSome-if (Operations.owns (v.slabs node) ptr) (free-Kept b v node ptr size)
        (free_nodes-Kept nodes v ptr size)

  pub free-IsStanding :
      (base : List Region) (d : DynamicSlab) (w : World S) (ptr size : ℕ)
      → IsStanding base d w
      → OnSome (IsStanding base d) (free b d w ptr size)
  unfolding free
  free-IsStanding base d w ptr size k =
      OnSome-if (ptr == nullptr || size == 0 || size == minus_one) (on_some k) (
        OnSome-bind (free_nodes b d.nodes w.view ptr size) (free_nodes-Kept d.nodes w.view ptr size)
          (λ v kept. on_some (with_view-IsStanding v k kept)))
