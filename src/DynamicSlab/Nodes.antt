-- ===== src/DynamicSlab/Nodes.antt =====
-- What a node of a `dynamic_slab` (src/dynamic_slab.cpp) maps and unmaps.
use slab_allocator.Base.{
  subst, ℕ, ◌≡◌, ◌≢◌, refl, ◌∙◌, ap, inl, inr, List, [], ◌∷◌, All, none, some, Build,
}
use slab_allocator.Machine.Word.{nullptr}
use slab_allocator.Machine.Memory.{Memory}
use slab_allocator.Platform.{Os, Result, ok, bad_alloc, aborted, mem_alloc, mem_free}
use slab_allocator.Platform.Laws.{
  Region, region, Disjoint, unmap, IsPosix, IsFresh, mem_alloc_cases, mem_free_ok,
  holds_region_head, unmap_head, ne-eqb,
}
use slab_allocator.Pool.Places.{places}
use slab_allocator.Slab.Slots.{Slab, update}
use slab_allocator.Slab.Lifetime as Lifetime
use slab_allocator.Slab.Lifetime.Making.{NewSlab, ClassesFit, construct-NewSlab}
use slab_allocator.Slab.Lifetime.Laid.{IsReal, above, owned-above, FreshPools-IsReal, destroy-above}
use slab_allocator.DynamicSlab.{World, create_node, destroy_nodes}
use slab_allocator.DynamicSlab.Standing.{standing, AllReal}

module _ {S : Type 0} {os : Os S} {mapped : S → List Region} (posix : IsPosix os mapped) (b : Build)
    (slab_size : ℕ) where
  -- The newest mapping is given back.
  freed_newest :
      (at : ℕ) (s : S) (rest : List Region)
      → mapped s ≡ region at slab_size ∷ rest
      → mapped (mem_free os at slab_size s).1 ≡ rest
  freed_newest at s rest e =
      let r = region at slab_size in
      let freed = mem_free_ok posix at slab_size s (rw e (holds_region_head r rest)) in
      freed.1 ∙ ap (unmap r) e ∙ unmap_head r rest

  pub destroy_nodes-base :
      (nodes : List ℕ) (w : World S) (base : List Region)
      → mapped w.kernel ≡ standing w.view.slabs slab_size nodes base
      → AllReal w.view.slabs nodes
      → mapped (destroy_nodes b os slab_size nodes w).kernel ≡ base
  unfolding destroy_nodes
  destroy_nodes-base [] w base e real = e
  destroy_nodes-base (node ∷ nodes) w base e real =
      let v = w.view in
      let below = standing v.slabs slab_size nodes base in
      let gone =
        destroy-above posix v.caches node (v.slabs node) (region node slab_size ∷ below) w.kernel
          real.0 e in
      destroy_nodes-base nodes _ base (freed_newest node _ below gone) real.1

  -- How `create_node` ends: with the address of a new slab at a new place, which owns the newest
  -- mappings, or with null and the mappings from before.
  pub data NewNode (w : World S) : ℕ × World S → Type 0 where
    not_made :
        {w' : World S}
        → w'.view.slabs ≡ w.view.slabs
        → mapped w'.kernel ≡ mapped w.kernel
        → NewNode w (nullptr, w')
    made :
        {node : ℕ} {w' : World S} (slab : Slab)
        → node ≢ nullptr
        → w'.view.slabs ≡ update w.view.slabs node slab
        → All (Disjoint (region node slab_size)) (mapped w.kernel)
        → All IsReal (places slab.shared_pools)
        → mapped w'.kernel
          ≡ above (places slab.shared_pools) (region node slab_size ∷ mapped w.kernel)
        → NewNode w (node, w')

  module _ (scale : ℕ) (fit : ClassesFit os mapped scale) where
    -- The constructor of the slab at a new place, or the memory of the node given back.
    placed :
        (w : World S) (mem next_id : ℕ) (s₁ : S) (r : Result (Unit {0}) (Slab × Memory) S)
        → IsFresh os mapped slab_size mem w.kernel
        → mapped s₁ ≡ region mem slab_size ∷ mapped w.kernel
        → NewSlab os mapped scale w.next_slab_id (mapped s₁) r
        → (x : ℕ × World S) × ((elim r [
          | ok (slab, m') s₂ ↦ some (
            mem,
            record {
              view = record w.view { slabs = update w.view.slabs mem slab; memory = m' };
              next_slab_id = next_id;
              kernel = s₂;
            },
          )
          | bad_alloc e s₂ ↦ some (
            nullptr,
            record w { next_slab_id = next_id; kernel = (mem_free os mem slab_size s₂).1 },
          )
          | aborted ↦ none
        ])
            ≡ some x)
          × NewNode w x
    placed w mem next_id s₁ (ok (slab, m') s₂) fresh new built = (
      _,
      refl,
      made slab fresh.ne_null refl fresh.apart
          (FreshPools-IsReal scale m' 0 slab.shared_pools built.2)
          (built.4
            ∙ owned-above slab.shared_pools (mapped s₁)
            ∙ ap (above (places slab.shared_pools)) new),
    )
    placed w mem next_id s₁ (bad_alloc e s₂) fresh new built =
        (_, refl, not_made refl (freed_newest mem s₂ (mapped w.kernel) (built ∙ new)))
    placed w mem next_id s₁ aborted fresh new built = absurd built

    -- `create_node` returns, and in one of its two ways.
    pub create_node-NewNode :
        (w : World S)
        → (r : ℕ × World S) × (create_node b os slab_size scale w ≡ some r) × NewNode w r
    unfolding create_node
    create_node-NewNode w =
        let (mem, s₁) = mem_alloc os slab_size w.kernel in
        elim (mem_alloc_cases posix slab_size w.kernel) [
          | inl (null, same) ↦ (_, rw null refl, not_made {w' = record w { kernel = s₁ }} refl same)
          | inr (fresh, new) ↦
              let built = Lifetime.construct b os scale w.next_slab_id w.view.memory s₁ in
              rw (ne-eqb mem fresh.ne_null) (
                placed w mem built.0 s₁ built.1 fresh new
                  (construct-NewSlab posix b scale fit w.next_slab_id w.view.memory s₁))
        ]

    -- The node that `create_node` makes when the kernel has memory for it and for the pools.
    pub slab_made :
        (w : World S) (slab : Slab) (m' : Memory) (s₂ : S)
        → let (node, s₁) = mem_alloc os slab_size w.kernel in
          node ≢ nullptr
          → (Lifetime.construct b os scale w.next_slab_id w.view.memory s₁).1 ≡ ok (slab, m') s₂
          → (w' : World S) × (create_node b os slab_size scale w ≡ some (node, w'))
            × (w'.view.slabs ≡ update w.view.slabs node slab)
            × (w'.kernel ≡ s₂)
            × (mapped w'.kernel
                ≡ above (places slab.shared_pools) (region node slab_size ∷ mapped w.kernel))
    unfolding create_node
    slab_made w slab m' s₂ real e =
        let (node, s₁) = mem_alloc os slab_size w.kernel in
        let (next_id, built) = Lifetime.construct b os scale w.next_slab_id w.view.memory s₁ in
        let known : NewSlab os mapped scale w.next_slab_id (mapped s₁) (ok (slab, m') s₂) =
          subst (NewSlab os mapped scale w.next_slab_id (mapped s₁)) e
            (construct-NewSlab posix b scale fit w.next_slab_id w.view.memory s₁) in
        let new : mapped s₁ ≡ region node slab_size ∷ mapped w.kernel =
          elim (mem_alloc_cases posix slab_size w.kernel) [
            | inl (null, same) ↦ absurd (real null)
            | inr (fresh, newest) ↦ newest
          ] in
        (
          record {
            view = record w.view { slabs = update w.view.slabs node slab; memory = m' };
            next_slab_id = next_id;
            kernel = s₂;
          },
          rw (ne-eqb node real, e) refl,
          refl,
          refl,
          known.4
              ∙ owned-above slab.shared_pools (mapped s₁)
              ∙ ap (above (places slab.shared_pools)) new,
        )
