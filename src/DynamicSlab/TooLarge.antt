-- ===== src/DynamicSlab/TooLarge.antt =====
-- Requests that no size class fits, in `palloc` of `dynamic_slab` (src/dynamic_slab.cpp).
use slab_allocator.Base.{ℕ, ◌<◌, ◌≡◌, ◌≢◌, refl, ◌∙◌, List, ◌∷◌, some, Build}
use slab_allocator.Machine.Word.{nullptr, minus_one}
use slab_allocator.Machine.Memory.{Memory}
use slab_allocator.Platform.{Os, ok, mem_alloc}
use slab_allocator.Platform.Laws.{Region, region, IsPosix, ne-eqb}
use slab_allocator.Pool.Places.{places}
use slab_allocator.Slab.SizeClass.{largest}
use slab_allocator.Slab.Slots.{Slab, update}
use slab_allocator.Slab.Lifetime as Lifetime
use slab_allocator.Slab.Lifetime.Making.{ClassesFit}
use slab_allocator.Slab.Lifetime.Laid.{above}
use slab_allocator.DynamicSlab.{DynamicSlab, World, palloc}
use slab_allocator.DynamicSlab.Traversal.{with_node, palloc-create_node}
use slab_allocator.DynamicSlab.Nodes.{slab_made}

module _ {S : Type 0} {os : Os S} {mapped : S → List Region} (posix : IsPosix os mapped) (b : Build)
    (slab_size : ℕ) where
  -- A request above the largest class, other than SIZE_MAX, is not turned away at once: if the kernel
  -- has memory for a new node and for the pools of its slab, whose classes each fit a machine word with a page to spare,
  -- `palloc` puts the node with that slab in front of the others, keeps it mapped with all its pools, and
  -- returns null all the same.
  pub palloc_too_large :
      (d : DynamicSlab) (w : World S) (size : ℕ) (slab : Slab) (m' : Memory) (s₂ : S)
      → ClassesFit os mapped d.scale
      → largest < size
      → size ≢ minus_one
      → let (node, s₁) = mem_alloc os slab_size w.kernel in
        node ≢ nullptr
        → (Lifetime.construct b os d.scale w.next_slab_id w.view.memory s₁).1 ≡ ok (slab, m') s₂
        → (w' : World S) × (palloc b os slab_size d w size ≡ some (nullptr, with_node d node, w'))
          × (w'.view.slabs ≡ update w.view.slabs node slab)
          × (w'.kernel ≡ s₂)
          × (mapped w'.kernel
              ≡ above (places slab.shared_pools) (region node slab_size ∷ mapped w.kernel))
  palloc_too_large d w size slab m' s₂ fit h ne real built =
      let node = (mem_alloc os slab_size w.kernel).0 in
      let (w', returns, slabs, kernel, new) =
        slab_made posix b slab_size d.scale fit w slab m' s₂ real built in
      (
        w',
        palloc-create_node b os slab_size d w size h ne ∙ rw (returns, ne-eqb node real) refl,
        slabs,
        kernel,
        new,
      )
