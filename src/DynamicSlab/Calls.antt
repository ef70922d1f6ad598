-- ===== src/DynamicSlab/Calls.antt =====
-- The life of a `dynamic_slab` (src/dynamic_slab.cpp), from its constructor to its destructor.
use slab_allocator.Base.{
  All, ◌+◌, ◌<◌, ℕ, ◌≤◌, ◌≡◌, refl, List, [], ◌∷◌, some, Build, OnSome-at, ◌==◌, if◌then◌else◌,
}
use slab_allocator.Machine.Word.{nullptr}
use slab_allocator.Machine.Memory.{Memory}
use slab_allocator.Platform.{Os}
use slab_allocator.Platform.Laws.{Region, IsPosix, ne-eqb}
use slab_allocator.Slab.Lifetime.Making.{ClassesFit}
use slab_allocator.DynamicSlab.{
  DynamicSlab, World, with_view, construct, palloc, calloc, free, destroy,
}
use slab_allocator.DynamicSlab.Nodes.{
  NewNode, not_made, made, create_node-NewNode, destroy_nodes-base,
}
use slab_allocator.DynamicSlab.Unmapping.{
  IsStanding, palloc-IsStanding, calloc-IsStanding, free-IsStanding, made-IsStanding,
}

-- The object and the world.
pub record Stage (S : Type 0) : Type 0 where
  pub object : DynamicSlab
  pub world : World S

-- No byte of a node changes. A node stands in the memory that is mapped for it, and the slab at its
-- address is what those bytes mean as long as only the slab's own code writes to them.
abbrev pub Spares : ℕ → List ℕ → Memory → Memory → Type 0
Spares slab_size nodes m m' =
    All (λ node. (j : ℕ) → node ≤ j → j < node + slab_size → m' j ≡ m j) nodes

-- A client's call that returns, or its writes, which spare the nodes: those of the client, and what
-- `calloc` and `free` write to the blocks that they are given.
pub data Call {S : Type 0} (b : Build) (os : Os S) (slab_size : ℕ) (t : Stage S)
    : Stage S → Type 0 where
  called_palloc :
      (size p : ℕ) (d : DynamicSlab) (w : World S)
      → palloc b os slab_size t.object t.world size ≡ some (p, d, w)
      → Spares slab_size d.nodes t.world.view.memory w.view.memory
      → Call b os slab_size t (record { object = d; world = w })
  called_calloc :
      (size p : ℕ) (d : DynamicSlab) (w : World S)
      → calloc b os slab_size t.object t.world size ≡ some (p, d, w)
      → Spares slab_size d.nodes t.world.view.memory w.view.memory
      → Call b os slab_size t (record { object = d; world = w })
  called_free :
      (ptr size : ℕ) (w : World S)
      → free b t.object t.world ptr size ≡ some w
      → Spares slab_size t.object.nodes t.world.view.memory w.view.memory
      → Call b os slab_size t (record { object = t.object; world = w })
  wrote :
      (m : Memory)
      → Spares slab_size t.object.nodes t.world.view.memory m
      → Call b os slab_size t (record {
        object = t.object;
        world = with_view t.world (record t.world.view { memory = m });
      })

pub data Calls {S : Type 0} (b : Build) (os : Os S) (slab_size : ℕ) (t : Stage S)
    : Stage S → Type 0 where
  no_call : Calls b os slab_size t t
  then_call :
      {u v : Stage S}
      → Calls b os slab_size t u
      → Call b os slab_size u v
      → Calls b os slab_size t v

module _ {S : Type 0} {os : Os S} {mapped : S → List Region} (posix : IsPosix os mapped) (b : Build)
    (slab_size scale : ℕ) (fit : ClassesFit os mapped scale) (wide : 1 ≤ slab_size) where
  abbrev Stands : List Region → Stage S → Type 0
  Stands base t = IsStanding posix b slab_size scale fit base t.object t.world

  Call-Stands :
      (base : List Region) {t u : Stage S} → Stands base t → Call b os slab_size t u → Stands base u
  Call-Stands base {t} k (called_palloc size p d w e spares) =
      OnSome-at (palloc-IsStanding posix b slab_size scale fit wide base t.object t.world size k) e
  Call-Stands base {t} k (called_calloc size p d w e spares) =
      OnSome-at (calloc-IsStanding posix b slab_size scale fit wide base t.object t.world size k) e
  Call-Stands base {t} k (called_free ptr size w e spares) =
      OnSome-at (free-IsStanding posix b slab_size scale fit base t.object t.world ptr size k) e
  Call-Stands base k (wrote m spares) = record { scaled = k.scaled; held = k.held; real = k.real }

  Calls-Stands :
      (base : List Region) {t u : Stage S}
      → Stands base t
      → Calls b os slab_size t u
      → Stands base u
  Calls-Stands base k no_call = k
  Calls-Stands base k (then_call r c) = Call-Stands base (Calls-Stands base k r) c

  construct-Stands :
      (w : World S)
      → (d : DynamicSlab) × (w₁ : World S) × (construct b os slab_size scale w ≡ some (d, w₁))
        × Stands (mapped w.kernel) (record { object = d; world = w₁ })
  unfolding construct
  construct-Stands w =
      let (answer, returns, how) = create_node-NewNode posix b slab_size scale fit w in
      (_, answer.1, rw returns refl, go answer how)
    where
      go :
          (r : ℕ × World S)
          → NewNode posix b slab_size w r
          → Stands (mapped w.kernel) (record {
            object =
                if r.0 == nullptr
                then record { scale = scale; nodes = []; node_count = 0 }
                else record { scale = scale; nodes = r.0 ∷ []; node_count = 1 };
            world = r.1;
          })
      go (node, w') (not_made slabs same) = record { scaled = refl; held = same; real = tt }
      go (node, w') (made slab real slabs apart pools new) =
          let none_yet : Stands (mapped w.kernel) (record {
            object = record { scale = scale; nodes = []; node_count = 0 };
            world = w;
          }) =
            record { scaled = refl; held = refl; real = tt } in
          rw (ne-eqb node real) (
            made-IsStanding posix b slab_size scale fit {w' = w'} 1 slab wide none_yet slabs apart
              pools new)

  -- The constructor of a dynamic slab whose classes each fit a machine word with a page to spare
  -- returns, on a system that behaves as POSIX says; and whatever calls of `palloc`, `calloc` and
  -- `free` have returned to a client after it, with whatever arguments, and wherever the client wrote,
  -- as long as no byte of a node was written to but by the slab in that node,
  -- the destructor brings back the mappings from before the constructor.
  pub destroy-Calls :
      (w : World S)
      → (d : DynamicSlab) × (w₁ : World S) × (construct b os slab_size scale w ≡ some (d, w₁))
        × ((t : Stage S)
            → Calls b os slab_size (record { object = d; world = w₁ }) t
            → mapped (destroy b os slab_size t.object t.world).kernel ≡ mapped w.kernel)
  unfolding destroy
  destroy-Calls w =
      let (d, w₁, returns, start) = construct-Stands w in
      (
        d,
        w₁,
        returns,
        λ t calls.
            let k = Calls-Stands (mapped w.kernel) start calls in
            destroy_nodes-base posix b slab_size t.object.nodes t.world (mapped w.kernel) k.held
              k.real,
      )
