-- ===== src/DynamicSlab.antt =====
-- include/dynamic_slab.h and src/dynamic_slab.cpp: `dynamic_slab`, slabs that are added when the
-- others are exhausted. Nodes are only put in front and never changed, so the linked list is the list
-- of their addresses, the newest first; the slab of a node stands at the node's address.
pub mod Traversal
pub mod Standing
pub mod Nodes
pub mod TooLarge
pub mod Unmapping
pub mod Calls
mod Examples
use slab_allocator.Base.{
  ℕ, ◌||◌, ◌==◌, if◌then◌else◌, List, [], ◌∷◌, Option, none, some, ◌>>=◌, Build,
}
use slab_allocator.Machine.Word.{nullptr, minus_one, add_word}
use slab_allocator.Machine.Memory.{memset}
use slab_allocator.Platform.{Os, ok, bad_alloc, aborted, mem_alloc, mem_free}
use slab_allocator.Slab.SizeClass.{size_to_index, index_to_size_class}
use slab_allocator.Slab.Slots.{Slab, update}
use slab_allocator.Slab.Operations as Operations
use slab_allocator.Slab.Operations.{View}
use slab_allocator.Slab.Lifetime as Lifetime

pub record DynamicSlab : Type 0 where
  pub scale : ℕ
  pub nodes : List ℕ
  pub node_count : ℕ

-- What the calls of one thread work on: its caches, the slabs and the memory, the number of the next
-- slab, and the kernel.
pub record World (S : Type 0) : Type 0 where
  pub view : View
  pub next_slab_id : ℕ
  pub kernel : S

-- A call without effect on the ids and the kernel.
abbrev pub with_view : {S : Type 0} → World S → View → World S
with_view w v = record w { view = v }

-- The traversal of `palloc`: the first node that has a block.
pub try_nodes : Build → List ℕ → View → ℕ → Option (ℕ × View)
try_nodes b [] v size = some (nullptr, v)
try_nodes b (node ∷ nodes) v size = do
  (p, v') ← Operations.alloc b v node size
  if p == nullptr then try_nodes b nodes v' size else some (p, v')

-- `slab_size` is `sizeof(slab_node)`.
module _ {S : Type 0} (b : Build) (os : Os S) (slab_size : ℕ) where
  -- The address of a new node, or null; the memory of the node is given back if the constructor of
  -- the slab throws.
  pub create_node : ℕ → World S → Option (ℕ × World S)
  create_node scale w =
      let (mem, s₁) = mem_alloc os slab_size w.kernel in
      let v = w.view in
      let (next_id, built) = Lifetime.construct b os scale w.next_slab_id v.memory s₁ in
      if mem == nullptr then some (nullptr, record w { kernel = s₁ }) else elim built [
        | ok (slab, m') s₂ ↦ some (
          mem,
          record {
            view = record v { slabs = update v.slabs mem slab; memory = m' };
            next_slab_id = next_id;
            kernel = s₂;
          },
        )
        | bad_alloc e s₂ ↦ some (
          nullptr,
          record w { next_slab_id = next_id; kernel = (mem_free os mem slab_size s₂).1 },
        )
        | aborted ↦ none
      ]

  -- The constructor: without memory it has no node.
  pub construct : ℕ → World S → Option (DynamicSlab × World S)
  unfolding create_node
  construct scale w = do
    (node, w') ← create_node scale w
    some (
      if node == nullptr
          then record { scale = scale; nodes = []; node_count = 0 }
          else record { scale = scale; nodes = node ∷ []; node_count = 1 },
      w',
    )

  -- The loop of the destructor.
  pub destroy_nodes : List ℕ → World S → World S
  destroy_nodes [] w = w
  destroy_nodes (node ∷ nodes) w =
      let v = w.view in
      let (caches, s₁) = Lifetime.destroy os v.caches node (v.slabs node) w.kernel in
      destroy_nodes nodes (record w {
        view = record v { caches = caches };
        kernel = (mem_free os node slab_size s₁).1;
      })

  pub destroy : DynamicSlab → World S → World S
  unfolding destroy_nodes
  destroy d w = destroy_nodes d.nodes w

  -- All slabs are exhausted: a new one is put in front and asked.
  pub grow : DynamicSlab → World S → ℕ → Option (ℕ × DynamicSlab × World S)
  unfolding add_word
  grow d w size = do
    (node, w₁) ← create_node d.scale w
    if node == nullptr then some (nullptr, d, w₁) else do
      (p, v) ← Operations.alloc b w₁.view node size
      some (
        p,
        record d { nodes = node ∷ d.nodes; node_count = add_word d.node_count 1 },
        with_view w₁ v,
      )

  -- The second traversal is for what other threads may have added before the lock was taken; here it
  -- is run on what this thread sees.
  pub palloc : DynamicSlab → World S → ℕ → Option (ℕ × DynamicSlab × World S)
  unfolding try_nodes grow
  palloc d w size = if size == 0 || size == minus_one then some (nullptr, d, w) else do
    (p, v) ← try_nodes b d.nodes w.view size
    if p == nullptr
        then (do
          (q, v') ← try_nodes b d.nodes v size
          if q == nullptr then grow d (with_view w v') size else some (q, d, with_view w v'))
        else some (p, d, with_view w v)

  pub calloc : DynamicSlab → World S → ℕ → Option (ℕ × DynamicSlab × World S)
  unfolding palloc
  calloc d w size = do
    (ptr, d', w') ← palloc d w size
    let v = w'.view
    let index = size_to_index size
    some (
      ptr,
      d',
      if ptr == nullptr || index == minus_one
          then w'
          else with_view w'
              (record v { memory = memset v.memory ptr 0 (index_to_size_class index) }),
    )

-- The traversal of `free`: the first node that owns the pointer takes it back.
pub free_nodes : Build → List ℕ → View → ℕ → ℕ → Option View
free_nodes b [] v ptr size = some v
free_nodes b (node ∷ nodes) v ptr size =
    if Operations.owns (v.slabs node) ptr
    then Operations.free b v node ptr size
    else free_nodes b nodes v ptr size

pub free : {S : Type 0} → Build → DynamicSlab → World S → ℕ → ℕ → Option (World S)
unfolding free_nodes
free b d w ptr size =
    if ptr == nullptr || size == 0 || size == minus_one
    then some w
    else do v ← free_nodes b d.nodes w.view ptr size; some (with_view w v)

-- The sum over the nodes from `total` on.
sum_nodes : (Slab → Option ℕ) → (ℕ → Slab) → List ℕ → ℕ → Option ℕ
unfolding add_word
sum_nodes figure slabs [] total = some total
sum_nodes figure slabs (node ∷ nodes) total = do
  n ← figure (slabs node)
  sum_nodes figure slabs nodes (add_word total n)

pub get_total_capacity : Build → DynamicSlab → View → Option ℕ
unfolding sum_nodes
get_total_capacity b d v = sum_nodes (Operations.get_total_capacity b) v.slabs d.nodes 0

pub get_total_free : Build → DynamicSlab → View → Option ℕ
unfolding sum_nodes
get_total_free b d v = sum_nodes (Operations.get_total_free b) v.slabs d.nodes 0

pub get_slab_count : DynamicSlab → ℕ
get_slab_count d = d.node_count
