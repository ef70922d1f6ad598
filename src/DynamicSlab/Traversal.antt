-- ===== src/DynamicSlab/Traversal.antt =====
-- How `palloc` and `free` of `dynamic_slab` (src/dynamic_slab.cpp) go through the nodes.
use slab_allocator.Base.{
  ℕ, ◌+◌, ◌%◌, ◌^◌, ◌<◌, ◌≡◌, refl, ◌≢◌, inl, inr, ◌||◌, ◌==◌, true, false, if◌then◌else◌, List, [],
  ◌∷◌, ◌++◌, some, ◌>>=◌, arith, Build, All, Option, ap, fun_ext, Bool-cases,
}
use slab_allocator.Machine.Word.{nullptr, minus_one}
use slab_allocator.Platform.{Os}
use slab_allocator.Slab.SizeClass.{largest}
use slab_allocator.Slab.Operations as Operations
use slab_allocator.Slab.Operations.{View}
use slab_allocator.Slab.Operations.Requests.{alloc-calloc-free_rejected}
use slab_allocator.DynamicSlab.{
  DynamicSlab, World, with_view, create_node, try_nodes, grow, palloc, free_nodes, free,
}

-- The dynamic slab with a new node in front.
abbrev pub with_node : DynamicSlab → ℕ → DynamicSlab
with_node d node = record d { nodes = node ∷ d.nodes; node_count = (d.node_count + 1) % 2 ^ 64 }

try_nodes_rejected :
    (b : Build) (nodes : List ℕ) (v : View) (size : ℕ)
    → largest < size
    → try_nodes b nodes v size ≡ some (nullptr, v)
unfolding try_nodes
try_nodes_rejected b [] v size h = refl
try_nodes_rejected b (node ∷ nodes) v size h =
    rw ((alloc-calloc-free_rejected b v node 0 size (inr h)).0)
      (try_nodes_rejected b nodes v size h)

grow_too_large :
    {S : Type 0} (b : Build) (os : Os S) (slab_size : ℕ) (d : DynamicSlab) (w : World S) (size : ℕ)
    → largest < size
    → grow b os slab_size d w size ≡ (
        create_node b os slab_size d.scale w >>= λ made.
        some (nullptr, (if made.0 == nullptr then d else with_node d made.0), made.1))
unfolding grow
grow_too_large {S} b os slab_size d w size h =
    ap
      (λ (f : ℕ × World S → Option (ℕ × DynamicSlab × World S)).
        create_node b os slab_size d.scale w >>= f)
      (fun_ext λ made. asked made)
  where
    asked :
        (made : ℕ × World S)
        → if◌then◌else◌ {A = Option (ℕ × DynamicSlab × World S)}
            (made.0 == nullptr)
            (some (nullptr, d, made.1))
            (Operations.alloc b made.1.view made.0 size >>= λ r.
              some (r.0, with_node d made.0, with_view made.1 r.1))
          ≡ some (nullptr, (if made.0 == nullptr then d else with_node d made.0), made.1)
    asked made = elim (Bool-cases (made.0 == nullptr)) [
      | inl e ↦ rw e
      | inr e ↦ rw (e, (alloc-calloc-free_rejected b made.1.view made.0 0 size (inr h)).0)
    ]

-- A request above the largest class, other than SIZE_MAX, goes past all nodes to `create_node`.
pub palloc-create_node :
    {S : Type 0} (b : Build) (os : Os S) (slab_size : ℕ) (d : DynamicSlab) (w : World S) (size : ℕ)
    → largest < size
    → size ≢ minus_one
    → palloc b os slab_size d w size ≡ (
        create_node b os slab_size d.scale w >>= λ made.
        some (nullptr, (if made.0 == nullptr then d else with_node d made.0), made.1))
unfolding palloc grow
palloc-create_node b os slab_size d w size h ne =
    let guard : (size == 0 || size == minus_one) ≡ false = ground arith in
    let none_left = try_nodes_rejected b d.nodes w.view size h in
    rw (guard, none_left, none_left) (grow_too_large b os slab_size d w size h)

free_nodes_dispatch :
    (b : Build) (before after : List ℕ) (node : ℕ) (v : View) (ptr size : ℕ)
    → All (λ n. Operations.owns (v.slabs n) ptr ≡ false) before
    → Operations.owns (v.slabs node) ptr ≡ true
    → free_nodes b (before ++ node ∷ after) v ptr size ≡ Operations.free b v node ptr size
unfolding free_nodes
free_nodes_dispatch b [] after node v ptr size h own = rw own
free_nodes_dispatch b (n ∷ before) after node v ptr size h own =
    rw (h.0) (free_nodes_dispatch b before after node v ptr size h.1 own)

free_nodes_foreign :
    (b : Build) (nodes : List ℕ) (v : View) (ptr size : ℕ)
    → All (λ n. Operations.owns (v.slabs n) ptr ≡ false) nodes
    → free_nodes b nodes v ptr size ≡ some v
unfolding free_nodes
free_nodes_foreign b [] v ptr size h = refl
free_nodes_foreign b (n ∷ nodes) v ptr size h = rw (h.0) (free_nodes_foreign b nodes v ptr size h.1)

-- `free` hands the pointer to the newest slab that owns it, and to no other; a pointer that no slab
-- owns is ignored.
pub free_dispatch :
    {S : Type 0} (b : Build) (d : DynamicSlab) (w : World S) (ptr size : ℕ)
    → ptr ≢ nullptr
    → size ≢ 0
    → size ≢ minus_one
    → ((before after : List ℕ) (node : ℕ)
        → d.nodes ≡ before ++ node ∷ after
        → All (λ n. Operations.owns (w.view.slabs n) ptr ≡ false) before
        → Operations.owns (w.view.slabs node) ptr ≡ true
        → free b d w ptr size
          ≡ (Operations.free b w.view node ptr size >>= λ v. some (with_view w v)))
      × (All (λ n. Operations.owns (w.view.slabs n) ptr ≡ false) d.nodes
          → free b d w ptr size ≡ some w)
unfolding free
free_dispatch b d w ptr size real some_size word =
    let guard : (ptr == nullptr || size == 0 || size == minus_one) ≡ false = ground arith in
    (
      λ before after node e h own.
          rw (guard, e, free_nodes_dispatch b before after node w.view ptr size h own),
      λ h. rw (guard, free_nodes_foreign b d.nodes w.view ptr size h),
    )
