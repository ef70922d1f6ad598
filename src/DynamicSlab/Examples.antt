-- ===== src/DynamicSlab/Examples.antt =====
-- `dynamic_slab` at concrete inputs: the theorems of the other modules applied.
use slab_allocator.Base.{
  ◌≡◌, ◌==◌, refl, List, [], ◌∷◌, arith, release, debug, some, ◌>>=◌, if◌then◌else◌,
}
use slab_allocator.Machine.Word.{nullptr, and_word}
use slab_allocator.Platform.Laws.{Region, region}
use slab_allocator.Platform.Sample.{sample_os, sample_os-IsPosix}
use slab_allocator.Pool as Pool
use slab_allocator.Pool.Examples.{one_block, linked}
use slab_allocator.Slab.Operations as Operations
use slab_allocator.DynamicSlab.{DynamicSlab, World, with_view, construct, destroy, palloc, free}
use slab_allocator.DynamicSlab.Calls.{Stage, Calls, destroy-Calls}
use slab_allocator.Slab.Lifetime.DefaultScale.{default-ClassesFit}
use slab_allocator.DynamicSlab.Traversal.{with_node, free_dispatch}
use slab_allocator.DynamicSlab.TooLarge.{palloc_too_large}
use slab_allocator.Slab.Slots.{Slab, update}
use slab_allocator.Slab.Lifetime.Laid.{above}
use slab_allocator.Pool.Places.{places}
use slab_allocator.Slab.Examples.{construct_behind}
use slab_allocator.Platform.{mem_alloc}

-- Two nodes whose slabs have one pool and none.
abbrev two_nodes : DynamicSlab
two_nodes = record { scale = 1; nodes = 800 ∷ 400 ∷ []; node_count = 2 }

abbrev world : World (List Region)
world = record {
  view = record {
    caches = [];
    slabs = λ a.
        if a == 400
        then record { epoch = 0; slab_id = 0; shared_pools = one_block ∷ [] }
        else record { epoch = 0; slab_id = 1; shared_pools = [] };
    memory = linked;
  };
  next_slab_id = 2;
  kernel = [];
}

-- The node at 4096, and the slab in it.
abbrev slab_behind : Slab
slab_behind = (construct_behind linked).0

palloc_too_large_example :
    (w' : World (List Region)) × (palloc debug sample_os 4096 two_nodes world 5000
      ≡ some (nullptr, with_node two_nodes 4096, w'))
    × (w'.view.slabs ≡ update world.view.slabs 4096 slab_behind)
    × (w'.kernel ≡ (construct_behind linked).2)
    × (w'.kernel ≡ above (places slab_behind.shared_pools) (region 4096 4096 ∷ []))
unfolding sample_os mem_alloc
palloc_too_large_example =
    palloc_too_large sample_os-IsPosix debug 4096 two_nodes world 5000 slab_behind
      (construct_behind linked).1 (construct_behind linked).2 (default-ClassesFit sample_os-IsPosix)
      (omega arith) (omega arith) (omega arith) (construct_behind linked).3

free_dispatch_example :
    free release two_nodes world 4096 32
    ≡ (Operations.free release world.view 400 4096 32 >>= λ v. some (with_view world v))
unfolding Operations.owns Operations.any_owns Pool.owns and_word
free_dispatch_example =
    (free_dispatch release two_nodes world 4096 32 (omega arith) (omega arith) (omega arith)).0
      (800 ∷ []) [] 400 refl (refl, tt) refl

-- Whatever happens to a first slab, also when it is destroyed at once.
destroy-Calls_example :
    (d : DynamicSlab) × (w₁ : World (List Region)) × (construct debug sample_os 4096 1 world
      ≡ some (d, w₁))
    × ((t : Stage (List Region))
        → Calls debug sample_os 4096 (record { object = d; world = w₁ }) t
        → (destroy debug sample_os 4096 t.object t.world).kernel ≡ [])
destroy-Calls_example =
    destroy-Calls sample_os-IsPosix debug 4096 1 (default-ClassesFit sample_os-IsPosix)
      (omega arith) world
