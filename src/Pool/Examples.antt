-- ===== src/Pool/Examples.antt =====
-- `pool` at concrete inputs: tests, and the theorems of the other modules applied.
use mathlib.Core.List.{mem-cons_self}
use mathlib.Core.List.Perm
use slab_allocator.Base.{
  List, ℕ, ◌+◌, ◌≤◌, ◌<◌, ◌≡◌, refl, ◌⊎◌, [], ◌∷◌, some, arith, debug, release,
}
use slab_allocator.Machine.Word.{round_to_page, bit_ceil, bit_width, width_of, mul_word, and_word}
use slab_allocator.Machine.Memory.{Memory, load_word, store_word, memset}
use slab_allocator.Platform.{ok, page_size, mem_alloc}
use slab_allocator.Platform.Laws.{region}
use slab_allocator.Platform.Sample.{sample_os, sample_os-IsPosix}
use slab_allocator.Pool.{
  Pool, cleared, construct, init, init_sized, init_free_list, free_list_loop, alloc, calloc, free,
  reset, alloc_batched_internal, free_batched_internal,
}
use slab_allocator.Pool.Layout.{IsShaped, Elsewhere, Relisted, blocks, blocks_from}
use slab_allocator.Pool.Chain.{IsPool}
use slab_allocator.Pool.Blocks.{Allocated, alloc-Allocated, free_lem}
use slab_allocator.Pool.Contents.{free-alloc, alloc-free, calloc_lem}
use slab_allocator.Pool.Init.{Initialised, init-Initialised, reset_lem}
use slab_allocator.Pool.Batch.{given, alloc_batched_lem, free_batched_lem}

abbrev pub zeros : Memory
zeros = λ i. 0

-- Two blocks of 32 bytes in one page at 4096, both free.
abbrev pub two_blocks : Pool
two_blocks = record {
  memory = 4096;
  capacity = 4096;
  free_count = 2;
  block_size = 32;
  block_count = 2;
  free_list = 4096;
}

abbrev pub linked : Memory
linked = store_word (store_word zeros 4128 0) 4096 4128

two_blocks-IsShaped :
    (list count : ℕ) → IsShaped (record two_blocks { free_list = list; free_count = count })
two_blocks-IsShaped list count = record {
  mapped = omega arith;
  exponent = 5;
  sized = refl;
  wide = omega arith;
  small = omega arith;
  fits = omega arith;
  in_space = omega arith;
}

pub two_blocks-IsPool : IsPool two_blocks linked [] (4096 ∷ 4128 ∷ [])
unfolding load_word store_word blocks_from
two_blocks-IsPool = record {
  shaped = two_blocks-IsShaped 4096 2;
  chain = (refl, omega arith, (refl, omega arith, refl));
  counted = refl;
  partition = Perm.refl (4096 ∷ 4128 ∷ []);
}

-- The first block is handed out.
abbrev pub one_block : Pool
one_block = record two_blocks { free_count = 1; free_list = 4128 }

pub one_block-IsPool : IsPool one_block linked (4096 ∷ []) (4128 ∷ [])
unfolding load_word store_word blocks_from
one_block-IsPool = record {
  shaped = two_blocks-IsShaped 4128 1;
  chain = (refl, omega arith, refl);
  counted = refl;
  partition = Perm.refl (4096 ∷ 4128 ∷ []);
}

-- What `init` makes of a request for two blocks of 24 bytes.
init_two :
    init debug sample_os cleared 24 2 zeros [] ≡ ok (two_blocks, linked) (region 4096 4096 ∷ [])
unfolding init init_sized init_free_list free_list_loop cleared sample_os page_size mem_alloc
    round_to_page bit_ceil bit_width width_of mul_word
init_two = refl

alloc-Allocated_example :
    (r : ℕ × Pool) × (alloc debug two_blocks linked ≡ some r)
    × Allocated two_blocks linked [] (4096 ∷ 4128 ∷ []) r
alloc-Allocated_example = alloc-Allocated debug (4096 ∷ 4128 ∷ []) two_blocks-IsPool

free_lem_example :
    (q : Pool) × (m' : Memory) × (free debug one_block linked 4096 ≡ some (q, m'))
    × IsPool q m' [] (4096 ∷ 4128 ∷ [])
    × ((i : ℕ) → (i < 4096) ⊎ (4096 + 8 ≤ i) → m' i ≡ linked i)
    × Relisted one_block q
free_lem_example = free_lem debug 4096 one_block-IsPool

-- The client fills its block with ones.
-- The client fills its block with ones.
free-alloc_example :
    (q : Pool) × (alloc debug two_blocks linked ≡ some (4096, q))
    × IsPool q (memset linked 4096 1 32) (4096 ∷ []) (4128 ∷ [])
    × (q' : Pool) × (m'' : Memory) × (free debug q (memset linked 4096 1 32) 4096 ≡ some (q', m''))
    × IsPool q' m'' [] (4096 ∷ 4128 ∷ [])
unfolding memset
free-alloc_example =
    free-alloc debug 4096 (4128 ∷ []) two_blocks-IsPool
      (λ i o. ground (arith, o 4096 mem-cons_self))

alloc-free_example : alloc debug two_blocks (store_word linked 4096 4128) ≡ some (4096, one_block)
unfolding free and_word
alloc-free_example = alloc-free debug 4096 one_block-IsPool refl

calloc_lem_example :
    (q : Pool) × (m' : Memory) × (calloc release two_blocks linked ≡ some (4096, q, m'))
    × IsPool q m' (4096 ∷ []) (4128 ∷ [])
    × ((i : ℕ) → 4096 ≤ i → i < 4128 → m' i ≡ 0)
    × ((i : ℕ) → (i < 4096) ⊎ (4128 ≤ i) → m' i ≡ linked i)
    × Relisted two_blocks q
calloc_lem_example = calloc_lem release 4096 (4128 ∷ []) two_blocks-IsPool

reset_lem_example :
    (q : Pool) × (m' : Memory) × (reset debug one_block linked ≡ some (q, m'))
    × IsPool q m' [] (blocks one_block)
    × ((j : ℕ) → Elsewhere one_block j → m' j ≡ linked j)
    × Relisted one_block q
reset_lem_example = reset_lem debug one_block-IsPool

init-Initialised_example :
    Initialised sample_os (λ s. s) 24 2 zeros [] (init debug sample_os cleared 24 2 zeros [])
unfolding sample_os bit_ceil bit_width width_of
init-Initialised_example =
    init-Initialised sample_os-IsPosix debug 24 2 zeros [] (omega arith) (omega arith)

-- Three blocks are asked for, two are there.
alloc_batched_lem_example :
    (q : Pool) × (alloc_batched_internal debug two_blocks linked 3 (some (7 ∷ 7 ∷ 7 ∷ 7 ∷ []))
      ≡ some (2, some (4096 ∷ 4128 ∷ 7 ∷ 7 ∷ []), q))
    × IsPool q linked (4096 ∷ 4128 ∷ []) []
    × Relisted two_blocks q
alloc_batched_lem_example =
    alloc_batched_lem debug 3 (7 ∷ 7 ∷ 7 ∷ 7 ∷ []) (4096 ∷ 4128 ∷ []) two_blocks-IsPool
      (omega arith)

-- A null entry is skipped.
free_batched_lem_example :
    (q : Pool) × (m' : Memory) × (free_batched_internal debug one_block linked 2
        (some (0 ∷ 4096 ∷ 5 ∷ []))
      ≡ some (q, m'))
    × IsPool q m' [] (4096 ∷ 4128 ∷ [])
    × ((j : ℕ) → Elsewhere one_block j → m' j ≡ linked j)
    × Relisted one_block q
unfolding given
free_batched_lem_example =
    free_batched_lem debug (0 ∷ 4096 ∷ []) (5 ∷ []) [] one_block-IsPool (Perm.refl (4096 ∷ []))

-- The pool of 10000 blocks of 128 bytes, before its free list is built.
abbrev pub unlinked : Pool
unlinked = record {
  memory = 4096;
  capacity = 1282048;
  free_count = 18446744073709551615;
  block_size = 128;
  block_count = 10000;
  free_list = 0;
}

pub construct_large :
    construct debug sample_os 128 10000 zeros []
    ≡ ok
        (
          record (init_free_list unlinked zeros).0 { free_count = 10000 },
          (init_free_list unlinked zeros).1,
        )
        (region 4096 1282048 ∷ [])
unfolding construct init init_sized cleared sample_os page_size mem_alloc round_to_page bit_ceil
    bit_width width_of mul_word
construct_large = refl

-- A pool on the page at 4096, before its free list is built.
abbrev pub unlinked_of : ℕ → ℕ → ℕ → Pool
unlinked_of capacity block_size block_count = record {
  memory = 4096;
  capacity = capacity;
  free_count = 18446744073709551615;
  block_size = block_size;
  block_count = block_count;
  free_list = 0;
}

-- The pools of the threads of one worker.
abbrev pub linked_of : Pool → Memory → Pool × Memory
linked_of p m =
    (record (init_free_list p m).0 { free_count = p.block_count }, (init_free_list p m).1)

pub construct_churn :
    (m : Memory)
    → construct debug sample_os 128 256 m []
      ≡ ok (linked_of (unlinked_of 32768 128 256) m) (region 4096 32768 ∷ [])
unfolding construct init init_sized cleared sample_os page_size mem_alloc round_to_page bit_ceil
    bit_width width_of mul_word
construct_churn m = refl

pub construct_exhaustion :
    (m : Memory)
    → construct debug sample_os 64 2048 m []
      ≡ ok (linked_of (unlinked_of 131072 64 2048) m) (region 4096 131072 ∷ [])
unfolding construct init init_sized cleared sample_os page_size mem_alloc round_to_page bit_ceil
    bit_width width_of mul_word
construct_exhaustion m = refl

pub construct_reset :
    (m : Memory)
    → construct debug sample_os 96 512 m []
      ≡ ok (linked_of (unlinked_of 65536 128 512) m) (region 4096 65536 ∷ [])
unfolding construct init init_sized cleared sample_os page_size mem_alloc round_to_page bit_ceil
    bit_width width_of mul_word
construct_reset m = refl
