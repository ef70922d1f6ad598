-- ===== src/Slab/Examples.antt =====
-- `slab` at concrete inputs: tests, and the theorems of the other modules applied.
use slab_allocator.Base.{
  length, ℕ, ◌≡◌, ◌≤◌, ◌<◌, refl, List, [], ◌∷◌, set, some, arith, debug, inr, zero, suc,
}
use slab_allocator.Machine.Word.{mul_word, minus_one, bit_ceil, bit_width, width_of}
use slab_allocator.Machine.Memory.{Memory}
use slab_allocator.Pool.{Pool}
use slab_allocator.Pool.Examples.{
  two_blocks, linked, two_blocks-IsPool, one_block, one_block-IsPool,
}
use slab_allocator.Slab.SizeClass.{class_size, size_to_index}
use slab_allocator.Slab.SizeClass.Choice.{size_to_index_lem, size_to_index-minus_one}
use slab_allocator.Slab.Cache.{ThreadLocalCache, cache_alloc, cache_free}
use slab_allocator.Slab.Cache.Entries.{IsFront, cached}
use slab_allocator.Slab.Sample.{
  nulls, empty_cache, empty_cache-IsCache, used_view, users_from, used_view-IsLocal,
}
use slab_allocator.Slab.Operations.Local.{IsLocal}
use slab_allocator.Slab.Operations.Calls.{Given, CachedAt, class_at, alloc-Given, free-IsLocal}
use slab_allocator.Slab.Slots.Fronts.{stock}
use mathlib.Core.List.Perm
use slab_allocator.Base.{get_elem?, Perm}
use slab_allocator.Slab.Operations.Outstanding.{Outstanding, held_of}
use slab_allocator.Slab.Operations.Resetting.{reset-Outstanding}
use slab_allocator.Platform.Sample.{sample_os, sample_os-IsPosix}
use slab_allocator.Slab.Lifetime.{construct, init_loop, reversed}
use slab_allocator.Pool as Pool
use slab_allocator.Platform.{ok, page_size, mem_alloc}
use slab_allocator.Platform.Laws.{region, Region}
use slab_allocator.Machine.Word.{round_to_page}
use slab_allocator.Slab.Lifetime.DefaultScale.{default-ClassesFit}
use slab_allocator.Slab.Lifetime.Making.{NewSlab, construct-NewSlab}
use slab_allocator.Slab.SizeClass.{scaled_count, to_double}
use slab_allocator.Slab.Cache.Alloc.{Served, cache_alloc-Served}
use slab_allocator.Slab.Cache.Free.{Taken, cache_free-Taken}
use slab_allocator.Pool.{alloc}
use slab_allocator.Slab.Slots.{Slab, CacheEntry, found, claim, find_slot, scan_loop, flush_one}
use slab_allocator.Slab.Slots.Entry.{VictimFronts}
use slab_allocator.Slab.Slots.Flush.{class, empty}
use slab_allocator.Slab.Slots.Stale.{flush_one-stale}
use slab_allocator.Slab.Operations as Operations
use slab_allocator.Slab.Operations.{View}

-- The smallest class for 100 bytes is that of 128.
size_to_index_lem_example : (100 ≤ class_size (size_to_index 100)) × (class_size 3 < 100)
unfolding size_to_index bit_ceil bit_width width_of
size_to_index_lem_example =
    let found = size_to_index_lem 100 (omega arith) (omega arith) in
    (found.1, found.2 3 (omega arith))

size_to_index-minus_one_example : size_to_index 4097 ≡ minus_one
size_to_index-minus_one_example = size_to_index-minus_one 4097 (inr (omega arith))

two_blocks-IsFront : IsFront empty_cache two_blocks linked [] (4096 ∷ 4128 ∷ [])
two_blocks-IsFront = record { cache = empty_cache-IsCache; pool = two_blocks-IsPool }

one_block-IsFront : IsFront empty_cache one_block linked (4096 ∷ []) (4128 ∷ [])
one_block-IsFront = record { cache = empty_cache-IsCache; pool = one_block-IsPool }

cache_alloc-Served_example :
    (x : ℕ) × (c' : ThreadLocalCache) × (q : Pool) × (cache_alloc debug empty_cache two_blocks
        linked
      ≡ some (x, c', q))
    × Served empty_cache two_blocks linked [] (4096 ∷ 4128 ∷ []) x c' q
cache_alloc-Served_example = cache_alloc-Served debug (4096 ∷ 4128 ∷ []) two_blocks-IsFront

cache_free-Taken_example :
    (c' : ThreadLocalCache) × (q : Pool) × (m' : Memory) × (cache_free debug empty_cache one_block
        linked 4096
      ≡ some (c', q, m'))
    × (t : Taken one_block linked [] c' q m') × (1 ≤ length (cached c'))
    × (cached c' ≡ 4096 ∷ [])
    × (t.free' ≡ 4128 ∷ [])
cache_free-Taken_example = cache_free-Taken debug 4096 one_block-IsFront

-- The first block of the pool is cached.
abbrev one_cached : ThreadLocalCache
one_cached = record { objects = 4096 ∷ nulls 127; current = 1; batch_size = 2 }

one_cached-IsFront : IsFront one_cached one_block linked [] (4128 ∷ [])
one_cached-IsFront = record {
  cache = record {
    room = refl;
    bounded = omega arith;
    batch_pos = omega arith;
    batch_fits = omega arith;
  };
  pool = one_block-IsPool;
}

flush_one-stale_example :
    (c : ThreadLocalCache) × (q : Pool) × (m' : Memory) × (flush_one debug one_cached two_blocks
        linked
      ≡ some (c, q, m'))
    × (q₁ : Pool) × (alloc debug q m' ≡ some (4096, q₁))
    × (q₂ : Pool) × (alloc debug q₁ m' ≡ some (4096, q₂))
flush_one-stale_example = flush_one-stale debug 4096 (nulls 127) 2 two_blocks-IsPool

-- The thread has an entry for the slab at 100, and two for others.
abbrev three_entries : List CacheEntry
three_entries =
    record { epoch = 0; owner = 200; storage = [] }
    ∷ record { epoch = 0; owner = 0; storage = [] }
    ∷ record { epoch = 0; owner = 300; storage = [] }
    ∷ record { epoch = 3; owner = 100; storage = one_cached ∷ [] }
    ∷ []

found_behind : find_slot three_entries 100 0 ≡ found 3
unfolding find_slot scan_loop
found_behind = refl

claimed_first : find_slot three_entries 400 0 ≡ claim 1
unfolding find_slot scan_loop
claimed_first = refl

abbrev some_slab : Slab
some_slab = record { epoch = 4; slab_id = 3; shared_pools = one_block ∷ [] }

-- No entry is empty: the last one is taken over, and its block goes back to its pool.
abbrev full_entries : List CacheEntry
full_entries = set three_entries 1 (record { epoch = 0; owner = 250; storage = [] })

abbrev last_fronts : VictimFronts full_entries (λ a. some_slab) linked
last_fronts used = ([] ∷ [], class (4128 ∷ []) one_cached-IsFront tt empty)

alloc-Given_example :
    (ptr : ℕ) × (v' : View) × (Operations.alloc debug used_view 100 64 ≡ some (ptr, v'))
    × Given used_view 100
        (size_to_index 64)
        (users_from 4096 10)
        (class_at debug used_view 100
          (users_from 4096 10)
          used_view-IsLocal
          64
          (omega arith)
          (omega arith))
        ptr
        v'
alloc-Given_example =
    alloc-Given debug used_view 100 (users_from 4096 10) used_view-IsLocal 64 (omega arith)
      (omega arith)

free-IsLocal_example :
    (v' : View) × (Operations.free debug used_view 100 16384 64 ≡ some v')
    × IsLocal v' 100 (set (users_from 4096 10) (size_to_index 64) [])
    × (stock (v'.slabs 100).shared_pools ≡ stock (used_view.slabs 100).shared_pools)
    × CachedAt v' 100 (size_to_index 64)
unfolding size_to_index bit_ceil bit_width width_of
free-IsLocal_example =
    free-IsLocal debug used_view 100 (users_from 4096 10) used_view-IsLocal 64 16384 (16384 ∷ []) []
      (omega arith) (omega arith) refl (Perm.refl (16384 ∷ []))

construct-NewSlab_example :
    NewSlab sample_os (λ s. s) 1 7 [] (construct debug sample_os 1 7 (λ i. 0) []).1
construct-NewSlab_example =
    construct-NewSlab sample_os-IsPosix debug 1 (default-ClassesFit sample_os-IsPosix) 7 (λ i. 0) []

-- A slab of the default scale can be made.
pub construct_default :
    (m : Memory)
    → (slab : Slab) × (m₁ : Memory) × (s₁ : List Region) × ((construct debug sample_os 1 7 m []).1
        ≡ ok (slab, m₁) s₁)
unfolding construct init_loop Pool.init Pool.init_sized Pool.cleared sample_os page_size mem_alloc
    round_to_page bit_ceil bit_width width_of mul_word scaled_count to_double reversed
construct_default m = (_, _, _, refl)

-- And behind a page that is mapped already.
pub construct_behind :
    (m : Memory)
    → (slab : Slab) × (m₁ : Memory) × (s₁ : List Region) × ((construct debug sample_os 1 2 m
          (region 4096 4096 ∷ [])).1
        ≡ ok (slab, m₁) s₁)
unfolding construct init_loop Pool.init Pool.init_sized Pool.cleared sample_os page_size mem_alloc
    round_to_page bit_ceil bit_width width_of mul_word scaled_count to_double reversed
construct_behind m = (_, _, _, refl)

-- The first block of each pool is in a client's hands.
abbrev handed_out : List (ℕ × ℕ)
handed_out =
    (4096, 8)
    ∷ (8192, 16)
    ∷ (12288, 32)
    ∷ (16384, 64)
    ∷ (20480, 128)
    ∷ (24576, 256)
    ∷ (28672, 512)
    ∷ (32768, 1024)
    ∷ (36864, 2048)
    ∷ (40960, 4096)
    ∷ []

handed_out_at :
    (i : ℕ)
    → i < 10
    → (u : List ℕ) × (get_elem? (users_from 4096 10) i ≡ some u) × Perm u (held_of i handed_out)
unfolding size_to_index bit_ceil bit_width width_of
handed_out_at zero h = (4096 ∷ [], refl, Perm.refl (4096 ∷ []))
handed_out_at (suc zero) h = (8192 ∷ [], refl, Perm.refl (8192 ∷ []))
handed_out_at (suc (suc zero)) h = (12288 ∷ [], refl, Perm.refl (12288 ∷ []))
handed_out_at (suc (suc (suc zero))) h = (16384 ∷ [], refl, Perm.refl (16384 ∷ []))
handed_out_at (suc (suc (suc (suc zero)))) h = (20480 ∷ [], refl, Perm.refl (20480 ∷ []))
handed_out_at (suc (suc (suc (suc (suc zero))))) h = (24576 ∷ [], refl, Perm.refl (24576 ∷ []))
handed_out_at (suc (suc (suc (suc (suc (suc zero)))))) h =
    (28672 ∷ [], refl, Perm.refl (28672 ∷ []))
handed_out_at (suc (suc (suc (suc (suc (suc (suc zero))))))) h =
    (32768 ∷ [], refl, Perm.refl (32768 ∷ []))
handed_out_at (suc (suc (suc (suc (suc (suc (suc (suc zero)))))))) h =
    (36864 ∷ [], refl, Perm.refl (36864 ∷ []))
handed_out_at (suc (suc (suc (suc (suc (suc (suc (suc (suc zero))))))))) h =
    (40960 ∷ [], refl, Perm.refl (40960 ∷ []))
handed_out_at (suc (suc (suc (suc (suc (suc (suc (suc (suc (suc i)))))))))) h = absurd (omega arith)

handed_out-Outstanding :
    Outstanding used_view 100 (stock (used_view.slabs 100).shared_pools) handed_out
handed_out-Outstanding = record {
  users = users_from 4096 10;
  local = used_view-IsLocal;
  holds = handed_out_at;
  in_stock = refl;
}

reset-Outstanding_example :
    (v' w : View) × (Operations.reset debug used_view 100 ≡ some v')
    × (Operations.enter debug v' 100 ≡ some (1, w))
    × Outstanding w 100 (stock (used_view.slabs 100).shared_pools) []
reset-Outstanding_example =
    reset-Outstanding debug used_view 100 (stock (used_view.slabs 100).shared_pools) handed_out
      handed_out-Outstanding (omega arith)
