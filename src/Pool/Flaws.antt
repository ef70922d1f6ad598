-- ===== src/Pool/Flaws.antt =====
-- Where a pool does less than it should: sizes that wrap, addresses behind the last block, and
-- `clear` of a pool that owns memory.
use native.Mathlib.Nat.{mul-mod_left}
use slab_allocator.Base.{ℕ, ◌+◌, ◌-◌, ◌*◌, ◌<◌, ◌≡◌, refl, arith, true, Mem}
use slab_allocator.Machine.Word.{mul_word, round_to_page}
use slab_allocator.Machine.Memory.{Memory}
use slab_allocator.Platform.{Os, page_size, mem_alloc}
use slab_allocator.Pool.{Pool, cleared, clear, destroy, init_free_list, owns}
use slab_allocator.Pool.Layout.{IsShaped, blocks, blocks_from-end}
use slab_allocator.Pool.Owns.{owns_iff}
use slab_allocator.Pool.Init.{rounded_size}

-- The capacity that `init` asks for.
abbrev pub asked : {S : Type 0} → Os S → ℕ → ℕ → ℕ
asked os size count = round_to_page (mul_word (rounded_size size) count) (page_size os)

-- The pool that `init` makes when it gets memory, with the memory behind it.
abbrev made : {S : Type 0} → Os S → ℕ → ℕ → Memory → S → Pool × Memory
made os size count m s =
    let raw = record cleared {
      block_size = rounded_size size;
      block_count = count;
      capacity = asked os size count;
      memory = (mem_alloc os (asked os size count) s).0;
    } in
    let (q, m') = init_free_list raw m in (record q { free_count = count }, m')

-- When the blocks do not fill the last page, `owns` accepts the address behind the last block,
-- although no block is there.
pub owns_beyond :
    (p : Pool)
    → IsShaped p
    → p.block_count * p.block_size < p.capacity
    → (owns p (p.memory + p.block_count * p.block_size) ≡ true)
      × (¬ Mem (p.memory + p.block_count * p.block_size) (blocks p))
owns_beyond p v h =
    let last = p.memory + p.block_count * p.block_size in
    let gap : p.memory + p.block_count * p.block_size - p.memory ≡ p.block_count * p.block_size =
      omega arith in
    (
      (owns_iff p last v (omega (arith, v.in_space))).1
          (omega arith, omega arith, rw gap (mul-mod_left p.block_count p.block_size)),
      λ k. absurd (omega (arith, blocks_from-end p.memory p.block_size p.block_count k, v.wide)),
    )

-- `clear` forgets the memory of a pool without unmapping it, and the destructor then does nothing:
-- the mapping stays.
pub clear_leaks : {S : Type 0} (os : Os S) (p : Pool) (s : S) → (destroy os (clear p) s).1 ≡ s
unfolding destroy clear cleared
clear_leaks os p s = refl
