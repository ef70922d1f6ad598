-- ===== src/Slab/Lifetime/DefaultScale.antt =====
-- A `slab` of the default scale (include/slab.h) is small.
use slab_allocator.Base.{ℕ, zero, suc, ◌*◌, ◌≤◌, ◌<◌, ◌^◌, List, arith}
use slab_allocator.Machine.Word.{bit_width, width_of, mul_word}
use slab_allocator.Platform.{Os}
use slab_allocator.Platform.Laws.{Region, IsPosix}
use slab_allocator.Slab.SizeClass.{num_size_classes, class_size, scaled_count, to_double}
use slab_allocator.Slab.Lifetime.Making.{ClassesFit}

-- A slab of the default scale is small.
pub class-small : (i : ℕ) → i < num_size_classes → class_size i * scaled_count i 1 ≤ 2 ^ 20
unfolding scaled_count to_double bit_width width_of mul_word
class-small zero h = omega arith
class-small (suc zero) h = omega arith
class-small (suc (suc zero)) h = omega arith
class-small (suc (suc (suc zero))) h = omega arith
class-small (suc (suc (suc (suc zero)))) h = omega arith
class-small (suc (suc (suc (suc (suc zero))))) h = omega arith
class-small (suc (suc (suc (suc (suc (suc zero)))))) h = omega arith
class-small (suc (suc (suc (suc (suc (suc (suc zero))))))) h = omega arith
class-small (suc (suc (suc (suc (suc (suc (suc (suc zero)))))))) h = omega arith
class-small (suc (suc (suc (suc (suc (suc (suc (suc (suc zero))))))))) h = omega arith
class-small (suc (suc (suc (suc (suc (suc (suc (suc (suc (suc i)))))))))) h = absurd (omega arith)

pub default-ClassesFit :
    {S : Type 0} {os : Os S} {mapped : S → List Region} → IsPosix os mapped → ClassesFit os mapped 1
default-ClassesFit posix i h = omega (arith, class-small i h, posix.page_small)
