-- ===== src/Slab/SizeClass.antt =====
-- The size classes of `slab` (include/slab.h): which class a request falls into.
pub mod Choice
use slab_allocator.Base.{
  ℕ, zero, suc, ◌+◌, ◌-◌, ◌*◌, ◌/◌, ◌%◌, ◌^◌, ◌||◌, ◌&&◌, ◌==◌, ltb, leb, if◌then◌else◌, List, [],
  ◌∷◌, get_or, length,
}
use slab_allocator.Machine.Word.{minus_one, sub_word, mul_word, bit_width, bit_ceil}

-- Block size and number of blocks of each class.
abbrev pub size_class_config : List (ℕ × ℕ)
size_class_config =
    (8, 512)
    ∷ (16, 512)
    ∷ (32, 256)
    ∷ (64, 256)
    ∷ (128, 128)
    ∷ (256, 128)
    ∷ (512, 64)
    ∷ (1024, 64)
    ∷ (2048, 32)
    ∷ (4096, 32)
    ∷ []

abbrev pub num_size_classes : ℕ
num_size_classes = length size_class_config

-- All classes are cached.
abbrev pub num_cached_classes : ℕ
num_cached_classes = num_size_classes

abbrev pub max_cached_slabs : ℕ
max_cached_slabs = 4

abbrev pub batch_sizes : List ℕ
batch_sizes = 64 ∷ 64 ∷ 32 ∷ 32 ∷ 16 ∷ 16 ∷ 8 ∷ 8 ∷ 4 ∷ 4 ∷ []

-- `SIZE_CLASS_CONFIG[i].first` and `.second`, and `BATCH_SIZES[i]`, at an index in range.
abbrev pub class_size : ℕ → ℕ
class_size i = (get_or size_class_config i (0, 0)).0

abbrev pub class_count : ℕ → ℕ
class_count i = (get_or size_class_config i (0, 0)).1

abbrev pub class_batch : ℕ → ℕ
class_batch i = get_or batch_sizes i 0

abbrev pub largest : ℕ
largest = class_size (num_size_classes - 1)

unfoldable pub size_to_index : ℕ → ℕ
unfolding sub_word
size_to_index size =
    let s = if ltb size (class_size 0) then class_size 0 else size in
    if size == 0 || ltb largest size
    then minus_one
    else sub_word (bit_width (bit_ceil s)) (bit_width (class_size 0))

unfoldable pub index_to_size_class : ℕ → ℕ
index_to_size_class index = if leb num_size_classes index then 0 else class_size index

-- A `size_t` as the nearest `double`, ties to the even one: 53 digits are kept.
unfoldable pub to_double : ℕ → ℕ
to_double n =
    let unit = 2 ^ (bit_width n - 53) in
    let down = n / unit in
    let rest = n % unit in
    let up = ltb unit (2 * rest) || (2 * rest == unit && (down % 2 == 1)) in
    if leb (bit_width n) 53 then n else (if up then (down + 1) * unit else down * unit)

-- The number of blocks of a class in a slab of the given scale. `std::ceil` leaves the double that
-- the product is converted to as it is.
unfoldable pub scaled_count : ℕ → ℕ → ℕ
unfolding mul_word
scaled_count i scale =
    let count = to_double (mul_word (class_count i) scale) in if ltb count 1 then 1 else count
