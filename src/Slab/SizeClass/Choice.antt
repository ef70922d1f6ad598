-- ===== src/Slab/SizeClass/Choice.antt =====
-- `size_to_index` picks the smallest class that fits, and the classes are what the pools round to.
use slab_allocator.Base.{
  ℕ, zero, suc, ◌-◌, ◌≤◌, ◌<◌, ◌≡◌, refl, ◌≢◌, ◌⊎◌, ◌||◌, ◌&&◌, ◌==◌, ltb, leb, Bool, true, false,
  arith,
}
use slab_allocator.Machine.Word.{minus_one, bit_width, bit_ceil, width_of}
use slab_allocator.Slab.SizeClass.{
  num_size_classes, class_size, largest, size_to_index, index_to_size_class,
}

below : ℕ → (ℕ → Bool) → Bool
below zero p = true
below (suc n) p = p n && below n p

below_sound : (n : ℕ) (p : ℕ → Bool) (x : ℕ) → below n p ≡ true → x < n → p x ≡ true
unfolding below
below_sound zero p x h lt = absurd (omega arith)
below_sound (suc n) p x h lt = ground (arith, below_sound n p x)

-- The class of a request, tested.
fits_best : ℕ → Bool
fits_best size =
    let i = size_to_index size in
    (size == 0)
    || (ltb i num_size_classes
        && leb size (class_size i)
        && ((i == 0) || ltb (class_size (i - 1)) size))

fits_table : below 4097 fits_best ≡ true
unfolding below fits_best size_to_index bit_width bit_ceil width_of
fits_table = refl

-- The classes rise.
rising_table :
    below 11 (λ j. below j (λ i. leb (class_size i) (class_size (j - 1)) || (j == 0))) ≡ true
unfolding below
rising_table = refl

rising : (j i : ℕ) → j < 11 → i < j → class_size i ≤ class_size (j - 1)
rising j i hj hi =
    let row =
      below_sound 11 (λ j. below j (λ i. leb (class_size i) (class_size (j - 1)) || (j == 0))) j
        rising_table hj in
    let entry = below_sound j (λ i. leb (class_size i) (class_size (j - 1)) || (j == 0)) i row hi in
    let not_first : (j == 0) ≡ false = ground arith in ground (arith, entry, not_first)

fits_split :
    (size i : ℕ)
    → 1 ≤ size
    → ((size == 0)
        || (ltb i num_size_classes
            && leb size (class_size i)
            && ((i == 0) || ltb (class_size (i - 1)) size)))
      ≡ true
    → (i < num_size_classes) × (size ≤ class_size i) × (i ≢ 0 → class_size (i - 1) < size)
fits_split size i lo t = ground arith

fits_facts :
    (size : ℕ)
    → 1 ≤ size
    → size ≤ largest
    → (size_to_index size < num_size_classes)
      × (size ≤ class_size (size_to_index size))
      × (size_to_index size ≢ 0 → class_size (size_to_index size - 1) < size)
unfolding fits_best
fits_facts size lo hi =
    let t = below_sound 4097 fits_best size fits_table (omega arith) in
    fits_split size (size_to_index size) lo t

-- A request of 1 byte up to the largest class size has the index of the smallest class whose blocks
-- are large enough.
pub size_to_index_lem :
    (size : ℕ)
    → 1 ≤ size
    → size ≤ largest
    → (size_to_index size < num_size_classes)
      × (size ≤ class_size (size_to_index size))
      × ((i : ℕ) → i < size_to_index size → class_size i < size)
size_to_index_lem size lo hi =
    let found = fits_facts size lo hi in
    (found.0, found.1, λ i lt. omega (arith, found.2, rising (size_to_index size) i))

-- A request of 0 bytes or of more than the largest class has the index -1.
pub size_to_index-minus_one :
    (size : ℕ) → (size ≡ 0) ⊎ (largest < size) → size_to_index size ≡ minus_one
unfolding size_to_index
size_to_index-minus_one size h = ground arith

class_round_trip : ℕ → Bool
class_round_trip i =
    (size_to_index (index_to_size_class i) == i)
    && (bit_ceil (index_to_size_class i) == class_size i)
    && leb 8 (index_to_size_class i)

round_trip_table : below 10 class_round_trip ≡ true
unfolding below class_round_trip size_to_index index_to_size_class bit_width bit_ceil width_of
round_trip_table = refl

-- A class is found again by its own block size, which holds a pointer and which rounding up to a
-- power of two leaves as it is.
pub size_to_index-index_to_size_class :
    (i : ℕ)
    → i < num_size_classes
    → (size_to_index (index_to_size_class i) ≡ i)
      × (bit_ceil (index_to_size_class i) ≡ class_size i)
      × (8 ≤ index_to_size_class i)
unfolding class_round_trip
size_to_index-index_to_size_class i h =
    let t = below_sound 10 class_round_trip i round_trip_table h in ground arith
