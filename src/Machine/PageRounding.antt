-- ===== src/Machine/PageRounding.antt =====
-- The rounding of a length up to whole pages.
use native.Mathlib.Nat.{mul-mod_left, div-mul-le_self, lt-div-mul-add}
use slab_allocator.Base.{ℕ, ◌+◌, ◌-◌, ◌*◌, ◌/◌, ◌%◌, ◌^◌, ◌≤◌, ◌<◌, ◌≡◌, arith}
use slab_allocator.Machine.Word.{add_word, sub_word, mul_word, round_to_page}

-- While the sum does not wrap, the result is the mathematical rounding.
pub round_to_page_lem :
    (n page : ℕ)
    → 1 ≤ page
    → n + page < 2 ^ 64
    → round_to_page n page ≡ (n + page - 1) / page * page
unfolding round_to_page add_word sub_word mul_word
round_to_page_lem n page p h =
    let inner : ((n + page) % 2 ^ 64 + 2 ^ 64 - 1) % 2 ^ 64 ≡ n + page - 1 = omega arith in
    let small = div-mul-le_self (n + page - 1) page in rw inner (omega arith)

-- It is a multiple of the page size, not below `n`, and less than a page above it.
pub round_to_page_bounds :
    (n page : ℕ)
    → 1 ≤ page
    → n + page < 2 ^ 64
    → (n ≤ round_to_page n page)
      × (round_to_page n page < n + page)
      × (round_to_page n page % page ≡ 0)
round_to_page_bounds n page p h =
    let low = lt-div-mul-add {a = n + page - 1} p in
    let high = div-mul-le_self (n + page - 1) page in
    rw (round_to_page_lem n page p h)
      (omega arith, omega arith, mul-mod_left ((n + page - 1) / page) page)
