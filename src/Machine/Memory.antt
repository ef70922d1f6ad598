-- ===== src/Machine/Memory.antt =====
-- Memory as a function from addresses to bytes; words are stored with the low byte first.
use slab_allocator.Base.{
  ℕ, zero, suc, ◌+◌, ◌*◌, ◌/◌, ◌%◌, ◌^◌, ◌≤◌, ◌<◌, ◌≡◌, refl, ◌⊎◌, ◌&&◌, arith, ◌==◌, ltb, leb,
  if◌then◌else◌,
}
use native.Mathlib.Nat.{pow-suc}

abbrev pub Memory : Type 0
Memory = ℕ → ℕ

write_byte : Memory → ℕ → ℕ → Memory
write_byte m p b = λ a. if a == p then b else m a

load_bytes : ℕ → Memory → ℕ → ℕ
load_bytes zero m p = 0
load_bytes (suc n) m p = m p + 256 * load_bytes n m (p + 1)

store_bytes : ℕ → Memory → ℕ → ℕ → Memory
unfolding write_byte
store_bytes zero m p v = m
store_bytes (suc n) m p v = store_bytes n (write_byte m p (v % 256)) (p + 1) (v / 256)

-- A pointer-sized load and store.
unfoldable pub load_word : Memory → ℕ → ℕ
unfolding load_bytes
load_word m p = load_bytes 8 m p

unfoldable pub store_word : Memory → ℕ → ℕ → Memory
unfolding store_bytes
store_word m p v = store_bytes 8 m p v

-- `std::memset(p, v, n)`
unfoldable pub memset : Memory → ℕ → ℕ → ℕ → Memory
memset m p v n = λ a. if leb p a && ltb a (p + n) then v % 256 else m a

-- The 8 bytes at `a` and the 8 bytes at `b` share none.
abbrev pub Apart : ℕ → ℕ → Type 0
Apart a b = (a + 8 ≤ b) ⊎ (b + 8 ≤ a)

store_bytes-outside :
    (n : ℕ) (m : Memory) (p v a : ℕ) → (a < p) ⊎ (p + n ≤ a) → store_bytes n m p v a ≡ m a
unfolding store_bytes
store_bytes-outside zero m p v a h = refl
store_bytes-outside (suc n) m p v a h =
    ground (arith, store_bytes-outside n (write_byte m p (v % 256)) (p + 1) (v / 256) a)

load_bytes-agree :
    (n : ℕ) (m m' : Memory) (p : ℕ)
    → ((a : ℕ) → p ≤ a → a < p + n → m' a ≡ m a)
    → load_bytes n m' p ≡ load_bytes n m p
unfolding load_bytes
load_bytes-agree zero m m' p h = refl
load_bytes-agree (suc n) m m' p h = omega (
  arith,
  h p (omega arith) (omega arith),
  load_bytes-agree n m m' (p + 1) (λ a u v. h a (omega arith) (omega arith)),
)

load_bytes-store_bytes :
    (n : ℕ) (m : Memory) (p v : ℕ) → v < 256 ^ n → load_bytes n (store_bytes n m p v) p ≡ v
unfolding load_bytes store_bytes
load_bytes-store_bytes zero m p v h = omega arith
load_bytes-store_bytes (suc n) m p v h =
    let low = store_bytes-outside n (write_byte m p (v % 256)) (p + 1) (v / 256) p in
    ground (
      arith,
      low,
      pow-suc 256 n,
      load_bytes-store_bytes n (write_byte m p (v % 256)) (p + 1) (v / 256)
          (omega (arith, pow-suc 256 n)),
    )

pub load_word-store_word : (m : Memory) (p v : ℕ) → v < 2 ^ 64 → load_word (store_word m p v) p ≡ v
unfolding load_word store_word
load_word-store_word m p v h = load_bytes-store_bytes 8 m p v h

pub load_word-agree :
    (m m' : Memory) (p : ℕ)
    → ((a : ℕ) → p ≤ a → a < p + 8 → m' a ≡ m a)
    → load_word m' p ≡ load_word m p
unfolding load_word
load_word-agree m m' p h = load_bytes-agree 8 m m' p h

-- A store changes no byte but its eight.
pub store_word-outside : (m : Memory) (p v a : ℕ) → (a < p) ⊎ (p + 8 ≤ a) → store_word m p v a ≡ m a
unfolding store_word
store_word-outside m p v a h = store_bytes-outside 8 m p v a h

pub load_word-store_word-Apart :
    (m : Memory) (p v q : ℕ) → Apart p q → load_word (store_word m p v) q ≡ load_word m q
load_word-store_word-Apart m p v q h =
    load_word-agree m (store_word m p v) q (λ a u w. store_word-outside m p v a (omega arith))
