-- ===== src/Stress.antt =====
-- stress_tests/: the programs that drive the allocators. The clocks and what is printed are left out.
pub mod Pools
pub mod Arenas
pub mod Threads
pub mod PoolThreads
pub mod Slabs
pub mod ArenaThreads
mod Examples
use slab_allocator.Base.{◌≡◌, refl, Bool, true, false, Option, none, some, ℕ, zero, suc}

-- How a part of such a program ends: in a failed assertion or an exception that nobody catches, in a
-- `return 1` with the state of the kernel left to the destructors, or it goes on with a value.
pub data Run {ℓ} (A : Type ℓ) : Type ℓ where
  aborted failed : Run A
  on : A → Run A

infixl 5 ◌>>=◌ ◌>>◌
abbrev pub ◌>>=◌ {ℓ κ} : {A : Type ℓ} {B : Type κ} → Run A → (A → Run B) → Run B
aborted >>= f = aborted
failed >>= f = failed
on a >>= f = f a

abbrev pub ◌>>◌ {ℓ} : {B : Type ℓ} → Run (Unit {0}) → Run B → Run B
m >> k = m >>= λ _. k

-- A call that may fail an assertion.
abbrev pub call {ℓ} : {A : Type ℓ} → Option A → Run A
call none = aborted
call (some a) = on a

-- `if (!test) return 1;`
abbrev pub expect : Bool → Run (Unit {0})
expect true = on tt
expect false = failed

-- The run goes on, with a value that satisfies `P`.
pub data Passes {ℓ κ} {A : Type ℓ} (P : A → Type κ) : Run A → Type (ℓ ⊔ κ) where
  passes : (a : A) → P a → Passes P (on a)

module _ {ℓ κ} {A : Type ℓ} {P : A → Type κ} where
  pub Passes->>= {ℓ' κ'} :
      {B : Type ℓ'} {Q : B → Type κ'} {m : Run A} {f : A → Run B}
      → Passes P m
      → ((a : A) → P a → Passes Q (f a))
      → Passes Q (m >>= f)
  Passes->>= (passes a p) k = k a p

  pub Passes-map {κ'} :
      {Q : A → Type κ'} {m : Run A} → Passes P m → ((a : A) → P a → Q a) → Passes Q m
  Passes-map (passes a p) k = passes a (k a p)

  pub Passes-eq : {m : Run A} → Passes P m → (a : A) × (m ≡ on a) × P a
  Passes-eq (passes a p) = (a, refl, p)

-- `for (i = 0; i < n; ++i) s = body(s);` where the body may end the program.
pub repeat {ℓ} : {A : Type ℓ} → ℕ → (A → Run A) → A → Run A
repeat zero body a = on a
repeat (suc n) body a = body a >>= repeat n body

-- What every round keeps holds at the end, and the loop ends by itself.
pub repeat-Passes {ℓ κ} :
    {A : Type ℓ} {P : A → Type κ} (n : ℕ) (body : A → Run A)
    → ((a : A) → P a → Passes P (body a))
    → (a : A) → P a
    → Passes P (repeat n body a)
unfolding repeat
repeat-Passes zero body keep a p = passes a p
repeat-Passes (suc n) body keep a p = Passes->>= (keep a p) (repeat-Passes n body keep)
