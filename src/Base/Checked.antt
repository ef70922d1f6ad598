-- ===== src/Base/Checked.antt =====
-- Code that may end in a failed `assert` or in an access out of range: `none` is that end.
use mathlib.Core.Path.{◌≡◌, refl, subst}
use slab_allocator.Base.Tests.{if◌then◌else◌}
use mathlib.Core.Bool.{Bool, true, false}
use mathlib.Core.Option.{Option, none, some}

infixl 5 ◌>>=◌ ◌>>◌
abbrev pub ◌>>=◌ {ℓ κ} : {A : Type ℓ} {B : Type κ} → Option A → (A → Option B) → Option B
none >>= f = none
some a >>= f = f a

abbrev pub ◌>>◌ {ℓ} : {B : Type ℓ} → Option (Unit {0}) → Option B → Option B
m >> k = m >>= λ _. k

-- CMakeLists.txt: a Debug build defines PALLOC_DEBUG, a Release build defines NDEBUG.
pub data Build : Type 0 where
  debug release : Build

-- `assert`
abbrev pub assert : Build → Bool → Option (Unit {0})
assert debug false = none
assert debug true = some tt
assert release test = some tt

pub assert-true : (b : Build) → assert b true ≡ some tt
assert-true debug = refl
assert-true release = refl

-- What holds of the result if there is one.
pub data OnSome {ℓ κ} {A : Type ℓ} (P : A → Type κ) : Option A → Type (ℓ ⊔ κ) where
  on_none : OnSome P none
  on_some : {a : A} → P a → OnSome P (some a)

module _ {ℓ κ} {A : Type ℓ} {P : A → Type κ} where
  pub OnSome-bind {ι ρ} :
      {B : Type ι} {Q : B → Type ρ} {f : A → Option B} (r : Option A)
      → OnSome P r
      → ((a : A) → P a → OnSome Q (f a))
      → OnSome Q (r >>= f)
  OnSome-bind none h k = on_none
  OnSome-bind (some a) (on_some h) k = k a h

  pub OnSome-if :
      (t : Bool) {x y : Option A} → OnSome P x → OnSome P y → OnSome P (if t then x else y)
  OnSome-if true h k = h
  OnSome-if false h k = k

  pub OnSome-map {ρ} :
      {Q : A → Type ρ} (r : Option A) → OnSome P r → ((a : A) → P a → Q a) → OnSome Q r
  OnSome-map none h k = on_none
  OnSome-map (some a) (on_some h) k = on_some (k a h)

  pub OnSome-at : {r : Option A} {a : A} → OnSome P r → r ≡ some a → P a
  OnSome-at {a = a} h e = go (subst (OnSome P) e h)
    where
      go : OnSome P (some a) → P a
      go (on_some k) = k

pub OnSome-self {ℓ} : {A : Type ℓ} (r : Option A) → OnSome (λ a. r ≡ some a) r
OnSome-self none = on_none
OnSome-self (some a) = on_some refl

-- Any result will do.
pub OnSome-any {ℓ} : {A : Type ℓ} (r : Option A) → OnSome (λ a. Unit {0}) r
OnSome-any none = on_none
OnSome-any (some a) = on_some tt
