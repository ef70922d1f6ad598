-- ===== src/Base/Lists.antt =====
-- Lists measured and indexed by native numbers.
use Prim.Native.Nat.{ℕ, zero, suc, ◌+◌, ◌-◌, ◌≤◌, ◌<◌}
use mathlib.Core.Path.{◌≡◌, refl, sym, ap, ◌∙◌}
use mathlib.Core.List.{List, [], ◌∷◌, ◌++◌, Perm, Permᴰ}
use mathlib.Core.Logic.{∥∥₁_elim, ◌≢◌}
use native.Mathlib.Nat.{ℕ_set}
use mathlib.Core.Option.{Option, none, some}
use native.Mathlib.Omega.{arith}

module _ {ℓ} {A : Type ℓ} where
  abbrev pub length : List A → ℕ
  length [] = 0
  length (x ∷ xs) = suc (length xs)

  abbrev pub copies : ℕ → A → List A
  copies zero a = []
  copies (suc n) a = a ∷ copies n a

  abbrev pub get_elem? : List A → ℕ → Option A
  get_elem? [] i = none
  get_elem? (x ∷ xs) zero = some x
  get_elem? (x ∷ xs) (suc i) = get_elem? xs i

  abbrev pub get_or : List A → ℕ → A → A
  get_or [] i d = d
  get_or (x ∷ xs) zero d = x
  get_or (x ∷ xs) (suc i) d = get_or xs i d

  -- A write out of bounds changes nothing.
  abbrev pub set : List A → ℕ → A → List A
  set [] i v = []
  set (x ∷ xs) zero v = v ∷ xs
  set (x ∷ xs) (suc i) v = x ∷ set xs i v

  abbrev pub take : ℕ → List A → List A
  take zero xs = []
  take (suc n) [] = []
  take (suc n) (x ∷ xs) = x ∷ take n xs

  abbrev pub drop : ℕ → List A → List A
  drop zero xs = xs
  drop (suc n) [] = []
  drop (suc n) (x ∷ xs) = drop n xs

  abbrev pub All {κ} : (A → Type κ) → List A → Type κ
  All P [] = Unit
  All P (x ∷ xs) = P x × All P xs

  pub length-append : (xs ys : List A) → length (xs ++ ys) ≡ length xs + length ys
  length-append [] ys = omega arith
  length-append (x ∷ xs) ys = omega (arith, length-append xs ys)

  length-Permᴰ : {xs ys : List A} → Permᴰ xs ys → length xs ≡ length ys
  length-Permᴰ Permᴰ.nil = refl
  length-Permᴰ (Permᴰ.cons e h) = ap suc (length-Permᴰ h)
  length-Permᴰ (Permᴰ.swap e e') = refl
  length-Permᴰ (Permᴰ.trans h k) = length-Permᴰ h ∙ length-Permᴰ k

  pub length-perm : {xs ys : List A} → Perm xs ys → length xs ≡ length ys
  length-perm h = ∥∥₁_elim h (ℕ_set _ _) length-Permᴰ

  pub take-nil : (n : ℕ) → take n [] ≡ []
  take-nil zero = refl
  take-nil (suc n) = refl

  pub drop-nil : (n : ℕ) → drop n [] ≡ []
  drop-nil zero = refl
  drop-nil (suc n) = refl

  pub length-take-le : (n : ℕ) (xs : List A) → length (take n xs) ≤ n
  length-take-le zero xs = omega arith
  length-take-le (suc n) [] = omega arith
  length-take-le (suc n) (x ∷ xs) = omega (arith, length-take-le n xs)

  -- The entry at an index, and what stands behind it.
  pub drop-next :
      (i : ℕ) (xs : List A) (y : A) (ys : List A)
      → drop i xs ≡ y ∷ ys
      → (get_elem? xs i ≡ some y) × (drop (i + 1) xs ≡ ys)
  drop-next zero [] y ys e = cc
  drop-next zero (x ∷ xs) y ys e = (ground arith, ground arith)
  drop-next (suc i) [] y ys e = cc
  drop-next (suc i) (x ∷ xs) y ys e =
      let next : suc i + 1 ≡ suc (i + 1) = omega arith in rw next (drop-next i xs y ys e)

  pub take-last :
      (j : ℕ) (xs : List A)
      → suc j ≤ length xs
      → (x : A) × (get_elem? xs j ≡ some x) × (take (suc j) xs ≡ take j xs ++ x ∷ [])
  take-last zero [] h = absurd (omega arith)
  take-last zero (x ∷ xs) h = (x, refl, refl)
  take-last (suc j) [] h = absurd (omega arith)
  take-last (suc j) (x ∷ xs) h =
      let rest = take-last j xs (omega arith) in (rest.0, rest.1, ap (◌∷◌ x) rest.2)

  pub take-length-append : (xs ys : List A) → take (length xs) (xs ++ ys) ≡ xs
  take-length-append [] ys = refl
  take-length-append (x ∷ xs) ys = ap (◌∷◌ x) (take-length-append xs ys)

  pub take-set :
      (xs : List A) (j : ℕ) (x : A)
      → suc j ≤ length xs
      → take (suc j) (set xs j x) ≡ take j xs ++ x ∷ []
  take-set [] j x h = absurd (omega arith)
  take-set (y ∷ xs) zero x h = refl
  take-set (y ∷ xs) (suc j) x h = ap (◌∷◌ y) (take-set xs j x (omega arith))

  pub length-set : (xs : List A) (j : ℕ) (x : A) → length (set xs j x) ≡ length xs
  length-set [] j x = refl
  length-set (y ∷ xs) zero x = refl
  length-set (y ∷ xs) (suc j) x = ap suc (length-set xs j x)

  pub take-append-drop : (n : ℕ) (xs : List A) → take n xs ++ drop n xs ≡ xs
  take-append-drop zero xs = refl
  take-append-drop (suc n) [] = refl
  take-append-drop (suc n) (x ∷ xs) = ap (◌∷◌ x) (take-append-drop n xs)

  pub length-drop : (n : ℕ) (xs : List A) → length (drop n xs) ≡ length xs - n
  length-drop zero xs = omega arith
  length-drop (suc n) [] = omega arith
  length-drop (suc n) (x ∷ xs) = omega (arith, length-drop n xs)

  pub take_all : (xs : List A) → take (length xs) xs ≡ xs
  take_all [] = refl
  take_all (x ∷ xs) = ap (◌∷◌ x) (take_all xs)

  pub get_elem?-set_self :
      (xs : List A) (j : ℕ) (x : A) → suc j ≤ length xs → get_elem? (set xs j x) j ≡ some x
  get_elem?-set_self [] j x h = absurd (omega arith)
  get_elem?-set_self (y ∷ xs) zero x h = refl
  get_elem?-set_self (y ∷ xs) (suc j) x h = get_elem?-set_self xs j x (omega arith)

  pub get_elem?-length : (xs : List A) (i : ℕ) (x : A) → get_elem? xs i ≡ some x → suc i ≤ length xs
  get_elem?-length [] i x e = cc
  get_elem?-length (y ∷ xs) zero x e = omega arith
  get_elem?-length (y ∷ xs) (suc i) x e = omega (arith, get_elem?-length xs i x e)

  pub get_elem?-set_other :
      (xs : List A) (i j : ℕ) (x : A) → j ≢ i → get_elem? (set xs i x) j ≡ get_elem? xs j
  get_elem?-set_other [] i j x h = refl
  get_elem?-set_other (y ∷ xs) zero zero x h = absurd (h refl)
  get_elem?-set_other (y ∷ xs) zero (suc j) x h = refl
  get_elem?-set_other (y ∷ xs) (suc i) zero x h = refl
  get_elem?-set_other (y ∷ xs) (suc i) (suc j) x h = get_elem?-set_other xs i j x (omega arith)

  pub eq-nil_of_length-take : (n : ℕ) (xs : List A) → 1 ≤ n → length (take n xs) ≡ 0 → xs ≡ []
  eq-nil_of_length-take n [] h e = refl
  eq-nil_of_length-take zero (x ∷ xs) h e = absurd (omega arith)
  eq-nil_of_length-take (suc n) (x ∷ xs) h e = absurd (omega arith)

  pub get_or-get_elem? :
      (xs : List A) (i : ℕ) (d : A) → i < length xs → get_elem? xs i ≡ some (get_or xs i d)
  get_or-get_elem? [] i d h = absurd (omega arith)
  get_or-get_elem? (x ∷ xs) zero d h = refl
  get_or-get_elem? (x ∷ xs) (suc i) d h = get_or-get_elem? xs i d (omega arith)

  pub get_or-set_self :
      (xs : List A) (i : ℕ) (x d : A) → i < length xs → get_or (set xs i x) i d ≡ x
  get_or-set_self [] i x d h = absurd (omega arith)
  get_or-set_self (y ∷ xs) zero x d h = refl
  get_or-set_self (y ∷ xs) (suc i) x d h = get_or-set_self xs i x d (omega arith)

  pub get_or-set_other :
      (xs : List A) (i j : ℕ) (x d : A) → j ≢ i → get_or (set xs i x) j d ≡ get_or xs j d
  get_or-set_other [] i j x d h = refl
  get_or-set_other (y ∷ xs) zero zero x d h = absurd (h refl)
  get_or-set_other (y ∷ xs) zero (suc j) x d h = refl
  get_or-set_other (y ∷ xs) (suc i) zero x d h = refl
  get_or-set_other (y ∷ xs) (suc i) (suc j) x d h = get_or-set_other xs i j x d (omega arith)

  pub set-get_elem? : (xs : List A) (i : ℕ) (x : A) → get_elem? xs i ≡ some x → set xs i x ≡ xs
  set-get_elem? [] i x e = refl
  set-get_elem? (y ∷ xs) zero x e = (let here : y ≡ x = cc in ap (λ z. z ∷ xs) (sym here))
  set-get_elem? (y ∷ xs) (suc i) x e = ap (◌∷◌ y) (set-get_elem? xs i x e)
