-- ===== src/Base/Held.antt =====
-- What the members of a group hold, all together, and how a change of one of them changes it.
use mathlib.Core.List.{perm_append_comm, append_assoc}
use mathlib.Core.List.Perm
use slab_allocator.Base.{
  sym, ◌∙◌, copies, ℕ, zero, suc, ◌+◌, ◌*◌, ◌≤◌, ◌≡◌, refl, subst, ap, List, [], ◌∷◌, ◌++◌, Perm,
  length, length-append, get_elem?, set, some, arith, All, same_some,
}

pub perm_swap : (xs ys zs : List ℕ) → Perm (xs ++ (ys ++ zs)) (ys ++ (xs ++ zs))
perm_swap xs ys zs =
    subst (λ us. Perm us (ys ++ (xs ++ zs))) (append_assoc xs ys zs)
      (subst (Perm ((xs ++ ys) ++ zs)) (append_assoc ys xs zs)
        (Perm.append_right zs (perm_append_comm xs ys)))

module _ {κ} {L : Type κ} where
  abbrev pub all_held : (L → List ℕ) → List L → List ℕ
  all_held held [] = []
  all_held held (l ∷ locals) = held l ++ all_held held locals

  abbrev pub total : (L → ℕ) → List L → ℕ
  total f [] = 0
  total f (l ∷ locals) = f l + total f locals

  pub total-set :
      (f : L → ℕ) (locals : List L) (tid : ℕ) (l l' : L)
      → get_elem? locals tid ≡ some l
      → total f (set locals tid l') + f l ≡ total f locals + f l'
  total-set f [] tid l l' e = cc
  total-set f (x ∷ locals) zero l l' e =
      let same : f x ≡ f l = ap f (let here : x ≡ l = cc in here) in omega (arith, same)
  total-set f (x ∷ locals) (suc tid) l l' e = omega (arith, total-set f locals tid l l' e)

  pub total-le :
      (f : L → ℕ) (bound : ℕ) (locals : List L)
      → ((l : L) → f l ≤ bound)
      → total f locals ≤ length locals * bound
  total-le f bound [] h = omega arith
  total-le f bound (l ∷ locals) h = grind (arith, h l, total-le f bound locals h)

  pub total-copies : (f : L → ℕ) (l : L) (n : ℕ) → total f (copies n l) ≡ n * f l
  total-copies f l zero = omega arith
  total-copies f l (suc n) = grind (arith, total-copies f l n)

  pub length-all_held :
      (held : L → List ℕ) (locals : List L)
      → length (all_held held locals) ≡ total (λ l. length (held l)) locals
  length-all_held held [] = refl
  length-all_held held (l ∷ locals) =
      omega (arith, length-append (held l) (all_held held locals), length-all_held held locals)

  abbrev pub lists_of : (L → List ℕ) → List L → List (List ℕ)
  lists_of held [] = []
  lists_of held (l ∷ locals) = held l ∷ lists_of held locals

  -- One worker's blocks, and those of the others.
  pub held_split :
      (held : L → List ℕ) (locals : List L) (tid : ℕ) (l : L)
      → get_elem? locals tid ≡ some l
      → (rest : List ℕ) × Perm (all_held held locals) (held l ++ rest)
        × ((l' : L) → Perm (all_held held (set locals tid l')) (held l' ++ rest))
  held_split held [] tid l e = cc
  held_split held (x ∷ locals) zero l e =
      let here : x ≡ l = cc in
      (
        all_held held locals,
        subst (λ y. Perm (held x ++ all_held held locals) (held y ++ all_held held locals)) here
            (Perm.refl _),
        λ l'. Perm.refl _,
      )
  held_split held (x ∷ locals) (suc tid) l e =
      let others = held_split held locals tid l e in
      (
        held x ++ others.0,
        Perm.trans (Perm.append_left (held x) others.1) (perm_swap (held x) (held l) others.0),
        λ l'.
            Perm.trans (Perm.append_left (held x) (others.2 l'))
              (perm_swap (held x) (held l') others.0),
      )

  pub all_held-copies :
      (held : L → List ℕ) (l : L) (n : ℕ) → held l ≡ [] → all_held held (copies n l) ≡ []
  all_held-copies held l zero e = refl
  all_held-copies held l (suc n) e = rw (e, all_held-copies held l n e) refl

  pub length-copies : (l : L) (n : ℕ) → length (copies n l) ≡ n
  length-copies l zero = refl
  length-copies l (suc n) = ap suc (length-copies l n)

  pub All-copies {ρ} : (P : L → Type ρ) (l : L) (n : ℕ) → P l → All P (copies n l)
  All-copies P l zero p = tt
  All-copies P l (suc n) p = (p, All-copies P l n p)

  pub All-all_held :
      (held : L → List ℕ) (locals : List L)
      → All (λ l. held l ≡ []) locals
      → all_held held locals ≡ []
  All-all_held held [] a = refl
  All-all_held held (l ∷ locals) a = rw (a.0, All-all_held held locals a.1) refl

  pub All-map {ρ σ} :
      {P : L → Type ρ} {Q : L → Type σ} (locals : List L)
      → ((l : L) → P l → Q l)
      → All P locals
      → All Q locals
  All-map [] h a = tt
  All-map (l ∷ locals) h a = (h l a.0, All-map locals h a.1)

  pub All-total :
      (f : L → ℕ) (k : ℕ) (locals : List L)
      → All (λ l. f l ≡ k) locals
      → total f locals ≡ length locals * k
  All-total f k [] a = omega arith
  All-total f k (l ∷ locals) a = grind (arith, a.0, All-total f k locals a.1)

  pub All-total_le :
      (f : L → ℕ) (k : ℕ) (locals : List L)
      → All (λ l. f l ≤ k) locals
      → total f locals ≤ length locals * k
  All-total_le f k [] a = omega arith
  All-total_le f k (l ∷ locals) a = grind (arith, a.0, All-total_le f k locals a.1)

  -- One of them is below the bound.
  pub All-total_lt :
      (f : L → ℕ) (k : ℕ) (locals : List L) (tid : ℕ) (l : L)
      → All (λ l. f l ≤ k) locals
      → get_elem? locals tid ≡ some l
      → suc (f l) ≤ k
      → suc (total f locals) ≤ length locals * k
  All-total_lt f k [] tid l a e lt = cc
  All-total_lt f k (x ∷ locals) zero l a e lt =
      let same : f x ≡ f l = ap f (same_some e) in
      let others = All-total_le f k locals a.1 in grind (arith, same, lt, others)
  All-total_lt f k (x ∷ locals) (suc tid) l a e lt =
      let others = All-total_lt f k locals tid l a.1 e lt in grind (arith, a.0, others)

  pub All-le_all_held :
      (held : L → List ℕ) (locals : List L)
      → All (λ l. length (held l) ≤ length (all_held held locals)) locals
  All-le_all_held held [] = tt
  All-le_all_held held (l ∷ locals) =
      let parts = length-append (held l) (all_held held locals) in
      (
        omega (arith, parts),
        All-map locals (λ k h. omega (arith, parts, h)) (All-le_all_held held locals),
      )

  -- What all but one of them hold.
  abbrev pub others : (L → List ℕ) → List L → ℕ → List ℕ
  others held [] tid = []
  others held (l ∷ locals) zero = all_held held locals
  others held (l ∷ locals) (suc tid) = held l ++ others held locals tid

  pub others_split :
      (held : L → List ℕ) (locals : List L) (tid : ℕ) (l : L)
      → get_elem? locals tid ≡ some l
      → Perm (all_held held locals) (held l ++ others held locals tid)
  others_split held [] tid l e = cc
  others_split held (x ∷ locals) zero l e =
      let here : x ≡ l = cc in
      subst (λ y. Perm (held x ++ all_held held locals) (held y ++ all_held held locals)) here
        (Perm.refl _)
  others_split held (x ∷ locals) (suc tid) l e =
      Perm.trans (Perm.append_left (held x) (others_split held locals tid l e))
        (perm_swap (held x) (held l) (others held locals tid))

  pub others-set_self :
      (held : L → List ℕ) (locals : List L) (tid : ℕ) (l : L)
      → others held (set locals tid l) tid ≡ others held locals tid
  others-set_self held [] tid l = refl
  others-set_self held (x ∷ locals) zero l = refl
  others-set_self held (x ∷ locals) (suc tid) l =
      ap (λ us. held x ++ us) (others-set_self held locals tid l)

  all_held-set_same :
      (held : L → List ℕ) (locals : List L) (tid : ℕ) (l l' : L)
      → get_elem? locals tid ≡ some l
      → held l' ≡ held l
      → all_held held (set locals tid l') ≡ all_held held locals
  all_held-set_same held [] tid l l' e same = refl
  all_held-set_same held (x ∷ locals) zero l l' e same =
      let here : x ≡ l = cc in ap (λ us. us ++ all_held held locals) (same ∙ ap held (sym here))
  all_held-set_same held (x ∷ locals) (suc tid) l l' e same =
      ap (λ us. held x ++ us) (all_held-set_same held locals tid l l' e same)

  -- One of them changes without effect on what it holds.
  pub others-set_same :
      (held : L → List ℕ) (locals : List L) (tid other : ℕ) (l l' : L)
      → get_elem? locals tid ≡ some l
      → held l' ≡ held l
      → others held (set locals tid l') other ≡ others held locals other
  others-set_same held [] tid other l l' e same = refl
  others-set_same held (x ∷ locals) zero zero l l' e same = refl
  others-set_same held (x ∷ locals) zero (suc other) l l' e same =
      let here : x ≡ l = cc in ap (λ us. us ++ others held locals other) (same ∙ ap held (sym here))
  others-set_same held (x ∷ locals) (suc tid) zero l l' e same =
      all_held-set_same held locals tid l l' e same
  others-set_same held (x ∷ locals) (suc tid) (suc other) l l' e same =
      ap (λ us. held x ++ us) (others-set_same held locals tid other l l' e same)

  pub All-set {ρ} :
      (P : L → Type ρ) (locals : List L) (tid : ℕ) (l' : L)
      → All P locals
      → P l'
      → All P (set locals tid l')
  All-set P [] tid l' a p = tt
  All-set P (l ∷ locals) zero l' a p = (p, a.1)
  All-set P (l ∷ locals) (suc tid) l' a p = (a.0, All-set P locals tid l' a.1 p)

  pub All-at {ρ} :
      (P : L → Type ρ) (locals : List L) (tid : ℕ) {l : L}
      → All P locals
      → get_elem? locals tid ≡ some l
      → P l
  All-at P [] tid a e = cc
  All-at P (x ∷ locals) zero a e = subst P (same_some e) a.0
  All-at P (x ∷ locals) (suc tid) a e = All-at P locals tid a.1 e
