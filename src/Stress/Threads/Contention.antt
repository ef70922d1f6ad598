-- ===== src/Stress/Threads/Contention.antt =====
-- Workers that may have to repeat an exchange are joined: alone, each of them comes nearer to its end.
use slab_allocator.Base.{
  copies, ℕ, zero, suc, ◌-◌, ◌≤◌, ◌<◌, ◌≡◌, ◌≢◌, refl, ◌∙◌, ap, List, [], ◌∷◌, ◌++◌, length,
  length-set, get_elem?, get_elem?-set_self, get_elem?-set_other, get_elem?-length, set, some, Bool,
  true, false, Option-cases, Bool-cases, inl, inr, ◌==◌, arith, All, same_some, take-last,
}
use slab_allocator.Stress.{Run, aborted, failed, on, ◌>>=◌, Passes, passes, Passes->>=, Passes-map}
use slab_allocator.Stress.Threads.{advance, interleave, in_turn, all_of, contend, join_contended}

>>=-same {ℓ κ ι} :
    {A : Type ℓ} {B : Type κ} {C : Type ι} (f : A → Run C) (g : A → Run B) (h : B → Run C)
    (r : Run A)
    → ((a : A) → f a ≡ (g a >>= h))
    → (r >>= f) ≡ (r >>= g >>= h)
>>=-same f g h aborted e = refl
>>=-same f g h failed e = refl
>>=-same f g h (on a) e = e a

interleave-append {ℓ κ} :
    {S : Type ℓ} {L : Type κ} (action : ℕ → S × L → Run (S × L)) (xs ys : List ℕ) (st : S × List L)
    → interleave action (xs ++ ys) st ≡ (interleave action xs st >>= interleave action ys)
unfolding interleave
interleave-append action [] ys st = refl
interleave-append action (tid ∷ xs) ys st =
    >>=-same _ (interleave action xs) (interleave action ys) (advance action tid st)
      (λ st'. interleave-append action xs ys st')

module _ {ℓ κ ρ} {S : Type ℓ} {L : Type κ} (action : Bool → ℕ → S × L → Run (S × L))
    (Inv : S → List L → Type ρ) (left : S → L → ℕ)
    (keep : (fails : Bool) (tid : ℕ) (s : S) (locals : List L) (l : L)
      → Inv s locals
      → get_elem? locals tid ≡ some l
      → Passes
          (λ (r : S × L).
            Inv r.0 (set locals tid r.1) × (fails ≡ false → left r.0 r.1 ≤ left s l - 1))
          (action fails tid (s, l))) where
  Kept : List L → S × List L → Type ρ
  Kept locals st = Inv st.0 st.1 × (length st.1 ≡ length locals)

  advance-Kept :
      (fails : Bool) (tid : ℕ) (s : S) (locals : List L)
      → Inv s locals
      → Passes (Kept locals) (advance (action fails) tid (s, locals))
  unfolding advance Kept
  advance-Kept fails tid s locals i = elim (Option-cases (get_elem? locals tid)) [
    | inl e ↦ rw (e, advance) (passes (s, locals) (i, refl))
    | inr (l, e) ↦
        rw (e, advance)
          (Passes->>= (keep fails tid s locals l i e)
            λ r k. passes (r.0, set locals tid r.1) (k.0, length-set locals tid r.1))
  ]

  contend-Kept :
      (schedule : List (ℕ × Bool)) (st : S × List L)
      → Inv st.0 st.1
      → Passes (Kept st.1) (contend action schedule st)
  unfolding contend Kept
  contend-Kept [] st i = passes st (i, refl)
  contend-Kept ((tid, fails) ∷ schedule) (s, locals) i =
      Passes->>= (advance-Kept fails tid s locals i)
        λ st' h. Passes-map (contend-Kept schedule st' h.0) λ r k. (k.0, k.1 ∙ h.1)

  -- A thread by itself: nearer to its end, the others where they were.
  abbrev Alone : ℕ → ℕ → List L → S × List L → Type (ρ ⊔ κ)
  Alone tid most locals st =
      Inv st.0 st.1
      × (length st.1 ≡ length locals)
      × ((l : L) × (get_elem? st.1 tid ≡ some l) × (left st.0 l ≤ most))
      × ((t : ℕ) → t ≢ tid → get_elem? st.1 t ≡ get_elem? locals t)

  advance-Alone :
      (tid : ℕ) (s : S) (locals : List L) (l : L)
      → Inv s locals
      → get_elem? locals tid ≡ some l
      → Passes (Alone tid (left s l - 1) locals) (advance (action false) tid (s, locals))
  unfolding advance
  advance-Alone tid s locals l i e =
      rw (e, advance)
        (Passes->>= (keep false tid s locals l i e) λ r k.
          passes (r.0, set locals tid r.1)
            (
              k.0,
              length-set locals tid r.1,
              (r.1, get_elem?-set_self locals tid r.1 (get_elem?-length locals tid l e), k.1 refl),
              λ t ne. get_elem?-set_other locals tid t r.1 ne,
            ))

  solo :
      (n tid : ℕ) (s : S) (locals : List L) (l : L)
      → Inv s locals
      → get_elem? locals tid ≡ some l
      → Passes
          (Alone tid (left s l - n) locals)
          (interleave (action false) (copies n tid) (s, locals))
  unfolding interleave
  solo zero tid s locals l i e = passes (s, locals) (i, refl, (l, e, omega arith), λ t ne. refl)
  solo (suc n) tid s locals l i e = Passes->>= (advance-Alone tid s locals l i e) λ st' h.
      Passes-map (solo n tid st'.0 st'.1 h.2.0 h.0 h.2.1) λ r k.
        (k.0, k.1 ∙ h.1, (k.2.0, k.2.1, omega (arith, k.2.2, h.2.2)), λ t ne. k.3 t ne ∙ h.3 t ne)

  module _ (finished : L → Bool) (rounds : ℕ)
      (bound : (s : S) (locals : List L) (tid : ℕ) (l : L)
        → Inv s locals
        → get_elem? locals tid ≡ some l
        → left s l ≤ rounds)
      (ends : (s : S) (l : L) → left s l ≡ 0 → finished l ≡ true) where
    -- The threads below `k` are at their end, the others where they were.
    abbrev Ended : ℕ → List L → S × List L → Type (ρ ⊔ κ)
    Ended k locals st =
        Inv st.0 st.1
        × (length st.1 ≡ length locals)
        × ((t : ℕ) → t < k → (l : L) × (get_elem? st.1 t ≡ some l) × (finished l ≡ true))
        × ((t : ℕ) → k ≤ t → get_elem? st.1 t ≡ get_elem? locals t)

    in_turn-Ended :
        (k : ℕ) (st : S × List L)
        → Inv st.0 st.1
        → k ≤ length st.1
        → Passes (Ended k st.1) (interleave (action false) (in_turn rounds k) st)
    unfolding interleave
    in_turn-Ended zero st i small =
        passes st (i, refl, (λ t lt. absurd (omega (arith, lt))), λ t ge. refl)
    in_turn-Ended (suc k) st i small =
        let (l, e, prefix) = take-last k st.1 small in
        rw (interleave-append (action false) (copies rounds k) (in_turn rounds k) st) (
          Passes->>= (solo rounds k st.0 st.1 l i e) λ st' h.
            Passes-map (in_turn-Ended k st' h.0 (omega (arith, small, h.1))) λ r q.
              let none_left : left st'.0 h.2.0 ≡ 0 =
                omega (arith, h.2.2, bound st.0 st.1 k l i e) in
              (
                q.0,
                q.1 ∙ h.1,
                (λ t lt. elim (Bool-cases (t == k)) [
                  | inl same ↦
                      let here : t ≡ k = ground (arith, same) in
                      (
                        h.2.0,
                        q.3 t (omega (arith, here)) ∙ ap (get_elem? st'.1) here ∙ h.2.1,
                        ends st'.0 h.2.0 none_left,
                      )
                  | inr other ↦
                      let ne : t ≢ k = ground (arith, other) in q.2 t (omega (arith, lt, ne))
                ]),
                λ t ge. q.3 t (omega (arith, ge)) ∙ h.3 t (omega (arith, ge)),
              ))

    all_of-ends :
        (locals : List L)
        → ((t : ℕ)
            → t < length locals
            → (l : L) × (get_elem? locals t ≡ some l) × (finished l ≡ true))
        → (all_of finished locals ≡ true) × All (λ l. finished l ≡ true) locals
    unfolding all_of
    all_of-ends [] h = (refl, tt)
    all_of-ends (l ∷ locals) h =
        let first = h 0 (omega arith) in
        let here : finished l ≡ true = ap finished (same_some first.1) ∙ first.2 in
        let rest = all_of-ends locals (λ t lt. h (suc t) (omega (arith, lt))) in
        (rw (here, rest.0) refl, (here, rest.1))

    -- `join_contended` returns, whatever the schedule, with all workers at their end, and what every
    -- action keeps holds.
    pub join_contended-Joined :
        (schedule : List (ℕ × Bool)) (st : S × List L)
        → Inv st.0 st.1
        → Passes
            (λ (r : S × List L).
              Inv r.0 r.1 × (length r.1 ≡ length st.1) × All (λ l. finished l ≡ true) r.1)
            (join_contended action finished rounds schedule st)
    unfolding join_contended Kept
    join_contended-Joined schedule st i =
        Passes->>=
          {P = λ (r : S × List L).
            Inv r.0 r.1
            × (length r.1 ≡ length st.1)
            × ((all_of finished r.1 ≡ true) × All (λ l. finished l ≡ true) r.1)}
          (Passes->>= (contend-Kept schedule st i) λ st' h.
            Passes-map (in_turn-Ended (length st.1) st' h.0 (omega (arith, h.1))) λ r q.
              let same : length r.1 ≡ length st.1 = q.1 ∙ h.1 in
              (q.0, same, all_of-ends r.1 (λ t lt. q.2 t (omega (arith, lt, same)))))
          (λ r q. rw q.2.0 (passes r (q.0, q.1, q.2.1)))
