-- ===== src/Stress/Threads/Turns.antt =====
-- What every action keeps holds in every interleaving, and workers that come nearer to their end
-- with each action are joined.
use slab_allocator.Base.{
  copies, ℕ, zero, suc, ◌+◌, ◌-◌, ◌≤◌, ◌<◌, ◌≡◌, ◌≢◌, refl, sym, ◌∙◌, ap, List, [], ◌∷◌, ◌++◌,
  length, length-set, get_elem?, get_elem?-set_self, get_elem?-set_other, get_elem?-length, set,
  Option, none, some, Bool, true, Bool-cases, Option-cases, inl, inr, if◌then◌else◌, ◌==◌, arith,
  All,
}
use slab_allocator.Stress.{Run, Passes, passes, Passes->>=, Passes-map}
use slab_allocator.Stress.Threads.{advance, interleave, in_turn, all_of, join, worker_count}

-- The turns of a thread in a schedule.
abbrev turns : ℕ → List ℕ → ℕ
turns tid [] = 0
turns tid (t ∷ schedule) = if t == tid then suc (turns tid schedule) else turns tid schedule

turns-append : (tid : ℕ) (xs ys : List ℕ) → turns tid (xs ++ ys) ≡ turns tid xs + turns tid ys
turns-append tid [] ys = omega arith
turns-append tid (t ∷ xs) ys = elim (Bool-cases (t == tid)) [
  | inl e ↦ rw (e, turns-append tid xs ys) (omega arith)
  | inr e ↦ rw (e, turns-append tid xs ys) refl
]

turns-copies : (tid n : ℕ) → turns tid (copies n tid) ≡ n
turns-copies tid zero = refl
turns-copies tid (suc n) =
    let same : (tid == tid) ≡ true = ground arith in rw same (ap suc (turns-copies tid n))

turns-in_turn :
    (tid rounds threads : ℕ) → tid < threads → rounds ≤ turns tid (in_turn rounds threads)
turns-in_turn tid rounds zero h = absurd (omega arith)
turns-in_turn tid rounds (suc k) h =
    let split = turns-append tid (copies rounds k) (in_turn rounds k) in
    elim (Bool-cases (k == tid)) [
      | inl e ↦
          let same : k ≡ tid = ground (arith, e) in
          let mine : turns tid (copies rounds k) ≡ rounds = rw same (turns-copies tid rounds) in
          omega (arith, split, mine)
      | inr e ↦
          let other : k ≢ tid = ground (arith, e) in
          let later = turns-in_turn tid rounds k (omega arith) in omega (arith, split, later)
    ]

module _ {κ} {L : Type κ} (left : L → ℕ) where
  abbrev left_of : Option L → ℕ
  left_of none = 0
  left_of (some l) = left l

  all_of-finished :
      (finished : L → Bool) (locals : List L)
      → ((l : L) → left l ≡ 0 → finished l ≡ true)
      → ((tid : ℕ) → tid < length locals → left_of (get_elem? locals tid) ≡ 0)
      → (all_of finished locals ≡ true) × All (λ l. left l ≡ 0) locals
  unfolding all_of
  all_of-finished finished [] ends h = (refl, tt)
  all_of-finished finished (l ∷ locals) ends h =
      let here : left l ≡ 0 = h 0 (omega arith) in
      let others = all_of-finished finished locals ends (λ tid lt. h (suc tid) (omega arith)) in
      (rw (ends l here, others.0) refl, (here, others.1))

  module _ {ℓ ρ} {S : Type ℓ} (action : ℕ → S × L → Run (S × L)) (Inv : S → List L → Type ρ)
      (keep : (tid : ℕ) (s : S) (locals : List L) (l : L)
        → Inv s locals
        → get_elem? locals tid ≡ some l
        → Passes
            (λ (r : S × L). Inv r.0 (set locals tid r.1) × (left r.1 ≤ left l - 1))
            (action tid (s, l))) where
    -- After some turns: the invariant, and each thread nearer to its end by its turns.
    abbrev Onwards : List L → List ℕ → S × List L → Type ρ
    Onwards locals schedule st =
        Inv st.0 st.1
        × (length st.1 ≡ length locals)
        × ((tid : ℕ)
            → left_of (get_elem? st.1 tid) ≤ left_of (get_elem? locals tid) - turns tid schedule)

    advance-Onwards :
        (tid : ℕ) (s : S) (locals : List L)
        → Inv s locals
        → Passes (Onwards locals (tid ∷ [])) (advance action tid (s, locals))
    unfolding advance
    advance-Onwards tid s locals i = elim (Option-cases (get_elem? locals tid)) [
      | inl e ↦
          rw (e, advance)
            (passes (s, locals)
              (
                i,
                refl,
                λ t. elim (Bool-cases (tid == t)) [
                  | inl same ↦
                      let t_here : tid ≡ t = ground (arith, same) in
                      let nothing : left_of (get_elem? locals t) ≡ 0 = rw (sym t_here, e) refl in
                      omega (arith, nothing)
                  | inr other ↦ rw other (omega arith)
                ],
              ))
      | inr (l, e) ↦
          rw (e, advance)
            (Passes->>= (keep tid s locals l i e) λ r k.
              passes (r.0, set locals tid r.1)
                (
                  k.0,
                  length-set locals tid r.1,
                  λ t. elim (Bool-cases (tid == t)) [
                    | inl same ↦
                        let t_here : t ≡ tid = ground (arith, same) in
                        let now : get_elem? (set locals tid r.1) t ≡ some r.1 =
                          rw t_here
                            (get_elem?-set_self locals tid r.1 (get_elem?-length locals tid l e)) in
                        let before : get_elem? locals t ≡ some l = rw t_here e in
                        rw (same, now, before) k.1
                    | inr other ↦
                        let t_other : t ≢ tid = ground (arith, other) in
                        rw (other, get_elem?-set_other locals tid t r.1 t_other) (omega arith)
                  ],
                ))
    ]

    interleave-Onwards :
        (schedule : List ℕ) (st : S × List L)
        → Inv st.0 st.1
        → Passes (Onwards st.1 schedule) (interleave action schedule st)
    unfolding interleave
    interleave-Onwards [] st i = passes st (i, refl, λ t. omega arith)
    interleave-Onwards (tid ∷ schedule) (s, locals) i =
        Passes->>= (advance-Onwards tid s locals i) λ st' h.
          Passes-map (interleave-Onwards schedule st' h.0) λ r k. (
            k.0,
            k.1 ∙ h.1,
            λ t. elim (Bool-cases (tid == t)) [
              | inl same ↦
                  let one = h.2 t in
                  let rest = k.2 t in
                  rw same (
                    let once : left_of (get_elem? st'.1 t) ≤ left_of (get_elem? locals t) - 1 =
                      rw same at one in
                    omega (arith, once, rest))
              | inr other ↦
                  let one = h.2 t in
                  let rest = k.2 t in
                  rw other (
                    let none_here : left_of (get_elem? st'.1 t) ≤ left_of (get_elem? locals t) - 0 =
                      rw other at one in
                    omega (arith, none_here, rest))
            ],
          )

    -- Every worker has at most `rounds` actions left: `join` returns, whatever the schedule, with all
    -- workers at their end, and what every action keeps holds.
    pub join-Joined :
        (finished : L → Bool) (rounds : ℕ) (schedule : List ℕ) (st : S × List L)
        → ((l : L) → left l ≡ 0 → finished l ≡ true)
        → Inv st.0 st.1
        → All (λ l. left l ≤ rounds) st.1
        → Passes
            (λ (r : S × List L).
              Inv r.0 r.1 × (length r.1 ≡ length st.1) × All (λ l. left l ≡ 0) r.1)
            (join action finished rounds schedule st)
    unfolding join
    join-Joined finished rounds schedule st ends i bounded =
        Passes->>= (interleave-Onwards (schedule ++ in_turn rounds (length st.1)) st i) λ r k.
          let done = all_of-finished finished r.1 ends (λ tid lt.
            let bound = start st.1 bounded tid in
            let mine = turns-in_turn tid rounds (length st.1) (omega (arith, lt, k.1)) in
            let split = turns-append tid schedule (in_turn rounds (length st.1)) in
            omega (arith, k.2 tid, bound, mine, split)) in
          rw done.0 (passes r (k.0, k.1, done.1))
      where
        start :
            (locals : List L)
            → All (λ l. left l ≤ rounds) locals
            → (tid : ℕ) → left_of (get_elem? locals tid) ≤ rounds
        start [] b tid = omega arith
        start (l ∷ locals) b zero = b.0
        start (l ∷ locals) b (suc tid) = start locals b.1 tid

pub worker_count-range : (hw : ℕ) → (1 ≤ worker_count hw) × (worker_count hw ≤ 16)
unfolding worker_count
worker_count-range hw = ground arith
