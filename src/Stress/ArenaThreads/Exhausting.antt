-- ===== src/Stress/ArenaThreads/Exhausting.antt =====
-- Test 2 of stress_tests/arena_thread_stress.cpp: more attempts than the arena has room for.
use mathlib.Core.List.{perm_append_comm}
use mathlib.Core.List.Perm
use slab_allocator.Base.{
  ℕ, suc, ◌+◌, ◌-◌, ◌*◌, ◌≤◌, ◌<◌, ◌≡◌, ◌⊎◌, refl, ◌∙◌, ◌==◌, ltb, Bool, true, false, Bool-cases,
  inl, inr, List, [], ◌∷◌, ◌++◌, length, length-append, length-set, get_elem?, set, some, arith,
}
use slab_allocator.Base.Held.{total, total-set, All-at}
use slab_allocator.Machine.Word.{nullptr, add_word}
use slab_allocator.Stress.{on, Passes, passes}
use slab_allocator.Stress.ArenaThreads.{
  Calling, Progress, entering, alloc_action, Asker, asking, served, missed, Shared, count, answered,
  exhaust_action, listed,
}
use slab_allocator.Stress.ArenaThreads.Calls.{
  IsOld, IsOld-le, Moves, goes_on, refused, given, alloc_action-Moves,
}
use slab_allocator.Stress.ArenaThreads.Use.{Going, same-Going, given-Going, held, left, rank_le}

abbrev pub got : Asker → ℕ
got l = length (held l)

abbrev pub counted : Asker → ℕ
counted l = length (listed l)

-- A worker without a miss has got a block in each round.
abbrev NoMissOrFull : ℕ → ℕ → ℕ → List ℕ → Type 0
NoMissOrFull cap used i ptrs = (length ptrs ≡ i) ⊎ (cap < used + 32)

abbrev pub Fine : ℕ → ℕ → ℕ → Asker → Type 0
Fine cap n used (asking i call ptrs) = IsOld used call × (i ≤ n) × NoMissOrFull cap used i ptrs
Fine cap n used (served i ptr ptrs) = (i < n) × NoMissOrFull cap used i ptrs
Fine cap n used (missed i ptrs) = (i < n) × (cap < used + 32)

NoMissOrFull-le :
    (cap used used' i : ℕ) (ptrs : List ℕ)
    → used ≤ used'
    → NoMissOrFull cap used i ptrs
    → NoMissOrFull cap used' i ptrs
NoMissOrFull-le cap used used' i ptrs h (inl e) = inl e
NoMissOrFull-le cap used used' i ptrs h (inr full) = inr (omega (arith, h, full))

Fine-le : (cap n used used' : ℕ) (l : Asker) → used ≤ used' → Fine cap n used l → Fine cap n used' l
Fine-le cap n used used' (asking i call ptrs) h f =
    (IsOld-le used used' call h f.0, f.1, NoMissOrFull-le cap used used' i ptrs h f.2)
Fine-le cap n used used' (served i ptr ptrs) h f =
    (f.0, NoMissOrFull-le cap used used' i ptrs h f.1)
Fine-le cap n used used' (missed i ptrs) h f = (f.0, omega (arith, h, f.1))

another :
    (cap used i ptr : ℕ) (ptrs : List ℕ)
    → NoMissOrFull cap used i ptrs
    → NoMissOrFull cap used (suc i) (ptrs ++ ptr ∷ [])
another cap used i ptr ptrs (inl e) = inl (omega (arith, e, length-append ptrs (ptr ∷ [])))
another cap used i ptr ptrs (inr full) = inr full

counted_le_got : (locals : List Asker) → total counted locals ≤ total got locals
counted_le_got [] = omega arith
counted_le_got (asking i call ptrs ∷ locals) = omega (arith, counted_le_got locals)
counted_le_got (served i ptr ptrs ∷ locals) = omega (arith, counted_le_got locals)
counted_le_got (missed i ptrs ∷ locals) = omega (arith, counted_le_got locals)

-- The workers with `n` attempts each, and the counter.
pub record Exhaust (n threads m cap : ℕ) (s : Shared) (locals : List Asker) : Type 0 where
  pub going : Going true got (Fine cap n) m cap s locals
  pub workers : length locals ≡ threads
  pub successes : s.counter ≡ total counted locals

module _ (n threads m cap : ℕ) where
  abbrev pub Next : ℕ → Bool → Shared → List Asker → Asker → Shared × Asker → Type 0
  Next tid fails s locals l r =
      Exhaust n threads m cap r.0 (set locals tid r.1)
      × (fails ≡ false → left n r.0.arena.used r.1 ≤ left n s.arena.used l - 1)

  -- A worker whose list has not changed.
  uncounted :
      (s : Shared) (locals : List Asker) (tid : ℕ) (l l' : Asker)
      → s.counter ≡ total counted locals
      → get_elem? locals tid ≡ some l
      → counted l' ≡ counted l
      → s.counter ≡ total counted (set locals tid l')
  uncounted s locals tid l l' e at same =
      omega (arith, e, same, total-set counted locals tid l l' at)

  answered-Next :
      (fails : Bool) (tid : ℕ) (s : Shared) (locals : List Asker) (i : ℕ) (call : Calling)
      (ptrs : List ℕ) (p : Progress)
      → Exhaust n threads m cap s locals
      → get_elem? locals tid ≡ some (asking i call ptrs)
      → i < n
      → NoMissOrFull cap s.arena.used i ptrs
      → Moves fails m cap (total got locals) s.arena call p
      → Passes (Next tid fails s locals (asking i call ptrs)) (on (answered s i ptrs p))
  unfolding answered
  answered-Next fails tid s locals i call ptrs p b e lt some_list (goes_on call' old nearer) =
      passes _ (
        record {
          going =
              same-Going true got (Fine cap n) m cap tid (asking i call' ptrs) b.going e refl refl
                (λ yes. Perm.refl _) (old, omega (arith, lt), some_list);
          workers = length-set locals tid _ ∙ b.workers;
          successes = uncounted s locals tid _ (asking i call' ptrs) b.successes e refl;
        },
        λ calm. omega (arith, nearer calm, lt),
      )
  answered-Next fails tid s locals i call ptrs p b e lt some_list (refused full) = passes _ (
    record {
      going =
          same-Going true got (Fine cap n) m cap tid (missed i ptrs) b.going e refl refl
            (λ yes. Perm.refl _) (lt, omega (arith, full, b.going.stock.used));
      workers = length-set locals tid _ ∙ b.workers;
      successes = uncounted s locals tid _ (missed i ptrs) b.successes e refl;
    },
    λ calm. omega (arith, lt, rank_le s.arena.used call),
  )
  answered-Next fails tid s locals i call ptrs p b e lt some_list (given a' fits stock) =
      let real : (m + total got locals * 32 == nullptr) ≡ false = ground (arith, stock.mapped) in
      let block = served i (m + total got locals * 32) ptrs in
      let more : s.arena.used ≤ a'.used = omega (arith, b.going.stock.used, stock.used) in
      rw real (
        passes _ (
          record {
            going =
                given-Going true got (Fine cap n) m cap (Fine-le cap n) tid block a' b.going e stock
                  refl (λ yes. Perm.refl _)
                  (lt, NoMissOrFull-le cap s.arena.used a'.used i ptrs more some_list);
            workers = length-set locals tid _ ∙ b.workers;
            successes = uncounted s locals tid _ block b.successes e refl;
          },
          λ calm. omega (arith, lt, rank_le s.arena.used call),
        ))

  pub exhaust_action-Next :
      (fails : Bool) (tid : ℕ) (s : Shared) (locals : List Asker) (l : Asker)
      → Exhaust n threads m cap s locals
      → get_elem? locals tid ≡ some l
      → Passes (Next tid fails s locals l) (exhaust_action n fails tid (s, l))
  unfolding exhaust_action count add_word
  exhaust_action-Next fails tid s locals (asking i call ptrs) b e =
      let fine = All-at (Fine cap n s.arena.used) locals tid b.going.fine e in
      elim (Bool-cases (ltb i n)) [
        | inl more ↦ rw more (
            answered-Next fails tid s locals i call ptrs (alloc_action fails s.arena call) b e
              (ground (arith, more)) fine.2
              (alloc_action-Moves fails s.arena call b.going.stock fine.0))
        | inr over ↦
            let end : n - i ≡ 0 = ground (arith, over) in
            rw over (
              passes (s, asking i call ptrs)
                (
                  record {
                    going =
                        same-Going true got (Fine cap n) m cap tid (asking i call ptrs) b.going e
                          refl refl (λ yes. Perm.refl _) fine;
                    workers = length-set locals tid _ ∙ b.workers;
                    successes = uncounted s locals tid _ (asking i call ptrs) b.successes e refl;
                  },
                  λ calm. omega (arith, end),
                ))
      ]
  exhaust_action-Next fails tid s locals (served i ptr ptrs) b e =
      let fine = All-at (Fine cap n s.arena.used) locals tid b.going.fine e in
      let l' = asking (suc i) entering (ptrs ++ ptr ∷ []) in
      let longer : length (ptrs ++ ptr ∷ []) ≡ suc (length ptrs) =
        omega (arith, length-append ptrs (ptr ∷ [])) in
      let g =
        same-Going true got (Fine cap n) m cap {s' = count s} tid l' b.going e refl longer
          (λ yes. perm_append_comm (ptr ∷ []) ptrs)
          (tt, fine.0, another cap s.arena.used i ptr ptrs fine.1) in
      passes _ (
        record {
          going = g;
          workers = length-set locals tid _ ∙ b.workers;
          successes = omega (
            arith,
            b.successes,
            total-set counted locals tid (served i ptr ptrs) l' e,
            longer,
            counted_le_got (set locals tid l'),
            g.stock.used,
            g.stock.valid.within,
            g.stock.valid.in_space,
          );
        },
        λ calm. omega arith,
      )
  exhaust_action-Next fails tid s locals (missed i ptrs) b e =
      let fine = All-at (Fine cap n s.arena.used) locals tid b.going.fine e in
      let l' = asking (suc i) entering ptrs in
      passes _ (
        record {
          going =
              same-Going true got (Fine cap n) m cap tid l' b.going e refl refl (λ yes. Perm.refl _)
                (tt, fine.0, inr fine.1);
          workers = length-set locals tid _ ∙ b.workers;
          successes = uncounted s locals tid _ l' b.successes e refl;
        },
        λ calm. omega arith,
      )
