-- ===== src/Stress/ArenaThreads/Bulk.antt =====
-- Tests 1 and 3 of stress_tests/arena_thread_stress.cpp: enough room for every worker.
use mathlib.Core.List.{perm_append_comm}
use mathlib.Core.List.Perm
use slab_allocator.Base.{
  ℕ, suc, ◌+◌, ◌-◌, ◌*◌, ◌≤◌, ◌<◌, ◌≡◌, refl, ◌∙◌, ap, subst, ◌==◌, ltb, Bool, true, false,
  Bool-cases, inl, inr, List, [], ◌∷◌, ◌++◌, length, length-set, get_elem?, set, some, Perm, All,
  arith,
}
use slab_allocator.Base.Held.{
  total, total-copies, all_held, all_held-copies, length-copies, All-copies, All-total, All-map,
  All-at, All-total_lt,
}
use slab_allocator.Machine.Word.{nullptr}
use slab_allocator.Arena.{Arena}
use slab_allocator.Stress.{on, Passes, passes, Passes-map}
use slab_allocator.Stress.ArenaThreads.{
  Calling, Progress, entering, alloc_action, Asker, asking, served, missed, Shared, answered,
  bulk_action, finished, listed, start,
}
use slab_allocator.Stress.Threads.{join_contended}
use slab_allocator.Stress.Threads.Contention.{join_contended-Joined}
use slab_allocator.Machine.Memory.{Memory}
use slab_allocator.Stress.ArenaThreads.Calls.{
  Stock, IsOld, IsOld-le, Moves, goes_on, refused, given, alloc_action-Moves,
}
use slab_allocator.Stress.ArenaThreads.Use.{
  Going, same-Going, given-Going, held, left, left-finished, rank_le, slots,
}

abbrev pub got : Asker → ℕ
got (asking i call ptrs) = i
got (served i ptr ptrs) = suc i
got (missed i ptrs) = i

abbrev pub Fine : ℕ → ℕ → Asker → Type 0
Fine n used (asking i call ptrs) = IsOld used call × (i ≤ n)
Fine n used (served i ptr ptrs) = i < n
Fine n used (missed i ptrs) = ⊥

Fine-le : (n used used' : ℕ) (l : Asker) → used ≤ used' → Fine n used l → Fine n used' l
Fine-le n used used' (asking i call ptrs) h f = (IsOld-le used used' call h f.0, f.1)
Fine-le n used used' (served i ptr ptrs) h f = f
Fine-le n used used' (missed i ptrs) h f = f

Fine-got : (n used : ℕ) (l : Asker) → Fine n used l → got l ≤ n
Fine-got n used (asking i call ptrs) f = f.1
Fine-got n used (served i ptr ptrs) f = f
Fine-got n used (missed i ptrs) f = absurd f

-- `threads` workers with `n` rounds each.
pub record Bulk (lists : Bool) (n threads m cap : ℕ) (s : Shared) (locals : List Asker)
    : Type 0 where
  pub going : Going lists got (Fine n) m cap s locals
  pub workers : length locals ≡ threads
  pub no_miss : s.counter ≡ 0

module _ (lists : Bool) (n threads m cap : ℕ) (room : threads * n * 32 ≤ cap) where
  abbrev Next : ℕ → Bool → Shared → List Asker → Asker → Shared × Asker → Type 0
  Next tid fails s locals l r =
      Bulk lists n threads m cap r.0 (set locals tid r.1)
      × (fails ≡ false → left n r.0.arena.used r.1 ≤ left n s.arena.used l - 1)

  answered-Next :
      (fails : Bool) (tid : ℕ) (s : Shared) (locals : List Asker) (i : ℕ) (call : Calling)
      (ptrs : List ℕ) (p : Progress)
      → Bulk lists n threads m cap s locals
      → get_elem? locals tid ≡ some (asking i call ptrs)
      → i < n
      → Moves fails m cap (total got locals) s.arena call p
      → Passes (Next tid fails s locals (asking i call ptrs)) (on (answered s i ptrs p))
  unfolding answered
  answered-Next fails tid s locals i call ptrs p b e lt (goes_on call' old nearer) = passes _ (
    record {
      going =
          same-Going lists got (Fine n) m cap tid (asking i call' ptrs) b.going e refl refl
            (λ yes. Perm.refl _) (old, omega (arith, lt));
      workers = length-set locals tid _ ∙ b.workers;
      no_miss = b.no_miss;
    },
    λ calm. omega (arith, nearer calm, lt),
  )
  answered-Next fails tid s locals i call ptrs p b e lt (refused full) =
      let bound =
        All-total_lt got n locals tid (asking i call ptrs)
          (All-map locals (λ l f. Fine-got n s.arena.used l f) b.going.fine) e lt in
      let all : length locals * n ≡ threads * n = ap (λ t. t * n) b.workers in
      absurd (omega (arith, full, bound, all, room))
  answered-Next fails tid s locals i call ptrs p b e lt (given a' fits stock) =
      let real : (m + total got locals * 32 == nullptr) ≡ false = ground (arith, stock.mapped) in
      rw real (
        passes _ (
          record {
            going =
                given-Going lists got (Fine n) m cap (Fine-le n) tid
                  (served i (m + total got locals * 32) ptrs) a' b.going e stock refl
                  (λ yes. Perm.refl _) lt;
            workers = length-set locals tid _ ∙ b.workers;
            no_miss = b.no_miss;
          },
          λ calm. omega (arith, lt, rank_le s.arena.used call),
        ))

  bulk_action-Next :
      (cycle : ℕ) (fails : Bool) (tid : ℕ) (s : Shared) (locals : List Asker) (l : Asker)
      → Bulk lists n threads m cap s locals
      → get_elem? locals tid ≡ some l
      → Passes (Next tid fails s locals l) (bulk_action lists n cycle fails tid (s, l))
  unfolding bulk_action
  bulk_action-Next cycle fails tid s locals (asking i call ptrs) b e =
      let fine = All-at (Fine n s.arena.used) locals tid b.going.fine e in
      elim (Bool-cases (ltb i n)) [
        | inl more ↦ rw more (
            answered-Next fails tid s locals i call ptrs (alloc_action fails s.arena call) b e
              (ground (arith, more)) (alloc_action-Moves fails s.arena call b.going.stock fine.0))
        | inr over ↦
            let end : n - i ≡ 0 = ground (arith, over) in
            rw over (
              passes (s, asking i call ptrs)
                (
                  record {
                    going =
                        same-Going lists got (Fine n) m cap tid (asking i call ptrs) b.going e refl
                          refl (λ yes. Perm.refl _) fine;
                    workers = length-set locals tid _ ∙ b.workers;
                    no_miss = b.no_miss;
                  },
                  λ calm. omega (arith, end),
                ))
      ]
  bulk_action-Next cycle fails tid s locals (served i ptr ptrs) b e =
      let fine = All-at (Fine n s.arena.used) locals tid b.going.fine e in
      passes _ (
        record {
          going =
              same-Going lists got (Fine n) m cap tid _ b.going e refl refl
                (λ yes. rw yes (perm_append_comm (ptr ∷ []) ptrs)) (tt, fine);
          workers = length-set locals tid _ ∙ b.workers;
          no_miss = b.no_miss;
        },
        λ calm. omega arith,
      )
  bulk_action-Next cycle fails tid s locals (missed i ptrs) b e =
      absurd (All-at (Fine n s.arena.used) locals tid b.going.fine e)

  left-bounded :
      (s : Shared) (locals : List Asker) (tid : ℕ) (l : Asker)
      → Bulk lists n threads m cap s locals
      → get_elem? locals tid ≡ some l
      → left n s.arena.used l ≤ 6 * n
  left-bounded s locals tid (asking i call ptrs) b e = omega arith
  left-bounded s locals tid (served i ptr ptrs) b e =
      omega (arith, All-at (Fine n s.arena.used) locals tid b.going.fine e)
  left-bounded s locals tid (missed i ptrs) b e =
      absurd (All-at (Fine n s.arena.used) locals tid b.going.fine e)

  -- The workers are joined, whatever the schedule.
  joined-Bulk :
      (cycle : ℕ) (schedule : List (ℕ × Bool)) (s : Shared) (locals : List Asker)
      → Bulk lists n threads m cap s locals
      → Passes
          (λ (r : Shared × List Asker).
            Bulk lists n threads m cap r.0 r.1
            × (length r.1 ≡ length locals)
            × All (λ l. finished n l ≡ true) r.1)
          (join_contended (bulk_action lists n cycle) (finished n) (6 * n) schedule (s, locals))
  joined-Bulk cycle schedule s locals b =
      join_contended-Joined (bulk_action lists n cycle) (Bulk lists n threads m cap)
        (λ s l. left n s.arena.used l) (bulk_action-Next cycle) (finished n) (6 * n) left-bounded
        (λ s l. left-finished n s.arena.used l) schedule (s, locals) b

  ended_lists :
      (used : ℕ) (locals : List Asker)
      → All (Fine n used) locals
      → All (λ l. finished n l ≡ true) locals
      → All (λ l. got l ≡ n) locals × (all_held held locals ≡ all_held listed locals)
  unfolding finished
  ended_lists used [] f d = (tt, refl)
  ended_lists used (asking i call ptrs ∷ locals) f d =
      let rest = ended_lists used locals f.1 d.1 in
      ((ground (arith, f.0, d.0), rest.0), ap (λ us. ptrs ++ us) rest.1)
  ended_lists used (served i ptr ptrs ∷ locals) f d = cc
  ended_lists used (missed i ptrs ∷ locals) f d = absurd f.0

  -- All blocks are given, in use, and with the workers.
  pub record Given (s : Shared) (locals : List Asker) : Type 0 where
    pub stock : Stock m cap (threads * n) s.arena
    pub none_missed : s.counter ≡ 0
    pub with_workers : lists ≡ true → Perm (slots m (threads * n)) (all_held listed locals)

  start-Bulk :
      (a : Arena) (mem : Memory)
      → Stock m cap 0 a
      → Bulk lists n threads m cap (record { arena = a; memory = mem; counter = 0 }) (start threads)
  start-Bulk a mem stock =
      let none_yet : total got (start threads) ≡ 0 =
        total-copies got (asking 0 entering []) threads ∙ omega arith in
      record {
        going = record {
          stock = rw none_yet stock;
          fine = All-copies (Fine n a.used) (asking 0 entering []) threads (tt, omega arith);
          listed = λ yes.
              rw (none_yet, all_held-copies held (asking 0 entering []) threads refl) (Perm.refl _);
        };
        workers = length-copies (asking 0 entering []) threads;
        no_miss = refl;
      }

  pub bulk-Given :
      (cycle : ℕ) (schedule : List (ℕ × Bool)) (a : Arena) (mem : Memory)
      → Stock m cap 0 a
      → Passes
          (λ (r : Shared × List Asker). Given r.0 r.1)
          (join_contended
            (bulk_action lists n cycle)
            (finished n)
            (6 * n)
            schedule
            (record { arena = a; memory = mem; counter = 0 }, start threads))
  bulk-Given cycle schedule a mem stock =
      Passes-map (joined-Bulk cycle schedule _ (start threads) (start-Bulk a mem stock)) λ r k.
        let (ended, same) = ended_lists r.0.arena.used r.1 k.0.going.fine k.2 in
        let amount : total got r.1 ≡ threads * n =
          All-total got n r.1 ended ∙ ap (λ t. t * n) k.0.workers in
        record {
          stock = subst (λ z. Stock m cap z r.0.arena) amount k.0.going.stock;
          none_missed = k.0.no_miss;
          with_workers = λ yes.
              subst (λ z. Perm (slots m z) (all_held listed r.1)) amount
                (subst (Perm (slots m (total got r.1))) same (k.0.going.listed yes));
        }
