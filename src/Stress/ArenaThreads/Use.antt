-- ===== src/Stress/ArenaThreads/Use.antt =====
-- What the workers of stress_tests/arena_thread_stress.cpp have of their arena, all together.
use mathlib.Core.List.{mem-cons, not-mem-nil, Nodup-cons, Nodup-nil}
use mathlib.Core.Logic.Or
use native.Mathlib.Bridge.{le_prop}
use mathlib.Core.List.Perm
use slab_allocator.Base.{
  ℕ, zero, suc, ◌+◌, ◌-◌, ◌*◌, ◌≤◌, ◌≡◌, refl, ap, subst, Bool, true, List, [], ◌∷◌, length,
  get_elem?, set, some, Mem, Nodup, Perm, All, arith,
}
use slab_allocator.Base.Held.{total, total-set, all_held, held_split, All-map, All-set}
use slab_allocator.Arena.{Arena}
use slab_allocator.Stress.ArenaThreads.{
  Calling, entering, looping, loaded, Asker, asking, served, missed, Shared, finished,
}
use slab_allocator.Stress.ArenaThreads.Calls.{Stock, rank}

-- The first `k` blocks of an arena, the last one in front.
abbrev pub slots : ℕ → ℕ → List ℕ
slots m zero = []
slots m (suc k) = (m + k * 32) ∷ slots m k

pub length-slots : (m k : ℕ) → length (slots m k) ≡ k
length-slots m zero = refl
length-slots m (suc k) = ap suc (length-slots m k)

slots-below : (m k : ℕ) {x : ℕ} → Mem x (slots m k) → x + 32 ≤ m + k * 32
slots-below m zero h = absurd (not-mem-nil h)
slots-below m (suc k) h =
    Or.elim le_prop (mem-cons.0 h) (λ e. omega (arith, e)) (λ t. omega (arith, slots-below m k t))

pub slots-Nodup : (m k : ℕ) → Nodup (slots m k)
slots-Nodup m zero = Nodup-nil
slots-Nodup m (suc k) =
    Nodup-cons.1 ((λ h. absurd (omega (arith, slots-below m k h))), slots-Nodup m k)

-- The blocks that a worker has been given.
abbrev pub held : Asker → List ℕ
held (asking i call ptrs) = ptrs
held (served i ptr ptrs) = ptr ∷ ptrs
held (missed i ptrs) = ptrs

-- The most actions that a worker with `n` rounds has left when it is alone.
abbrev pub left : ℕ → ℕ → Asker → ℕ
left n used (asking i call ptrs) = 6 * (n - i) - rank used call
left n used (served i ptr ptrs) = 6 * (n - suc i) + 2
left n used (missed i ptrs) = 6 * (n - suc i) + 2

pub rank_le : (used : ℕ) (call : Calling) → rank used call ≤ 3
rank_le used entering = omega arith
rank_le used looping = omega arith
rank_le used (loaded current) = ground arith

-- Nothing left: the loop is at its end.
pub left-finished : (n used : ℕ) (l : Asker) → left n used l ≡ 0 → finished n l ≡ true
unfolding finished
left-finished n used (asking i call ptrs) e = ground (arith, e, rank_le used call)
left-finished n used (served i ptr ptrs) e = absurd (omega (arith, e))
left-finished n used (missed i ptrs) e = absurd (omega (arith, e))

module _ (lists : Bool) (got : Asker → ℕ) (Fine : ℕ → Asker → Type 0) (m cap : ℕ) where
  -- The blocks in use are the first ones, and as many as the workers have got; if they list them,
  -- each block has one worker.
  pub record Going (s : Shared) (locals : List Asker) : Type 0 where
    pub stock : Stock m cap (total got locals) s.arena
    pub fine : All (Fine s.arena.used) locals
    pub listed : lists ≡ true → Perm (slots m (total got locals)) (all_held held locals)

  -- A worker goes on without another block.
  pub same-Going :
      {s s' : Shared} {locals : List Asker} {l : Asker} (tid : ℕ) (l' : Asker)
      → Going s locals
      → get_elem? locals tid ≡ some l
      → s'.arena ≡ s.arena
      → got l' ≡ got l
      → (lists ≡ true → Perm (held l) (held l'))
      → Fine s.arena.used l'
      → Going s' (set locals tid l')
  same-Going {s} {s'} {locals} {l} tid l' g e arena count order fine =
      let (rest, before, after) = held_split held locals tid l e in
      let totals : total got locals ≡ total got (set locals tid l') =
        omega (arith, total-set got locals tid l l' e, count) in
      record {
        stock = rw arena (subst (λ k. Stock m cap k s.arena) totals g.stock);
        fine = rw arena (All-set (Fine s.arena.used) locals tid l' g.fine fine);
        listed = λ yes.
            subst (λ k. Perm (slots m k) (all_held held (set locals tid l'))) totals
              (Perm.trans (g.listed yes) (
                Perm.trans before
                  (Perm.trans (Perm.append_right rest (order yes)) (Perm.symm (after l')))));
      }

  -- A worker gets the next block.
  pub given-Going :
      (mono : (used used' : ℕ) (l : Asker) → used ≤ used' → Fine used l → Fine used' l) {s : Shared}
      {locals : List Asker} {l : Asker} (tid : ℕ) (l' : Asker) (a' : Arena)
      → Going s locals
      → get_elem? locals tid ≡ some l
      → Stock m cap (suc (total got locals)) a'
      → got l' ≡ suc (got l)
      → (lists ≡ true → Perm ((m + total got locals * 32) ∷ held l) (held l'))
      → Fine a'.used l'
      → Going (record s { arena = a' }) (set locals tid l')
  given-Going mono {s} {locals} {l} tid l' a' g e stock count order fine =
      let (rest, before, after) = held_split held locals tid l e in
      let totals : suc (total got locals) ≡ total got (set locals tid l') =
        omega (arith, total-set got locals tid l l' e, count) in
      let more : s.arena.used ≤ a'.used = omega (arith, g.stock.used, stock.used) in
      let block = (m + total got locals * 32) ∷ [] in
      record {
        stock = subst (λ k. Stock m cap k a') totals stock;
        fine =
            All-set (Fine a'.used) locals tid l'
              (All-map locals (λ x h. mono s.arena.used a'.used x more h) g.fine) fine;
        listed = λ yes.
            subst (λ k. Perm (slots m k) (all_held held (set locals tid l'))) totals
              (Perm.trans (Perm.append_left block (g.listed yes)) (
                Perm.trans (Perm.append_left block before)
                  (Perm.trans (Perm.append_right rest (order yes)) (Perm.symm (after l')))));
      }
