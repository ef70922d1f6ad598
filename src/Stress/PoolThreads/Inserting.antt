-- ===== src/Stress/PoolThreads/Inserting.antt =====
-- The search for duplicate pointers in stress_tests/pool_thread_stress.cpp.
use mathlib.Core.List.{
  mem-cons_self, mem-cons_of_mem, mem-append_right, Nodup-cons, Nodup-append, append_assoc,
  perm_middle,
}
use mathlib.Core.List.Perm
use slab_allocator.Base.{
  ℕ, ◌≡◌, ◌≢◌, refl, sym, subst, ◌∙◌, ◌==◌, false, List, [], ◌∷◌, ◌++◌, length, length-perm, Mem,
  Perm, Nodup, arith,
}
use slab_allocator.Stress.{Passes, passes, Passes->>=, Passes-map}
use slab_allocator.Base.Held.{all_held, lists_of, perm_swap}
use slab_allocator.Stress.PoolThreads.{contains, insert_all, insert_locals}

contains-absent : (xs : List ℕ) (x : ℕ) → (Mem x xs → ⊥) → contains xs x ≡ false
unfolding contains
contains-absent [] x h = refl
contains-absent (y ∷ ys) x h =
    let ne : y ≢ x = λ e. h (subst (λ z. Mem z (y ∷ ys)) e mem-cons_self) in
    let here : (y == x) ≡ false = ground (arith, ne) in
    rw (here, contains-absent ys x (λ m. h (mem-cons_of_mem y m))) refl

insert_all-Passes :
    (ptrs unique : List ℕ)
    → Nodup (ptrs ++ unique)
    → Passes (λ r. Perm (ptrs ++ unique) r) (insert_all ptrs unique)
unfolding insert_all
insert_all-Passes [] unique d = passes unique (Perm.refl unique)
insert_all-Passes (x ∷ ptrs) unique d =
    let parts = Nodup-cons.0 d in
    let new = contains-absent unique x (λ m. parts.0 (mem-append_right ptrs m)) in
    let later : Nodup (ptrs ++ x ∷ unique) = Perm.nodup (Perm.symm (perm_middle ptrs unique)) d in
    rw new (
      Passes-map (insert_all-Passes ptrs (x ∷ unique) later)
        λ r h. Perm.trans (Perm.symm (perm_middle ptrs unique)) h)

-- Pointers of which no two are equal all get in.
pub insert_locals-Passes :
    {L : Type 0} (held : L → List ℕ) (locals : List L) (unique : List ℕ)
    → Nodup (all_held held locals ++ unique)
    → Passes
        (λ r. length r ≡ length (all_held held locals ++ unique))
        (insert_locals (lists_of held locals) unique)
unfolding insert_locals
insert_locals-Passes held [] unique d = passes unique refl
insert_locals-Passes held (l ∷ locals) unique d =
    let order : Perm ((held l ++ all_held held locals) ++ unique)
        (all_held held locals ++ (held l ++ unique)) =
      subst (λ us. Perm us (all_held held locals ++ (held l ++ unique)))
        (sym (append_assoc (held l) (all_held held locals) unique))
        (perm_swap (held l) (all_held held locals) unique) in
    let moved = Perm.nodup order d in
    Passes->>= (insert_all-Passes (held l) unique (Nodup-append.0 moved).1) λ r h.
      let next = Perm.append_left (all_held held locals) h in
      Passes-map (insert_locals-Passes held locals r (Perm.nodup next moved))
        λ r' k. k ∙ sym (length-perm next) ∙ sym (length-perm order)
