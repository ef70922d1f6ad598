-- ===== src/Slab/Threads/Interleavings.antt =====
-- Every order of calls of `slab::alloc` and `slab::free` (src/slab.cpp) by the threads of a crew.
use slab_allocator.Base.{
  ℕ, ◌≤◌, ◌<◌, ◌≡◌, ◌≢◌, inl, inr, refl, sym, ◌∙◌, ap, subst, List, ◌∷◌, length, Perm, some, arith,
  same_some, Build,
}
use slab_allocator.Machine.Word.{nullptr}
use slab_allocator.Slab.SizeClass.{largest, size_to_index}
use slab_allocator.Slab.Threads.{Crew, alloc_by, free_by}
use slab_allocator.Slab.Threads.Invariant.{IsCrew}
use slab_allocator.Slab.Threads.Calls.{with_class, Answered, alloc_by-IsCrew, free_by-IsCrew}

-- The threads and the slab, and the blocks that clients hold, class by class.
pub record System : Type 0 where
  pub crew : Crew
  pub users : ℕ → List ℕ

-- A client asks for any size that a class fits, and frees what some client holds.
pub data Step (b : Build) (self : ℕ) (s : System) : System → Type 0 where
  served :
      (t size ptr : ℕ) (c : Crew)
      → t < length s.crew.entries
      → 1 ≤ size
      → size ≤ largest
      → alloc_by b s.crew t self size ≡ some (ptr, c)
      → ptr ≢ nullptr
      → Step b self s (record {
        crew = c;
        users = with_class s.users (size_to_index size) (ptr ∷ s.users (size_to_index size));
      })
  refused :
      (t size : ℕ) (c : Crew)
      → t < length s.crew.entries
      → 1 ≤ size
      → size ≤ largest
      → alloc_by b s.crew t self size ≡ some (nullptr, c)
      → Step b self s (record { crew = c; users = s.users })
  freed :
      (t size ptr : ℕ) (rest : List ℕ) (c : Crew)
      → t < length s.crew.entries
      → 1 ≤ size
      → size ≤ largest
      → Perm (s.users (size_to_index size)) (ptr ∷ rest)
      → free_by b s.crew t self ptr size ≡ some c
      → Step b self s (record { crew = c; users = with_class s.users (size_to_index size) rest })

pub data Reach (b : Build) (self : ℕ) (s : System) : System → Type 0 where
  here : Reach b self s s
  next : {t u : System} → Reach b self s t → Step b self t u → Reach b self s u

-- The invariant, and how many threads there are.
abbrev pub IsRunning : ℕ → ℕ → System → Type 0
IsRunning self threads s = IsCrew s.crew self s.users × (length s.crew.entries ≡ threads)

module _ (b : Build) (self : ℕ) (s : System) (k : IsCrew s.crew self s.users) (t : ℕ)
    (small : t < length s.crew.entries) where
  -- What the call answers is what `alloc_by` answers.
  answered :
      (size ptr : ℕ) (c : Crew)
      → 1 ≤ size
      → size ≤ largest
      → alloc_by b s.crew t self size ≡ some (ptr, c)
      → (length c.entries ≡ length s.crew.entries) × Answered self s.users size ptr c
  answered size ptr c lo hi e =
      let call = alloc_by-IsCrew b s.crew self s.users k t small size lo hi in
      let both : (call.0, call.1) ≡ (ptr, c) = same_some (sym call.2 ∙ e) in
      subst
        (λ (r : ℕ × Crew).
          (length r.1.entries ≡ length s.crew.entries) × Answered self s.users size r.0 r.1)
        both (call.3, call.4)

Step-IsRunning :
    (b : Build) (self threads : ℕ) {s s' : System}
    → Step b self s s'
    → IsRunning self threads s
    → IsRunning self threads s'
Step-IsRunning b self threads {s} (served t size ptr c small lo hi e real) k =
    let call = answered b self s k.0 t small size ptr c lo hi e in
    (
      elim call.1 [ inl (null, crew) ↦ absurd (real null) | inr (x, unused, crew) ↦ crew ],
      call.0 ∙ k.1,
    )
Step-IsRunning b self threads {s} (refused t size c small lo hi e) k =
    let call = answered b self s k.0 t small size nullptr c lo hi e in
    (
      elim call.1 [ inl (null, crew) ↦ crew | inr (x, unused, crew) ↦ absurd (x refl) ],
      call.0 ∙ k.1,
    )
Step-IsRunning b self threads {s} (freed t size ptr rest c small lo hi order e) k =
    let call = free_by-IsCrew b s.crew self s.users k.0 t small size ptr rest lo hi order in
    let same : call.0 ≡ c = same_some (sym call.1 ∙ e) in
    (
      subst (λ d. IsCrew d self (with_class s.users (size_to_index size) rest)) same call.3,
      ap (λ (d : Crew). length d.entries) (sym same) ∙ call.2 ∙ k.1,
    )

pub Reach-IsRunning :
    (b : Build) (self threads : ℕ) {s s' : System}
    → IsRunning self threads s
    → Reach b self s s'
    → IsRunning self threads s'
Reach-IsRunning b self threads k here = k
Reach-IsRunning b self threads k (next r st) =
    Step-IsRunning b self threads st (Reach-IsRunning b self threads k r)

-- In every order of calls, no call fails: any thread can go on with a request that a size class
-- fits, and is served or refused.
pub Reach-Step :
    (b : Build) (self : ℕ) {s s' : System} (t size : ℕ)
    → IsCrew s.crew self s.users
    → Reach b self s s'
    → t < length s.crew.entries
    → 1 ≤ size
    → size ≤ largest
    → (s'' : System) × Step b self s' s''
Reach-Step b self {s} {s'} t size k r small lo hi =
    let run = Reach-IsRunning b self (length s.crew.entries) (k, refl) r in
    let small' : t < length s'.crew.entries = omega (arith, small, run.1) in
    let call = alloc_by-IsCrew b s'.crew self s'.users run.0 t small' size lo hi in
    elim call.4 [
      | inl (null, crew) ↦ (
        _,
        refused t size call.1 small' lo hi
            (subst (λ x. alloc_by b s'.crew t self size ≡ some (x, call.1)) null call.2),
      )
      | inr (real, unused, crew) ↦ (_, served t size call.0 call.1 small' lo hi call.2 real)
    ]
