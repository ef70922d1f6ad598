-- ===== src/Stress/Threads.antt =====
-- The threads of the programs in stress_tests/: the workers take turns in any order, one atomic
-- action at a time.
pub mod Turns
pub mod Contention
use slab_allocator.Base.{
  copies, ℕ, zero, suc, List, [], ◌∷◌, ◌++◌, length, get_elem?, set, Option, none, some, Bool, true,
  false, ◌&&◌, if◌then◌else◌, ◌==◌, ltb,
}
use slab_allocator.Stress.{Run, aborted, on, ◌>>=◌}

module _ {ℓ κ} {S : Type ℓ} {L : Type κ} where
  -- The next action of the thread `tid`; of a number that is no thread's, none.
  pub advance : (ℕ → S × L → Run (S × L)) → ℕ → S × List L → Run (S × List L)
  advance action tid (s, locals) = elim (get_elem? locals tid) [
    | none ↦ on (s, locals)
    | some l ↦ action tid (s, l) >>= λ r. on (r.0, set locals tid r.1)
  ]

  pub interleave : (ℕ → S × L → Run (S × L)) → List ℕ → S × List L → Run (S × List L)
  unfolding advance
  interleave action [] st = on st
  interleave action (tid ∷ schedule) st = advance action tid st >>= interleave action schedule

-- Each thread in turn, `rounds` actions long.
abbrev pub in_turn : ℕ → ℕ → List ℕ
in_turn rounds zero = []
in_turn rounds (suc tid) = copies rounds tid ++ in_turn rounds tid

unfoldable pub all_of {κ} : {L : Type κ} → (L → Bool) → List L → Bool
all_of finished [] = true
all_of finished (l ∷ locals) = finished l && all_of finished locals

-- `for (auto& t : workers) t.join();` behind the schedule: the workers that still run go on by
-- themselves, each for `rounds` actions at most. One that would not be at its end by then counts as
-- a failure.
pub join {ℓ κ} :
    {S : Type ℓ} {L : Type κ}
    → (ℕ → S × L → Run (S × L))
    → (L → Bool)
    → ℕ
    → List ℕ
    → S × List L
    → Run (S × List L)
unfolding interleave all_of
join action finished rounds schedule st =
    interleave action (schedule ++ in_turn rounds (length st.1)) st >>= λ r.
    if all_of finished r.1 then on r else aborted

-- The schedule of workers with loops around a compare-exchange: whose turn it is, and whether an
-- exchange fails for no reason in it.
pub contend {ℓ κ} :
    {S : Type ℓ} {L : Type κ}
    → (Bool → ℕ → S × L → Run (S × L))
    → List (ℕ × Bool)
    → S × List L
    → Run (S × List L)
unfolding advance
contend action [] st = on st
contend action ((tid, fails) ∷ schedule) st =
    advance (action fails) tid st >>= contend action schedule

-- `join` of such workers: behind the schedule each goes on by itself, undisturbed.
pub join_contended {ℓ κ} :
    {S : Type ℓ} {L : Type κ}
    → (Bool → ℕ → S × L → Run (S × L))
    → (L → Bool)
    → ℕ
    → List (ℕ × Bool)
    → S × List L
    → Run (S × List L)
unfolding contend interleave all_of
join_contended action finished rounds schedule st =
    contend action schedule st >>= interleave (action false) (in_turn rounds (length st.1)) >>= λ r.
    if all_of finished r.1 then on r else aborted

-- `worker_count()`, by what `std::thread::hardware_concurrency()` returns.
unfoldable pub worker_count : ℕ → ℕ
worker_count hw = if hw == 0 then 8 else (if ltb 16 hw then 16 else hw)
