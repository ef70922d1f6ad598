-- ===== src/Stress/Slabs/Main.antt =====
-- stress_tests/slab_stress.cpp as a whole: its first test fails.
use slab_allocator.Base.{
  ℕ, suc, ◌+◌, ◌*◌, ◌%◌, ◌^◌, ◌≤◌, ◌<◌, ◌≡◌, ◌≢◌, refl, sym, subst, ◌∙◌, ◌==◌, false, List, [], ◌∷◌,
  length, arith, All, Build, ltb, Bool-cases, ◌⊎◌, inl, inr,
}
use slab_allocator.Machine.Word.{nullptr}
use slab_allocator.Machine.Memory.{Memory}
use slab_allocator.Platform.{Os, ok}
use slab_allocator.Platform.Laws.{Region, IsPosix}
use slab_allocator.Pool as Pool
use slab_allocator.Slab.Lifetime.DefaultScale.{class-small, default-ClassesFit}
use slab_allocator.Slab.SizeClass.{num_size_classes, max_cached_slabs, class_size, scaled_count}
use slab_allocator.Slab.Slots.{Slab, CacheEntry, entry_at, update}
use slab_allocator.Slab.Slots.Entry.{update-same}
use slab_allocator.Slab.Slots.Fronts.{stock}
use slab_allocator.Slab.Slots.Fresh.{IsBlank}
use slab_allocator.Slab.Lifetime.{construct}
use slab_allocator.Slab.Lifetime.Pools.{FreshPools}
use slab_allocator.Slab.Lifetime.Making.{NewSlab, construct-NewSlab}
use slab_allocator.Slab.Operations.{View}
use slab_allocator.Slab.Operations.Outstanding.{Outstanding}
use slab_allocator.Slab.Operations.First.{IsNew, entered, alloc-entered, entered-Outstanding}
use slab_allocator.Slab.Operations.Figures.{get_total_free-FreshPools}
use slab_allocator.Stress.{failed, ◌>>=◌, repeat}
use slab_allocator.Stress.Slabs.{size_of, alloc_phase, mixed_cycle, checked_cycles, with_slab, main}
use slab_allocator.Stress.Slabs.Cycles.{
  FailsOr, FailsOr->>=, FailsOr-failed, repeat-FailsOr, size_of-range, SomeCached,
  mixed_cycle-FailsOr, total_free-small,
}

ltb-cases : (i n : ℕ) → (i < n) ⊎ (n ≤ i)
ltb-cases i n = elim (Bool-cases (ltb i n)) [
  | inl e ↦ inl (ground (arith, e))
  | inr e ↦ inr (ground (arith, e))
]

stock-small :
    (m : Memory) (i : ℕ) (pools : List Pool.Pool)
    → FreshPools 1 m i pools
    → i ≤ num_size_classes
    → stock pools + i * 2 ^ 20 ≤ num_size_classes * 2 ^ 20
stock-small m i [] f h = omega (arith, f)
stock-small m i (p ∷ pools) f h = elim (ltb-cases i num_size_classes) [
  | inl lt ↦
      let all = stock-small m (suc i) pools f.2 (omega (arith, lt)) in
      let size : p.block_count * p.block_size ≡ class_size i * scaled_count i 1 =
        rw (f.0.size, f.0.count) (omega arith) in
      let one = class-small i lt in omega (arith, all, size, one)
  | inr ge ↦
      let top : i ≡ num_size_classes = omega (arith, ge, h) in
      let block = f.0.size in
      let none : p.block_size ≡ 0 = rw top at block in
      absurd (omega (arith, none, f.0.pool.shaped.wide))
]

module _ (b : Build) (self : ℕ) (v : View) (h : IsNew 1 v self) where
  mixed_cycle-entered : mixed_cycle b self v ≡ mixed_cycle b self (entered v self)
  unfolding mixed_cycle alloc_phase
  mixed_cycle-entered =
      let range = size_of-range 0 in
      rw (alloc-entered b 1 v self h (size_of 0) range.0 range.1) refl

  -- The sanity check fails if no allocation has failed.
  checked_cycles-failed : (n : ℕ) → checked_cycles b self (suc n) (mixed_cycle b self) v ≡ failed
  unfolding checked_cycles repeat
  checked_cycles-failed n =
      let total = stock (v.slabs self).shared_pools in
      let small : total < 2 ^ 64 =
        omega (arith, stock-small v.memory 0 (v.slabs self).shared_pools h.pools (omega arith)) in
      let start = get_total_free-FreshPools b 1 v.memory (v.slabs self) h.pools small in
      let first = entered-Outstanding b 1 v self h in
      let run : FailsOr (λ w. Outstanding w self total [] × SomeCached b self total w)
          (mixed_cycle b self v >>= repeat n (mixed_cycle b self)) =
        rw mixed_cycle-entered (
          FailsOr->>= (mixed_cycle-FailsOr b self total (entered v self) first) λ w k.
            repeat-FailsOr n (mixed_cycle b self) (λ a o. mixed_cycle-FailsOr b self total a o) w
              k.0 k.1) in
      rw start (
        FailsOr-failed run λ w k.
          let figure = total_free-small b self total w small k.0 k.1 in
          let wrong : (figure.0 == total) ≡ false = ground (arith, figure.2) in
          rw (figure.1, wrong) refl)

-- The entries of a thread that has not used a slab yet.
pub record IsUntouched (caches : List CacheEntry) : Type 0 where
  pub entries : length caches ≡ max_cached_slabs
  pub vacant : (i : ℕ) → i < max_cached_slabs → (entry_at caches i).owner ≡ nullptr
  pub classes :
      (i : ℕ) → i < max_cached_slabs → length (entry_at caches i).storage ≡ num_size_classes
  pub blank : (i : ℕ) → i < max_cached_slabs → All IsBlank (entry_at caches i).storage

made_IsNew :
    (caches : List CacheEntry) (slabs : ℕ → Slab) (self : ℕ) (slab : Slab) (m : Memory)
    → IsUntouched caches
    → self ≢ nullptr
    → FreshPools 1 m 0 slab.shared_pools
    → IsNew 1 (record { caches = caches; slabs = update slabs self slab; memory = m }) self
made_IsNew caches slabs self slab m u real pools =
    let preferred = slab.slab_id % max_cached_slabs in
    let small : preferred < max_cached_slabs = omega arith in
    record {
      pools = rw (update-same slabs self slab) pools;
      free = rw (update-same slabs self slab) (record {
        entries = u.entries;
        vacant = u.vacant preferred small;
        nowhere = λ j lt e. real (sym e ∙ u.vacant j lt);
        preferred_small = small;
      });
      classes = rw (update-same slabs self slab) (u.classes preferred small);
      blank = rw (update-same slabs self slab) (u.blank preferred small);
    }

module _ {S : Type 0} {os : Os S} {mapped : S → List Region} (posix : IsPosix os mapped)
    (b : Build) where
  -- The program stress_tests/slab_stress.cpp, started in a thread that has not used a slab, returns
  -- 1 if its first slab can be made: an allocation fails, or the sanity check of the first test
  -- does, because blocks that were freed stand in the thread's caches and do not count as free.
  pub slab_stress-failed :
      (first second next_slab_id : ℕ) (caches : List CacheEntry) (slabs : ℕ → Slab) (m m₁ : Memory)
      (s s₁ : S) (slab : Slab)
      → IsUntouched caches
      → first ≢ nullptr
      → (construct b os 1 next_slab_id m s).1 ≡ ok (slab, m₁) s₁
      → main b os first second next_slab_id caches slabs m s ≡ failed
  unfolding main with_slab
  slab_stress-failed first second next_slab_id caches slabs m m₁ s s₁ slab u real e =
      let new : NewSlab os mapped 1 next_slab_id (mapped s) (ok (slab, m₁) s₁) =
        subst (NewSlab os mapped 1 next_slab_id (mapped s)) e
          (construct-NewSlab posix b 1 (default-ClassesFit posix) next_slab_id m s) in
      let start = made_IsNew caches slabs first slab m₁ u real new.2 in
      rw (e, checked_cycles-failed b first _ start 9999) refl
