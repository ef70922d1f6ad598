-- ===== src/Slab/Lifetime/Making.antt =====
-- The constructor of `slab` (src/slab.cpp) makes its ten pools, or none that stays mapped.
use mathlib.Core.List.{append-nil}
use slab_allocator.Base.{
  ℕ, zero, suc, ◌+◌, ◌*◌, ◌≤◌, ◌<◌, ◌^◌, ◌≡◌, refl, sym, ◌∙◌, ap, subst, List, [], ◌∷◌, All, Build,
  false, get_or, arith, ltb, leb,
}
use slab_allocator.Machine.Word.{bit_ceil}
use slab_allocator.Machine.Memory.{Memory}
use slab_allocator.Platform.{Os, Result, ok, bad_alloc, aborted}
use slab_allocator.Platform.Laws.{Region, region, IsPosix}
use slab_allocator.Pool as Pool
use slab_allocator.Pool.Init.{Initialised, done, thrown, init-Initialised, rounded_size}
use slab_allocator.Slab.SizeClass.{
  num_size_classes, size_class_config, class_size, scaled_count, index_to_size_class,
}
use slab_allocator.Slab.SizeClass.Choice.{size_to_index-index_to_size_class}
use slab_allocator.Slab.Slots.{Slab, CacheEntry}
use slab_allocator.Slab.Lifetime.{init_loop, construct, destroy, destroy_pools, reversed}
use slab_allocator.Slab.Lifetime.Pools.{
  FreshPools, MadePools, MadePools-FreshPools, MadePools-agree, reversed-reversed, owned,
  owned-SeparateFrom, destroy_pools-owned,
}

get_or_small :
    (xs : List (ℕ × ℕ)) (i : ℕ) → All (λ e. e.0 ≤ 4096) xs → (get_or xs i (0, 0)).0 ≤ 4096
get_or_small [] i a = omega arith
get_or_small (x ∷ xs) zero a = a.0
get_or_small (x ∷ xs) (suc i) a = get_or_small xs i a.1

sizes_small : All (λ e. e.0 ≤ 4096) size_class_config
sizes_small = ground arith

class_size-rounded :
    (i : ℕ)
    → i < num_size_classes
    → (rounded_size (class_size i) ≡ class_size i) × (class_size i ≤ 2 ^ 63)
class_size-rounded i h =
    let known = size_to_index-index_to_size_class i h in
    let in_range : leb num_size_classes i ≡ false = ground arith in
    let itself : index_to_size_class i ≡ class_size i = unfold index_to_size_class in rw in_range in
    let wide : ltb (class_size i) 8 ≡ false = ground (arith, known.2, itself) in
    (
      rw wide (ap bit_ceil (sym itself) ∙ known.1),
      omega (arith, get_or_small size_class_config i sizes_small),
    )

module _ {S : Type 0} (os : Os S) (mapped : S → List Region) (scale : ℕ) where
  -- The pools of all classes are made, with all blocks free, and mapped above what was mapped; an
  -- exception leaves no mapping behind.
  abbrev pub AllMade : List Region → Result (Unit {0}) (List Pool.Pool × Memory) S → Type 0
  AllMade base (ok (pools, m) s) =
      FreshPools scale m 0 pools
      × MadePools scale m num_size_classes (reversed pools [])
      × (mapped s ≡ owned (reversed pools []) base)
  AllMade base (bad_alloc e s) = mapped s ≡ base
  AllMade base aborted = ⊥

  -- A new slab: the pools of all classes with all blocks free, and its destruction brings back the
  -- mappings `base`, which lie below those of its pools; or an exception that leaves no mapping behind.
  abbrev pub NewSlab : ℕ → List Region → Result (Unit {0}) (Slab × Memory) S → Type 0
  NewSlab id base (ok (slab, m) s) =
      (slab.epoch ≡ 0)
      × (slab.slab_id ≡ id)
      × FreshPools scale m 0 slab.shared_pools
      × ((caches : List CacheEntry) (self : ℕ) → mapped (destroy os caches self slab s).1 ≡ base)
      × (mapped s ≡ owned (reversed slab.shared_pools []) base)
  NewSlab id base (bad_alloc e s) = mapped s ≡ base
  NewSlab id base aborted = ⊥

  -- The blocks of each class and a page more fit a machine word.
  abbrev pub ClassesFit : Type 0
  ClassesFit =
      (i : ℕ) → i < num_size_classes → class_size i * scaled_count i scale + os.getpagesize < 2 ^ 64

module _ {S : Type 0} {os : Os S} {mapped : S → List Region} (posix : IsPosix os mapped) (b : Build)
    (scale : ℕ) (fit : ClassesFit os mapped scale) where
  init_loop-AllMade :
      (rounds i : ℕ) (made : List Pool.Pool) (m : Memory) (s : S) (base : List Region)
      → rounds + i ≡ num_size_classes
      → MadePools scale m i made
      → mapped s ≡ owned made base
      → AllMade os mapped scale base (init_loop b os scale rounds i made m s)
  unfolding init_loop
  init_loop-AllMade zero i made m s base n w e =
      let all : MadePools scale m num_size_classes made =
        subst (λ k. MadePools scale m k made)
          (let top : i ≡ num_size_classes = omega (arith, n) in top) w in
      let back = reversed-reversed made [] [] ∙ append-nil made in
      (
        MadePools-FreshPools scale m made all,
        subst (MadePools scale m num_size_classes) (sym back) all,
        e ∙ ap (λ ps. owned ps base) (sym back),
      )
  init_loop-AllMade (suc rounds) i made m s base n w e =
      let known = class_size-rounded i (omega arith) in
      go (Pool.init b os Pool.cleared (class_size i) (scaled_count i scale) m s)
        (init-Initialised posix b (class_size i) (scaled_count i scale) m s known.1
          (rw known.0 (fit i (omega arith))))
        (λ made' m' s'. init_loop-AllMade rounds (i + 1) made' m' s' base (omega (arith, n)))
    where
      go :
          (r : Result Pool.Pool (Pool.Pool × Memory) S)
          → Initialised os mapped (class_size i) (scaled_count i scale) m s r
          → ((made' : List Pool.Pool) (m' : Memory) (s' : S)
              → MadePools scale m' (i + 1) made'
              → mapped s' ≡ owned made' base
              → AllMade os mapped scale base (init_loop b os scale rounds (i + 1) made' m' s'))
          → AllMade os mapped scale base (elim r [
            | ok (q, m') s' ↦ init_loop b os scale rounds (i + 1) (q ∷ made) m' s'
            | bad_alloc q s' ↦ bad_alloc tt (destroy_pools os made s')
            | aborted ↦ aborted
          ])
      go (ok (q, m') s') (done v count size large fresh new same) rec =
          let small : rounded_size (class_size i) ≡ class_size i =
            (class_size-rounded i (omega arith)).0 in
          let apart = owned-SeparateFrom q made base (subst (All _) e fresh.apart) in
          let index : suc i ≡ i + 1 = omega arith in
          let next : MadePools scale m' (i + 1) (q ∷ made) =
            subst (λ k. MadePools scale m' k (q ∷ made)) index
              (
                record { pool = v; size = size ∙ small; count = count },
                apart,
                MadePools-agree scale m m' i q made apart same w,
              ) in
          rec (q ∷ made) m' s' next (new ∙ ap (◌∷◌ (region q.memory q.capacity)) e)
      go (bad_alloc q s') (thrown same) rec =
          destroy_pools-owned posix scale m i made base s' w (same ∙ e)
      go aborted made rec = elim made [ ]

  made_slab :
      (id : ℕ) (base : List Region) (r : Result (Unit {0}) (List Pool.Pool × Memory) S)
      → AllMade os mapped scale base r
      → NewSlab os mapped scale id base (elim r [
        | ok (pools, m') s' ↦ ok (record { epoch = 0; slab_id = id; shared_pools = pools }, m') s'
        | bad_alloc e s' ↦ bad_alloc e s'
        | aborted ↦ aborted
      ])
  unfolding destroy
  made_slab id base (ok (pools, m') s') made = (
    refl,
    refl,
    made.0,
    λ caches self.
        destroy_pools-owned posix scale m' num_size_classes (reversed pools []) base s' made.1
          made.2,
    made.2,
  )
  made_slab id base (bad_alloc e s') made = made
  made_slab id base aborted made = absurd made

  -- The constructor of a slab whose classes each fit a machine word with a page to spare: on success
  -- each class has its pool, all blocks of all pools are free, the pools lie apart, their
  -- mappings are the only new ones, and the destructor brings back the mappings from before; an exception leaves no mapping behind. No
  -- assertion fails.
  pub construct-NewSlab :
      (id : ℕ) (m : Memory) (s : S)
      → NewSlab os mapped scale id (mapped s) (construct b os scale id m s).1
  unfolding construct
  construct-NewSlab id m s =
      made_slab id (mapped s) (init_loop b os scale num_size_classes 0 [] m s)
        (init_loop-AllMade num_size_classes 0 [] m s (mapped s) refl refl refl)
