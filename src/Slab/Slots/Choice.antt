-- ===== src/Slab/Slots/Choice.antt =====
-- The search of `get_cached_slab`: the slab's own entry if there is one, else an empty one.
use slab_allocator.Base.{
  ℕ, zero, suc, ◌+◌, ◌<◌, ◌≡◌, refl, ◌≢◌, ◌⊎◌, inl, inr, ◌==◌, true, false, List, arith, Bool-cases,
}
use slab_allocator.Machine.Word.{nullptr, minus_one}
use slab_allocator.Slab.SizeClass.{max_cached_slabs}
use slab_allocator.Slab.Slots.{
  CacheEntry, entry_at, Slot, found, claim, evict, scan_loop, find_slot,
}

abbrev owner_at : List CacheEntry → ℕ → ℕ
owner_at caches i = (entry_at caches i).owner

-- What the search answers: an entry of the slab; or an empty entry, and the slab has none; or
-- neither is there.
abbrev pub Chosen : List CacheEntry → ℕ → Slot → Type 0
Chosen caches self (found i) = (i < max_cached_slabs) × ((entry_at caches i).owner ≡ self)
Chosen caches self (claim i) =
    (i < max_cached_slabs)
    × ((entry_at caches i).owner ≡ nullptr)
    × ((j : ℕ) → j < max_cached_slabs → (entry_at caches j).owner ≢ self)
Chosen caches self evict =
    (j : ℕ)
    → j < max_cached_slabs
    → ((entry_at caches j).owner ≢ self) × ((entry_at caches j).owner ≢ nullptr)

-- What the loop knows before round `i`: it has not met the slab, and `empty_slot` is an empty entry
-- or says that none has been met.
record Seen (caches : List CacheEntry) (self preferred i empty_slot : ℕ) : Type 0 where
  not_preferred : owner_at caches preferred ≢ self
  not_met : (j : ℕ) → j < i → owner_at caches j ≢ self
  empty_or_none :
      ((empty_slot < max_cached_slabs) × (owner_at caches empty_slot ≡ nullptr))
      ⊎ ((empty_slot ≡ minus_one)
          × (owner_at caches preferred ≢ nullptr)
          × ((j : ℕ) → j < i → owner_at caches j ≢ nullptr))

seen_before :
    (f : ℕ → ℕ) (i x : ℕ) → ((j : ℕ) → j < i → f j ≢ x) → f i ≢ x → (j : ℕ) → j < i + 1 → f j ≢ x
seen_before f i x h k j lt = elim (Bool-cases (j == i)) [
  | inl e ↦ (let same : j ≡ i = ground arith in rw same k)
  | inr e ↦ h j (ground arith)
]

-- The round leaves `empty_slot` alone.
Seen-keep :
    (caches : List CacheEntry) (self preferred i empty_slot : ℕ)
    → Seen caches self preferred i empty_slot
    → owner_at caches i ≢ self
    → (owner_at caches i ≢ nullptr) ⊎ (empty_slot ≢ minus_one)
    → Seen caches self preferred (i + 1) empty_slot
Seen-keep caches self preferred i empty_slot v other h = record {
  not_preferred = v.not_preferred;
  not_met = seen_before (owner_at caches) i self v.not_met other;
  empty_or_none = elim v.empty_or_none [
    | inl e ↦ inl e
    | inr (none, used, all) ↦ elim h [
      | inl ne ↦ inr (none, used, seen_before (owner_at caches) i nullptr all ne)
      | inr ne ↦ absurd (ne none)
    ]
  ];
}

-- The round notes that entry `i` is empty.
Seen-empty :
    (caches : List CacheEntry) (self preferred i empty_slot : ℕ)
    → Seen caches self preferred i empty_slot
    → owner_at caches i ≢ self
    → owner_at caches i ≡ nullptr
    → i < max_cached_slabs
    → Seen caches self preferred (i + 1) i
Seen-empty caches self preferred i empty_slot v other e lt = record {
  not_preferred = v.not_preferred;
  not_met = seen_before (owner_at caches) i self v.not_met other;
  empty_or_none = inl (lt, e);
}

scan_loop-Chosen :
    (caches : List CacheEntry) (self preferred rounds i empty_slot : ℕ)
    → rounds + i ≡ max_cached_slabs
    → Seen caches self preferred i empty_slot
    → Chosen caches self (scan_loop caches self preferred rounds i empty_slot)
unfolding scan_loop
scan_loop-Chosen caches self preferred zero i empty_slot n v = elim v.empty_or_none [
  | inl (lt, e) ↦
      let taken : (empty_slot == minus_one) ≡ false = ground arith in
      rw taken (lt, e, λ j h. v.not_met j (omega arith))
  | inr (none, used, all) ↦
      let free : (empty_slot == minus_one) ≡ true = ground arith in
      rw free (λ j h. (v.not_met j (omega arith), all j (omega arith)))
]
scan_loop-Chosen caches self preferred (suc rounds) i empty_slot n v =
    let count : rounds + (i + 1) ≡ max_cached_slabs = omega arith in
    let rest : (next : ℕ)
        → Seen caches self preferred (i + 1) next
        → Chosen caches self (scan_loop caches self preferred rounds (i + 1) next) =
      λ next. scan_loop-Chosen caches self preferred rounds (i + 1) next count in
    elim (Bool-cases (i == preferred)) [
      | inl skip ↦
          let same : i ≡ preferred = ground arith in
          let other : owner_at caches i ≢ self = rw same v.not_preferred in
          let settled : (owner_at caches i ≢ nullptr) ⊎ (empty_slot ≢ minus_one) =
            elim v.empty_or_none [
              | inl (lt, e) ↦ inr (omega arith)
              | inr (none, used, all) ↦ inl (rw same used)
            ] in
          rw skip (rest empty_slot (Seen-keep caches self preferred i empty_slot v other settled))
      | inr look ↦ elim (Bool-cases (owner_at caches i == self)) [
        | inl own ↦ rw (look, own) (omega arith, ground (arith, own))
        | inr foreign ↦
            let other : owner_at caches i ≢ self = ground (arith, foreign) in
            elim (Bool-cases (owner_at caches i == nullptr)) [
              | inl empty ↦ elim (Bool-cases (empty_slot == minus_one)) [
                | inl first ↦
                    rw (look, foreign, empty, first)
                      (rest i (
                        Seen-empty caches self preferred i empty_slot v other
                          (ground (arith, empty)) (omega arith)))
                | inr later ↦
                    rw (look, foreign, empty, later)
                      (rest empty_slot (
                        Seen-keep caches self preferred i empty_slot v other
                          (inr (ground (arith, later)))))
              ]
              | inr used ↦
                  rw (look, foreign, used)
                    (rest empty_slot (
                      Seen-keep caches self preferred i empty_slot v other
                        (inl (ground (arith, used)))))
            ]
      ]
    ]

-- The search of `get_cached_slab`, with a preferred index in range, answers an entry of the slab; or
-- an empty entry, and then no entry belongs to the slab; or that every entry belongs to another slab.
pub find_slot-Chosen :
    (caches : List CacheEntry) (self preferred : ℕ)
    → preferred < max_cached_slabs
    → Chosen caches self (find_slot caches self preferred)
unfolding find_slot
find_slot-Chosen caches self preferred h = elim (Bool-cases (owner_at caches preferred == self)) [
  | inl own ↦ rw own (h, ground (arith, own))
  | inr foreign ↦
      let other : owner_at caches preferred ≢ self = ground (arith, foreign) in
      elim (Bool-cases (owner_at caches preferred == nullptr)) [
        | inl empty ↦
            rw (foreign, empty)
              (scan_loop-Chosen caches self preferred 4 0 preferred refl (record {
                not_preferred = other;
                not_met = λ j lt. absurd (omega arith);
                empty_or_none = inl (h, ground (arith, empty));
              }))
        | inr used ↦
            rw (foreign, used)
              (scan_loop-Chosen caches self preferred 4 0 minus_one refl (record {
                not_preferred = other;
                not_met = λ j lt. absurd (omega arith);
                empty_or_none = inr (refl, ground (arith, used), λ j lt. absurd (omega arith));
              }))
      ]
]
