-- ===== src/Slab/Threads/Work.antt =====
-- One thread works on one class of a slab that it shares with others.
use mathlib.Core.List.{append_assoc}
use mathlib.Core.List.Perm
use slab_allocator.Base.{
  ℕ, ◌%◌, ◌<◌, ◌≡◌, ◌≢◌, refl, sym, ◌∙◌, ap, subst, ◌==◌, Bool-cases, inl, inr, List, [], ◌++◌,
  length, length-set, get_or-get_elem?, get_or-set_self, get_or-set_other, set-get_elem?, get_elem?,
  get_elem?-set_self, get_elem?-set_other, get_elem?-length, get_or, set, Perm, some, arith,
}
use slab_allocator.Base.Held.{all_held, others, others_split, others-set_self, others-set_same}
use slab_allocator.Machine.Memory.{Memory}
use slab_allocator.Pool.{Pool}
use slab_allocator.Pool.Layout.{Elsewhere, Relisted}
use slab_allocator.Pool.Chain.{IsPool-perm}
use slab_allocator.Slab.SizeClass.{num_size_classes, max_cached_slabs}
use slab_allocator.Slab.Cache.{ThreadLocalCache}
use slab_allocator.Slab.Cache.Entries.{IsFront, cached}
use slab_allocator.Slab.Slots.{Slab, CacheEntry, entry_at}
use slab_allocator.Slab.Slots.Entry.{entry_at-set, set-entry_at, update-same}
use slab_allocator.Slab.Slots.Fronts.{Fronts-ClassAt}
use slab_allocator.Slab.Operations.{View, put_cache, put_pool}
use slab_allocator.Slab.Operations.Local.{IsLocal, put, put-IsLocal}
use slab_allocator.Slab.Threads.{Crew, view, store}
use slab_allocator.Slab.Threads.Invariant.{
  IsCrew, IsMember, home, cached_in, cached_class, cached_class-at, cached_class-set_other,
}

-- One thread has worked on one class: its cache is now `c'`, the pool `q`, and `u` is in use from
-- where it stands; the clients hold the blocks `users'`.
module _ (c : Crew) (self : ℕ) (users users' : ℕ → List ℕ) (k : IsCrew c self users) (t : ℕ)
    (small : t < length c.entries) (index : ℕ) (hot : index < num_size_classes) (p q : Pool)
    (c' : ThreadLocalCache) (m' : Memory) (u free : List ℕ)
    (at : get_elem? (c.slabs self).shared_pools index ≡ some p) (front : IsFront c' q m' u free)
    (place : Relisted p q) (same : (j : ℕ) → Elsewhere p j → m' j ≡ c.memory j)
    (mine : Perm u (others (cached_in (home c self) index) c.entries t ++ users' index))
    (rest : (j : ℕ) → j ≢ index → users' j ≡ users j) where
  abbrev pub after : View
  after = put (view c t) self index c' q m'

  -- What the thread has in its slot for the slab.
  abbrev entry : CacheEntry
  entry = entry_at (get_or c.entries t []) (home c self)

  abbrev array : List CacheEntry
  array =
      set (get_or c.entries t []) (home c self)
        (record entry { storage = set entry.storage index c' })

  abbrev entries' : List (List CacheEntry)
  entries' = set c.entries t array

  after-caches : after.caches ≡ array
  unfolding put_cache put_pool
  after-caches = refl

  homes : home (store c t after) self ≡ home c self
  unfolding put_cache put_pool
  homes =
      ap (λ (s : Slab). s.slab_id % max_cached_slabs)
        (update-same c.slabs self
          (record (c.slabs self) { shared_pools = set (c.slabs self).shared_pools index q }))

  in_slot : entry_at array (home c self) ≡ record entry { storage = set entry.storage index c' }
  in_slot =
      entry_at-set (get_or c.entries t []) (home c self) _
        (omega (arith, (k.member t small).local.entries))

  new_cached : cached_in (home c self) index array ≡ cached c'
  new_cached = rw in_slot (
      cached_class-at (set entry.storage index c') index c' (
        get_elem?-set_self entry.storage index c'
          (omega (arith, hot, (k.member t small).local.classes))))

  old_cached : (i : ℕ) → i ≢ index → cached_in (home c self) i array ≡ cached_class entry.storage i
  old_cached i ne = rw in_slot (cached_class-set_other entry.storage index i c' ne)

  -- In the other threads, the blocks in use are those in all caches but their own.
  abbrev in_use : (t' : ℕ) → List ℕ
  in_use t' = others (cached_in (home c self) index) entries' t' ++ users' index

  in_use_perm :
      (t' : ℕ) (l : List CacheEntry) (c° : ThreadLocalCache)
      → get_elem? entries' t' ≡ some l
      → cached_in (home c self) index l ≡ cached c°
      → Perm (cached c' ++ u) (cached c° ++ in_use t')
  in_use_perm t' l c° e own =
      let held = cached_in (home c self) index in
      let here : get_elem? entries' t ≡ some array =
        get_elem?-set_self c.entries t array (omega (arith, small)) in
      let from : Perm (all_held held entries') (cached c' ++ others held c.entries t) =
        subst (λ us. Perm (all_held held entries') (us ++ others held c.entries t)) new_cached
          (subst (λ us. Perm (all_held held entries') (held array ++ us))
            (others-set_self held c.entries t array) (others_split held entries' t array here)) in
      let to : Perm (all_held held entries') (cached c° ++ others held entries' t') =
        subst (λ us. Perm (all_held held entries') (us ++ others held entries' t')) own
          (others_split held entries' t' l e) in
      let one : Perm (cached c' ++ u) (cached c' ++ (others held c.entries t ++ users' index)) =
        Perm.append_left (cached c') mine in
      let two : Perm ((cached c' ++ others held c.entries t) ++ users' index)
          ((cached c° ++ others held entries' t') ++ users' index) =
        Perm.append_right (users' index) (Perm.trans (Perm.symm from) to) in
      Perm.trans one (
        subst (λ us. Perm us (cached c° ++ (others held entries' t' ++ users' index)))
          (append_assoc (cached c') (others held c.entries t) (users' index))
          (subst (Perm ((cached c' ++ others held c.entries t) ++ users' index))
            (append_assoc (cached c°) (others held entries' t') (users' index)) two))

  after-view : view (store c t after) t ≡ after
  after-view =
      ap (λ cs. record { caches = cs; slabs = after.slabs; memory = after.memory })
        (get_or-set_self c.entries t after.caches [] small)

  after-member : IsMember (store c t after) self users' t
  after-member =
      let old = k.member t small in
      record {
        blocks = set old.blocks index u;
        local =
            subst (λ v. IsLocal v self (set old.blocks index u)) (sym after-view)
              (put-IsLocal (view c t) self index old.blocks p q c' m' u free old.local at front
                place same);
        holds = λ i lt. elim (Bool-cases (i == index)) [
          | inl e ↦
              let here : i ≡ index = ground (arith, e) in
              let before = old.holds index hot in
              (
                u,
                rw here (
                    get_elem?-set_self old.blocks index u
                      (get_elem?-length old.blocks index before.0 before.1)),
                rw
                    (
                      here,
                      homes,
                      others-set_self (cached_in (home c self) index) c.entries t after.caches,
                    )
                    mine,
              )
          | inr e ↦
              let ne : i ≢ index = ground (arith, e) in
              let before = old.holds i lt in
              (
                before.0,
                get_elem?-set_other old.blocks index i u ne ∙ before.1,
                rw
                    (
                      homes,
                      others-set_self (cached_in (home c self) i) c.entries t after.caches,
                      rest i ne,
                    )
                    before.2,
              )
        ];
      }

  -- The others do not notice but for what is in use.
  other-member :
      (t' : ℕ) → t' ≢ t → t' < length c.entries → IsMember (store c t after) self users' t'
  other-member t' ne lt =
      let old = k.member t' lt in
      let its = get_or c.entries t' [] in
      let its_entry = entry_at its (home c self) in
      let seen = Fronts-ClassAt index old.local.fronts (omega (arith, hot, old.local.classes)) in
      let array_at : get_elem? entries' t' ≡ some its =
        get_elem?-set_other c.entries t t' array ne ∙ get_or-get_elem? c.entries t' [] lt in
      let own : cached_in (home c self) index its ≡ cached seen.cache =
        cached_class-at its_entry.storage index seen.cache seen.cache_at in
      let its_front : IsFront seen.cache q m' (in_use t') free = record {
        cache = seen.front.cache;
        pool = IsPool-perm front.pool (in_use_perm t' its seen.cache array_at own);
      } in
      let unchanged : set its (home c self)
            (record its_entry { storage = set its_entry.storage index seen.cache })
          ≡ its =
        ap (λ st. set its (home c self) (record its_entry { storage = st }))
          (set-get_elem? its_entry.storage index seen.cache seen.cache_at)
        ∙ set-entry_at its (home c self) in
      let its_view : view (store c t after) t' ≡ put (view c t') self index seen.cache q m' =
        unfold put_cache put_pool in
        ap (λ cs. record { caches = cs; slabs = after.slabs; memory = after.memory })
          (get_or-set_other c.entries t t' after.caches [] ne ∙ sym unchanged) in
      record {
        blocks = set old.blocks index (in_use t');
        local =
            subst (λ v. IsLocal v self (set old.blocks index (in_use t'))) (sym its_view)
              (put-IsLocal (view c t') self index old.blocks p q seen.cache m' (in_use t') free
                old.local at its_front place same);
        holds = λ i hot_i. elim (Bool-cases (i == index)) [
          | inl e ↦
              let here : i ≡ index = ground (arith, e) in
              let before = old.holds index hot in
              (
                in_use t',
                rw here (
                    get_elem?-set_self old.blocks index (in_use t')
                      (get_elem?-length old.blocks index before.0 before.1)),
                rw (here, homes) (unfold put_cache put_pool in Perm.refl _),
              )
          | inr e ↦
              let other : i ≢ index = ground (arith, e) in
              let before = old.holds i hot_i in
              let same_others : others (cached_in (home c self) i) entries' t'
                  ≡ others (cached_in (home c self) i) c.entries t' =
                others-set_same (cached_in (home c self) i) c.entries t t' (get_or c.entries t [])
                  array (get_or-get_elem? c.entries t [] small) (old_cached i other) in
              (
                before.0,
                get_elem?-set_other old.blocks index i (in_use t') other ∙ before.1,
                rw (homes, after-caches, same_others, rest i other) before.2,
              )
        ];
      }

  pub after-IsCrew : IsCrew (store c t after) self users'
  after-IsCrew = record {
    member = λ t' lt.
        let lt' : t' < length c.entries = omega (arith, lt, length-set c.entries t after.caches) in
        elim (Bool-cases (t' == t)) [
          | inl e ↦ let here : t' ≡ t = ground (arith, e) in rw here after-member
          | inr e ↦ other-member t' (ground (arith, e)) lt'
        ];
  }
