-- ===== src/Slab/Operations/Resetting.antt =====
-- `slab::reset` (src/slab.cpp) and the next call of the thread that has the slab's entry.
use mathlib.Core.List.Perm
use slab_allocator.Base.{
  ℕ, ◌+◌, ◌*◌, ◌%◌, ◌^◌, ◌≡◌, ◌≢◌, refl, ◌∙◌, ap, ◌==◌, false, List, [], ◌∷◌, length-set, set, some,
  arith, Build,
}
use slab_allocator.Machine.Word.{nullptr, add_word}
use slab_allocator.Machine.Memory.{Memory}
use slab_allocator.Pool as Pool
use slab_allocator.Pool.Layout.{blocks}
use slab_allocator.Pool.Init.{reset_lem}
use slab_allocator.Slab.SizeClass.{max_cached_slabs}
use slab_allocator.Slab.Cache.{ThreadLocalCache}
use slab_allocator.Slab.Cache.Entries.{IsFront}
use slab_allocator.Slab.Slots.{Slab, CacheEntry, entry_at, update}
use slab_allocator.Slab.Slots.Entry.{entry_at-set, update-same, get_cached_slab-own}
use slab_allocator.Slab.Slots.Flush.{
  Fronts, class, empty, AllRelisted, Nowhere, Fronts-agree, IsFront-agree, inside-Nowhere,
  AllRelisted-SeparateFrom,
}
use slab_allocator.Slab.Slots.Fronts.{stock}
use slab_allocator.Slab.Slots.Fresh.{unheld, unheld_at}
use slab_allocator.Slab.Slots.Emptied.{emptied, invalidate_all-emptied, length-emptied}
use slab_allocator.Slab.Operations.{View, refresh, enter, reset, reset_pools}
use slab_allocator.Slab.Operations.Local.{slot}
use slab_allocator.Slab.Operations.Outstanding.{Outstanding}

AllRelisted-stock :
    (pools pools' : List Pool.Pool) → AllRelisted pools pools' → stock pools' ≡ stock pools
AllRelisted-stock [] pools' e = rw e refl
AllRelisted-stock (p ∷ pools) pools' (q, rest, e, place, rs) = rw e (
    ap (λ n. n + stock rest) (ap (λ (z : Pool.Pool). z.block_count * z.block_size) place)
    ∙ ap (λ n. p.block_count * p.block_size + n) (AllRelisted-stock pools rest rs))

-- All pools are reset, whoever holds their blocks, while the caches are as good as empty.
reset_pools_lem :
    (b : Build) (caches : List ThreadLocalCache) (m : Memory) {pools : List Pool.Pool}
    {users : List (List ℕ)}
    → Fronts m caches pools users
    → (pools' : List Pool.Pool) × (m' : Memory) × (reset_pools b pools m ≡ some (pools', m'))
      × Fronts m' (emptied caches) pools' (unheld caches)
      × AllRelisted pools pools'
      × ((j : ℕ) → Nowhere pools j → m' j ≡ m j)
unfolding reset_pools
reset_pools_lem b [] m empty = ([], m, refl, empty, refl, λ j o. refl)
reset_pools_lem b (c ∷ caches) m (class {p = p} {pools = pools} free v apart rest) =
    let first = reset_lem b v.pool in
    let others = reset_pools_lem b caches first.1 (Fronts-agree p apart first.4 rest) in
    let place : first.0.memory ≡ p.memory = ap (λ (z : Pool.Pool). z.memory) first.5 in
    let size : first.0.capacity ≡ p.capacity = ap (λ (z : Pool.Pool). z.capacity) first.5 in
    let front : IsFront (record c { current = 0 }) first.0 first.1 [] (blocks p) = record {
      cache = record {
        room = v.cache.room;
        bounded = omega arith;
        batch_pos = v.cache.batch_pos;
        batch_fits = v.cache.batch_fits;
      };
      pool = first.3;
    } in
    let kept = IsFront-agree front (λ j lo hi.
      others.5 j
        (inside-Nowhere p pools j apart (omega (arith, place)) (omega (arith, place, size)))) in
    (
      first.0 ∷ others.0,
      others.1,
      rw (first.2, others.2) refl,
      class (blocks p) kept
          (AllRelisted-SeparateFrom p first.0 pools others.0 first.5 others.4 apart) others.3,
      (first.0, others.0, refl, first.5, others.4),
      λ j o. others.5 j o.1 ∙ first.4 j o.0,
    )

module _ (b : Build) (v : View) (self total : ℕ) (ptrs : List (ℕ × ℕ))
    (o : Outstanding v self total ptrs) (real : self ≢ nullptr) where
  abbrev s : Slab
  s = v.slabs self

  abbrev mine : CacheEntry
  mine = entry_at v.caches (slot v self)

  -- `reset` of a slab that is not at null and in use by a thread with an entry for it returns, and no
  -- assertion fails. The thread's next call finds its entry out of date and empties it: from then on no client holds a block and all blocks are there
  -- to be handed out again, with the same size in total, whatever was outstanding.
  pub reset-Outstanding :
      (v' w : View) × (reset b v self ≡ some v')
      × (enter b v' self ≡ some (slot v self, w))
      × Outstanding w self total []
  unfolding reset enter refresh add_word
  reset-Outstanding =
      let all = reset_pools_lem b mine.storage v.memory o.local.fronts in
      let s' : Slab = record s { shared_pools = all.0; epoch = (s.epoch + 1) % 2 ^ 64 } in
      let v' : View = record v { slabs = update v.slabs self s'; memory = all.1 } in
      let here : (v'.slabs self) ≡ s' = update-same v.slabs self s' in
      let used : mine.owner ≢ nullptr = omega (arith, o.local.owned, real) in
      let e' : CacheEntry = record {
        owner = mine.owner;
        epoch = s'.epoch;
        storage = emptied mine.storage;
      } in
      let w : View = record v' { caches = set v.caches (slot v self) e' } in
      let old : (mine.epoch == s'.epoch) ≡ false = ground (arith, o.local.current) in
      let at : entry_at w.caches (slot v self) ≡ e' =
        entry_at-set v.caches (slot v self) e' (omega (arith, o.local.entries)) in
      let found : (entry_at v'.caches ((v'.slabs self).slab_id % max_cached_slabs)).owner ≡ self =
        rw here o.local.owned in
      (
        v',
        w,
        rw all.2 refl,
        rw (get_cached_slab-own b v'.caches self v'.slabs v'.memory found)
            (rw here (rw (old, invalidate_all-emptied mine used) refl)),
        record {
          users = unheld mine.storage;
          local = record {
            entries = length-set v.caches (slot v self) e' ∙ o.local.entries;
            owned = rw (here, at) o.local.owned;
            current = rw (here, at) refl;
            classes = rw (here, at) (length-emptied mine.storage ∙ o.local.classes);
            fronts = rw (here, at) all.3;
          };
          holds = λ i hot.
              ([], unheld_at mine.storage i (omega (arith, hot, o.local.classes)), Perm.refl []);
          in_stock = rw here (AllRelisted-stock s.shared_pools all.0 all.4 ∙ o.in_stock);
        },
      )
