-- ===== src/Slab/Slots/Emptied.antt =====
-- `invalidate_all` (include/slab.h) forgets what the caches of an entry hold.
use slab_allocator.Base.{◌≡◌, ◌≢◌, refl, ap, suc, ◌==◌, false, List, [], ◌∷◌, length, arith}
use slab_allocator.Machine.Word.{nullptr}
use slab_allocator.Slab.Cache.{ThreadLocalCache, invalidate}
use slab_allocator.Slab.Slots.{CacheEntry, invalidate_each, invalidate_all}

abbrev pub emptied : List ThreadLocalCache → List ThreadLocalCache
emptied [] = []
emptied (c ∷ caches) = record c { current = 0 } ∷ emptied caches

invalidate_each-emptied : (caches : List ThreadLocalCache) → invalidate_each caches ≡ emptied caches
unfolding invalidate_each invalidate
invalidate_each-emptied [] = refl
invalidate_each-emptied (c ∷ caches) =
    ap (◌∷◌ (record c { current = 0 })) (invalidate_each-emptied caches)

pub invalidate_all-emptied :
    (e : CacheEntry)
    → e.owner ≢ nullptr
    → invalidate_all e ≡ record e { storage = emptied e.storage }
unfolding invalidate_all
invalidate_all-emptied e h =
    let used : (e.owner == nullptr) ≡ false = ground (arith, h) in
    rw used (ap (λ xs. record e { storage = xs }) (invalidate_each-emptied e.storage))

pub length-emptied : (caches : List ThreadLocalCache) → length (emptied caches) ≡ length caches
length-emptied [] = refl
length-emptied (c ∷ caches) = ap suc (length-emptied caches)
