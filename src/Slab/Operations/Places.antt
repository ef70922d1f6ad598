-- ===== src/Slab/Operations/Places.antt =====
-- No call of `alloc` or `free` moves the mappings of a slab's pools (src/slab.cpp), whatever the
-- memory and the thread's caches hold.
use slab_allocator.Base.{
  ℕ, ◌||◌, ◌≡◌, refl, ◌∙◌, ◌==◌, ltb, some, Build, get_elem?, OnSome, on_some, OnSome-bind,
  OnSome-if, OnSome-self, OnSome-any,
}
use slab_allocator.Machine.Word.{minus_one}
use slab_allocator.Pool as Pool
use slab_allocator.Pool.{alloc_batched_internal, free_batched_internal}
use slab_allocator.Pool.Places.{place, places-set, alloc-place, free-place}
use slab_allocator.Slab.SizeClass.{num_cached_classes, largest, size_to_index}
use slab_allocator.Slab.Cache.{cache_alloc, cache_free}
use slab_allocator.Slab.Slots.{entry_at, get_cached_slab}
use slab_allocator.Slab.Operations.{
  View, enter, put_pool, put_cache, alloc_class, alloc, free_class, free,
}
use slab_allocator.Slab.Cache.Places.{cache_alloc-place, cache_free-place}
use slab_allocator.Slab.Slots.Places.{Kept, update-Kept, get_cached_slab-Kept}

enter-Kept :
    (b : Build) (v : View) (self : ℕ) → OnSome (λ r. Kept v.slabs r.1.slabs) (enter b v self)
unfolding enter
enter-Kept b v self =
    OnSome-bind (get_cached_slab b v.caches self v.slabs v.memory)
      (get_cached_slab-Kept b v.caches self v.slabs v.memory) (λ r kept. on_some kept)

put_pool-Kept :
    (v : View) (self index : ℕ) (p q : Pool.Pool)
    → get_elem? (v.slabs self).shared_pools index ≡ some p
    → place q ≡ place p
    → Kept v.slabs (put_pool v self index q).slabs
unfolding put_pool
put_pool-Kept v self index p q e same =
    update-Kept v.slabs self _ (places-set (v.slabs self).shared_pools index p q e same)

alloc_class-Kept :
    (b : Build) (v : View) (self index : ℕ)
    → OnSome (λ r. Kept v.slabs r.1.slabs) (alloc_class b v self index)
unfolding alloc_class put_cache
alloc_class-Kept b v self index =
    OnSome-if (ltb index num_cached_classes)
      (OnSome-bind (enter b v self) (enter-Kept b v self) (λ r entered.
        OnSome-bind (get_elem? (entry_at r.1.caches r.0).storage index) (OnSome-any _) (λ c t.
          OnSome-bind (get_elem? (r.1.slabs self).shared_pools index) (OnSome-self _) (λ p e.
            OnSome-bind (cache_alloc b c p r.1.memory) (cache_alloc-place b c p r.1.memory)
              (λ served same.
                on_some (λ a. put_pool-Kept r.1 self index p served.2 e same a ∙ entered a))))))
      (OnSome-bind (get_elem? (v.slabs self).shared_pools index) (OnSome-self _) (λ p e.
        OnSome-bind (Pool.alloc b p v.memory) (alloc-place b p v.memory)
          (λ served same. on_some (put_pool-Kept v self index p served.1 e same))))

pub alloc-Kept :
    (b : Build) (v : View) (self size : ℕ)
    → OnSome (λ r. Kept v.slabs r.1.slabs) (alloc b v self size)
unfolding alloc
alloc-Kept b v self size =
    let index = size_to_index size in
    OnSome-if (size == 0 || size == minus_one || ltb largest size || index == minus_one)
      (on_some (λ a. refl)) (alloc_class-Kept b v self index)

free_class-Kept :
    (b : Build) (v : View) (self ptr index : ℕ)
    → OnSome (λ (w : View). Kept v.slabs w.slabs) (free_class b v self ptr index)
unfolding free_class put_cache
free_class-Kept b v self ptr index =
    OnSome-if (ltb index num_cached_classes)
      (OnSome-bind (enter b v self) (enter-Kept b v self) (λ r entered.
        OnSome-bind (get_elem? (entry_at r.1.caches r.0).storage index) (OnSome-any _) (λ c t.
          OnSome-bind (get_elem? (r.1.slabs self).shared_pools index) (OnSome-self _) (λ p e.
            OnSome-bind (cache_free b c p r.1.memory ptr) (cache_free-place b c p r.1.memory ptr)
              (λ taken same.
                on_some (λ a. put_pool-Kept r.1 self index p taken.1 e same a ∙ entered a))))))
      (OnSome-bind (get_elem? (v.slabs self).shared_pools index) (OnSome-self _) (λ p e.
        OnSome-bind (Pool.free b p v.memory ptr) (free-place b p v.memory ptr)
          (λ taken same. on_some (put_pool-Kept v self index p taken.0 e same))))

pub free-Kept :
    (b : Build) (v : View) (self ptr size : ℕ)
    → OnSome (λ (w : View). Kept v.slabs w.slabs) (free b v self ptr size)
unfolding free
free-Kept b v self ptr size =
    let index = size_to_index size in
    OnSome-if (size == 0 || size == minus_one || ltb largest size || index == minus_one)
      (on_some (λ a. refl)) (free_class-Kept b v self ptr index)
