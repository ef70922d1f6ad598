-- ===== src/Slab/Cache/Places.antt =====
-- The parts of `slab::alloc` and `slab::free` that work on one cache do not move the mapping of the
-- pool behind it.
use slab_allocator.Base.{
  ℕ, ◌≡◌, refl, ◌==◌, if◌then◌else◌, some, Build, drop, OnSome, on_some, OnSome-bind, OnSome-if,
  OnSome-any,
}
use slab_allocator.Machine.Word.{nullptr, sub_word}
use slab_allocator.Machine.Memory.{Memory}
use slab_allocator.Pool as Pool
use slab_allocator.Pool.{alloc_batched_internal, free_batched_internal}
use slab_allocator.Pool.Places.{place, alloc_batched_internal-place, free_batched_internal-place}
use slab_allocator.Slab.Cache.{
  ThreadLocalCache, is_full, try_pop, push, refill, cache_alloc, flush_batch, cache_free,
}

refill-place :
    (b : Build) (c : ThreadLocalCache) (p : Pool.Pool) (m : Memory)
    → OnSome (λ r. place r.2 ≡ place p) (refill b c p m)
unfolding refill
refill-place b c p m =
    OnSome-bind (alloc_batched_internal b p m c.batch_size (some c.objects))
      (alloc_batched_internal-place b p m c.batch_size (some c.objects))
      (λ r same. OnSome-bind r.1 (OnSome-any _) (λ objects t.
        OnSome-bind (try_pop (record c { objects = objects; current = r.0 })) (OnSome-any _)
          (λ e t'. on_some same)))

pub cache_alloc-place :
    (b : Build) (c : ThreadLocalCache) (p : Pool.Pool) (m : Memory)
    → OnSome (λ r. place r.2 ≡ place p) (cache_alloc b c p m)
unfolding cache_alloc
cache_alloc-place b c p m =
    OnSome-bind (try_pop c) (OnSome-any _)
      (λ e t. OnSome-if (e.0 == nullptr) (refill-place b e.1 p m) (on_some refl))

flush_batch-place :
    (b : Build) (c : ThreadLocalCache) (p : Pool.Pool) (m : Memory)
    → OnSome (λ r. place r.1 ≡ place p) (flush_batch b c p m)
unfolding flush_batch
flush_batch-place b c p m =
    let back = some (drop (sub_word c.current c.batch_size) c.objects) in
    OnSome-bind (free_batched_internal b p m c.batch_size back)
      (free_batched_internal-place b p m c.batch_size back) (λ r same. on_some same)

pub cache_free-place :
    (b : Build) (c : ThreadLocalCache) (p : Pool.Pool) (m : Memory) (ptr : ℕ)
    → OnSome (λ r. place r.1 ≡ place p) (cache_free b c p m ptr)
unfolding cache_free
cache_free-place b c p m ptr =
    OnSome-bind (if is_full c then flush_batch b c p m else some (c, p, m))
      (OnSome-if (is_full c) (flush_batch-place b c p m) (on_some refl))
      (λ r same. OnSome-bind (push b r.0 ptr) (OnSome-any _) (λ c' t. on_some same))
