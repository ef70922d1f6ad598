-- ===== src/Slab/Operations/Requests.antt =====
-- The guards of `slab::alloc`, `calloc` and `free`, and the epoch check behind them (src/slab.cpp).
use slab_allocator.Base.{
  ℕ, ◌<◌, ◌≡◌, refl, ◌≢◌, ◌⊎◌, inl, inr, ◌||◌, ◌==◌, ltb, true, some, arith, Build, Bool-cases,
}
use slab_allocator.Machine.Word.{nullptr, minus_one}
use slab_allocator.Slab.SizeClass.{largest, size_to_index}
use slab_allocator.Slab.Slots.{Slab, CacheEntry}
use slab_allocator.Slab.Slots.Flush.{AllEmpty}
use slab_allocator.Slab.Slots.Stale.{invalidate_all-AllEmpty}
use slab_allocator.Slab.Operations.{View, refresh, alloc, calloc, free}

-- A request of 0 bytes or of more than the largest class changes nothing: `alloc` and `calloc` return
-- null, and `free` ignores the pointer.
pub alloc-calloc-free_rejected :
    (b : Build) (v : View) (self ptr size : ℕ)
    → (size ≡ 0) ⊎ (largest < size)
    → (alloc b v self size ≡ some (nullptr, v))
      × (calloc b v self size ≡ some (nullptr, v))
      × (free b v self ptr size ≡ some v)
unfolding alloc calloc free
alloc-calloc-free_rejected b v self ptr size h =
    let guard : (size == 0
          || size == minus_one
          || ltb largest size
          || size_to_index size == minus_one)
        ≡ true =
      ground arith in
    (rw guard, rw guard, rw guard)

-- An entry that has an owner has the epoch of the slab after the check, and the same owner. It is as
-- before if its epoch was that of the slab already; otherwise all of its caches are empty.
pub refresh_lem :
    (entry : CacheEntry) (s : Slab)
    → entry.owner ≢ nullptr
    → ((refresh entry s).epoch ≡ s.epoch)
      × ((refresh entry s).owner ≡ entry.owner)
      × (entry.epoch ≡ s.epoch → refresh entry s ≡ entry)
      × (entry.epoch ≢ s.epoch → AllEmpty (refresh entry s).storage)
unfolding refresh
refresh_lem entry s h = elim (Bool-cases (entry.epoch == s.epoch)) [
  | inl same ↦
      rw same (ground (arith, same), refl, λ e. refl, λ ne. absurd (ne (ground (arith, same))))
  | inr old ↦
      (let emptied = invalidate_all-AllEmpty entry h in
        rw old (refl, emptied.1, λ e. absurd (ground (arith, old, e)), λ ne. emptied.0))
]
