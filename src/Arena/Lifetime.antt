-- ===== src/Arena/Lifetime.antt =====
-- Construction, moves, `clear` and destruction: what they map, unmap and leave behind.
use native.Mathlib.Nat.{dvd_of_mod-eq-zero, mod-mod_of_dvd}
use slab_allocator.Base.{
  ℕ, ◌+◌, ◌%◌, ◌^◌, ◌≤◌, ◌<◌, ◌≡◌, refl, sym, subst, ◌∙◌, ap, ◌≢◌, inl, inr, List, ◌∷◌, arith,
}
use slab_allocator.Machine.Word.{nullptr, round_to_page}
use slab_allocator.Machine.PageRounding.{round_to_page_bounds}
use slab_allocator.Platform.{Os, Result, ok, bad_alloc, aborted, page_size}
use slab_allocator.Platform.Laws.{
  Region, region, unmap, IsPosix, IsFresh, ne-eqb, mem_alloc_cases, mem_free_ok, holds_region_head,
  unmap_head,
}
use slab_allocator.Arena.{
  reset, get_used, Arena, construct, destroy, move_construct, clear, clear_with,
}
use slab_allocator.Arena.Layout.{IsArena}

mod_trans : (n page : ℕ) → n % page ≡ 0 → page % 16 ≡ 0 → n % 16 ≡ 0
mod_trans n page h k = sym (mod-mod_of_dvd 16 n (dvd_of_mod-eq-zero 16 k)) ∙ ap (λ r. r % 16) h

pub reset_lem : (a : Arena) → reset a ≡ (0, record a { used = 0 })
unfolding reset
reset_lem a = refl

pub get_used_lem : (a : Arena) → get_used a ≡ a.used
unfolding get_used
get_used_lem a = refl

module _ {S : Type 0} (os : Os S) (mapped : S → List Region) where
  -- A constructed arena is well formed and empty, its capacity is `bytes` rounded up to whole
  -- pages, and it owns one new region; an exception leaves no mapping behind.
  abbrev pub Constructed : ℕ → S → Result (Unit {0}) Arena S → Type 0
  Constructed bytes s (ok a s') =
      IsArena a
      × (a.used ≡ 0)
      × (bytes ≤ a.capacity)
      × (a.capacity < bytes + os.getpagesize)
      × (a.capacity % os.getpagesize ≡ 0)
      × IsFresh os mapped a.capacity a.memory s
      × (mapped s' ≡ region a.memory a.capacity ∷ mapped s)
  Constructed bytes s (bad_alloc e s') = mapped s' ≡ mapped s
  Constructed bytes s aborted = ⊥

module _ {S : Type 0} {os : Os S} {mapped : S → List Region} (posix : IsPosix os mapped) where
  -- The constructor makes a well-formed empty arena that owns one new region, or throws and leaves
  -- no mapping behind, if the requested size and a page more fit a machine word.
  pub construct-Constructed :
      (bytes : ℕ) (s : S)
      → bytes + os.getpagesize < 2 ^ 64
      → Constructed os mapped bytes s (construct os bytes s)
  unfolding construct page_size
  construct-Constructed bytes s h =
      let n = round_to_page bytes os.getpagesize in
      let rounded = round_to_page_bounds bytes os.getpagesize posix.page_pos h in
      elim (mem_alloc_cases posix n s) [
        | inl (null, same) ↦ rw null same
        | inr (fresh, new) ↦ rw (ne-eqb _ fresh.ne_null) (
          record {
            memory_aligned = mod_trans _ os.getpagesize fresh.on_page posix.page_aligned;
            capacity_aligned = mod_trans n os.getpagesize rounded.2 posix.page_aligned;
            within = omega arith;
            in_space = fresh.in_space;
          },
          refl,
          rounded.0,
          rounded.1,
          rounded.2,
          fresh,
          new,
        )
      ]

  -- Destroying the owner of the newest mapping unmaps just that.
  pub destroy-owner :
      (a : Arena) (s : S) (rest : List Region)
      → a.memory ≢ nullptr
      → mapped s ≡ region a.memory a.capacity ∷ rest
      → mapped (destroy os a s) ≡ rest
  unfolding destroy
  destroy-owner a s rest ne e =
      let freed =
        mem_free_ok posix a.memory a.capacity s
          (rw e (holds_region_head (region a.memory a.capacity) rest)) in
      rw (ne-eqb a.memory ne) (
        freed.1
        ∙ ap (unmap (region a.memory a.capacity)) e
        ∙ unmap_head (region a.memory a.capacity) rest)

  -- An arena that is constructed and then moved to another object is unmapped once when both
  -- objects are destroyed, in either order: afterwards the kernel has the mappings from before. The
  -- requested size and a page more fit a machine word.
  pub destroy-construct :
      (bytes : ℕ) (s s' : S) (a : Arena)
      → bytes + os.getpagesize < 2 ^ 64
      → construct os bytes s ≡ ok a s'
      → let (b, old) = move_construct a in
        (mapped (destroy os old (destroy os b s')) ≡ mapped s)
        × (mapped (destroy os b (destroy os old s')) ≡ mapped s)
  unfolding move_construct destroy
  destroy-construct bytes s s' a h e =
      let made : Constructed os mapped bytes s (ok a s') =
        subst (Constructed os mapped bytes s) e (construct-Constructed bytes s h) in
      let gone = destroy-owner a s' (mapped s) made.5.ne_null made.6 in (gone, gone)

  -- `clear` of an arena that owns the newest mapping unmaps it, reports success and leaves an arena
  -- without memory, whose destruction unmaps nothing more.
  pub clear_lem :
      (a : Arena) (s : S) (rest : List Region)
      → a.memory ≢ nullptr
      → mapped s ≡ region a.memory a.capacity ∷ rest
      → let (status, a', s') = clear os a s in
        (status ≡ 0)
        × (a' ≡ record { memory = nullptr; used = 0; capacity = 0 })
        × (mapped s' ≡ rest)
        × (mapped (destroy os a' s') ≡ rest)
  unfolding clear clear_with destroy
  clear_lem a s rest ne e =
      let r = region a.memory a.capacity in
      let freed = mem_free_ok posix a.memory a.capacity s (rw e (holds_region_head r rest)) in
      let left = freed.1 ∙ ap (unmap r) e ∙ unmap_head r rest in
      rw (ne-eqb a.memory ne, freed.0) (refl, refl, left, left)
