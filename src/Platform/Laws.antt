-- ===== src/Platform/Laws.antt =====
-- What the code relies on of `mmap`, `munmap` and `getpagesize`: documented behaviour, as a record
-- of laws over a view of the kernel's state, the list of the regions that are mapped.
use slab_allocator.Base.{
  ℕ, ◌+◌, ◌%◌, ◌^◌, ◌≤◌, ◌<◌, ◌≡◌, refl, ◌≢◌, ◌⊎◌, inl, inr, ◌&&◌, Bool, true, false, List, [], ◌∷◌,
  arith, ◌==◌, if◌then◌else◌, Bool-cases, All,
}
use slab_allocator.Machine.Word.{nullptr}
use slab_allocator.Platform.{Os, map_failed, mem_alloc, mem_free}

pub record Region : Type 0 where
  pub base : ℕ
  pub size : ℕ

abbrev pub region : ℕ → ℕ → Region
region p n = record { base = p; size = n }

abbrev pub same_region : Region → Region → Bool
same_region a b = (a.base == b.base) && (a.size == b.size)

-- The list without the first entry for the region.
unfoldable pub unmap : Region → List Region → List Region
unmap r [] = []
unmap r (x ∷ xs) = if same_region x r then xs else x ∷ unmap r xs

abbrev pub holds_region : Region → List Region → Bool
holds_region r [] = false
holds_region r (x ∷ xs) = if same_region x r then true else holds_region r xs

-- No address belongs to both.
abbrev pub Disjoint : Region → Region → Type 0
Disjoint a b = (a.base + a.size ≤ b.base) ⊎ (b.base + b.size ≤ a.base)

module _ {S : Type 0} (os : Os S) (mapped : S → List Region) where
  -- A new mapping starts on a page, away from address 0 and from every other mapping, and ends
  -- below the top of the address space.
  pub record IsFresh (n p : ℕ) (s : S) : Type 0 where
    pub ne_null : p ≢ nullptr
    pub on_page : p % os.getpagesize ≡ 0
    pub in_space : p + n < 2 ^ 64
    pub apart : All (Disjoint (region p n)) (mapped s)

  pub record IsPosix : Type 0 where
    pub page_pos : 1 ≤ os.getpagesize
    pub page_aligned : os.getpagesize % 16 ≡ 0
    pub page_small : os.getpagesize < 2 ^ 63
    pub mmap_zero : (s : S) → (os.mmap 0 s).0 ≡ map_failed
    pub mmap_fails :
        (n : ℕ) (s : S) → (os.mmap n s).0 ≡ map_failed → mapped (os.mmap n s).1 ≡ mapped s
    pub mmap_maps :
        (n : ℕ) (s : S)
        → (os.mmap n s).0 ≢ map_failed
        → IsFresh n (os.mmap n s).0 s
          × (mapped (os.mmap n s).1 ≡ region (os.mmap n s).0 n ∷ mapped s)
    pub munmap_ok :
        (p n : ℕ) (s : S)
        → holds_region (region p n) (mapped s) ≡ true
        → ((os.munmap p n s).0 ≡ 0) × (mapped (os.munmap p n s).1 ≡ unmap (region p n) (mapped s))

module _ {S : Type 0} {os : Os S} {mapped : S → List Region} (posix : IsPosix os mapped) where
  -- `platform_mem::alloc` gives null and maps nothing, or a fresh region.
  pub mem_alloc_cases :
      (n : ℕ) (s : S)
      → (((mem_alloc os n s).0 ≡ nullptr) × (mapped (mem_alloc os n s).1 ≡ mapped s))
        ⊎ (IsFresh os mapped n (mem_alloc os n s).0 s
            × (mapped (mem_alloc os n s).1 ≡ region (mem_alloc os n s).0 n ∷ mapped s))
  unfolding mem_alloc
  mem_alloc_cases n s = elim (Bool-cases ((os.mmap n s).0 == map_failed)) [
    | inl e ↦ inl (rw e, posix.mmap_fails n s (ground arith))
    | inr e ↦ inr (rw e (posix.mmap_maps n s (ground arith)))
  ]

  pub mem_free_ok :
      (p n : ℕ) (s : S)
      → holds_region (region p n) (mapped s) ≡ true
      → ((mem_free os p n s).0 ≡ true)
        × (mapped (mem_free os p n s).1 ≡ unmap (region p n) (mapped s))
  unfolding mem_free
  mem_free_ok p n s h = (rw ((posix.munmap_ok p n s h).0) refl, (posix.munmap_ok p n s h).1)

-- A region that was mapped last is unmapped again.
pub holds_region_head : (r : Region) (rs : List Region) → holds_region r (r ∷ rs) ≡ true
holds_region_head r rs = ground arith

pub unmap_head : (r : Region) (rs : List Region) → unmap r (r ∷ rs) ≡ rs
unfolding unmap
unmap_head r rs = ground arith

pub ne-eqb : (p : ℕ) → p ≢ nullptr → (p == nullptr) ≡ false
ne-eqb p h = ground arith
