-- ===== src/Platform/Sample.antt =====
-- A kernel that meets the laws of `Platform.Laws`, for runs at concrete inputs. Its state is the
-- list of mapped regions; a new region starts on the second page above all others.
use native.Mathlib.Nat.{mul-mod_left}
use slab_allocator.Base.{
  ℕ, ◌+◌, ◌-◌, ◌*◌, ◌/◌, ◌^◌, ◌≤◌, ◌≡◌, refl, ◌≢◌, ◌||◌, List, [], ◌∷◌, arith, ◌==◌, leb,
  if◌then◌else◌, Bool-cases, inl, inr, All, true,
}
use slab_allocator.Platform.{Os, map_failed}
use slab_allocator.Platform.Laws.{Region, region, unmap, holds_region, Disjoint, IsFresh, IsPosix}

abbrev pub page : ℕ
page = 4096

abbrev top : List Region → ℕ
top [] = 0
top (r ∷ rs) = if leb (top rs) (r.base + r.size) then r.base + r.size else top rs

place : List Region → ℕ
place rs = (top rs / page + 1) * page

sample_mmap : ℕ → List Region → ℕ × List Region
sample_mmap n rs =
    if n == 0 || leb (2 ^ 64 - 1) (place rs + n)
    then (map_failed, rs)
    else (place rs, region (place rs) n ∷ rs)

sample_munmap : ℕ → ℕ → List Region → ℕ × List Region
sample_munmap p n rs =
    if holds_region (region p n) rs then (0, unmap (region p n) rs) else (2 ^ 32 - 1, rs)

unfoldable pub sample_os : Os (List Region)
unfolding sample_mmap sample_munmap place unmap
sample_os = record { getpagesize = page; mmap = sample_mmap; munmap = sample_munmap }

above-All : (p n : ℕ) (rs : List Region) → top rs ≤ p → All (Disjoint (region p n)) rs
above-All p n [] h = tt
above-All p n (r ∷ rs) h = (ground arith, above-All p n rs (ground arith))

place-above : (rs : List Region) → top rs ≤ place rs
unfolding place
place-above rs = omega arith

sample_fails :
    (n : ℕ) (rs : List Region) → (sample_mmap n rs).0 ≡ map_failed → (sample_mmap n rs).1 ≡ rs
unfolding sample_mmap
sample_fails n rs h = ground arith

sample_maps :
    (n : ℕ) (rs : List Region)
    → (sample_mmap n rs).0 ≢ map_failed
    → IsFresh sample_os (λ s. s) n (sample_mmap n rs).0 rs
      × ((sample_mmap n rs).1 ≡ region (sample_mmap n rs).0 n ∷ rs)
unfolding sample_mmap sample_os
sample_maps n rs h = elim (Bool-cases (n == 0 || leb (2 ^ 64 - 1) (place rs + n))) [
  | inl e ↦ absurd (h (rw e))
  | inr e ↦ rw e (
    record {
      ne_null = unfold place in omega arith;
      on_page = unfold place in mul-mod_left (top rs / page + 1) page;
      in_space = ground arith;
      apart = above-All (place rs) n rs (place-above rs);
    },
    refl,
  )
]

sample_unmaps :
    (p n : ℕ) (rs : List Region)
    → holds_region (region p n) rs ≡ true
    → ((sample_munmap p n rs).0 ≡ 0) × ((sample_munmap p n rs).1 ≡ unmap (region p n) rs)
unfolding sample_munmap
sample_unmaps p n rs h = rw h (refl, refl)

pub sample_os-IsPosix : IsPosix sample_os (λ s. s)
unfolding sample_os
sample_os-IsPosix = record {
  page_pos = omega arith;
  page_aligned = refl;
  page_small = omega arith;
  mmap_zero = λ s. refl;
  mmap_fails = sample_fails;
  mmap_maps = sample_maps;
  munmap_ok = sample_unmaps;
}
