-- ===== src/Pmm/Free.antt =====
-- kernel/pmm.c: pmm_free_frame, on every address, and its effect on a later allocation.
use my_os.Prelude.{
  ℕ, ◌+◌, ◌/◌, ◌%◌, ◌<◌, ◌≡◌, refl, ◌≢◌, ◌⊎◌, inl, inr, true, false, arith, ◌==◌, if◌then◌else◌,
  Bool-cases, add64,
}
use my_os.Pmm.Bitmap.{bitmap_clear, bitmap_test, bitmap_test-clear, bitmap_clear-IsBitmap}
use my_os.Pmm.Count.{count_clear, count_clear-le, count_clear-clear}
use my_os.Pmm.{Pmm, page_size, alloc_frame, free_frame}
use my_os.Pmm.Alloc.{IsValid, allocation, take_frame-address, take_frame-free_frames}

-- The address of a frame that is in use.
abbrev pub IsUsed : Pmm → ℕ → Type 0
IsUsed p addr =
    (p.bitmap ≢ 0)
    × (addr % page_size ≡ 0)
    × (addr / page_size < p.total_frames)
    × (bitmap_test p.bytes (addr / page_size) ≡ true)

abbrev freed : Pmm → ℕ → Pmm
freed p addr = record p {
  bytes = bitmap_clear p.bytes (addr / page_size);
  free_frames = add64 p.free_frames 1;
}

free_frame-freed : (p : Pmm) (addr : ℕ) → IsUsed p addr → free_frame p addr ≡ freed p addr
unfolding free_frame
free_frame-freed p addr h = ground arith

-- `pmm_free_frame` acts on an address in use, and ignores any other.
free_frame_cases :
    (p : Pmm) (addr : ℕ)
    → (IsUsed p addr × (free_frame p addr ≡ freed p addr)) ⊎ (free_frame p addr ≡ p)
unfolding free_frame
free_frame_cases p addr = elim (Bool-cases (bitmap_test p.bytes (addr / page_size))) [
  | inl e ↦ ground arith
  | inr e ↦ inr (ground arith)
]

free_frame-clear :
    (p : Pmm) (addr : ℕ) → bitmap_test p.bytes (addr / page_size) ≡ false → free_frame p addr ≡ p
unfolding free_frame
free_frame-clear p addr e = ground arith

module _ (p : Pmm) (addr : ℕ) (v : IsValid p) where
  module _ (used : IsUsed p addr) where
    counts :
        count_clear (bitmap_clear p.bytes (addr / page_size)) p.total_frames 0
        ≡ count_clear p.bytes p.total_frames 0 + 1
    counts =
        count_clear-clear v.bits (addr / page_size) used.2 p.total_frames 0 (omega arith)
          (omega arith) used.3

    freed-count : (freed p addr).free_frames ≡ p.free_frames + 1
    freed-count = omega (arith, count_clear-le p.bytes p.total_frames 0, v.addressable, v.counted)

    freed-IsValid : IsValid (freed p addr)
    freed-IsValid = record {
      bits = bitmap_clear-IsBitmap v.bits (addr / page_size) used.2;
      addressable = v.addressable;
      counted = omega (arith, freed-count, counts, v.counted);
    }

  -- `pmm_free_frame` keeps a valid allocator valid, at every address.
  pub free_frame-IsValid : IsValid (free_frame p addr)
  free_frame-IsValid = elim (free_frame_cases p addr) [
    | inl (used, e) ↦ rw e (freed-IsValid used)
    | inr e ↦ rw e v
  ]

  -- On a valid allocator, freeing a frame in use clears its bit, leaves the others, and raises the
  -- counter by one.
  pub free_frame_effect :
      IsUsed p addr
      → ((g : ℕ)
          → bitmap_test (free_frame p addr).bytes g
            ≡ (if addr / page_size == g then false else bitmap_test p.bytes g))
        × ((free_frame p addr).free_frames ≡ p.free_frames + 1)
  free_frame_effect used =
      rw (free_frame-freed p addr used)
        ((λ g. bitmap_test-clear v.bits (addr / page_size) used.2 g), freed-count used)

  -- On a valid allocator, a second free of the same address changes nothing.
  pub free_frame-free_frame : free_frame (free_frame p addr) addr ≡ free_frame p addr
  free_frame-free_frame = elim (free_frame_cases p addr) [
    | inl (used, e) ↦ rw e (ignored used)
    | inr e ↦ rw (e, e) refl
  ]
    where
      ignored : (used : IsUsed p addr) → free_frame (freed p addr) addr ≡ freed p addr
      ignored used =
          let same = bitmap_test-clear v.bits (addr / page_size) used.2 (addr / page_size) in
          free_frame-clear (freed p addr) addr (ground arith)

lowest :
    (p : Pmm) (f : ℕ)
    → bitmap_test p.bytes 0 ≡ false
    → ((g : ℕ) → g < f → bitmap_test p.bytes g ≡ true)
    → f ≡ 0
lowest p f clear first = elim (Bool-cases (f == 0)) [
  | inl e ↦ ground arith
  | inr e ↦ let used = first 0 (ground arith) in cc
]

-- If frame 0 of a valid allocator is in use and address 0 is freed, the next allocation takes frame
-- 0: it returns 0, as for failure, though a frame was free and was taken.
pub alloc_frame-free_zero :
    (p : Pmm)
    → IsValid p
    → IsUsed p 0
    → (0 < (free_frame p 0).free_frames)
      × ((alloc_frame (free_frame p 0)).0 ≡ 0)
      × ((alloc_frame (free_frame p 0)).1.free_frames ≡ p.free_frames)
alloc_frame-free_zero p v used =
    let same = free_frame-freed p 0 used in
    let valid = free_frame-IsValid p 0 v in
    let (bits, count) = free_frame_effect p 0 v used in
    let open_frame = bits 0 in
    elim (allocation valid (rw same used.0)) [
      | inl (empty, e, full) ↦ absurd (omega arith)
      | inr (f, inside, clear, first, e) ↦
          let here : f ≡ 0 = lowest (free_frame p 0) f (ground arith) first in
          let addr = take_frame-address valid f inside clear in
          let fewer = take_frame-free_frames valid f inside clear in
          rw e (omega arith, omega arith, omega arith)
    ]
