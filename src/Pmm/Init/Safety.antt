-- ===== src/Pmm/Init/Safety.antt =====
-- kernel/pmm.c, pmm_init: the frames that are free at boot.
use my_os.Prelude.{
  ℕ, zero, suc, ◌+◌, ◌/◌, add64, ◌%◌, ◌^◌, ◌≤◌, ◌<◌, ◌≡◌, refl, ap, ◌∙◌, some, ◌≢◌, ◌⊎◌, inl, inr,
  true, false, List, [], ◌∷◌, arith, All, Any, all_below, all_below-apply, get_or, replicate,
  length-replicate,
}
use my_os.Utils.{align_up_u64}
use my_os.Pmm.{
  Pmm, page_size, Reserved, MmapEntry, max_usable_loop, find_max_usable_addr, recount_free_frames,
}
use my_os.Pmm.Bitmap.{bitmap_test, test_in, IsBitmap}
use my_os.Pmm.Alloc.{IsValid, recount_free_frames-IsValid}
use my_os.Pmm.Ranges.{page_up, page_down}
use my_os.Pmm.Region.{phys_limit, Fits, usable_bounds, Holds, find_free_region-Holds}
use my_os.Pmm.Init.Marked.{
  PageIn, Marked, Apart, mark_used-Marked, Marked-mono, mark_available-Marked, bitmap-mark_used,
  bitmap-mark_available,
}
use my_os.Pmm.Init.{
  Boot, kernel_range, mb2_range, low_range, base_reserves, total_frames_of, bitmap_bytes_of,
  bitmap_range, all_used, marked_memory, init_from, init,
}

max_usable_loop-le :
    (entries : List MmapEntry) (m : ℕ)
    → All Fits entries
    → m ≤ phys_limit
    → max_usable_loop entries m ≤ phys_limit
unfolding max_usable_loop
max_usable_loop-le [] m fits h = h
max_usable_loop-le (entry ∷ entries) m fits h =
    let bounds = usable_bounds entry fits.0 in max_usable_loop-le entries _ fits.1 (ground arith)

total_frames_of-le :
    (entries : List MmapEntry) → All Fits entries → total_frames_of entries ≤ 2 ^ 40
unfolding total_frames_of find_max_usable_addr
total_frames_of-le entries fits =
    let most = max_usable_loop-le entries 0 fits (omega arith) in
    let up = page_up (max_usable_loop entries 0) (omega arith) in omega arith

get_or-replicate_lt : (n v i : ℕ) → v < 256 → get_or (replicate n v) i 0 < 256
get_or-replicate_lt zero v i h = omega arith
get_or-replicate_lt (suc n) v zero h = h
get_or-replicate_lt (suc n) v (suc i) h = get_or-replicate_lt n v i h

get_or-replicate_in : (n v i : ℕ) → i < n → get_or (replicate n v) i 0 ≡ v
get_or-replicate_in zero v i h = absurd (omega arith)
get_or-replicate_in (suc n) v zero h = refl
get_or-replicate_in (suc n) v (suc i) h = get_or-replicate_in n v i (omega arith)

full_byte : all_below 8 (λ j. test_in 0xFF j) ≡ true
unfolding all_below
full_byte = refl

module _ (p : Pmm) (b : Boot) (entries : List MmapEntry) (fits : All Fits entries) where
  few : bitmap_bytes_of entries ≡ (total_frames_of entries + 7) / 8
  unfolding bitmap_bytes_of
  few = omega (arith, total_frames_of-le entries fits)

  all_used-IsBitmap : IsBitmap (all_used p b entries).total_frames (all_used p b entries).bytes
  unfolding all_used
  all_used-IsBitmap = record {
    covers = omega (arith, few, length-replicate {A = ℕ} (bitmap_bytes_of entries) 0xFF);
    are_bytes = λ i. get_or-replicate_lt (bitmap_bytes_of entries) 0xFF i (omega arith);
  }

  all_used-bits :
      (g : ℕ)
      → g < (all_used p b entries).total_frames
      → bitmap_test (all_used p b entries).bytes g ≡ true
  unfolding all_used bitmap_test
  all_used-bits g h =
      rw (get_or-replicate_in (bitmap_bytes_of entries) 0xFF (g / 8) (omega (arith, few)))
        (all_below-apply 8 _ (g % 8) full_byte (omega arith))

init-some :
    (p : Pmm) (b : Boot) (entries : List MmapEntry)
    → b.mmap ≡ some entries
    → init p b ≡ init_from p b entries
unfolding init
init-some p b entries e = ground arith

-- The memory map, the kernel image and the boot information end inside the physical address space.
pub record BootFits (b : Boot) (entries : List MmapEntry) : Type 0 where
  pub map_fits : All Fits entries
  pub kernel_fits : (b.kernel_start ≤ phys_limit) × (b.kernel_end ≤ phys_limit)
  pub mb2_fits : b.mb2_info_addr + b.mb2_total_size ≤ phys_limit

-- What holds of a frame that is free in the allocator `q` after boot: its page touches neither the
-- first megabyte nor a byte of the kernel image, of the boot information or of the bitmap.
abbrev pub FreeAtBoot : Boot → List MmapEntry → Pmm → ℕ → Type 0
FreeAtBoot b entries q g =
    Any (PageIn g) entries
    × Apart (record { start = 0; end = 0x0010_0000 }) g
    × Apart (record { start = b.kernel_start; end = b.kernel_end }) g
    × Apart (record { start = b.mb2_info_addr; end = b.mb2_info_addr + b.mb2_total_size }) g
    × Apart (record { start = q.bitmap; end = q.bitmap + (q.total_frames + 7) / 8 }) g

-- The same by the ranges of whole pages that are marked.
abbrev FreePages : Boot → List MmapEntry → ℕ → Type 0
FreePages b entries g =
    Any (PageIn g) entries
    × Apart low_range g
    × Apart (kernel_range b) g
    × Apart (mb2_range b) g
    × Apart (bitmap_range b entries) g

-- A frame that lies apart from a range lies apart from what is in it.
Apart-within : (r s : Reserved) (g : ℕ) → r.start ≤ s.start → s.end ≤ r.end → Apart r g → Apart s g
Apart-within r s g below above (inl h) = inl (omega arith)
Apart-within r s g below above (inr h) = inr (omega arith)

module _ (b : Boot) (entries : List MmapEntry) (h : BootFits b entries) where
  kernel_range_bounds :
      ((kernel_range b).start ≤ b.kernel_start)
      × (b.kernel_end ≤ (kernel_range b).end)
      × ((kernel_range b).end ≤ phys_limit)
  unfolding kernel_range
  kernel_range_bounds =
      let (m, below, near) = page_down b.kernel_start (omega (arith, h.kernel_fits)) in
      let (m', above, near') = page_up b.kernel_end (omega (arith, h.kernel_fits)) in
      (omega arith, omega arith, omega (arith, h.kernel_fits))

  mb2_range_bounds :
      ((mb2_range b).start ≤ b.mb2_info_addr)
      × (b.mb2_info_addr + b.mb2_total_size ≤ (mb2_range b).end)
      × ((mb2_range b).end ≤ phys_limit)
  unfolding mb2_range
  mb2_range_bounds =
      let (m, below, near) = page_down b.mb2_info_addr (omega (arith, h.mb2_fits)) in
      let sum : add64 b.mb2_info_addr b.mb2_total_size ≡ b.mb2_info_addr + b.mb2_total_size =
        omega (arith, h.mb2_fits) in
      let (m', above, near') =
        page_up (add64 b.mb2_info_addr b.mb2_total_size) (omega (arith, h.mb2_fits)) in
      (omega arith, omega arith, omega (arith, h.mb2_fits))

Holds-le :
    (c size : ℕ) (entries : List MmapEntry)
    → All Fits entries
    → Any (Holds c size) entries
    → c + size ≤ phys_limit
Holds-le c size [] fits h = absurd h.1
Holds-le c size (entry ∷ entries) fits (inl h) = omega arith
Holds-le c size (entry ∷ entries) fits (inr h) = Holds-le c size entries fits.1 h

module _ (p : Pmm) (b : Boot) (entries : List MmapEntry) (h : BootFits b entries) where
  all_used-Marked : Marked (total_frames_of entries) (λ _. ⊥) (all_used p b entries)
  unfolding all_used
  all_used-Marked = record {
    size = refl;
    bits = all_used-IsBitmap p b entries h.map_fits;
    clear_only = λ g inside clear. let used = all_used-bits p b entries h.map_fits g inside in cc;
  }

  -- The bitmap itself is placed inside the physical address space.
  bitmap_fits :
      ((bitmap_range b entries).start ≤ phys_limit) × ((bitmap_range b entries).end ≤ phys_limit)
  unfolding bitmap_range
  bitmap_fits =
      let few_bytes = few p b entries h.map_fits in
      let few_frames = total_frames_of-le entries h.map_fits in
      let size = page_up (bitmap_bytes_of entries) (omega arith) in
      let bytes = align_up_u64 (bitmap_bytes_of entries) page_size in
      let (kernel_low, kernel_high, kernel_end) = kernel_range_bounds b entries h in
      let (mb2_low, mb2_high, mb2_end) = mb2_range_bounds b entries h in
      let region =
        find_free_region-Holds entries (base_reserves b) bytes h.map_fits
          (omega arith, (kernel_end, (mb2_end, tt))) (omega arith) in
      elim region [
        | inl (full, nothing) ↦ omega arith
        | inr (at, up, inside, clear) ↦ omega (arith, Holds-le _ _ entries h.map_fits inside)
      ]

  marked_memory-Marked :
      Marked (total_frames_of entries) (FreePages b entries) (marked_memory p b entries)
  unfolding marked_memory
  marked_memory-Marked =
      let total = total_frames_of entries in
      let (kernel_low, kernel_high, kernel_end) = kernel_range_bounds b entries h in
      let (mb2_low, mb2_high, mb2_end) = mb2_range_bounds b entries h in
      let start = all_used-Marked in
      let available = mark_available-Marked total _ _ entries h.map_fits start in
      let low = mark_used-Marked total _ _ low_range (omega arith) (omega arith) available in
      let kernel =
        mark_used-Marked total _ _ (kernel_range b) (omega (arith, h.kernel_fits))
          (omega (arith, h.kernel_fits)) low in
      let mb2 =
        mark_used-Marked total _ _ (mb2_range b) (omega (arith, h.mb2_fits))
          (omega (arith, h.mb2_fits)) kernel in
      let bitmap =
        mark_used-Marked total _ _ (bitmap_range b entries) (omega (arith, bitmap_fits))
          (omega (arith, bitmap_fits)) mb2 in
      Marked-mono total _ _ _ (λ g q. (usable g q.0.0.0.0, q.0.0.0.1, q.0.0.1, q.0.1, q.1)) bitmap
    where
      usable : (g : ℕ) → Any (PageIn g) entries ⊎ ⊥ → Any (PageIn g) entries
      usable g (inl i) = i
      usable g (inr e) = absurd e

  -- The range of the bitmap has room for its bytes.
  bitmap_range_end :
      (bitmap_range b entries).start + (total_frames_of entries + 7) / 8
      ≤ (bitmap_range b entries).end
  unfolding bitmap_range
  bitmap_range_end =
      let few_bytes = few p b entries h.map_fits in
      let few_frames = total_frames_of-le entries h.map_fits in
      let (m, above, near) = page_up (bitmap_bytes_of entries) (omega arith) in
      let fits = bitmap_fits in omega arith

  bitmap-marked_memory : (marked_memory p b entries).bitmap ≡ (bitmap_range b entries).start
  unfolding marked_memory all_used
  bitmap-marked_memory =
      bitmap-mark_used _ _ _
      ∙ bitmap-mark_used _ _ _
      ∙ bitmap-mark_used _ _ _
      ∙ bitmap-mark_used _ _ _
      ∙ bitmap-mark_available _ entries

  module _ (found : (bitmap_range b entries).start ≢ 0) where
    init_from-found : init_from p b entries ≡ recount_free_frames (marked_memory p b entries)
    unfolding init_from
    init_from-found = ground arith

    init_from-bitmap : (init_from p b entries).bitmap ≡ (bitmap_range b entries).start
    unfolding recount_free_frames
    init_from-bitmap = rw init_from-found (bitmap-marked_memory)

    init_from-IsValid : IsValid (init_from p b entries)
    init_from-IsValid =
        let few_frames = total_frames_of-le entries h.map_fits in
        let m = marked_memory-Marked in
        rw init_from-found
          (recount_free_frames-IsValid (marked_memory p b entries) m.bits (omega (arith, m.size)))

    init_from-free :
        (g : ℕ)
        → g < (init_from p b entries).total_frames
        → bitmap_test (init_from p b entries).bytes g ≡ false
        → FreeAtBoot b entries (init_from p b entries) g
    unfolding recount_free_frames
    init_from-free g inside clear =
        let m = marked_memory-Marked in
        let at = init_from-bitmap in
        let (kernel_low, kernel_high, kernel_end) = kernel_range_bounds b entries h in
        let (mb2_low, mb2_high, mb2_end) = mb2_range_bounds b entries h in
        let bytes_end = bitmap_range_end in
        let size : (init_from p b entries).total_frames ≡ (marked_memory p b entries).total_frames =
          ap (λ (q : Pmm). q.total_frames) init_from-found in
        let bytes : (init_from p b entries).bytes ≡ (marked_memory p b entries).bytes =
          ap (λ (q : Pmm). q.bytes) init_from-found in
        let (usable, low, kernel, mb2, bitmap) =
          m.clear_only g (omega (arith, m.size)) (ground arith) in
        (
          usable,
          low,
          Apart-within (kernel_range b) _ g kernel_low kernel_high kernel,
          Apart-within (mb2_range b) _ g mb2_low mb2_high mb2,
          Apart-within (bitmap_range b entries) _ g (omega arith) (omega (arith, m.size)) bitmap,
        )

module _ (p : Pmm) (b : Boot) (entries : List MmapEntry) (e : b.mmap ≡ some entries)
    (h : BootFits b entries) (found : (bitmap_range b entries).start ≢ 0) where
  -- Where the memory map, the kernel image and the boot information end inside the physical
  -- address space and a place for the bitmap is found, `pmm_init` leaves a valid allocator with a bitmap at that place.
  pub init-IsValid : IsValid (init p b) × ((init p b).bitmap ≡ (bitmap_range b entries).start)
  init-IsValid =
      rw (init-some p b entries e)
        (init_from-IsValid p b entries h found, init_from-bitmap p b entries h found)

  -- Where the memory map, the kernel image and the boot information end inside the physical
  -- address space and a place for the bitmap is found, a frame is free after boot only if its page
  -- lies in one usable entry of the map and touches neither the first megabyte nor a byte of the
  -- kernel image, of the boot information or of the bitmap.
  pub init-FreeAtBoot :
      (g : ℕ)
      → g < (init p b).total_frames
      → bitmap_test (init p b).bytes g ≡ false
      → FreeAtBoot b entries (init p b) g
  init-FreeAtBoot = rw (init-some p b entries e) (init_from-free p b entries h found)
