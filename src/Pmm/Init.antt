-- ===== src/Pmm/Init.antt =====
-- kernel/pmm.c: pmm_init, from the memory map to the free-frame counter.
mod Tests
pub mod Marked
pub mod Safety
use my_os.Prelude.{
  ℕ, zero, suc, ◌+◌, ◌-◌, ◌*◌, ◌/◌, ◌%◌, ◌^◌, ◌≤◌, ◌<◌, ◌≡◌, refl, ◌≢◌, ◌⊎◌, inl, inr, Bool, true,
  false, not, List, [], ◌∷◌, Option, none, some, arith, leb, ltb, ◌==◌, ◌&&◌, if◌then◌else◌,
  Bool-cases, add64, u64_mod, All, Any, all_below, all_below-apply, length, get_or, replicate,
  length-replicate,
}
use my_os.Utils.{align_up_u64, align_down_u64}
use my_os.Pmm.{
  Pmm, page_size, min_usable_addr, Reserved, MmapEntry, usable_start, usable_end,
  find_max_usable_addr, find_free_region, mark_range_used, mark_range_free,
  mark_available_regions_free, recount_free_frames,
}

-- What the boot loader and the linker script hand over: `__kernel_start`, `__kernel_end`, the
-- Multiboot2 information with its size, and its memory map, if it has one.
pub record Boot : Type 0 where
  pub kernel_start : ℕ
  pub kernel_end : ℕ
  pub mb2_info_addr : ℕ
  pub mb2_total_size : ℕ
  pub mmap : Option (List MmapEntry)

pub kernel_range : Boot → Reserved
kernel_range b = record {
  start = align_down_u64 b.kernel_start page_size;
  end = align_up_u64 b.kernel_end page_size;
}

pub mb2_range : Boot → Reserved
mb2_range b = record {
  start = align_down_u64 b.mb2_info_addr page_size;
  end = align_up_u64 (add64 b.mb2_info_addr b.mb2_total_size) page_size;
}

abbrev pub low_range : Reserved
low_range = record { start = 0; end = min_usable_addr }

abbrev pub base_reserves : Boot → List Reserved
base_reserves b = low_range ∷ kernel_range b ∷ mb2_range b ∷ []

pub total_frames_of : List MmapEntry → ℕ
total_frames_of entries = align_up_u64 (find_max_usable_addr entries) page_size / page_size

pub bitmap_bytes_of : List MmapEntry → ℕ
bitmap_bytes_of entries = add64 (total_frames_of entries) 7 / 8

pub bitmap_range : Boot → List MmapEntry → Reserved
bitmap_range b entries =
    let size = align_up_u64 (bitmap_bytes_of entries) page_size in
    let start = find_free_region entries (base_reserves b) size in
    record { start = start; end = add64 start size }

-- The bitmap at its place, every byte 0xFF.
pub all_used : Pmm → Boot → List MmapEntry → Pmm
all_used p b entries = record p {
  bitmap = (bitmap_range b entries).start;
  bytes = replicate (bitmap_bytes_of entries) 0xFF;
  total_frames = total_frames_of entries;
}

abbrev mark_reserved : Pmm → Reserved → Pmm
mark_reserved p r = mark_range_used p r.start r.end

-- The bitmap after the usable entries are marked free and the kernel's ranges used.
pub marked_memory : Pmm → Boot → List MmapEntry → Pmm
marked_memory p b entries =
    let available = mark_available_regions_free (all_used p b entries) entries in
    let low = mark_reserved available low_range in
    let kernel = mark_reserved low (kernel_range b) in
    let mb2 = mark_reserved kernel (mb2_range b) in mark_reserved mb2 (bitmap_range b entries)

pub init_from : Pmm → Boot → List MmapEntry → Pmm
init_from p b entries =
    if (bitmap_range b entries).start == 0
    then record p { total_frames = total_frames_of entries }
    else recount_free_frames (marked_memory p b entries)

pub init : Pmm → Boot → Pmm
init p b = elim b.mmap [ none ↦ p | some entries ↦ init_from p b entries ]
