-- ===== src/Pmm/Init/Tests.antt =====
-- An example of a boot with 272 pages below the end of its one usable entry.
use my_os.Prelude.{◌≡◌, ◌≢◌, refl, false, arith, List, [], ◌∷◌, some}
use my_os.Utils.{align_up_u64, align_down_u64, ranges_overlap}
use my_os.Pmm.Init.Safety.{BootFits, FreeAtBoot, init-FreeAtBoot}
use my_os.Pmm.Bitmap.{bitmap_set, bitmap_clear, bitmap_test}
use my_os.Pmm.{
  Pmm, mark_range_used, mark_range_free, mark_available_regions_free, recount_free_frames,
  set_frames, clear_frames, first_region, find_max_usable_addr, max_usable_loop, place, collision,
  MmapEntry, find_free_region,
}
use my_os.Pmm.Init.{
  Boot, bitmap_range, bitmap_bytes_of, total_frames_of, kernel_range, mb2_range, init, init_from,
  marked_memory, all_used,
}

abbrev pc_entries : List MmapEntry
pc_entries = record { addr = 1048576; len = 65536; kind = 1 } ∷ []

abbrev pc_boot : Boot
pc_boot = record {
  kernel_start = 1048576;
  kernel_end = 1060000;
  mb2_info_addr = 36864;
  mb2_total_size = 1000;
  mmap = some pc_entries;
}

abbrev before_boot : Pmm
before_boot = record { bitmap = 0; bytes = []; total_frames = 0; free_frames = 0 }

pc_found : (bitmap_range pc_boot pc_entries).start ≡ 1060864
unfolding bitmap_range bitmap_bytes_of total_frames_of find_free_region first_region
    find_max_usable_addr max_usable_loop place kernel_range mb2_range align_up_u64 align_down_u64
    ranges_overlap collision
pc_found = refl

pc_BootFits : BootFits pc_boot pc_entries
pc_BootFits = record {
  map_fits = (omega arith, tt);
  kernel_fits = (omega arith, omega arith);
  mb2_fits = omega arith;
}

pc_placed : (bitmap_range pc_boot pc_entries).start ≢ 0
pc_placed = omega (arith, pc_found)

booted_frames : (init before_boot pc_boot).total_frames ≡ 272
unfolding bitmap_range bitmap_bytes_of total_frames_of find_free_region first_region
    find_max_usable_addr max_usable_loop place kernel_range mb2_range align_up_u64 align_down_u64
    ranges_overlap collision init init_from marked_memory all_used mark_range_used mark_range_free
    mark_available_regions_free recount_free_frames
booted_frames = refl

booted_clear : bitmap_test (init before_boot pc_boot).bytes 264 ≡ false
unfolding bitmap_range bitmap_bytes_of total_frames_of find_free_region first_region
    find_max_usable_addr max_usable_loop place kernel_range mb2_range align_up_u64 align_down_u64
    ranges_overlap collision init init_from marked_memory all_used mark_range_used mark_range_free
    mark_available_regions_free recount_free_frames set_frames clear_frames bitmap_set bitmap_clear
    bitmap_test
booted_clear = refl

init-FreeAtBoot_example : FreeAtBoot pc_boot pc_entries (init before_boot pc_boot) 264
init-FreeAtBoot_example =
    init-FreeAtBoot before_boot pc_boot pc_entries refl pc_BootFits pc_placed 264
      (omega (arith, booted_frames)) booted_clear
