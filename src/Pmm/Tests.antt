-- ===== src/Pmm/Tests.antt =====
-- Examples on a bitmap of 16 frames, of which the first three are in use.
use my_os.Prelude.{ℕ, zero, suc, ◌<◌, ◌≡◌, refl, List, [], ◌∷◌, arith, get_or}
use my_os.Pmm.{Pmm, Reserved, MmapEntry, alloc_frame, free_frame, find_free_region}
use my_os.Pmm.Bitmap.{IsBitmap, bitmap_test}
use my_os.Pmm.Count.{count_clear}
use my_os.Pmm.Alloc.{IsValid, Allocates, alloc_frame-Allocates, free_frame-alloc_frame}
use my_os.Pmm.Free.{IsUsed, alloc_frame-free_zero}
use my_os.Pmm.Region.{Finds, find_free_region-Holds}

abbrev memory : Pmm
memory = record { bitmap = 1048576; bytes = 7 ∷ 0 ∷ []; total_frames = 16; free_frames = 13 }

memory_bytes : (i : ℕ) → get_or memory.bytes i 0 < 256
memory_bytes zero = omega arith
memory_bytes (suc zero) = omega arith
memory_bytes (suc (suc i)) = omega arith

memory-IsBitmap : IsBitmap 16 memory.bytes
memory-IsBitmap = record { covers = omega arith; are_bytes = memory_bytes }

memory-IsValid : IsValid memory
unfolding count_clear bitmap_test
memory-IsValid = record { bits = memory-IsBitmap; addressable = omega arith; counted = refl }

memory-IsUsed_0 : IsUsed memory 0
unfolding bitmap_test
memory-IsUsed_0 = (omega arith, refl, omega arith, refl)

memory-IsUsed : IsUsed memory 4096
unfolding bitmap_test
memory-IsUsed = (omega arith, refl, omega arith, refl)

alloc_frame-Allocates_example : Allocates memory (alloc_frame memory)
alloc_frame-Allocates_example = alloc_frame-Allocates memory-IsValid (omega arith)

free_frame-alloc_frame_example : free_frame (alloc_frame memory).1 (alloc_frame memory).0 ≡ memory
free_frame-alloc_frame_example = free_frame-alloc_frame memory-IsValid (omega arith) (omega arith)

alloc_frame-free_zero_example :
    (0 < (free_frame memory 0).free_frames)
    × ((alloc_frame (free_frame memory 0)).0 ≡ 0)
    × ((alloc_frame (free_frame memory 0)).1.free_frames ≡ 13)
alloc_frame-free_zero_example = alloc_frame-free_zero memory memory-IsValid memory-IsUsed_0

abbrev map_entries : List MmapEntry
map_entries =
    record { addr = 0; len = 654336; kind = 1 }
    ∷ record { addr = 1048576; len = 133169152; kind = 1 }
    ∷ []

abbrev kernel_reserve : List Reserved
kernel_reserve = record { start = 1048576; end = 2097152 } ∷ []

find_free_region-Holds_example :
    Finds map_entries kernel_reserve 4064 (find_free_region map_entries kernel_reserve 4064)
find_free_region-Holds_example =
    find_free_region-Holds map_entries kernel_reserve 4064 (omega arith, (omega arith, tt))
      (omega arith, tt) (omega arith)
