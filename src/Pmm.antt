-- ===== src/Pmm.antt =====
-- kernel/pmm.c: the physical frame allocator. The bitmap is the list of the bytes that
-- `pmm_bitmap` points to. The memory map is the list of the entries that the loops
-- `for (entry_addr = entries_start; ...)` visit; printing is left out.
mod Tests
pub mod Bitmap
pub mod Count
pub mod Alloc
pub mod Free
pub mod Ranges
pub mod Region
pub mod Init
use my_os.Prelude.{
  ℕ, zero, suc, ◌+◌, ◌-◌, ◌*◌, ◌/◌, ◌%◌, Bool, true, false, not, List, [], ◌∷◌, Option, none, some,
  add64, u64_mod, ltb, leb, ◌==◌, if◌then◌else◌,
}
use my_os.Utils.{align_up_u64, align_down_u64, max_u64, ranges_overlap}
use Bitmap.{bitmap_set, bitmap_clear, bitmap_test}

abbrev pub page_size : ℕ
page_size = 4096

abbrev pub min_usable_addr : ℕ
min_usable_addr = 0x0010_0000

-- The static variables. `bitmap` is the pointer, `bytes` what it points to.
pub record Pmm : Type 0 where
  pub bitmap : ℕ
  pub bytes : List ℕ
  pub total_frames : ℕ
  pub free_frames : ℕ

-- `for (frame = f; frame < last_frame; frame++)` over `n` rounds.
pub set_frames : List ℕ → ℕ → ℕ → List ℕ
set_frames bytes zero f = bytes
set_frames bytes (suc n) f = set_frames (bitmap_set bytes f) n (f + 1)

pub clear_frames : List ℕ → ℕ → ℕ → List ℕ
clear_frames bytes zero f = bytes
clear_frames bytes (suc n) f = clear_frames (bitmap_clear bytes f) n (f + 1)

-- `last_frame`, cut off at the number of frames.
abbrev pub clamp_frame : Pmm → ℕ → ℕ
clamp_frame p last_frame = if ltb p.total_frames last_frame then p.total_frames else last_frame

pub mark_range_used : Pmm → ℕ → ℕ → Pmm
unfolding set_frames
mark_range_used p start end =
    let start' = align_down_u64 start page_size in
    let end' = align_up_u64 end page_size in
    let first_frame = start' / page_size in
    let last_frame = clamp_frame p (end' / page_size) in
    if leb end' start'
    then p
    else record p { bytes = set_frames p.bytes (last_frame - first_frame) first_frame }

pub mark_range_free : Pmm → ℕ → ℕ → Pmm
unfolding clear_frames
mark_range_free p start end =
    let start' = align_up_u64 start page_size in
    let end' = align_down_u64 end page_size in
    let first_frame = start' / page_size in
    let last_frame = clamp_frame p (end' / page_size) in
    if leb end' start'
    then p
    else record p { bytes = clear_frames p.bytes (last_frame - first_frame) first_frame }

-- The counting loop of `pmm_recount_free_frames`.
pub recount_loop : List ℕ → ℕ → ℕ → ℕ → ℕ
recount_loop bytes zero f count = count
recount_loop bytes (suc n) f count =
    recount_loop bytes n (f + 1) (if bitmap_test bytes f then count else add64 count 1)

pub recount_free_frames : Pmm → Pmm
unfolding recount_loop
recount_free_frames p = record p { free_frames = recount_loop p.bytes p.total_frames 0 0 }

-- The search of `pmm_alloc_frame`: the first clear frame of `n` frames from `f` on.
pub first_clear : List ℕ → ℕ → ℕ → Option ℕ
first_clear bytes zero f = none
first_clear bytes (suc n) f =
    let rest = first_clear bytes n (f + 1) in if bitmap_test bytes f then rest else some f

-- What the loop body does with the frame that it found.
pub take_frame : Pmm → ℕ → ℕ × Pmm
take_frame p frame =
    let fewer = if ltb 0 p.free_frames then p.free_frames - 1 else p.free_frames in
    (
      frame * page_size % u64_mod,
      record p { bytes = bitmap_set p.bytes frame; free_frames = fewer },
    )

unfoldable pub alloc_frame : Pmm → ℕ × Pmm
unfolding take_frame first_clear
alloc_frame p = if p.bitmap == 0 then (0, p) else elim (first_clear p.bytes p.total_frames 0) [
  | none ↦ (0, p)
  | some frame ↦ take_frame p frame
]

unfoldable pub free_frame : Pmm → ℕ → Pmm
free_frame p frame_addr =
    let frame = frame_addr / page_size in
    if p.bitmap == 0
    then p
    else if not (frame_addr % page_size == 0)
    then p
    else if leb p.total_frames frame
    then p
    else if bitmap_test p.bytes frame
    then record p { bytes = bitmap_clear p.bytes frame; free_frames = add64 p.free_frames 1 }
    else p

pub free_frame_count : Pmm → ℕ
free_frame_count p = p.free_frames

-- `reserved_range_t`, and the fields of `mb2_mmap_entry_t` that are read.
pub record Reserved : Type 0 where
  pub start : ℕ
  pub end : ℕ

pub record MmapEntry : Type 0 where
  pub addr : ℕ
  pub len : ℕ
  pub kind : ℕ

-- `start` and `end` of the usable part of an entry.
abbrev pub usable_start : MmapEntry → ℕ
usable_start entry = align_up_u64 (max_u64 entry.addr min_usable_addr) page_size

abbrev pub usable_end : MmapEntry → ℕ
usable_end entry = align_down_u64 (add64 entry.addr entry.len) page_size

pub max_usable_loop : List MmapEntry → ℕ → ℕ
max_usable_loop [] max_addr = max_addr
max_usable_loop (entry ∷ entries) max_addr = max_usable_loop entries (
    if not (entry.kind == 1)
    then max_addr
    else if leb (usable_end entry) (usable_start entry)
    then max_addr
    else if ltb max_addr (usable_end entry)
    then usable_end entry
    else max_addr)

pub find_max_usable_addr : List MmapEntry → ℕ
unfolding max_usable_loop
find_max_usable_addr entries = max_usable_loop entries 0

-- The `for` over the reserves: the first one that the candidate range meets.
pub collision : List Reserved → ℕ → ℕ → Option Reserved
collision [] from to = none
collision (r ∷ rs) from to =
    let rest = collision rs from to in if ranges_overlap from to r.start r.end then some r else rest

-- How the `while` over the candidates of one entry ends.
pub data Placement : Type 0 where
  placed : ℕ → Placement
  no_room : Placement
  out_of_fuel : Placement

pub place : ℕ → List Reserved → ℕ → ℕ → ℕ → Placement
place zero reserves size end cursor = out_of_fuel
place (suc fuel) reserves size end cursor = elim (leb (add64 cursor size) end) [
  | true ↦ elim (collision reserves cursor (add64 cursor size)) [
    | none ↦ placed cursor
    | some r ↦ place fuel reserves size end (align_up_u64 r.end page_size)
  ]
  | false ↦ no_room
]

-- Each reserve is met at most once, so one round more than there are reserves is enough.
abbrev pub place_fuel : List Reserved → ℕ
place_fuel [] = 1
place_fuel (r ∷ rs) = suc (place_fuel rs)

abbrev pub place_in : List Reserved → ℕ → MmapEntry → Placement
place_in reserves size entry =
    if not (entry.kind == 1)
    then no_room
    else if leb (usable_end entry) (usable_start entry)
    then no_room
    else place (place_fuel reserves) reserves size (usable_end entry) (usable_start entry)

-- The loop over the entries, up to the first place.
pub first_region : List MmapEntry → List Reserved → ℕ → Placement
first_region [] reserves size = no_room
first_region (entry ∷ entries) reserves size =
    let rest = first_region entries reserves size in
    elim (place_in reserves size entry) [
      | placed cursor ↦ placed cursor
      | no_room ↦ rest
      | out_of_fuel ↦ out_of_fuel
    ]

-- The address, or 0 where there is no room.
pub find_free_region : List MmapEntry → List Reserved → ℕ → ℕ
unfolding first_region
find_free_region entries reserves size =
    elim (first_region entries reserves (align_up_u64 size page_size)) [
      | placed cursor ↦ cursor
      | no_room ↦ 0
      | out_of_fuel ↦ 0
    ]

pub mark_available_regions_free : Pmm → List MmapEntry → Pmm
mark_available_regions_free p [] = p
mark_available_regions_free p (entry ∷ entries) =
    let marked = mark_range_free p (usable_start entry) (usable_end entry) in
    mark_available_regions_free (if not (entry.kind == 1) then p else marked) entries
