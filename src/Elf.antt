-- ===== src/Elf.antt =====
-- kernel/elf.c: the loader. A file is the list of its bytes; the fields of the packed structures
-- are read from it in little-endian order. A file of the VFS is an argument, with the number of
-- bytes that `vfs_read` returns; memory comes from kernel/heap.c, and what is copied into a segment
-- is kept in its field `contents`. A failing load clears the image without freeing its segments.
pub mod Contents
pub mod Image
pub mod Load
mod Tests
use my_os.Prelude.{
  ℕ, zero, suc, ◌+◌, ◌-◌, ◌*◌, ◌%◌, Bool, true, false, not, ◌&&◌, ◌||◌, List, [], ◌∷◌, ◌++◌, Option,
  none, some, add32, add64, u64_mod, ltb, leb, ◌==◌, if◌then◌else◌, length, get_or, take, drop,
  replicate,
}
use my_os.Heap.{Foreign, Heap, Paging, kmalloc, kfree}

abbrev pub elf_max_loaded_segments : ℕ
elf_max_loaded_segments = 8

-- `sizeof(elf64_ehdr_t)` and `sizeof(elf64_phdr_t)`.
abbrev pub ehdr_size : ℕ
ehdr_size = 64

abbrev pub phdr_size : ℕ
phdr_size = 56

-- The number in the `n` bytes at `offset`.
unfoldable pub field_at : List ℕ → ℕ → ℕ → ℕ
field_at file offset zero = 0
field_at file offset (suc n) = get_or file offset 0 + 256 * field_at file (offset + 1) n

-- The fields of `elf64_ehdr_t` that are read.
abbrev pub e_type : List ℕ → ℕ
e_type file = field_at file 16 2

abbrev pub e_machine : List ℕ → ℕ
e_machine file = field_at file 18 2

abbrev pub e_version : List ℕ → ℕ
e_version file = field_at file 20 4

abbrev pub e_entry : List ℕ → ℕ
e_entry file = field_at file 24 8

abbrev pub e_phoff : List ℕ → ℕ
e_phoff file = field_at file 32 8

abbrev pub e_phentsize : List ℕ → ℕ
e_phentsize file = field_at file 54 2

abbrev pub e_phnum : List ℕ → ℕ
e_phnum file = field_at file 56 2

-- `elf64_phdr_t`, without the fields that are never read.
pub record Phdr : Type 0 where
  pub p_type : ℕ
  pub p_flags : ℕ
  pub p_offset : ℕ
  pub p_vaddr : ℕ
  pub p_filesz : ℕ
  pub p_memsz : ℕ

abbrev pub phdr_at : List ℕ → ℕ → Phdr
phdr_at file at = record {
  p_type = field_at file at 4;
  p_flags = field_at file (at + 4) 4;
  p_offset = field_at file (at + 8) 8;
  p_vaddr = field_at file (at + 16) 8;
  p_filesz = field_at file (at + 32) 8;
  p_memsz = field_at file (at + 40) 8;
}

-- `elf_loaded_segment_t`, with what `memory` points to.
pub record LoadedSegment : Type 0 where
  pub vaddr : ℕ
  pub memsz : ℕ
  pub filesz : ℕ
  pub flags : ℕ
  pub memory : ℕ
  pub contents : List ℕ

-- `elf_loaded_image_t`; `segments` are the first `segment_count` entries.
pub record LoadedImage : Type 0 where
  pub valid : Bool
  pub entry : ℕ
  pub segment_count : ℕ
  pub total_memory : ℕ
  pub segments : List LoadedSegment

abbrev pub elf_clear_image : LoadedImage
elf_clear_image = record {
  valid = false;
  entry = 0;
  segment_count = 0;
  total_memory = 0;
  segments = [];
}

unfoldable pub elf_range_ok : ℕ → ℕ → ℕ → Bool
elf_range_ok offset size file_size =
    if ltb file_size offset then false else if ltb (file_size - offset) size then false else true

unfoldable pub elf_validate_header : List ℕ → Bool
elf_validate_header file =
    let byte = λ (i : ℕ). get_or file i 0 in
    let all_phdr_size = e_phentsize file * e_phnum file % u64_mod in
    if ltb (length file) ehdr_size
    then false
    else if not (byte 0 == 0x7F) || not (byte 1 == 69) || not (byte 2 == 76) || not (byte 3 == 70)
    then false
    else if not (byte 4 == 2)
    then false
    else if not (byte 5 == 1)
    then false
    else if not (byte 6 == 1)
    then false
    else if not (e_type file == 2) && not (e_type file == 3)
    then false
    else if not (e_machine file == 62)
    then false
    else if not (e_version file == 1)
    then false
    else if not (e_phentsize file == phdr_size)
    then false
    else if e_phnum file == 0
    then false
    else if not (elf_range_ok (e_phoff file) all_phdr_size (length file))
    then false
    else true

-- What `mem_zero` and `mem_copy` leave in the memory of a segment.
abbrev pub segment_contents : List ℕ → Phdr → List ℕ
segment_contents file phdr =
    take phdr.p_filesz (drop phdr.p_offset file) ++ replicate (phdr.p_memsz - phdr.p_filesz) 0

abbrev pub add_segment : List ℕ → Phdr → ℕ → LoadedImage → LoadedImage
add_segment file phdr memory image =
    let segment : LoadedSegment = record {
      vaddr = phdr.p_vaddr;
      memsz = phdr.p_memsz;
      filesz = phdr.p_filesz;
      flags = phdr.p_flags;
      memory = memory;
      contents = segment_contents file phdr;
    } in
    record image {
      segments = image.segments ++ (segment ∷ []);
      segment_count = add32 image.segment_count 1;
      total_memory = add64 image.total_memory phdr.p_memsz;
    }

-- What one round of the loop does with the image: it goes on, with this memory, or fails.
abbrev pub is_skipped : Phdr → Bool
is_skipped phdr = not (phdr.p_type == 1) || (phdr.p_memsz == 0)

abbrev pub is_refused : List ℕ → Phdr → LoadedImage → Bool
is_refused file phdr image =
    ltb phdr.p_memsz phdr.p_filesz
    || not (elf_range_ok phdr.p_offset phdr.p_filesz (length file))
    || leb elf_max_loaded_segments image.segment_count

module _ {W : Type 0} (paging : Paging W) where
  -- The loop of `elf_load_from_path`, `n` rounds from `i` on; `none` is a failure, behind which the
  -- file's buffer is freed and the image cleared.
  unfoldable pub load_segments :
      ℕ → ℕ → List ℕ → LoadedImage → W × Heap → Option LoadedImage × W × Heap
  load_segments zero i file image (w, h) = (some image, w, h)
  load_segments (suc n) i file image (w, h) =
      let phdr = phdr_at file (e_phoff file + i * e_phentsize file) in
      let (memory, w', h') = kmalloc paging phdr.p_memsz (w, h) in
      let skipped = load_segments n (i + 1) file image (w, h) in
      let added = load_segments n (i + 1) file (add_segment file phdr memory image) (w', h') in
      if is_skipped phdr
      then skipped
      else if is_refused file phdr image
      then (none, w, h)
      else if memory == 0
      then (none, w', h')
      else added

module _ {W : Type 0} (paging : Paging W) (foreign : Foreign) where
  -- `elf_load_from_path` behind the reading of the file, whose buffer is at `buffer`.
  unfoldable pub load_file : List ℕ → ℕ → W × Heap → Bool × LoadedImage × W × Heap
  load_file file buffer (w, h) =
      let start : LoadedImage = record elf_clear_image { entry = e_entry file } in
      let (loaded, w', h') = load_segments paging (e_phnum file) 0 file start (w, h) in
      if not (elf_validate_header file)
      then (false, elf_clear_image, w, kfree foreign buffer h)
      else elim loaded [
        | none ↦ (false, elf_clear_image, w', kfree foreign buffer h')
        | some image ↦ (true, record image { valid = true }, w', kfree foreign buffer h')
      ]

  -- `read_file_to_memory`, given the file that `vfs_lookup` finds and what `vfs_read` returns.
  unfoldable pub read_file_to_memory :
      Option (List ℕ) → ℕ → W × Heap → Option (ℕ × List ℕ) × W × Heap
  read_file_to_memory none read (w, h) = (none, w, h)
  read_file_to_memory (some file) read (w, h) =
      let (buffer, w', h') = kmalloc paging (length file) (w, h) in
      if length file == 0
      then (none, w, h)
      else if buffer == 0
      then (none, w', h')
      else if not (read == length file)
      then (none, w', kfree foreign buffer h')
      else (some (buffer, file), w', h')

  unfoldable pub elf_load_from_path : Option (List ℕ) → ℕ → W × Heap → Bool × LoadedImage × W × Heap
  elf_load_from_path found read s =
      let (file, w, h) = read_file_to_memory found read s in
      elim file [
        | none ↦ (false, elf_clear_image, w, h)
        | some (buffer, bytes) ↦ load_file bytes buffer (w, h)
      ]
