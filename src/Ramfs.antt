-- ===== src/Ramfs.antt =====
-- kernel/ramfs.c: the data of a file of the memory file system. The bytes that `data` points to are
-- the list `bytes`, of `capacity` entries, and a null pointer is the empty list. A buffer is the
-- list of its `size` bytes. `offset + size` wraps around; copying outside the memory, which the C
-- code does not exclude then, is undefined there and leaves no bytes here.
pub mod File
mod Tests
use my_os.Prelude.{
  ℕ, zero, suc, ◌+◌, ◌-◌, Bool, true, false, not, List, [], ◌∷◌, add64, ltb, leb, ◌==◌,
  if◌then◌else◌, length, set, take, drop, replicate,
}

-- The fields of `vfs_node_t` that a file reads and writes.
pub record RamFile : Type 0 where
  pub bytes : List ℕ
  pub size : ℕ
  pub capacity : ℕ

abbrev pub empty_file : RamFile
empty_file = record { bytes = []; size = 0; capacity = 0 }

-- `ramfs_memcpy` to the address of the byte `at` of `dst`.
unfoldable pub ramfs_memcpy : List ℕ → ℕ → List ℕ → List ℕ
ramfs_memcpy dst at [] = dst
ramfs_memcpy dst at (b ∷ src) = ramfs_memcpy (set dst at b) (at + 1) src

-- What is read into the buffer.
unfoldable pub ramfs_read : RamFile → ℕ → ℕ → List ℕ
ramfs_read f offset size =
    let available = f.size - offset in
    let to_read = if ltb available size then available else size in
    if size == 0 then [] else if leb f.size offset then [] else take to_read (drop offset f.bytes)

-- The larger memory that `ramfs_write` moves the bytes to.
unfoldable pub grow_file : ℕ → RamFile → RamFile
grow_file end f =
    let new_capacity = if ltb end 64 then 64 else end in
    let new_data = replicate new_capacity 0 in
    record f {
      bytes = if f.size == 0 then new_data else ramfs_memcpy new_data 0 (take f.size f.bytes);
      capacity = new_capacity;
    }

-- The end of `ramfs_write`.
unfoldable pub store_bytes : ℕ → List ℕ → RamFile → RamFile
store_bytes offset buffer f =
    let end = add64 offset (length buffer) in
    record f {
      bytes = ramfs_memcpy f.bytes offset buffer;
      size = if ltb f.size end then end else f.size;
    }

-- `has_memory` tells whether `kmalloc` succeeds.
unfoldable pub ramfs_write : Bool → RamFile → ℕ → List ℕ → ℕ × RamFile
ramfs_write has_memory f offset buffer =
    let size = length buffer in
    let end = add64 offset size in
    if size == 0
    then (0, f)
    else if not (ltb f.capacity end)
    then (size, store_bytes offset buffer f)
    else if not has_memory
    then (0, f)
    else (size, store_bytes offset buffer (grow_file end f))

-- The data of `ramfs_create_file_from_buffer`; `none` is a failure.
unfoldable pub file_from_buffer : Bool → List ℕ → Bool × RamFile
file_from_buffer has_memory buffer =
    let size = length buffer in
    if size == 0
    then (true, empty_file)
    else if not has_memory
    then (false, empty_file)
    else (true, record { bytes = buffer; size = size; capacity = size })
