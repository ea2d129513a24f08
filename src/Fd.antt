-- ===== src/Fd.antt =====
-- kernel/fd.c: the table of 32 file descriptors. A node is what a `vfs_node_t*` points to, by its
-- address and its type; what `vfs_lookup` finds and what `vfs_read` and `vfs_write` return, both of
-- kernel/vfs.c, are arguments. Each critical section of `fd_lock` is one step.
pub mod Table
mod Tests
use my_os.Prelude.{
  ℕ, zero, suc, ◌+◌, Bool, true, false, not, ◌||◌, ◌&&◌, List, [], ◌∷◌, Option, none, some, add64,
  ltb, leb, ◌==◌, if◌then◌else◌, length, get_or, set,
}

abbrev pub fd_table_size : ℕ
fd_table_size = 32

-- `fd_type_t`.
pub data FdType : Type 0 where
  unused console vfs_node : FdType

-- `vfs_node_type_t`.
pub data NodeType : Type 0 where
  unknown file dir device : NodeType

pub record Node : Type 0 where
  pub address : ℕ
  pub node_type : NodeType

-- `fd_entry_t`; a null `object` is `none`.
pub record FdEntry : Type 0 where
  pub used : Bool
  pub fd_type : FdType
  pub object : Option Node
  pub offset : ℕ
  pub readable : Bool
  pub writable : Bool

-- What `fd_clear_entry` writes.
abbrev pub clear_entry : FdEntry
clear_entry = record {
  used = false;
  fd_type = unused;
  object = none;
  offset = 0;
  readable = false;
  writable = false;
}

abbrev pub vfs_entry : Node → Bool → Bool → FdEntry
vfs_entry node readable writable = record {
  used = true;
  fd_type = vfs_node;
  object = some node;
  offset = 0;
  readable = readable;
  writable = writable;
}

abbrev pub console_entry : Bool → Bool → FdEntry
console_entry readable writable = record {
  used = true;
  fd_type = console;
  object = none;
  offset = 0;
  readable = readable;
  writable = writable;
}

abbrev pub clear_entries : ℕ → List FdEntry
clear_entries zero = []
clear_entries (suc n) = clear_entry ∷ clear_entries n

-- `fd_init`, given what `vfs_lookup("/dev/tty0")` finds.
unfoldable pub fd_init : Option Node → List FdEntry
fd_init (some tty0) =
    vfs_entry tty0 true false
    ∷ vfs_entry tty0 false true
    ∷ vfs_entry tty0 false true
    ∷ clear_entries 29
fd_init none =
    console_entry false false
    ∷ console_entry false true
    ∷ console_entry false true
    ∷ clear_entries 29

abbrev pub entry_at : List FdEntry → ℕ → FdEntry
entry_at table fd = get_or table fd clear_entry

-- The loop of `fd_alloc_locked` over `n` entries from `i` on: the first that is not used.
unfoldable pub first_unused : List FdEntry → ℕ → ℕ → Option ℕ
first_unused table zero i = none
first_unused table (suc n) i =
    let rest = first_unused table n (i + 1) in if not (entry_at table i).used then some i else rest

abbrev pub is_openable : NodeType → Bool
is_openable file = true
is_openable device = true
is_openable _ = false

-- `fd_open`, given what `vfs_lookup` finds for the path, or `none` for a null path; `none` is -1.
unfoldable pub fd_open : Option Node → List FdEntry → Option ℕ × List FdEntry
fd_open none table = (none, table)
fd_open (some node) table =
    if not (is_openable node.node_type) then (none, table) else elim (first_unused table 29 3) [
      | none ↦ (none, table)
      | some fd ↦ (some fd, set table fd (vfs_entry node true true))
    ]

-- `fd_close` for a descriptor that is not negative; `false` is -1.
unfoldable pub fd_close : ℕ → List FdEntry → Bool × List FdEntry
fd_close fd table =
    if leb fd_table_size fd
    then (false, table)
    else if (fd == 0) || (fd == 1) || (fd == 2)
    then (false, table)
    else if not (entry_at table fd).used
    then (false, table)
    else (true, set table fd clear_entry)

abbrev is_file : NodeType → Bool
is_file file = true
is_file _ = false

abbrev same_object : Option Node → Node → Bool
same_object none node = false
same_object (some o) node = o.address == node.address

-- The second critical section of `fd_read` and `fd_write`: the entry may have changed meanwhile.
unfoldable pub advance : ℕ → Node → ℕ → List FdEntry → List FdEntry
advance fd node moved table =
    let entry = entry_at table fd in
    if not (is_file node.node_type)
    then table
    else if entry.used && same_object entry.object node
    then set table fd (record entry { offset = add64 entry.offset moved })
    else table

-- The first critical section of `fd_read`: a copy of the entry, or -1. The flag tells whether the
-- buffer is not null.
unfoldable pub read_entry : ℕ → Bool → ℕ → List FdEntry → Option FdEntry
read_entry fd has_buffer size table =
    let entry = entry_at table fd in
    if leb fd_table_size fd || not has_buffer || (size == 0)
    then none
    else if not entry.used || not entry.readable
    then none
    else some entry

unfoldable pub write_entry : ℕ → Bool → ℕ → List FdEntry → Option FdEntry
write_entry fd has_buffer size table =
    let entry = entry_at table fd in
    if leb fd_table_size fd || not has_buffer || (size == 0)
    then none
    else if not entry.used || not entry.writable
    then none
    else some entry

-- `fd_read` with no step of another task between its critical sections. `transfer node offset
-- size` is what `vfs_read` returns; `none` is -1.
unfoldable pub fd_read : (Node → ℕ → ℕ → ℕ) → ℕ → Bool → ℕ → List FdEntry → Option ℕ × List FdEntry
unfolding advance
fd_read transfer fd has_buffer size table = elim (read_entry fd has_buffer size table) [
  | none ↦ (none, table)
  | some entry ↦ elim entry.fd_type [
    | unused ↦ (none, table)
    | console ↦ (none, table)
    | vfs_node ↦ elim entry.object [
      | none ↦ (none, table)
      | some node ↦
          let moved = transfer node entry.offset size in (some moved, advance fd node moved table)
    ]
  ]
]

unfoldable pub fd_write : (Node → ℕ → ℕ → ℕ) → ℕ → Bool → ℕ → List FdEntry → Option ℕ × List FdEntry
unfolding advance
fd_write transfer fd has_buffer size table = elim (write_entry fd has_buffer size table) [
  | none ↦ (none, table)
  | some entry ↦ elim entry.fd_type [
    | unused ↦ (none, table)
    | console ↦ (some size, table)
    | vfs_node ↦ elim entry.object [
      | none ↦ (none, table)
      | some node ↦
          let moved = transfer node entry.offset size in (some moved, advance fd node moved table)
    ]
  ]
]

-- The loop of `fd_count_used`.
unfoldable pub count_used : List FdEntry → ℕ
count_used [] = 0
count_used (entry ∷ rest) = if entry.used then suc (count_used rest) else count_used rest
