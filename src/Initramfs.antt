-- ===== src/Initramfs.antt =====
-- kernel/initramfs.c: the tar archive of the initial files, loaded into the tree of Vfs. The archive
-- is the list of its bytes; a buffer of characters is the list in front of its NUL. A pointer to a
-- node is the list of the positions of the children on the way from the root. `grants` tells of the
-- calls of the allocator, in their order, whether they succeed; reading past the end of the archive,
-- which is undefined, finds nothing here.
pub mod Octal
pub mod Ends
pub mod Load
pub mod Paths
mod Tests
use my_os.Prelude.{
  ℕ, zero, suc, ◌+◌, ◌-◌, ◌*◌, ◌/◌, ◌%◌, ◌^◌, Bool, true, false, not, ◌&&◌, ◌||◌, List, [], ◌∷◌,
  ◌++◌, Option, none, some, add32, add64, u64_mod, ltb, leb, ◌==◌, if◌then◌else◌, take, drop,
  length, get_or,
}
use my_os.Fd.{NodeType}
use my_os.Vfs.{
  VfsNode, Children, NodeInfo, vfs_node, no_child, with_child, info, first_child, is_dir,
  vfs_name_max, find_in, str_equal, ramfs_create_dir, ramfs_create_file_from_buffer,
}

abbrev pub tar_block_size : ℕ
tar_block_size = 512

abbrev pub tar_name_size : ℕ
tar_name_size = 100

abbrev pub tar_prefix_size : ℕ
tar_prefix_size = 155

abbrev pub initramfs_path_max : ℕ
initramfs_path_max = 160

-- The static variables but `archive_bytes`, the length of the archive; the root of the tree and its next
-- number, and the number of calls of the allocator so far.
pub record Initramfs : Type 0 where
  pub loaded_files : ℕ
  pub loaded_dirs : ℕ
  pub loaded_bytes : ℕ
  pub root : VfsNode
  pub next_node_id : ℕ
  pub asked : ℕ

abbrev pub str_copy_limit : List ℕ → ℕ → List ℕ
str_copy_limit src dst_size = take (dst_size - 1) src

unfoldable pub append_char : List ℕ → ℕ → ℕ → Option (List ℕ)
append_char dst dst_size c = if leb dst_size (length dst + 1) then none else some (dst ++ (c ∷ []))

unfoldable pub append_field : List ℕ → ℕ → List ℕ → Option (List ℕ)
append_field dst dst_size [] = some dst
append_field dst dst_size (c ∷ field) =
    let rest : Option (List ℕ) = elim (append_char dst dst_size c) [
      | none ↦ none
      | some longer ↦ append_field longer dst_size field
    ] in
    if c == 0 then some dst else rest

-- `size` bytes of the archive from an offset on.
abbrev pub bytes_at : List ℕ → ℕ → ℕ → List ℕ
bytes_at archive offset size = take size (drop offset archive)

unfoldable pub all_zero : List ℕ → Bool
all_zero [] = true
all_zero (b ∷ block) = let rest = all_zero block in if b == 0 then rest else false

-- The loop of `tar_parse_octal` from a value on.
unfoldable pub parse_octal : ℕ → List ℕ → ℕ
parse_octal value [] = value
parse_octal value (c ∷ field) =
    let skipped = parse_octal value field in
    let rest = parse_octal (add64 (value * 8 % u64_mod) (c - 48)) field in
    if (c == 0) || (c == 32) then value else if ltb c 48 || ltb 55 c then skipped else rest

abbrev pub tar_parse_octal : List ℕ → ℕ
tar_parse_octal field = parse_octal 0 field

unfoldable pub align_tar_size : ℕ → ℕ
align_tar_size size = add64 size (tar_block_size - 1) / tar_block_size * tar_block_size

-- The part of `tar_get_raw_path` that puts the prefix in front.
unfoldable pub put_prefix : List ℕ → ℕ → Option (List ℕ)
put_prefix prefix out_size =
    let behind : Option (List ℕ) = elim (append_field [] out_size prefix) [
      | none ↦ none
      | some dir ↦ append_char dir out_size 47
    ] in
    if get_or prefix 0 0 == 0 then some [] else behind

-- The part behind it.
unfoldable pub put_name : List ℕ → ℕ → List ℕ → Option (List ℕ)
put_name name out_size dir = elim (append_field dir out_size name) [
  | none ↦ none
  | some path ↦ if ltb 0 (length path) then some path else none
]

-- `tar_get_raw_path` of the header at an offset; `none` is a failure.
unfoldable pub tar_get_raw_path : List ℕ → ℕ → ℕ → Option (List ℕ)
tar_get_raw_path archive header out_size =
    elim (put_prefix (bytes_at archive (header + 345) tar_prefix_size) out_size) [
      | none ↦ none
      | some dir ↦ put_name (bytes_at archive header tar_name_size) out_size dir
    ]

-- The first loop of `normalize_path`.
unfoldable pub skip_slashes : List ℕ → List ℕ
skip_slashes [] = []
skip_slashes (c ∷ rest) = let later = skip_slashes rest in if c == 47 then later else c ∷ rest

unfoldable pub skip_dot_slash : List ℕ → List ℕ
skip_dot_slash [] = []
skip_dot_slash (c ∷ []) = c ∷ []
skip_dot_slash (c ∷ d ∷ rest) = if (c == 46) && (d == 47) then rest else c ∷ d ∷ rest

-- The last loop of `normalize_path`: the path without the slashes at its end.
unfoldable pub trim_slashes : List ℕ → List ℕ
trim_slashes [] = []
trim_slashes (c ∷ rest) = elim (trim_slashes rest) [
  | [] ↦ if c == 47 then [] else c ∷ []
  | d ∷ trimmed ↦ c ∷ d ∷ trimmed
]

unfoldable pub normalize_path : List ℕ → ℕ → Option (List ℕ)
normalize_path raw out_size =
    let p = skip_dot_slash (skip_slashes raw) in
    let out = trim_slashes (str_copy_limit p out_size) in
    if str_equal p (46 ∷ []) then none else if ltb 0 (length out) then some out else none

-- The node that a pointer points to, and the tree in which it is replaced.
unfoldable pub child_at : Children → ℕ → Option VfsNode
child_at no_child n = none
child_at (with_child c rest) zero = some c
child_at (with_child c rest) (suc n) = child_at rest n

unfoldable pub set_child : Children → ℕ → VfsNode → Children
set_child no_child n node = no_child
set_child (with_child c rest) zero node = with_child node rest
set_child (with_child c rest) (suc n) node = with_child c (set_child rest n node)

unfoldable pub node_at : VfsNode → List ℕ → Option VfsNode
node_at root [] = some root
node_at root (n ∷ ns) = elim (child_at (first_child root) n) [ none ↦ none | some c ↦ node_at c ns ]

unfoldable pub set_node : VfsNode → List ℕ → VfsNode → VfsNode
set_node root [] node = node
set_node root (n ∷ ns) node = elim (child_at (first_child root) n) [
  | none ↦ root
  | some c ↦ vfs_node (info root) (set_child (first_child root) n (set_node c ns node))
]

unfoldable pub count_of : Children → ℕ
count_of no_child = 0
count_of (with_child c rest) = suc (count_of rest)

-- The position of the first child of a name.
unfoldable pub position_in : List ℕ → Children → Option ℕ
position_in name no_child = none
position_in name (with_child c rest) =
    let later : Option ℕ = elim (position_in name rest) [ none ↦ none | some n ↦ some (suc n) ] in
    if str_equal (info c).name name then some 0 else later

-- `find_child`, from the node that a pointer points to.
unfoldable pub find_child : VfsNode → List ℕ → Option ℕ
find_child parent name = position_in name (first_child parent)

abbrev pub copy_component : ℕ → List ℕ → List ℕ
copy_component out_size component = take (out_size - 1) component

unfoldable pub attach : ℕ → List (List ℕ) → List (List ℕ)
attach c [] = (c ∷ []) ∷ []
attach c (component ∷ later) = (c ∷ component) ∷ later

-- The components that the loop of `ensure_dir_path` takes off a path, one after the other.
unfoldable pub split_path : List ℕ → List (List ℕ)
split_path [] = []
split_path (c ∷ []) = if c == 47 then [] else (c ∷ []) ∷ []
split_path (c ∷ d ∷ rest) =
    let later = split_path (d ∷ rest) in
    if c == 47 then later else if d == 47 then (c ∷ []) ∷ later else attach c later

abbrev pub is_directory : Option VfsNode → Bool
is_directory none = false
is_directory (some node) = is_dir (info node).node_type

-- The end of a round of `ensure_dir_path`: a child that is no directory ends the loop.
abbrev pub if_directory : Initramfs → List ℕ → Option (List ℕ) × Initramfs
if_directory s at = (if is_directory (node_at s.root at) then some at else none, s)

-- A round of the loop of `ensure_dir_path`, at a node and a component of the path.
unfoldable pub enter_component :
    (ℕ → Bool) → List ℕ → List ℕ → Initramfs → Option (List ℕ) × Initramfs
enter_component grants component at s =
    let name = copy_component vfs_name_max component in
    elim (node_at s.root at) [
      | none ↦ (none, s)
      | some current ↦
          let (created, parent, next) =
            ramfs_create_dir (grants s.asked) (some current) name s.next_node_id in
          let tree : VfsNode = elim parent [ none ↦ s.root | some p ↦ set_node s.root at p ] in
          let counted : Initramfs = record s {
            loaded_dirs = add32 s.loaded_dirs 1;
            root = tree;
            next_node_id = next;
            asked = s.asked + 1;
          } in
          elim (find_child current name) [
            | some n ↦ if_directory s (at ++ (n ∷ []))
            | none ↦ elim created [
              | none ↦ (none, counted)
              | some child ↦ if_directory counted (at ++ (count_of (first_child current) ∷ []))
            ]
          ]
    ]

unfoldable pub ensure_components :
    (ℕ → Bool) → List (List ℕ) → List ℕ → Initramfs → Option (List ℕ) × Initramfs
ensure_components grants [] at s = (some at, s)
ensure_components grants (component ∷ later) at s =
    let (child, s') = enter_component grants component at s in
    elim child [ none ↦ (none, s') | some below ↦ ensure_components grants later below s' ]

abbrev pub ensure_dir_path : (ℕ → Bool) → List ℕ → Initramfs → Option (List ℕ) × Initramfs
ensure_dir_path grants path s = ensure_components grants (split_path path) [] s

-- What stands before and behind the last slash.
unfoldable pub split_last : List ℕ → Option (List ℕ × List ℕ)
split_last [] = none
split_last (c ∷ rest) = elim (split_last rest) [
  | none ↦ if c == 47 then some ([], rest) else none
  | some (dir, base) ↦ some (c ∷ dir, base)
]

-- The parent, the name of the file, and the state behind it.
unfoldable pub ensure_parent_dir_for_file :
    (ℕ → Bool) → List ℕ → Initramfs → Option (List ℕ) × List ℕ × Initramfs
ensure_parent_dir_for_file grants path s = elim (split_last path) [
  | none ↦ (if length path == 0 then none else some [], str_copy_limit path vfs_name_max, s)
  | some (dir, base) ↦
      let (parent, s') = ensure_dir_path grants (copy_component initramfs_path_max dir) s in
      (parent, copy_component vfs_name_max base, s')
]

unfoldable pub load_dir_entry : (ℕ → Bool) → List ℕ → Initramfs → Initramfs
load_dir_entry grants path s =
    let (at, s') = ensure_dir_path grants path s in if length path == 0 then s else s'

-- The end of `load_file_entry`: the file is created below a node.
unfoldable pub create_file : (ℕ → Bool) → List ℕ → List ℕ → List ℕ → ℕ → Initramfs → Initramfs
create_file grants at basename buffer size s = elim (node_at s.root at) [
  | none ↦ s
  | some parent ↦
      let (created, parent', next) =
        ramfs_create_file_from_buffer (grants s.asked) (grants (s.asked + 1)) (some parent) basename
          buffer s.next_node_id in
      let tree : VfsNode = elim parent' [ none ↦ s.root | some p ↦ set_node s.root at p ] in
      let loaded : Initramfs = record s {
        root = tree;
        next_node_id = next;
        asked = s.asked + (if grants s.asked && ltb 0 size then 2 else 1);
      } in
      elim (find_child parent basename) [
        | some n ↦ s
        | none ↦ elim created [
          | none ↦ loaded
          | some file ↦ record loaded {
            loaded_files = add32 s.loaded_files 1;
            loaded_bytes = add64 s.loaded_bytes size;
          }
        ]
      ]
]

-- The part of `load_file_entry` behind `ensure_parent_dir_for_file`.
unfoldable pub load_below :
    (ℕ → Bool) → List ℕ → ℕ → Option (List ℕ) × List ℕ × Initramfs → Initramfs
load_below grants buffer size (none, basename, s) = s
load_below grants buffer size (some at, basename, s) =
    if length basename == 0 then s else create_file grants at basename buffer size s

unfoldable pub load_file_entry : (ℕ → Bool) → List ℕ → List ℕ → ℕ → Initramfs → Initramfs
load_file_entry grants path buffer size s =
    if length path == 0
    then s
    else load_below grants buffer size (ensure_parent_dir_for_file grants path s)

-- A round of the loop of `initramfs_load` whose header has a path: its entry, and how far it reaches.
unfoldable pub load_entry : (ℕ → Bool) → List ℕ → ℕ → List ℕ → Initramfs → ℕ × Initramfs
load_entry grants archive offset raw_path s =
    let file_size = tar_parse_octal (bytes_at archive (offset + 124) 12) in
    let typeflag = get_or archive (offset + 156) 0 in
    let buffer = bytes_at archive (offset + tar_block_size) file_size in
    (
      add64 tar_block_size (align_tar_size file_size),
      elim (normalize_path raw_path initramfs_path_max) [
        | none ↦ s
        | some path ↦
            if typeflag == 53
            then load_dir_entry grants path s
            else if (typeflag == 0) || (typeflag == 48)
            then load_file_entry grants path buffer file_size s
            else s
      ],
    )

-- The loop of `initramfs_load`; `none` is that the fuel ran out.
unfoldable pub load_loop : (ℕ → Bool) → List ℕ → ℕ → ℕ → Initramfs → Option Initramfs
load_loop grants archive zero offset s = none
load_loop grants archive (suc fuel) offset s =
    let rest : Option Initramfs = elim (tar_get_raw_path archive offset initramfs_path_max) [
      | none ↦ load_loop grants archive fuel (add64 offset tar_block_size) s
      | some raw_path ↦
          let (reach, s') = load_entry grants archive offset raw_path s in
          load_loop grants archive fuel (add64 offset reach) s'
    ] in
    if ltb (length archive) (add64 offset tar_block_size)
    then some s
    else if all_zero (bytes_at archive offset tar_block_size)
    then some s
    else rest

unfoldable pub initramfs_load : (ℕ → Bool) → List ℕ → ℕ → Initramfs → Option Initramfs
initramfs_load grants archive fuel s =
    load_loop grants archive fuel 0
      (record s { loaded_files = 0; loaded_dirs = 0; loaded_bytes = 0 })
