-- ===== src/Vfs.antt =====
-- kernel/vfs.c and the nodes of kernel/ramfs.c: the tree of nodes. A node stands with what is
-- reached from it: the chain from `first_child` through `next_sibling` is `Children`, so that a
-- `vfs_node_t*` that is only read is the tree below it. `parent`, which nothing here reads, is left
-- out. Names and paths are the lists of their characters in front of the NUL.
pub mod Components
pub mod Lookup
pub mod Create
mod Tests
use my_os.Prelude.{
  ℕ, zero, suc, ◌+◌, Bool, true, false, not, ◌&&◌, ◌||◌, List, [], ◌∷◌, Option, none, some, add32,
  ltb, leb, ◌==◌, if◌then◌else◌, take, length,
}
use my_os.Fd.{NodeType}
use my_os.Ramfs.{RamFile, empty_file, ramfs_read, ramfs_write, file_from_buffer}

abbrev pub vfs_name_max : ℕ
vfs_name_max = 32

-- The functions `read` and `write` of a node: none, those of kernel/ramfs.c, or those of a device,
-- by their addresses.
pub data NodeOps : Type 0 where
  no_ops ram_ops : NodeOps
  device_ops : ℕ → ℕ → NodeOps

-- `vfs_node_t` without its links.
pub record NodeInfo : Type 0 where
  pub id : ℕ
  pub name : List ℕ
  pub node_type : NodeType
  pub contents : RamFile
  pub ops : NodeOps

mutual
  pub data VfsNode : Type 0 where
    vfs_node : NodeInfo → Children → VfsNode

  pub data Children : Type 0 where
    no_child : Children
    with_child : VfsNode → Children → Children

abbrev pub info : VfsNode → NodeInfo
info (vfs_node i children) = i

abbrev pub first_child : VfsNode → Children
first_child (vfs_node i children) = children

abbrev pub is_dir : NodeType → Bool
is_dir NodeType.dir = true
is_dir _ = false

abbrev pub is_file_or_device : NodeType → Bool
is_file_or_device NodeType.file = true
is_file_or_device NodeType.device = true
is_file_or_device _ = false

unfoldable pub str_equal : List ℕ → List ℕ → Bool
str_equal [] [] = true
str_equal [] (y ∷ b) = false
str_equal (x ∷ a) [] = false
str_equal (x ∷ a) (y ∷ b) = let rest = str_equal a b in if x == y then rest else false

abbrev pub path_is_separator : ℕ → Bool
path_is_separator c = c == 47

-- The loop of `vfs_find_child`.
unfoldable pub find_in : List ℕ → Children → Option VfsNode
find_in name no_child = none
find_in name (with_child current rest) =
    let later = find_in name rest in
    if str_equal (info current).name name then some current else later

unfoldable pub vfs_find_child : VfsNode → List ℕ → Option VfsNode
vfs_find_child d name =
    if not (is_dir (info d).node_type) then none else find_in name (first_child d)

-- The first inner loop of `vfs_lookup`.
unfoldable pub skip_separators : List ℕ → List ℕ
skip_separators [] = []
skip_separators (c ∷ rest) =
    let later = skip_separators rest in if path_is_separator c then later else c ∷ rest

-- The second inner loop: the component and the path behind it; `none` is a component that is too
-- long.
unfoldable pub read_component : ℕ → List ℕ → Option (List ℕ × List ℕ)
read_component component_len [] = some ([], [])
read_component component_len (c ∷ rest) =
    let later = read_component (component_len + 1) rest in
    if path_is_separator c
    then some ([], c ∷ rest)
    else if leb vfs_name_max (component_len + 1)
    then none
    else elim later [ none ↦ none | some (component, behind) ↦ some (c ∷ component, behind) ]

-- The loop of `vfs_lookup`; an outer `none` means that the fuel ran out.
unfoldable pub lookup_loop : ℕ → VfsNode → List ℕ → Option (Option VfsNode)
lookup_loop zero current path = none
lookup_loop (suc fuel) current path = elim (skip_separators path) [
  | [] ↦ some (some current)
  | c ∷ rest ↦ elim (read_component 0 (c ∷ rest)) [
    | none ↦ some none
    | some (component, behind) ↦ elim (vfs_find_child current component) [
      | none ↦ some none
      | some child ↦ lookup_loop fuel child behind
    ]
  ]
]

unfoldable pub vfs_lookup : ℕ → Option VfsNode → List ℕ → Option (Option VfsNode)
vfs_lookup fuel none path = some none
vfs_lookup fuel (some root_node) [] = some none
vfs_lookup fuel (some root_node) (c ∷ rest) =
    let found = lookup_loop fuel root_node (c ∷ rest) in if not (c == 47) then some none else found

-- `device_read` is what the function of a device at an address returns.
unfoldable pub vfs_read : (ℕ → ℕ → ℕ → List ℕ) → Option VfsNode → ℕ → ℕ → List ℕ
vfs_read device_read none offset size = []
vfs_read device_read (some n) offset size =
    if size == 0
    then []
    else if not (is_file_or_device (info n).node_type)
    then []
    else elim (info n).ops [
      | no_ops ↦ []
      | ram_ops ↦ ramfs_read (info n).contents offset size
      | device_ops read write ↦ if read == 0 then [] else device_read read offset size
    ]

-- The number of bytes written and the node behind it; `device_write` is what the function of a
-- device at an address returns.
unfoldable pub vfs_write :
    (ℕ → ℕ → List ℕ → ℕ) → Bool → Option VfsNode → ℕ → List ℕ → ℕ × Option VfsNode
vfs_write device_write has_memory none offset buffer = (0, none)
vfs_write device_write has_memory (some n) offset buffer =
    let (written, contents) = ramfs_write has_memory (info n).contents offset buffer in
    if length buffer == 0
    then (0, some n)
    else if not (is_file_or_device (info n).node_type)
    then (0, some n)
    else elim (info n).ops [
      | no_ops ↦ (0, some n)
      | ram_ops ↦
          (written, some (vfs_node (record (info n) { contents = contents }) (first_child n)))
      | device_ops read write ↦
          if write == 0 then (0, some n) else (device_write write offset buffer, some n)
    ]

unfoldable mutual
  pub count_nodes_recursive : VfsNode → ℕ
  count_nodes_recursive (vfs_node i children) = count_children 1 children

  -- The loop of `count_nodes_recursive`, from a count on.
  pub count_children : ℕ → Children → ℕ
  count_children count no_child = count
  count_children count (with_child child rest) =
      count_children (add32 count (count_nodes_recursive child)) rest

unfoldable pub vfs_count_nodes : Option VfsNode → ℕ
vfs_count_nodes none = 0
vfs_count_nodes (some root_node) = count_nodes_recursive root_node

-- kernel/ramfs.c.
abbrev pub ramfs_copy_name : List ℕ → List ℕ
ramfs_copy_name src = take 31 src

-- The walk of `ramfs_add_child` along the siblings.
unfoldable pub append_child : Children → VfsNode → Children
append_child no_child child = with_child child no_child
append_child (with_child current rest) child = with_child current (append_child rest child)

abbrev pub ramfs_add_child : VfsNode → VfsNode → VfsNode
ramfs_add_child (vfs_node i children) child = vfs_node i (append_child children child)

-- A new node, without children, under the number `next_node_id`.
abbrev pub ramfs_alloc_node : ℕ → List ℕ → NodeType → RamFile → NodeOps → VfsNode
ramfs_alloc_node next_node_id name node_type contents ops =
    vfs_node
      (record {
        id = next_node_id;
        name = ramfs_copy_name name;
        node_type = node_type;
        contents = contents;
        ops = ops;
      })
      no_child

unfoldable pub enter_child : Option VfsNode → VfsNode → Option VfsNode
enter_child none child = none
enter_child (some parent) child = some (ramfs_add_child parent child)

-- The functions that create a node return it, its parent with it entered, and `next_node_id`. The
-- flags tell whether the allocations succeed.
unfoldable pub ramfs_create_dir :
    Bool → Option VfsNode → List ℕ → ℕ → Option VfsNode × Option VfsNode × ℕ
ramfs_create_dir has_node parent name next_node_id =
    let node = ramfs_alloc_node next_node_id name NodeType.dir empty_file no_ops in
    if not has_node
    then (none, parent, next_node_id)
    else (some node, enter_child parent node, add32 next_node_id 1)

unfoldable pub ramfs_create_file_from_buffer :
    Bool → Bool → Option VfsNode → List ℕ → List ℕ → ℕ → Option VfsNode × Option VfsNode × ℕ
ramfs_create_file_from_buffer has_node has_memory parent name buffer next_node_id =
    let (filled, contents) = file_from_buffer has_memory buffer in
    let node = ramfs_alloc_node next_node_id name NodeType.file contents ram_ops in
    if not has_node
    then (none, parent, next_node_id)
    else if not filled
    then (none, parent, add32 next_node_id 1)
    else (some node, enter_child parent node, add32 next_node_id 1)

unfoldable pub ramfs_create_device :
    Bool → Option VfsNode → List ℕ → ℕ → ℕ → ℕ → Option VfsNode × Option VfsNode × ℕ
ramfs_create_device has_node parent name read write next_node_id =
    let node =
      ramfs_alloc_node next_node_id name NodeType.device empty_file (device_ops read write) in
    if not has_node
    then (none, parent, next_node_id)
    else (some node, enter_child parent node, add32 next_node_id 1)

-- The root that `ramfs_init` leaves, and `next_node_id`.
unfoldable pub ramfs_init : Bool → Bool → Bool → Option VfsNode × ℕ
ramfs_init has_root has_dev has_tmp =
    let (root, no_parent, next) = ramfs_create_dir has_root none [] 1 in
    let (dev, with_dev, next') = ramfs_create_dir has_dev root (100 ∷ 101 ∷ 118 ∷ []) next in
    let (tmp, with_both, next'') = ramfs_create_dir has_tmp with_dev (116 ∷ 109 ∷ 112 ∷ []) next' in
    elim root [ none ↦ (none, next) | some r ↦ (with_both, next'') ]
