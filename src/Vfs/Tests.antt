-- ===== src/Vfs/Tests.antt =====
-- kernel/vfs.c: sample runs on the tree of `ramfs_init`.
use my_os.Prelude.{ℕ, ◌≡◌, refl, List, [], ◌∷◌, some, none, arith}
use my_os.Fd.{NodeType}
use my_os.Ramfs.{empty_file}
use my_os.Vfs.{
  VfsNode, vfs_node, info, with_child, no_child, no_ops, ramfs_alloc_node, vfs_find_child,
  vfs_lookup, lookup_loop, skip_separators, read_component, find_in, str_equal, append_child,
  vfs_count_nodes, count_nodes_recursive,
}
use my_os.Vfs.Components.{components}
use my_os.Vfs.Lookup.{follow, vfs_lookup-follow}

abbrev dev_name : List ℕ
dev_name = 100 ∷ 101 ∷ 118 ∷ []

abbrev dev_node : VfsNode
dev_node = ramfs_alloc_node 2 dev_name NodeType.dir empty_file no_ops

-- The root with the directory "dev".
abbrev root_with_dev : VfsNode
root_with_dev =
    vfs_node (info (ramfs_alloc_node 1 [] NodeType.dir empty_file no_ops))
      (with_child dev_node no_child)

vfs_lookup-follow_example :
    vfs_lookup 9 (some root_with_dev) (47 ∷ 47 ∷ dev_name)
    ≡ some (follow root_with_dev (components (47 ∷ 47 ∷ dev_name)))
vfs_lookup-follow_example = vfs_lookup-follow 9 root_with_dev (47 ∷ dev_name) (omega arith)

-- The name "a" is new.
no_a : vfs_find_child root_with_dev (97 ∷ []) ≡ none
unfolding vfs_find_child find_in str_equal append_child
no_a = refl

abbrev two_bytes : List ℕ
two_bytes = 5 ∷ 6 ∷ []

-- "//dev/" is the directory.
dev_run :
    vfs_lookup 9 (some root_with_dev) (47 ∷ 47 ∷ 100 ∷ 101 ∷ 118 ∷ 47 ∷ []) ≡ some (some dev_node)
unfolding vfs_lookup lookup_loop skip_separators read_component vfs_find_child find_in str_equal
    append_child
dev_run = refl

count_run : vfs_count_nodes (some root_with_dev) ≡ 2
unfolding vfs_count_nodes count_nodes_recursive append_child
count_run = refl
