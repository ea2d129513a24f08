-- ===== src/Initramfs/Tests.antt =====
-- kernel/initramfs.c: examples.
use my_os.Prelude.{
  ℕ, ◌≡◌, refl, true, List, [], ◌∷◌, none, some, length, replicate, length-replicate, arith,
}
use my_os.Fd.{NodeType}
use my_os.Vfs.{ramfs_alloc_node, no_ops, vfs_find_child, find_in}
use my_os.Ramfs.{empty_file}
use my_os.Initramfs.{Initramfs, load_file_entry, tar_get_raw_path, normalize_path, initramfs_load}
use my_os.Initramfs.Ends.{initramfs_load-Ends}
use my_os.Initramfs.Load.{Loaded, load_file_entry-Loaded}
use my_os.Initramfs.Paths.{IsRawPath, Normal, paths-Fit}

abbrev start : Initramfs
start = record {
  loaded_files = 0;
  loaded_dirs = 0;
  loaded_bytes = 0;
  root = ramfs_alloc_node 1 [] NodeType.dir empty_file no_ops;
  next_node_id = 2;
  asked = 0;
}

-- `a` in front of zeros: a header without contents.
abbrev archive : List ℕ
archive = 97 ∷ replicate 1023 0

archive-length : length archive ≡ 1024
archive-length = omega (arith, length-replicate {A = ℕ} 1023 0)

initramfs_load-Ends_example :
    (s : Initramfs) × (initramfs_load (λ n. true) archive 3 start ≡ some s)
initramfs_load-Ends_example =
    initramfs_load-Ends (λ n. true) archive (omega (arith, archive-length)) start 3
      (omega (arith, archive-length))

paths-Fit_example :
    IsRawPath 160 (tar_get_raw_path archive 0 160)
    × Normal 160 (normalize_path (46 ∷ 47 ∷ 97 ∷ 47 ∷ []) 160)
paths-Fit_example = paths-Fit archive (46 ∷ 47 ∷ 97 ∷ 47 ∷ []) 0 160 (omega arith)

new_name : vfs_find_child start.root (97 ∷ []) ≡ none
unfolding vfs_find_child find_in
new_name = refl

load_file_entry-Loaded_example :
    Loaded
      (97 ∷ [])
      (1 ∷ 2 ∷ 3 ∷ [])
      9
      (λ read offset size. [])
      start
      (load_file_entry (λ n. true) (97 ∷ []) (1 ∷ 2 ∷ 3 ∷ []) 3 start)
load_file_entry-Loaded_example =
    load_file_entry-Loaded (λ n. true) (97 ∷ []) (1 ∷ 2 ∷ 3 ∷ []) 9 (λ read offset size. []) start
      (omega arith) (omega arith) (refl, tt) refl (omega arith) (omega arith) refl refl new_name
