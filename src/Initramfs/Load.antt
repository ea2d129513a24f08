-- ===== src/Initramfs/Load.antt =====
-- kernel/initramfs.c: load_file_entry of a file in the root directory, and vfs_lookup.
use my_os.Prelude.{
  ℕ, ◌+◌, ◌<◌, ◌≡◌, refl, sym, ◌∙◌, subst, inl, inr, Bool, true, false, ◌&&◌, List, [], ◌∷◌, none,
  some, add32, add64, u64_mod, arith, length, ltb, ◌==◌, if◌then◌else◌, Bool-cases,
}
use my_os.Fd.{NodeType}
use my_os.Ramfs.{file_from_buffer}
use my_os.Vfs.{
  VfsNode, Children, no_child, with_child, info, first_child, is_dir, find_in, str_equal,
  vfs_find_child, vfs_lookup, vfs_read, ramfs_add_child, ramfs_alloc_node, ram_ops,
}
use my_os.Vfs.Create.{HasNoSeparator, take_all, created, child_looked_up, child_reads}
use my_os.Initramfs.{
  Initramfs, position_in, find_child, node_at, set_node, split_last, ensure_parent_dir_for_file,
  create_file, load_below, load_file_entry,
}

split_last-none : (name : List ℕ) → HasNoSeparator name → split_last name ≡ none
unfolding split_last
split_last-none [] one = refl
split_last-none (c ∷ name) one = rw (split_last-none name one.1, one.0) refl

position_in-none :
    (name : List ℕ) (children : Children)
    → find_in name children ≡ none
    → position_in name children ≡ none
unfolding position_in find_in
position_in-none name no_child h = refl
position_in-none name (with_child c rest) h = elim (Bool-cases (str_equal (info c).name name)) [
  | inl here ↦ absurd (let never = rw here at h in cc)
  | inr other ↦ rw (other, position_in-none name rest (rw other at h)) refl
]

find_child-none :
    (d : VfsNode) (name : List ℕ)
    → is_dir (info d).node_type ≡ true
    → vfs_find_child d name ≡ none
    → find_child d name ≡ none
unfolding find_child vfs_find_child
find_child-none d name directory fresh =
    position_in-none name (first_child d) (rw directory at fresh)

-- What is found of a file that was loaded.
abbrev pub Loaded : List ℕ → List ℕ → ℕ → (ℕ → ℕ → ℕ → List ℕ) → Initramfs → Initramfs → Type 0
Loaded name buffer fuel device_read s s' =
    (n : VfsNode) × (vfs_lookup fuel (some s'.root) (47 ∷ name) ≡ some (some n))
    × (vfs_read device_read (some n) 0 (length buffer) ≡ buffer)
    × (s'.loaded_files ≡ add32 s.loaded_files 1)
    × (s'.loaded_bytes ≡ add64 s.loaded_bytes (length buffer))
    × (s'.loaded_dirs ≡ s.loaded_dirs)

module _ (grants : ℕ → Bool) (name buffer : List ℕ) (fuel : ℕ) (device_read : ℕ → ℕ → ℕ → List ℕ)
    (s : Initramfs) (some_length : 0 < length name) (short : length name < 32)
    (one : HasNoSeparator name) (root_dir : is_dir (info s.root).node_type ≡ true)
    (enough : length name + 1 < fuel) (small : length buffer < u64_mod)
    (has_node : grants s.asked ≡ true) (has_data : grants (s.asked + 1) ≡ true) where
  abbrev new : VfsNode
  new = ramfs_alloc_node s.next_node_id name NodeType.file (file_from_buffer true buffer).1 ram_ops

  parent_root : ensure_parent_dir_for_file grants name s ≡ (some [], name, s)
  unfolding ensure_parent_dir_for_file
  parent_root =
      let used : (length name == 0) ≡ false = ground arith in
      rw
        (ensure_parent_dir_for_file, split_last-none name one, used, take_all 31 name (omega arith))
        refl

  load-create :
      load_file_entry grants name buffer (length buffer) s
      ≡ create_file grants [] name buffer (length buffer) s
  unfolding load_file_entry load_below
  load-create =
      let used : (length name == 0) ≡ false = ground arith in
      rw (load_file_entry, used, parent_root, used) refl

  abbrev loaded : Initramfs
  loaded = record s {
    root = ramfs_add_child s.root new;
    next_node_id = add32 s.next_node_id 1;
    asked = s.asked + (if grants s.asked && ltb 0 (length buffer) then 2 else 1);
    loaded_files = add32 s.loaded_files 1;
    loaded_bytes = add64 s.loaded_bytes (length buffer);
  }

  create-loaded :
      vfs_find_child s.root name ≡ none
      → create_file grants [] name buffer (length buffer) s ≡ loaded
  unfolding create_file node_at set_node
  create-loaded fresh =
      let made =
        created s.root s.next_node_id name buffer fuel device_read some_length short one root_dir
          fresh enough small in
      rw (create_file, find_child-none s.root name root_dir fresh, has_node, has_data, made)
        (rw (has_node, has_data, made) refl)

  -- For a file entry whose path is a name of 1 to 31 characters without slash, that the root
  -- directory does not have yet, load_file_entry with memory for the node and its data counts one
  -- more file and its bytes, and no directory; and then vfs_lookup finds at `/` and the name a node
  -- of which vfs_read returns the data of the entry.
  pub load_file_entry-Loaded :
      vfs_find_child s.root name ≡ none
      → Loaded name buffer fuel device_read s (load_file_entry grants name buffer (length buffer) s)
  load_file_entry-Loaded fresh =
      subst (Loaded name buffer fuel device_read s) (sym (load-create ∙ create-loaded fresh)) (
        new,
        child_looked_up s.root s.next_node_id name buffer fuel device_read some_length short one
            root_dir fresh enough small,
        child_reads s.root s.next_node_id name buffer fuel device_read some_length short one
            root_dir fresh enough small,
        refl,
        refl,
        refl,
      )
