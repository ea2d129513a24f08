-- ===== src/Vfs/Create.antt =====
-- kernel/ramfs.c: a new node under the root, and vfs_lookup.
use my_os.Prelude.{
  ℕ, zero, suc, ◌+◌, ◌≤◌, ◌<◌, ◌≡◌, refl, sym, ap, ◌∙◌, subst, inl, inr, true, false, List, [], ◌∷◌,
  none, some, arith, ◌==◌, ==→eq, Bool-cases, length, All, take, add32, u64_mod,
}
use my_os.Fd.{NodeType}
use my_os.Ramfs.{file_from_buffer}
use my_os.Vfs.{
  VfsNode, Children, no_child, with_child, vfs_node, info, find_in, is_dir, str_equal,
  path_is_separator, vfs_find_child, vfs_lookup, append_child, ramfs_add_child, ramfs_alloc_node,
  ram_ops, vfs_read, ramfs_create_file_from_buffer, enter_child,
}
use my_os.Vfs.Components.{split_path, components}
use my_os.Ramfs.File.{file_from_buffer-Filled, ramfs_read-file_from_buffer}
use my_os.Vfs.Lookup.{follow, follow_child, vfs_lookup-follow}

-- Names.
str_equal_refl : (a : List ℕ) → str_equal a a ≡ true
unfolding str_equal
str_equal_refl [] = refl
str_equal_refl (x ∷ a) = let same : (x == x) ≡ true = ground arith in rw (same) (str_equal_refl a)

find_in-append_child :
    (name : List ℕ) (children : Children) (child : VfsNode)
    → (info child).name ≡ name
    → find_in name children ≡ none
    → find_in name (append_child children child) ≡ some child
unfolding find_in append_child
find_in-append_child name no_child child e h =
    let same = subst (λ n. str_equal n name ≡ true) (sym e) (str_equal_refl name) in rw same refl
find_in-append_child name (with_child current rest) child e h =
    elim (Bool-cases (str_equal (info current).name name)) [
      | inl here ↦ absurd (let never = rw here at h in cc)
      | inr other ↦ rw other (find_in-append_child name rest child e (rw other at h))
    ]

abbrev pub HasNoSeparator : List ℕ → Type 0
HasNoSeparator name = All (λ c. path_is_separator c ≡ false) name

split_path_name : (name : List ℕ) → HasNoSeparator name → split_path name ≡ (name, [])
split_path_name [] h = refl
split_path_name (c ∷ name) h = rw (h.0, split_path_name name h.1) refl

components_name :
    (name : List ℕ) → HasNoSeparator name → 0 < length name → components name ≡ name ∷ []
components_name [] h some_length = absurd (omega arith)
components_name (c ∷ name) h some_length = rw (h.0, split_path_name name h.1) refl

pub take_all : (n : ℕ) (l : List ℕ) → length l ≤ n → take n l ≡ l
take_all zero [] h = refl
take_all zero (x ∷ l) h = absurd (omega arith)
take_all (suc n) [] h = refl
take_all (suc n) (x ∷ l) h = ap (λ m. x ∷ m) (take_all n l (omega arith))

add_child_found :
    (d child : VfsNode) (name : List ℕ)
    → is_dir (info d).node_type ≡ true
    → (info child).name ≡ name
    → vfs_find_child d name ≡ none
    → vfs_find_child (ramfs_add_child d child) name ≡ some child
unfolding vfs_find_child
add_child_found (vfs_node i children) child name directory same fresh =
    rw directory (find_in-append_child name children child same (rw directory at fresh))

-- The file that `ramfs_create_file_from_buffer` enters into the root is found under its path, and
-- gives back the buffer.
abbrev pub Found : VfsNode → ℕ → List ℕ → List ℕ → ℕ → (ℕ → ℕ → ℕ → List ℕ) → Type 0
Found root_node next_node_id name buffer fuel device_read =
    (n : VfsNode) × ((ramfs_create_file_from_buffer true true (some root_node) name buffer
        next_node_id).0
      ≡ some n)
    × (vfs_lookup fuel
          (ramfs_create_file_from_buffer true true (some root_node) name buffer next_node_id).1
          (47 ∷ name)
        ≡ some (some n))
    × (vfs_read device_read (some n) 0 (length buffer) ≡ buffer)

module _ (root_node : VfsNode) (next_node_id : ℕ) (name buffer : List ℕ) (fuel : ℕ)
    (device_read : ℕ → ℕ → ℕ → List ℕ) (some_length : 0 < length name) (short : length name < 32)
    (one : HasNoSeparator name) (root_dir : is_dir (info root_node).node_type ≡ true)
    (fresh : vfs_find_child root_node name ≡ none) (enough : length name + 1 < fuel)
    (small : length buffer < u64_mod) where
  abbrev pub child : VfsNode
  child = ramfs_alloc_node next_node_id name NodeType.file (file_from_buffer true buffer).1 ram_ops

  pub child_looked_up :
      vfs_lookup fuel (some (ramfs_add_child root_node child)) (47 ∷ name) ≡ some (some child)
  child_looked_up =
      vfs_lookup-follow fuel (ramfs_add_child root_node child) name enough
      ∙ ap (λ names. some (follow (ramfs_add_child root_node child) names))
          (components_name name one some_length)
      ∙ ap (λ x. some x)
          (follow_child (ramfs_add_child root_node child) name [] child short
            (add_child_found root_node child name root_dir (take_all 31 name (omega arith)) fresh))

  pub created :
      ramfs_create_file_from_buffer true true (some root_node) name buffer next_node_id
      ≡ (some child, some (ramfs_add_child root_node child), add32 next_node_id 1)
  unfolding ramfs_create_file_from_buffer enter_child
  created = rw ((file_from_buffer-Filled buffer).0) refl

  pub child_reads : vfs_read device_read (some child) 0 (length buffer) ≡ buffer
  unfolding vfs_read
  child_reads = elim (Bool-cases (length buffer == 0)) [
    | inl e ↦ rw e (nothing buffer (==→eq (length buffer) 0 e))
    | inr e ↦ rw e (ramfs_read-file_from_buffer buffer small)
  ]
    where
      nothing : (l : List ℕ) → length l ≡ 0 → [] ≡ l
      nothing [] h = refl
      nothing (x ∷ l) h = absurd (omega arith)

  -- When there is memory, the file that `ramfs_create_file_from_buffer` enters into the root
  -- directory, under a name of 1 to 31 characters without separator that is not there yet, is what
  -- `vfs_lookup` finds at `/` and the name, and `vfs_read` of it from the start returns the buffer.
  pub created_file-Found : Found root_node next_node_id name buffer fuel device_read
  created_file-Found = (child, rw created refl, rw created child_looked_up, child_reads)
