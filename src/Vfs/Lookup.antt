-- ===== src/Vfs/Lookup.antt =====
-- kernel/vfs.c: vfs_lookup against the split of a path at its separators.
use my_os.Prelude.{
  ℕ, zero, suc, ◌+◌, ◌≤◌, ◌<◌, ◌≡◌, refl, sym, ap, ◌∙◌, subst, inl, inr, true, false, List, [], ◌∷◌,
  Option, none, some, arith, ltb, ◌==◌, if◌then◌else◌, Bool-cases, Option-cases, length,
}
use my_os.Vfs.{
  VfsNode, vfs_find_child, skip_separators, read_component, lookup_loop, vfs_lookup, vfs_name_max,
}
use my_os.Vfs.Components.{
  split_path, non_empty, components, skip-components, skip_first, component_read, component_refused,
}

-- From a node on, one child after the other.
abbrev pub follow : VfsNode → List (List ℕ) → Option VfsNode
follow n [] = some n
follow n (name ∷ names) =
    if ltb (length name) vfs_name_max
    then elim (vfs_find_child n name) [ none ↦ none | some child ↦ follow child names ]
    else none

-- One round of `vfs_lookup`, by what it finds in the path.
module _ (fuel : ℕ) (current : VfsNode) (path : List ℕ) where
  round_end : skip_separators path ≡ [] → lookup_loop (suc fuel) current path ≡ some (some current)
  unfolding lookup_loop
  round_end e = rw (lookup_loop, e) refl

  module _ (c : ℕ) (rest : List ℕ) (e : skip_separators path ≡ c ∷ rest) where
    round_refused :
        read_component 0 (c ∷ rest) ≡ none → lookup_loop (suc fuel) current path ≡ some none
    unfolding lookup_loop
    round_refused r = rw (lookup_loop, e, r) refl

    module _ (component behind : List ℕ)
        (r : read_component 0 (c ∷ rest) ≡ some (component, behind)) where
      round_absent :
          vfs_find_child current component ≡ none → lookup_loop (suc fuel) current path ≡ some none
      unfolding lookup_loop
      round_absent n = rw (lookup_loop, e, r, n) refl

      round_child :
          (child : VfsNode)
          → vfs_find_child current component ≡ some child
          → lookup_loop (suc fuel) current path ≡ lookup_loop fuel child behind
      unfolding lookup_loop
      round_child child n = rw (lookup_loop, e, r, n) refl

-- A path that does not begin with a separator begins with a component.
first_component :
    (c : ℕ) (rest : List ℕ)
    → (c == 47) ≡ false
    → (components (c ∷ rest) ≡ (split_path (c ∷ rest)).0 ∷ non_empty (split_path (c ∷ rest)).1)
      × (0 < length (split_path (c ∷ rest)).0)
first_component c rest s = rw s (refl, omega arith)

follow_long :
    (n : VfsNode) (name : List ℕ) (names : List (List ℕ))
    → 32 ≤ length name
    → follow n (name ∷ names) ≡ none
follow_long n name names h = let long : ltb (length name) 32 ≡ false = ground arith in rw long refl

follow_absent :
    (n : VfsNode) (name : List ℕ) (names : List (List ℕ))
    → vfs_find_child n name ≡ none
    → follow n (name ∷ names) ≡ none
follow_absent n name names h = elim (Bool-cases (ltb (length name) 32)) [
  | inl short ↦ rw (short, h) refl
  | inr long ↦ rw long refl
]

pub follow_child :
    (n : VfsNode) (name : List ℕ) (names : List (List ℕ)) (child : VfsNode)
    → length name < 32
    → vfs_find_child n name ≡ some child
    → follow n (name ∷ names) ≡ follow child names
follow_child n name names child short h =
    let fits : ltb (length name) 32 ≡ true = ground arith in rw (fits, h) refl

lookup_loop-follow :
    (fuel : ℕ) (current : VfsNode) (path : List ℕ)
    → length path < fuel
    → lookup_loop fuel current path ≡ some (follow current (components path))
lookup_loop-follow zero current path enough = absurd (omega arith)
lookup_loop-follow (suc fuel) current path enough =
    let again = lookup_loop-follow fuel in go (skip_separators path) refl again
  where
    go :
        (p : List ℕ)
        → skip_separators path ≡ p
        → ((n : VfsNode) (q : List ℕ)
            → length q < fuel
            → lookup_loop fuel n q ≡ some (follow n (components q)))
        → lookup_loop (suc fuel) current path ≡ some (follow current (components path))
    go [] e again =
        let done : components path ≡ [] = sym (skip-components path) ∙ ap components e in
        round_end fuel current path e ∙ ap (λ names. some (follow current names)) (sym done)
    go (c ∷ rest) e again =
        let (first, shorter) = skip_first path c rest e in
        let (parts, some_length) = first_component c rest first in
        let names = sym (skip-components path) ∙ ap components e ∙ parts in
        let as_names = ap (λ ns. some (follow current ns)) (sym names) in
        elim (Option-cases (read_component 0 (c ∷ rest))) [
          | inl none_read ↦
              round_refused fuel current path c rest e none_read
              ∙ ap (λ x. some x)
                  (sym (
                    follow_long current (split_path (c ∷ rest)).0
                      (non_empty (split_path (c ∷ rest)).1)
                      (let long = component_refused 0 (c ∷ rest) none_read in omega (arith, long))))
              ∙ as_names
          | inr (r, found) ↦
              let (split, ends, bound, total) = component_read 0 (c ∷ rest) r.0 r.1 found in
              let word : (split_path (c ∷ rest)).0 ≡ r.0 =
                ap (λ (x : List ℕ × List (List ℕ)). x.0) split in
              let words : (split_path (c ∷ rest)).1 ≡ (split_path r.1).1 =
                ap (λ (x : List ℕ × List (List ℕ)). x.1) split in
              elim (Option-cases (vfs_find_child current r.0)) [
                | inl absent ↦
                    round_absent fuel current path c rest e r.0 r.1 found absent
                    ∙ ap (λ x. some x)
                        (sym
                          (follow_absent current r.0 (non_empty (split_path (c ∷ rest)).1) absent))
                    ∙ ap (λ w. some (follow current (w ∷ non_empty (split_path (c ∷ rest)).1)))
                        (sym word)
                    ∙ as_names
                | inr (child, present) ↦
                    let word_length : 0 < length r.0 =
                      subst (λ (w : List ℕ). 0 < length w) word some_length in
                    let names_behind : components r.1 ≡ non_empty (split_path (c ∷ rest)).1 =
                      ap (λ w. non_empty (w ∷ (split_path r.1).1)) ends
                      ∙ ap non_empty (sym words) in
                    round_child fuel current path c rest e r.0 r.1 found child present
                    ∙ again child r.1 (omega arith)
                    ∙ ap (λ ns. some (follow child ns)) names_behind
                    ∙ ap (λ x. some x)
                        (sym (
                          follow_child current r.0 (non_empty (split_path (c ∷ rest)).1) child
                            (ground arith) present))
                    ∙ ap (λ w. some (follow current (w ∷ non_empty (split_path (c ∷ rest)).1)))
                        (sym word)
                    ∙ as_names
              ]
        ]

-- With more fuel than the path has characters, `vfs_lookup` of a path that begins with a separator
-- returns what one reaches from the root along the components of the path, the non-empty texts
-- between the separators; it finds nothing if a component has no child of its name in a directory,
-- or more than 31 characters.
pub vfs_lookup-follow :
    (fuel : ℕ) (root_node : VfsNode) (path : List ℕ)
    → length path + 1 < fuel
    → vfs_lookup fuel (some root_node) (47 ∷ path) ≡ some (follow root_node (components path))
unfolding vfs_lookup
vfs_lookup-follow fuel root_node path enough =
    lookup_loop-follow fuel root_node (47 ∷ path) (omega arith)
