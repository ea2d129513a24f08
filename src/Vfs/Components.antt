-- ===== src/Vfs/Components.antt =====
-- kernel/vfs.c: the components of a path.
use my_os.Prelude.{
  ℕ, ◌+◌, ◌≤◌, ◌<◌, ◌≡◌, refl, sym, ap, ◌∙◌, ◌⊎◌, inl, inr, false, List, [], ◌∷◌, none, some, arith,
  leb, ◌==◌, if◌then◌else◌, Bool-cases, Option-cases, length,
}
use my_os.Vfs.{skip_separators, read_component}

-- The text up to the first separator, and the texts between the later ones.
abbrev pub split_path : List ℕ → List ℕ × List (List ℕ)
split_path [] = ([], [])
split_path (c ∷ rest) =
    let (word, words) = split_path rest in if c == 47 then ([], word ∷ words) else (c ∷ word, words)

abbrev pub non_empty : List (List ℕ) → List (List ℕ)
non_empty [] = []
non_empty ([] ∷ words) = non_empty words
non_empty ((c ∷ word) ∷ words) = (c ∷ word) ∷ non_empty words

-- The components of a path: the non-empty texts between separators.
abbrev pub components : List ℕ → List (List ℕ)
components path = non_empty ((split_path path).0 ∷ (split_path path).1)

pub skip-components : (path : List ℕ) → components (skip_separators path) ≡ components path
unfolding skip_separators
skip-components [] = refl
skip-components (c ∷ rest) = elim (Bool-cases (c == 47)) [
  | inl e ↦
      let skipped : skip_separators (c ∷ rest) ≡ skip_separators rest = rw e refl in
      let none_here : components (c ∷ rest) ≡ components rest = rw e refl in
      ap components skipped ∙ skip-components rest ∙ sym none_here
  | inr e ↦ let kept : skip_separators (c ∷ rest) ≡ c ∷ rest = rw e refl in ap components kept
]

pub skip_first :
    (path : List ℕ) (c : ℕ) (rest : List ℕ)
    → skip_separators path ≡ c ∷ rest
    → ((c == 47) ≡ false) × (length rest < length path)
unfolding skip_separators
skip_first [] c rest e = absurd (cc)
skip_first (d ∷ path) c rest e = elim (Bool-cases (d == 47)) [
  | inl s ↦ let (first, short) = skip_first path c rest (rw s at e) in (first, omega arith)
  | inr s ↦
      let same : d ∷ path ≡ c ∷ rest = rw s at e in
      let first : d ≡ c = cc in
      let others : path ≡ rest = cc in (rw (sym first) s, rw (sym others) (omega arith))
]

-- A component that is not too long.
pub component_read :
    (len : ℕ) (path component behind : List ℕ)
    → read_component len path ≡ some (component, behind)
    → (split_path path ≡ (component, (split_path behind).1))
      × ((split_path behind).0 ≡ [])
      × ((length component ≡ 0) ⊎ (len + length component < 32))
      × (length behind + length component ≡ length path)
unfolding read_component
component_read len [] component behind e =
    let no_component : [] ≡ component = cc in
    let nothing_behind : [] ≡ behind = cc in
    rw (sym no_component, sym nothing_behind) (refl, refl, inl refl, refl)
component_read len (c ∷ path) component behind e = elim (Bool-cases (c == 47)) [
  | inl s ↦
      let here : some ([], c ∷ path) ≡ some (component, behind) = rw s at e in
      let no_component : [] ≡ component = cc in
      let all_behind : c ∷ path ≡ behind = cc in
      rw (sym no_component, sym all_behind, s) (refl, refl, inl refl, omega arith)
  | inr s ↦ elim (Bool-cases (leb 32 (len + 1))) [
    | inl long ↦ absurd (let never = rw (s, long) at e in cc)
    | inr short ↦ elim (Option-cases (read_component (len + 1) path)) [
      | inl n ↦ absurd (let never = rw (s, short, n) at e in cc)
      | inr (r, found) ↦
          let here : some (c ∷ r.0, r.1) ≡ some (component, behind) = rw (s, short, found) at e in
          let longer : c ∷ r.0 ≡ component = cc in
          let same_behind : r.1 ≡ behind = cc in
          let (parts, ends, bound, total) = component_read (len + 1) path r.0 r.1 found in
          rw (sym longer, sym same_behind, s, parts) (refl, ends, inr (ground arith), omega arith)
    ]
  ]
]

pub component_refused :
    (len : ℕ) (path : List ℕ)
    → read_component len path ≡ none
    → 32 ≤ len + length (split_path path).0
unfolding read_component
component_refused len [] e = absurd (cc)
component_refused len (c ∷ path) e = elim (Bool-cases (c == 47)) [
  | inl s ↦ absurd (let never = rw s at e in cc)
  | inr s ↦ elim (Bool-cases (leb 32 (len + 1))) [
    | inl long ↦ rw s (ground arith)
    | inr short ↦ elim (Option-cases (read_component (len + 1) path)) [
      | inl n ↦ let more = component_refused (len + 1) path n in rw s (omega (arith, more))
      | inr (r, found) ↦ absurd (let never = rw (s, short, found) at e in cc)
    ]
  ]
]
