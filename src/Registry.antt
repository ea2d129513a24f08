-- ===== src/Registry.antt =====
-- What the lists of kernel/command.c and kernel/device.c share: names that differ from each other.
use my_os.Prelude.{ℕ, ◌≡◌, false, List, [], ◌∷◌, ◌++◌, All}
use my_os.Vfs.{str_equal}

-- No two entries have the same name.
unfoldable pub Distinct : List (List ℕ) → Type 0
Distinct [] = Unit
Distinct (name ∷ names) = All (λ later. str_equal name later ≡ false) names × Distinct names

-- None of the names is `name`.
abbrev pub Lacks : List (List ℕ) → List ℕ → Type 0
Lacks names name = All (λ n. str_equal n name ≡ false) names

All-snoc :
    (P : List ℕ → Type 0) (names : List (List ℕ)) (name : List ℕ)
    → All P names
    → P name
    → All P (names ++ (name ∷ []))
All-snoc P [] name all p = (p, tt)
All-snoc P (n ∷ names) name all p = (all.0, All-snoc P names name all.1 p)

-- A name that is not there yet can be put at the end.
pub Distinct-snoc :
    (names : List (List ℕ)) (name : List ℕ)
    → Distinct names
    → Lacks names name
    → Distinct (names ++ (name ∷ []))
unfolding Distinct
Distinct-snoc [] name distinct lacks = (tt, tt)
Distinct-snoc (n ∷ names) name distinct lacks = (
  All-snoc (λ later. str_equal n later ≡ false) names name distinct.0 lacks.0,
  Distinct-snoc names name distinct.1 lacks.1,
)
