-- ===== src/Elf/Contents.antt =====
-- kernel/elf.c: the bytes of a loaded segment, and which program headers the segments come from.
use my_os.Prelude.{
  ℕ, zero, suc, ◌+◌, ◌-◌, ◌*◌, ◌≤◌, ◌<◌, ◌≡◌, ◌≢◌, refl, ap, ◌∙◌, not, ◌&&◌, List, [], ◌∷◌, ◌++◌,
  arith, ◌==◌, if◌then◌else◌, length, length-append, length-replicate, get_or, get_or-replicate,
  take, drop, replicate,
}
use my_os.Elf.{e_phoff, e_phentsize, e_phnum, Phdr, phdr_at, LoadedSegment, segment_contents}

abbrev pub header_at : List ℕ → ℕ → Phdr
header_at file i = phdr_at file (e_phoff file + i * e_phentsize file)

-- The segment is what program header `i` of the file asks for: the bytes of the file, all inside
-- it, and zeros behind them up to the size in memory.
pub record FromHeader (file : List ℕ) (s : LoadedSegment) (i : ℕ) : Type 0 where
  pub present : i < e_phnum file
  pub in_file : (header_at file i).p_offset + s.filesz ≤ length file
  pub filesz : s.filesz ≡ (header_at file i).p_filesz
  pub memsz : s.memsz ≡ (header_at file i).p_memsz
  pub vaddr : s.vaddr ≡ (header_at file i).p_vaddr
  pub flags : s.flags ≡ (header_at file i).p_flags
  pub filled : length s.contents ≡ s.memsz
  pub from_file :
      (j : ℕ)
      → j < s.filesz
      → get_or s.contents j 0 ≡ get_or file ((header_at file i).p_offset + j) 0
  pub zeros : (j : ℕ) → s.filesz ≤ j → j < s.memsz → get_or s.contents j 0 ≡ 0
  pub allocated : s.memory ≢ 0

-- The segments come from the program headers of these positions, one from each and in this order.
abbrev pub Matches : List ℕ → List LoadedSegment → List ℕ → Type 0
Matches file [] [] = Unit
Matches file [] (i ∷ positions) = ⊥
Matches file (s ∷ rest) [] = ⊥
Matches file (s ∷ rest) (i ∷ positions) = FromHeader file s i × Matches file rest positions

-- Of the `n` program headers from `i` on, the positions of those of type PT_LOAD, 1, that take
-- memory.
abbrev pub load_headers : List ℕ → ℕ → ℕ → List ℕ
load_headers file zero i = []
load_headers file (suc n) i =
    let rest = load_headers file n (i + 1) in
    if ((header_at file i).p_type == 1) && not ((header_at file i).p_memsz == 0)
    then i ∷ rest
    else rest

pub Matches-snoc :
    (file : List ℕ) (l : List LoadedSegment) (positions : List ℕ) (s : LoadedSegment) (i : ℕ)
    → Matches file l positions
    → FromHeader file s i
    → Matches file (l ++ (s ∷ [])) (positions ++ (i ∷ []))
Matches-snoc file [] [] s i m h = (h, tt)
Matches-snoc file [] (k ∷ positions) s i m h = absurd m
Matches-snoc file (x ∷ l) [] s i m h = absurd m
Matches-snoc file (x ∷ l) (k ∷ positions) s i m h = (m.0, Matches-snoc file l positions s i m.1 h)

length-take {ℓ} : {A : Type ℓ} (n : ℕ) (xs : List A) → n ≤ length xs → length (take n xs) ≡ n
length-take zero xs h = refl
length-take (suc n) [] h = absurd (omega arith)
length-take (suc n) (x ∷ xs) h = ap suc (length-take n xs (omega arith))

length-drop {ℓ} : {A : Type ℓ} (n : ℕ) (xs : List A) → length (drop n xs) ≡ length xs - n
length-drop zero xs = omega arith
length-drop (suc n) [] = omega arith
length-drop (suc n) (x ∷ xs) = omega (arith, length-drop n xs)

pub filled_contents :
    (file : List ℕ) (p : Phdr)
    → p.p_filesz ≤ p.p_memsz
    → p.p_offset + p.p_filesz ≤ length file
    → length (segment_contents file p) ≡ p.p_memsz
filled_contents file p fits inside =
    let rest = length-drop p.p_offset file in
    let front = length-take p.p_filesz (drop p.p_offset file) (omega arith) in
    omega (
      arith,
      front,
      length-append (take p.p_filesz (drop p.p_offset file)) (replicate (p.p_memsz - p.p_filesz) 0),
      length-replicate {A = ℕ} (p.p_memsz - p.p_filesz) 0,
    )

get_or-drop : (n : ℕ) (l : List ℕ) (j : ℕ) → get_or (drop n l) j 0 ≡ get_or l (n + j) 0
get_or-drop zero l j = ap (λ k. get_or l k 0) (omega arith)
get_or-drop (suc n) [] j = refl
get_or-drop (suc n) (x ∷ l) j =
    let on : suc n + j ≡ suc (n + j) = omega arith in rw on (get_or-drop n l j)

in_front :
    (n j : ℕ) (l r : List ℕ) → j < n → n ≤ length l → get_or (take n l ++ r) j 0 ≡ get_or l j 0
in_front zero j l r h fits = absurd (omega arith)
in_front (suc n) j [] r h fits = absurd (omega arith)
in_front (suc n) zero (x ∷ l) r h fits = refl
in_front (suc n) (suc j) (x ∷ l) r h fits = in_front n j l r (omega arith) (omega arith)

behind :
    (n j : ℕ) (l r : List ℕ)
    → n ≤ j
    → n ≤ length l
    → get_or (take n l ++ r) j 0 ≡ get_or r (j - n) 0
behind zero j l r h fits = ap (λ k. get_or r k 0) (omega arith)
behind (suc n) j [] r h fits = absurd (omega arith)
behind (suc n) zero (x ∷ l) r h fits = absurd (omega arith)
behind (suc n) (suc j) (x ∷ l) r h fits =
    behind n j l r (omega arith) (omega arith) ∙ ap (λ k. get_or r k 0) (omega arith)

module _ (file : List ℕ) (p : Phdr) (inside : p.p_offset + p.p_filesz ≤ length file) where
  pub contents-from_file :
      (j : ℕ)
      → j < p.p_filesz
      → get_or (segment_contents file p) j 0 ≡ get_or file (p.p_offset + j) 0
  contents-from_file j h =
      let rest = length-drop p.p_offset file in
      in_front p.p_filesz j (drop p.p_offset file) _ h (omega arith) ∙ get_or-drop p.p_offset file j

  pub contents-zeros : (j : ℕ) → p.p_filesz ≤ j → get_or (segment_contents file p) j 0 ≡ 0
  contents-zeros j h =
      let rest = length-drop p.p_offset file in
      behind p.p_filesz j (drop p.p_offset file) _ h (omega arith)
      ∙ get_or-replicate (p.p_memsz - p.p_filesz) 0 (j - p.p_filesz)
