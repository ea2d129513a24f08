-- ===== src/Heap/Layout.antt =====
-- kernel/heap.c: how the blocks lie in memory, and which of them follow one another.
use my_os.Prelude.{
  ℕ, subst, Bool-cases, inl, inr, ltb-false, ◌+◌, ◌-◌, ◌%◌, ◌≤◌, ◌<◌, ◌≡◌, refl, ap, Bool, true,
  false, ◌&&◌, List, [], ◌∷◌, ◌++◌, arith, add64, ltb, ◌==◌, if◌then◌else◌, u64_mod,
}
use my_os.Heap.{Block, header_size, at_block, split_block, merge_next}

-- The blocks from `a` to `e` behind a block that is free or not.
abbrev pub Layout : ℕ → Bool → List Block → ℕ → Type 0
Layout a before [] e = a ≡ e
Layout a before (b ∷ rest) e =
    (b.addr ≡ a)
    × (b.size % 16 ≡ 0)
    × ((before && b.free) ≡ false)
    × Layout (a + header_size + b.size) b.free rest e

-- The blocks that are handed out: the heap as its clients see it.
unfoldable pub used_blocks : List Block → List Block
used_blocks [] = []
used_blocks (b ∷ rest) = if b.free then used_blocks rest else b ∷ used_blocks rest

pub used_blocks-++ : (l m : List Block) → used_blocks (l ++ m) ≡ used_blocks l ++ used_blocks m
unfolding used_blocks
used_blocks-++ [] m = refl
used_blocks-++ (b ∷ l) m = ground (arith, used_blocks-++ l m)

-- Where the blocks from `a` end, and whether the last of them is free.
abbrev pub end_of : ℕ → List Block → ℕ
end_of a [] = a
end_of a (b ∷ rest) = end_of (a + header_size + b.size) rest

abbrev pub last_free : Bool → List Block → Bool
last_free before [] = before
last_free before (b ∷ rest) = last_free b.free rest

pub Layout-le : (a e : ℕ) (before : Bool) (l : List Block) → Layout a before l e → a ≤ e
Layout-le a e before [] h = omega arith
Layout-le a e before (b ∷ rest) h =
    omega (arith, Layout-le (a + header_size + b.size) e b.free rest h.3)

-- A list in two parts.
pub Layout-front :
    (a e : ℕ) (before : Bool) (l m : List Block)
    → Layout a before (l ++ m) e
    → Layout a before l (end_of a l)
Layout-front a e before [] m h = refl
Layout-front a e before (b ∷ rest) m h =
    (h.0, h.1, h.2, Layout-front (a + header_size + b.size) e b.free rest m h.3)

pub Layout-back :
    (a e : ℕ) (before : Bool) (l m : List Block)
    → Layout a before (l ++ m) e
    → Layout (end_of a l) (last_free before l) m e
Layout-back a e before [] m h = h
Layout-back a e before (b ∷ rest) m h = Layout-back (a + header_size + b.size) e b.free rest m h.3

pub Layout-join :
    (a e : ℕ) (before : Bool) (l m : List Block)
    → Layout a before l (end_of a l)
    → Layout (end_of a l) (last_free before l) m e
    → Layout a before (l ++ m) e
Layout-join a e before [] m h k = k
Layout-join a e before (b ∷ rest) m h k =
    (h.0, h.1, h.2, Layout-join (a + header_size + b.size) e b.free rest m h.3 k)

-- The addresses in front of a block are other addresses.
pub at_block-front :
    (a : ℕ) (before : Bool) (l : List Block) (b : Block) (rest : List Block)
    (f : Block → List Block → List Block)
    → Layout a before l (end_of a l)
    → b.addr ≡ end_of a l
    → at_block b.addr f (l ++ (b ∷ rest)) ≡ l ++ f b rest
unfolding at_block
at_block-front a before [] b rest f h e = ground arith
at_block-front a before (c ∷ l) b rest f h e =
    let ahead =
      Layout-le (a + header_size + c.size) (end_of (a + header_size + c.size) l) c.free l h.3 in
    let other : (c.addr == b.addr) ≡ false = ground arith in
    rw other (ap (λ m. c ∷ m) (at_block-front (a + header_size + c.size) c.free l b rest f h.3 e))

Layout-after_used :
    (a e : ℕ) (before : Bool) (l : List Block) → Layout a before l e → Layout a false l e
Layout-after_used a e before [] h = h
Layout-after_used a e before (b ∷ rest) h = (h.0, h.1, refl, h.3)

Layout-moved :
    (a c e : ℕ) (p q : Bool) (l : List Block) → a ≡ c → p ≡ q → Layout a p l e → Layout c q l e
Layout-moved a c e p q l ea ep h = subst (λ x. Layout x q l e) ea (subst (λ y. Layout a y l e) ep h)

-- What is left of a free block when `size` bytes of it are taken: `block` is then marked used.
pub record Split (m e size : ℕ) (b : Block) (rest : List Block) : Type 0 where
  pub block : Block
  pub behind : List Block
  pub splits : split_block size b rest ≡ block ∷ behind
  pub same_addr : block.addr ≡ b.addr
  pub fits : size ≤ block.size
  pub layout : Layout m false (record block { free = false } ∷ behind) e
  pub behind_used : used_blocks behind ≡ used_blocks rest

module _ (m e : ℕ) (before : Bool) (b : Block) (rest : List Block) (small : e < u64_mod) where
  pub Split-Layout :
      (size : ℕ)
      → size % 16 ≡ 0
      → b.free ≡ true
      → size ≤ b.size
      → Layout m before (b ∷ rest) e
      → Split m e size b rest
  unfolding split_block used_blocks
  Split-Layout size al is_free enough h = elim (Bool-cases (ltb (b.size - size) 80)) [
    | inl close ↦ record {
      block = b;
      behind = rest;
      splits = ground arith;
      same_addr = refl;
      fits = enough;
      layout = (h.0, h.1, refl, Layout-after_used (m + header_size + b.size) e b.free rest h.3);
      behind_used = refl;
    }
    | inr wide ↦
        let inside = Layout-le (m + header_size + b.size) e b.free rest h.3 in
        let at : add64 (add64 b.addr header_size) size ≡ m + header_size + size =
          omega (arith, h.0) in
        let far = ltb-false (b.size - size) 80 wide in
        let multiple = h.1 in
        record {
          block = record b { size = size };
          behind =
              record {
                addr = add64 (add64 b.addr header_size) size;
                size = b.size - size - header_size;
                free = true;
              }
              ∷ rest;
          splits = ground arith;
          same_addr = refl;
          fits = omega arith;
          layout = (
            h.0,
            al,
            refl,
            (at, omega arith, refl, Layout-moved _ _ e b.free true rest (omega arith) is_free h.3),
          );
          behind_used = refl;
        }
  ]

-- Merging a free block with the one behind it, where the block may follow another free block.
pub merge-Layout :
    (m e : ℕ) (b : Block) (rest : List Block)
    → e < u64_mod
    → b.free ≡ true
    → b.addr ≡ m
    → b.size % 16 ≡ 0
    → Layout (m + header_size + b.size) false rest e
    → (size : ℕ) × (rest' : List Block) × (merge_next b rest ≡ record b { size = size } ∷ rest')
      × (size % 16 ≡ 0)
      × Layout (m + header_size + size) true rest' e
      × (used_blocks rest' ≡ used_blocks rest)
unfolding merge_next used_blocks
merge-Layout m e b [] small is_free at al h = (b.size, [], refl, al, h, refl)
merge-Layout m e b (next ∷ rest) small is_free at al h = elim (Bool-cases next.free) [
  | inr taken ↦ (b.size, next ∷ rest, ground arith, al, (h.0, h.1, ground arith, h.3), refl)
  | inl open_next ↦
      let inside =
        Layout-le (m + header_size + b.size + header_size + next.size) e next.free rest h.3 in
      let sum : add64 (add64 b.size header_size) next.size ≡ b.size + header_size + next.size =
        omega arith in
      (
        add64 (add64 b.size header_size) next.size,
        rest,
        ground arith,
        omega (arith, h.1),
        Layout-moved _ _ e next.free true rest (omega arith) open_next h.3,
        ground arith,
      )
]
