-- ===== src/Heap/Zipper.antt =====
-- kernel/heap.c: the walks along the chain, as a list in two parts around the block they find.
use my_os.Prelude.{
  ℕ, ◌+◌, ◌≤◌, ◌≡◌, refl, ap, subst, Bool, true, false, ◌&&◌, List, [], ◌∷◌, ◌++◌, Option, none,
  some, arith, leb, ◌==◌, ==→eq, Bool-cases, inl, inr,
}
use my_os.Heap.{Block, header_size, block_at, prev_of, heap_find_free_block}
use my_os.Heap.Layout.{Layout, Layout-le, end_of, last_free}

-- The block `b` stands in the chain.
pub record At (blocks : List Block) (b : Block) : Type 0 where
  pub front : List Block
  pub behind : List Block
  pub whole : blocks ≡ front ++ (b ∷ behind)

At-cons : (c : Block) (blocks : List Block) (b : Block) → At blocks b → At (c ∷ blocks) b
At-cons c blocks b z = record {
  front = c ∷ z.front;
  behind = z.behind;
  whole = ap (λ l. c ∷ l) z.whole;
}

pub some-same : (b c : Block) → some b ≡ some c → b ≡ c
some-same b c e = cc

pub none-some : (b : Block) → none ≡ some b → ⊥
none-some b e = cc

-- The first fit is a free block of the chain that is large enough.
pub found-At :
    (size : ℕ) (blocks : List Block) (b : Block)
    → heap_find_free_block size blocks ≡ some b
    → At blocks b × (b.free ≡ true) × (size ≤ b.size)
unfolding heap_find_free_block
found-At size [] b e = absurd (none-some b e)
found-At size (c ∷ rest) b e = elim (Bool-cases (c.free && leb size c.size)) [
  | inl fit ↦
      let same = some-same c b (rw fit at e) in
      (
        record { front = []; behind = rest; whole = ap (λ (x : Block). x ∷ rest) same },
        subst (λ (x : Block). x.free ≡ true) same (ground arith),
        subst (λ (x : Block). size ≤ x.size) same (ground arith),
      )
  | inr skip ↦
      let (z, is_free, fits) = found-At size rest b (rw skip at e) in
      (At-cons c rest b z, is_free, fits)
]

pub block_at-At :
    (addr : ℕ) (blocks : List Block) (b : Block)
    → block_at addr blocks ≡ some b
    → At blocks b × (b.addr ≡ addr)
unfolding block_at
block_at-At addr [] b e = absurd (none-some b e)
block_at-At addr (c ∷ rest) b e = elim (Bool-cases (c.addr == addr)) [
  | inl here ↦
      let same = some-same c b (rw here at e) in
      (
        record { front = []; behind = rest; whole = ap (λ (x : Block). x ∷ rest) same },
        subst (λ (x : Block). x.addr ≡ addr) same (==→eq c.addr addr here),
      )
  | inr skip ↦ let (z, at) = block_at-At addr rest b (rw skip at e) in (At-cons c rest b z, at)
]

-- The walks stop at the block, since those in front of it stand at other addresses.
pub block_at-front :
    (a : ℕ) (before : Bool) (l : List Block) (b : Block) (rest : List Block)
    → Layout a before l (end_of a l)
    → b.addr ≡ end_of a l
    → block_at b.addr (l ++ (b ∷ rest)) ≡ some b
unfolding block_at
block_at-front a before [] b rest h e = ground arith
block_at-front a before (c ∷ l) b rest h e =
    let ahead =
      Layout-le (a + header_size + c.size) (end_of (a + header_size + c.size) l) c.free l h.3 in
    let other : (c.addr == b.addr) ≡ false = ground arith in
    rw other (block_at-front (a + header_size + c.size) c.free l b rest h.3 e)

-- The last block of a list, or the one in front of it.
abbrev pub last_block : Option Block → List Block → Option Block
last_block before [] = before
last_block before (b ∷ rest) = last_block (some b) rest

pub prev_of-front :
    (a : ℕ) (before : Bool) (p : Option Block) (l : List Block) (b : Block) (rest : List Block)
    → Layout a before l (end_of a l)
    → b.addr ≡ end_of a l
    → prev_of p b.addr (l ++ (b ∷ rest)) ≡ last_block p l
unfolding prev_of
prev_of-front a before p [] b rest h e = ground arith
prev_of-front a before p (c ∷ l) b rest h e =
    let ahead =
      Layout-le (a + header_size + c.size) (end_of (a + header_size + c.size) l) c.free l h.3 in
    let other : (c.addr == b.addr) ≡ false = ground arith in
    rw other (prev_of-front (a + header_size + c.size) c.free (some c) l b rest h.3 e)

-- A list is empty or has a last block.
pub record Snoc (l : List Block) : Type 0 where
  pub init : List Block
  pub last : Block
  pub whole : l ≡ init ++ (last ∷ [])

pub Snoc-cases : (b : Block) (l : List Block) → Snoc (b ∷ l)
Snoc-cases b [] = record { init = []; last = b; whole = refl }
Snoc-cases b (c ∷ l) =
    let s = Snoc-cases c l in
    record { init = b ∷ s.init; last = s.last; whole = ap (λ m. b ∷ m) s.whole }

pub last_block-snoc :
    (p : Option Block) (l : List Block) (b : Block) → last_block p (l ++ (b ∷ [])) ≡ some b
last_block-snoc p [] b = refl
last_block-snoc p (c ∷ l) b = last_block-snoc (some c) l b

pub last_free-snoc : (p : Bool) (l : List Block) (b : Block) → last_free p (l ++ (b ∷ [])) ≡ b.free
last_free-snoc p [] b = refl
last_free-snoc p (c ∷ l) b = last_free-snoc c.free l b
