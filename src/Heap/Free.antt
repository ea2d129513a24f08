-- ===== src/Heap/Free.antt =====
-- kernel/heap.c: kfree against the list of the blocks that are handed out.
use mathlib.Core.List.{append_assoc, append-nil}
use my_os.Prelude.{
  ℕ, ◌+◌, ◌%◌, ◌≤◌, ◌<◌, ◌≡◌, refl, sym, ap, ◌∙◌, subst, ◌≢◌, Bool, true, false, List, [], ◌∷◌,
  ◌++◌, none, some, arith, sub64, ◌==◌, ==→eq, u64_mod, Bool-cases, Option-cases, ◌⊎◌, inl, inr,
  All, All-map, All-every,
}
use my_os.Heap.{
  Foreign, Block, Heap, header_size, kernel_heap_start, kernel_heap_max_size, at_block, block_at,
  prev_of, merge_next, set_free, coalesce_prev, heap_coalesce, kfree,
}
use my_os.Heap.Layout.{
  Layout, Layout-le, Layout-front, Layout-back, Layout-join, end_of, last_free, used_blocks,
  used_blocks-++, at_block-front, merge-Layout,
}
use my_os.Heap.Zipper.{
  At, none-some, some-same, block_at-At, prev_of-front, Snoc-cases, last_block-snoc, last_free-snoc,
}

-- The blocks tile the mapped part of the heap, in whole units of 16 bytes, no two free blocks
-- follow one another, and the mapped part ends within the heap.
pub record IsValid (h : Heap) : Type 0 where
  pub layout : Layout kernel_heap_start false h.blocks h.mapped_end
  pub bounded : h.mapped_end ≤ h.max_end
  pub limit : h.max_end ≡ kernel_heap_start + kernel_heap_max_size

end_of-snoc :
    (a : ℕ) (l : List Block) (b : Block)
    → end_of a (l ++ (b ∷ [])) ≡ end_of a l + header_size + b.size
end_of-snoc a [] b = refl
end_of-snoc a (c ∷ l) b = end_of-snoc (a + header_size + c.size) l b

-- A list of blocks that is laid out and hands out `u`.
abbrev pub Lays : ℕ → ℕ → List Block → List Block → Type 0
Lays a e u l = Layout a false l e × (used_blocks l ≡ u)

-- The block in front is free: the two are merged.
merge_back :
    (a e : ℕ) (front : List Block) (p b : Block) (rest : List Block)
    → e < u64_mod
    → p.free ≡ true
    → Layout a false front (end_of a front)
    → Layout
        (end_of a front)
        (last_free false front)
        (p ∷ [])
        (end_of a front + header_size + p.size)
    → Layout (end_of a front + header_size + p.size) false (b ∷ rest) e
    → b.free ≡ true
    → Lays a e
        (used_blocks front ++ used_blocks rest)
        (at_block p.addr merge_next (front ++ (p ∷ b ∷ rest)))
unfolding used_blocks
merge_back a e front p b rest small p_free h hp hb b_free =
    let (size, rest', merged, al, after, same) =
      merge-Layout (end_of a front) e p (b ∷ rest) small p_free hp.0 hp.1 hb in
    rw (at_block-front a false front p (b ∷ rest) merge_next h hp.0, merged)
      (
        Layout-join a e false front (record p { size = size } ∷ rest') h (
          hp.0,
          al,
          hp.2,
          subst (λ x. Layout (end_of a front + header_size + size) x rest' e) (sym p_free) after,
        ),
        used_blocks-++ front (record p { size = size } ∷ rest')
            ∙ ap (λ u. used_blocks front ++ u) (ground arith),
      )

pub prev_none :
    (addr : ℕ) (blocks : List Block)
    → prev_of none addr blocks ≡ none
    → coalesce_prev addr blocks ≡ blocks
unfolding coalesce_prev
prev_none addr blocks h = ground arith

prev_free :
    (addr : ℕ) (blocks : List Block) (p : Block)
    → prev_of none addr blocks ≡ some p
    → p.free ≡ true
    → coalesce_prev addr blocks ≡ at_block p.addr merge_next blocks
unfolding coalesce_prev
prev_free addr blocks p h f = ground arith

pub prev_used :
    (addr : ℕ) (blocks : List Block) (p : Block)
    → prev_of none addr blocks ≡ some p
    → p.free ≡ false
    → coalesce_prev addr blocks ≡ blocks
unfolding coalesce_prev
prev_used addr blocks p h f = ground arith

module _ (a e : ℕ) (b : Block) (rest : List Block) (small : e < u64_mod) (b_free : b.free ≡ true)
    (al : b.size % 16 ≡ 0) where
  -- The block is the first.
  coalesce_first :
      b.addr ≡ a
      → Layout (a + header_size + b.size) true rest e
      → Lays a e (used_blocks rest) (coalesce_prev b.addr (b ∷ rest))
  unfolding used_blocks
  coalesce_first at after =
      rw (prev_none b.addr (b ∷ rest) (prev_of-front a false none [] b rest refl at)) (
        (at, al, refl, subst (λ x. Layout (a + header_size + b.size) x rest e) (sym b_free) after),
        ground arith,
      )

  -- The block stands behind `p`.
  coalesce_behind :
      (init : List Block) (p : Block)
      → Layout a false (init ++ (p ∷ [])) (end_of a (init ++ (p ∷ [])))
      → b.addr ≡ end_of a (init ++ (p ∷ []))
      → Layout (end_of a (init ++ (p ∷ [])) + header_size + b.size) true rest e
      → Lays a e
          (used_blocks (init ++ (p ∷ [])) ++ used_blocks rest)
          (coalesce_prev b.addr ((init ++ (p ∷ [])) ++ (b ∷ rest)))
  unfolding used_blocks
  coalesce_behind init p h at after =
      let front = init ++ (p ∷ []) in
      let prev = prev_of-front a false none front b rest h at ∙ last_block-snoc none init p in
      let end = end_of-snoc a init p in
      let whole : Layout (end_of a front) false (b ∷ rest) e = (
        at,
        al,
        refl,
        subst (λ x. Layout (end_of a front + header_size + b.size) x rest e) (sym b_free) after,
      ) in
      elim (Bool-cases p.free) [
        | inr kept ↦
            let before = last_free-snoc false init p ∙ kept in
            rw (prev_used b.addr (front ++ (b ∷ rest)) p prev kept) (
              Layout-join a e false front (b ∷ rest) h
                  (subst (λ x. Layout (end_of a front) x (b ∷ rest) e) (sym before) whole),
              used_blocks-++ front (b ∷ rest) ∙ ap (λ u. used_blocks front ++ u) (ground arith),
            )
        | inl merges ↦
            let own = Layout-back a (end_of a front) false init (p ∷ []) h in
            let back =
              merge_back a e init p b rest small merges
                (Layout-front a (end_of a front) false init (p ∷ []) h) (own.0, own.1, own.2, refl)
                (subst (λ x. Layout x false (b ∷ rest) e) end whole) b_free in
            let gone =
              used_blocks-++ init (p ∷ [])
              ∙ ap (λ u. used_blocks init ++ u) (ground arith)
              ∙ append-nil (used_blocks init) in
            rw (prev_free b.addr (front ++ (b ∷ rest)) p prev merges)
              (rw (append_assoc init (p ∷ []) (b ∷ rest), gone) back)
      ]

  -- The block stands anywhere.
  coalesce_front :
      (front : List Block)
      → Layout a false front (end_of a front)
      → b.addr ≡ end_of a front
      → Layout (end_of a front + header_size + b.size) true rest e
      → Lays a e
          (used_blocks front ++ used_blocks rest)
          (coalesce_prev b.addr (front ++ (b ∷ rest)))
  unfolding used_blocks
  coalesce_front [] h at after = coalesce_first at after
  coalesce_front (c ∷ l) h at after =
      let s = Snoc-cases c l in
      subst
        (λ front.
          Layout a false front (end_of a front)
          → b.addr ≡ end_of a front
          → Layout (end_of a front + header_size + b.size) true rest e
          → Lays a e (used_blocks front ++ used_blocks rest)
              (coalesce_prev b.addr (front ++ (b ∷ rest))))
        (sym s.whole) (coalesce_behind s.init s.last) h at after

used_ahead :
    (a e : ℕ) (before : Bool) (l : List Block)
    → Layout a before l e
    → All (λ (u : Block). a ≤ u.addr) (used_blocks l)
unfolding used_blocks
used_ahead a e before [] h = tt
used_ahead a e before (b ∷ l) h =
    let later : All (λ (u : Block). a ≤ u.addr) (used_blocks l) =
      All-map (used_blocks l) (λ (u : Block) (k : a + header_size + b.size ≤ u.addr). omega arith)
        (used_ahead (a + header_size + b.size) e b.free l h.3) in
    elim (Bool-cases b.free) [ inl e ↦ rw e later | inr e ↦ rw e (omega (arith, h.0), later) ]

-- No block that is handed out stands at an address where there is none or a free one.
used_elsewhere :
    (addr a e : ℕ) (before : Bool) (l : List Block)
    → Layout a before l e
    → ((b : Block) → block_at addr l ≡ some b → b.free ≡ true)
    → All (λ (u : Block). u.addr ≢ addr) (used_blocks l)
unfolding used_blocks block_at
used_elsewhere addr a e before [] h f = tt
used_elsewhere addr a e before (b ∷ l) h f = elim (Bool-cases (b.addr == addr)) [
  | inl here ↦
      let later =
        All-map (used_blocks l)
          (λ (u : Block) (k : a + header_size + b.size ≤ u.addr).
            omega (arith, h.0, ==→eq b.addr addr here))
          (used_ahead (a + header_size + b.size) e b.free l h.3) in
      rw (f b (rw here refl)) later
  | inr other ↦
      let later =
        used_elsewhere addr (a + header_size + b.size) e b.free l h.3 (λ c k. f c (rw other k)) in
      elim (Bool-cases b.free) [ inl e ↦ rw e later | inr e ↦ rw e (ground arith, later) ]
]

-- Marking a block free and coalescing it.
release_front :
    (a e : ℕ) (front : List Block) (b : Block) (behind : List Block)
    → e < u64_mod
    → Layout a false (front ++ (b ∷ behind)) e
    → b.free ≡ false
    → Lays a e
        (used_blocks front ++ used_blocks behind)
        (heap_coalesce b.addr (at_block b.addr (set_free true) (front ++ (b ∷ behind))))
unfolding heap_coalesce
release_front a e front b behind small h taken =
    let ahead = Layout-front a e false front (b ∷ behind) h in
    let own = Layout-back a e false front (b ∷ behind) h in
    let opened : Block = record b { free = true } in
    let rest = subst (λ x. Layout (end_of a front + header_size + b.size) x behind e) taken own.3 in
    let (size, behind', merged, al, after, same) =
      merge-Layout (end_of a front) e opened behind small refl own.0 own.1 rest in
    rw
      (
        at_block-front a false front b behind (set_free true) ahead own.0,
        at_block-front a false front opened behind merge_next ahead own.0,
        merged,
        sym same,
      )
      (coalesce_front a e (record opened { size = size }) behind' small refl al front ahead own.0
        after)

-- What freeing does: an address that is none of those handed out changes nothing; otherwise that
-- block, and no other, is no longer handed out.
abbrev pub Frees : ℕ → Heap → Heap → Type 0
Frees ptr h h' =
    ((h' ≡ h) × All (λ (u : Block). u.addr + header_size ≢ ptr) (used_blocks h.blocks))
    ⊎ ((b : Block) × (l : List Block) × (r : List Block) × (b.addr + header_size ≡ ptr)
        × (used_blocks h.blocks ≡ l ++ (b ∷ r))
        × (used_blocks h'.blocks ≡ l ++ r))

-- Memory that is no header of the chain is none for `kfree`: it does not carry the magic number, or
-- it is what is left of a header that was merged, which is marked free.
abbrev pub IsForeign : Foreign → ℕ → Heap → Type 0
IsForeign foreign addr h =
    block_at addr h.blocks ≡ none
    → (foreign.magic addr ≢ 0x48454150424C4B30) ⊎ (foreign.is_free addr ≡ true)

module _ (foreign : Foreign) (ptr : ℕ) (h : Heap) (v : IsValid h) (small : ptr < u64_mod) where
  ignored :
      ((b : Block) → block_at (sub64 ptr header_size) h.blocks ≡ some b → b.free ≡ true)
      → All (λ (u : Block). u.addr + header_size ≢ ptr) (used_blocks h.blocks)
  ignored f =
      All-map (used_blocks h.blocks) (λ (u : Block) (k : u.addr ≢ sub64 ptr header_size). away u k)
        (used_elsewhere (sub64 ptr header_size) kernel_heap_start h.mapped_end false h.blocks
          v.layout f)
    where
      away : (u : Block) → u.addr ≢ sub64 ptr header_size → u.addr + header_size ≢ ptr
      away u k = λ e. k (omega arith)

  kfree_null : ptr ≡ 0 → kfree foreign ptr h ≡ h
  unfolding kfree
  kfree_null e = ground arith

  kfree_unknown :
      block_at (sub64 ptr header_size) h.blocks ≡ none
      → (foreign.magic (sub64 ptr header_size) ≢ 0x48454150424C4B30)
        ⊎ (foreign.is_free (sub64 ptr header_size) ≡ true)
      → kfree foreign ptr h ≡ h
  unfolding kfree
  kfree_unknown e (inl m) = ground arith
  kfree_unknown e (inr f) = ground arith

  kfree_free :
      (b : Block)
      → block_at (sub64 ptr header_size) h.blocks ≡ some b
      → b.free ≡ true
      → kfree foreign ptr h ≡ h
  unfolding kfree
  kfree_free b e f = ground arith

  pub kfree_used :
      (b : Block)
      → ptr ≢ 0
      → block_at (sub64 ptr header_size) h.blocks ≡ some b
      → b.free ≡ false
      → kfree foreign ptr h ≡ record h {
        blocks =
            heap_coalesce
              (sub64 ptr header_size)
              (at_block (sub64 ptr header_size) (set_free true) h.blocks);
      }
  unfolding kfree
  kfree_used b n e f = ground arith

  release :
      (b : Block)
      → At h.blocks b
      → b.addr ≡ sub64 ptr header_size
      → b.free ≡ false
      → let blocks =
          heap_coalesce
            (sub64 ptr header_size)
            (at_block (sub64 ptr header_size) (set_free true) h.blocks) in
        let h' : Heap = record h { blocks = blocks } in IsValid h' × Frees ptr h h'
  unfolding used_blocks
  release b z at taken =
      let bound = v.bounded in
      let limit = v.limit in
      let whole = subst (λ l. Layout kernel_heap_start false l h.mapped_end) z.whole v.layout in
      let own = Layout-back kernel_heap_start h.mapped_end false z.front (b ∷ z.behind) whole in
      let inside = Layout-le _ h.mapped_end b.free z.behind own.3 in
      let (laid, used) =
        release_front kernel_heap_start h.mapped_end z.front b z.behind (omega arith) whole taken in
      let laid' = subst (λ l. Layout kernel_heap_start false l h.mapped_end) (here z at) laid in
      let used' = ap used_blocks (sym (here z at)) ∙ used in
      (
        record { layout = laid'; bounded = v.bounded; limit = v.limit },
        inr (
          b,
          used_blocks z.front,
          used_blocks z.behind,
          omega arith,
          ap used_blocks z.whole
              ∙ used_blocks-++ z.front (b ∷ z.behind)
              ∙ ap (λ u. used_blocks z.front ++ u) (ground arith),
          used',
        ),
      )
    where
      here :
          (z : At h.blocks b)
          → b.addr ≡ sub64 ptr header_size
          → heap_coalesce b.addr (at_block b.addr (set_free true) (z.front ++ (b ∷ z.behind)))
            ≡ heap_coalesce
                (sub64 ptr header_size)
                (at_block (sub64 ptr header_size) (set_free true) h.blocks)
      here z at =
          ap (λ a. heap_coalesce a (at_block a (set_free true) (z.front ++ (b ∷ z.behind)))) at
          ∙ ap
              (λ l.
                heap_coalesce (sub64 ptr header_size)
                  (at_block (sub64 ptr header_size) (set_free true) l))
              (sym z.whole)

  -- On a valid heap, where memory in front of the address that is no header of the heap's chain
  -- does not carry the magic number, or is marked free, `kfree` of an address that is not that of a
  -- block handed out changes nothing. Otherwise it takes back that block and no other. In both cases
  -- the heap stays valid: the blocks still tile the mapped part, and no two free ones follow one
  -- another.
  pub kfree-Frees :
      IsForeign foreign (sub64 ptr header_size) h
      → IsValid (kfree foreign ptr h) × Frees ptr h (kfree foreign ptr h)
  kfree-Frees known = elim (Bool-cases (ptr == 0)) [
    | inl null ↦
        rw (kfree_null (==→eq ptr 0 null))
          (v, inl (refl, All-every (used_blocks h.blocks) (λ u. omega (arith, ==→eq ptr 0 null))))
    | inr real ↦ elim (Option-cases (block_at (sub64 ptr header_size) h.blocks)) [
      | inl e ↦
          rw (kfree_unknown e (known e))
            (v, inl (refl, ignored (λ b k. absurd (none-some b (sym e ∙ k)))))
      | inr (b, e) ↦ elim (Bool-cases b.free) [
        | inl f ↦ rw (kfree_free b e f) (
          v,
          inl (
            refl,
            ignored (λ c k. subst (λ (x : Block). x.free ≡ true) (some-same b c (sym e ∙ k)) f),
          ),
        )
        | inr f ↦
            let (z, at) = block_at-At (sub64 ptr header_size) h.blocks b e in
            rw (kfree_used b (ground arith) e f) (release b z at f)
      ]
    ]
  ]
