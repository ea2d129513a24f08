-- ===== src/Heap/Malloc.antt =====
-- kernel/heap.c: kmalloc and heap_expand against the list of the blocks that are handed out.
use my_os.Prelude.{
  ℕ, ◌+◌, ◌-◌, ◌%◌, ◌^◌, ◌≤◌, ◌<◌, ◌≡◌, refl, sym, ap, ◌∙◌, subst, Bool, true, false, ◌&&◌, List,
  [], ◌∷◌, ◌++◌, none, some, arith, add64, sub64, leb, ◌==◌, ==→eq, u64_mod, Bool-cases,
  Option-cases, ◌⊎◌, inl, inr, All,
}
use my_os.Utils.Laws.{align_up-IsRoundUp}
use my_os.Heap.{
  Block, Heap, Paging, header_size, heap_align, align_up, kernel_heap_start, kernel_heap_max_size,
  kernel_heap_initial_size, at_block, split_block, set_free, merge_next, append_block,
  append_region, expand_size_of, heap_find_free_block, heap_expand, heap_init, take_block,
  search_again, malloc_rounded, kmalloc,
}
use my_os.Heap.Layout.{
  Layout, Layout-le, Layout-front, Layout-back, Layout-join, end_of, last_free, used_blocks,
  used_blocks-++, at_block-front, Split, Split-Layout,
}
use my_os.Heap.Zipper.{found-At}
use my_os.Heap.Free.{IsValid}

-- No free block of the chain is large enough.
abbrev pub Full : ℕ → List Block → Type 0
Full size blocks = All (λ (b : Block). (b.free && leb size b.size) ≡ false) blocks

-- What allocating does: nothing is handed out, or one block more is, at an address in whole units
-- of 16 bytes and with room for `size` bytes.
abbrev pub Allocates : ℕ → Heap → ℕ × Heap → Type 0
Allocates size h (ptr, h') =
    ((ptr ≡ 0)
      × (used_blocks h'.blocks ≡ used_blocks h.blocks)
      × ((h.initialized ≡ false) ⊎ (size ≡ 0) ⊎ Full (align_up size heap_align) h'.blocks))
    ⊎ ((b : Block) × (l : List Block) × (r : List Block) × (b.addr + header_size ≡ ptr)
        × (ptr % 16 ≡ 0)
        × (size ≤ b.size)
        × (used_blocks h.blocks ≡ l ++ r)
        × (used_blocks h'.blocks ≡ l ++ (b ∷ r)))

none-Full : (size : ℕ) (l : List Block) → heap_find_free_block size l ≡ none → Full size l
unfolding heap_find_free_block
none-Full size [] h = tt
none-Full size (b ∷ l) h = elim (Bool-cases (b.free && leb size b.size)) [
  | inl e ↦ absurd (some-none b (rw e at h))
  | inr e ↦ (e, none-Full size l (rw e at h))
]
  where
    some-none : (b : Block) → some b ≡ none → ⊥
    some-none b e = cc

end_of_aligned :
    (a e : ℕ) (before : Bool) (l : List Block) → a % 16 ≡ 0 → Layout a before l e → e % 16 ≡ 0
end_of_aligned a e before [] al h = omega arith
end_of_aligned a e before (b ∷ l) al h =
    end_of_aligned (a + header_size + b.size) e b.free l (omega (arith, h.1)) h.3

-- Taking the block `b` of a chain.
abbrev pub taken_blocks : ℕ → Block → List Block → List Block
taken_blocks size b blocks =
    at_block b.addr (set_free false) (at_block b.addr (split_block size) blocks)

record Takes (size : ℕ) (e : ℕ) (b : Block) (blocks : List Block) : Type 0 where
  block : Block
  l : List Block
  r : List Block
  same_addr : block.addr ≡ b.addr
  aligned : block.addr % 16 ≡ 0
  room : size ≤ block.size
  laid : Layout kernel_heap_start false (taken_blocks size b blocks) e
  used_before : used_blocks blocks ≡ l ++ r
  used_after : used_blocks (taken_blocks size b blocks) ≡ l ++ (block ∷ r)
  near : block.addr ≤ e

-- What the chain looks like then.
pub taken-shape :
    (m e size : ℕ) (front : List Block) (b : Block) (behind : List Block)
    → Layout kernel_heap_start false front (end_of kernel_heap_start front)
    → b.addr ≡ end_of kernel_heap_start front
    → (s : Split m e size b behind)
    → taken_blocks size b (front ++ (b ∷ behind))
      ≡ front ++ (record s.block { free = false } ∷ s.behind)
taken-shape m e size front b behind ahead at s =
    let a = kernel_heap_start in
    let block : Block = record s.block { free = false } in
    ap (at_block b.addr (set_free false)) (
      at_block-front a false front b behind (split_block size) ahead at
      ∙ ap (λ x. front ++ x) s.splits)
    ∙ subst
        (λ x.
          at_block x (set_free false) (front ++ (s.block ∷ s.behind)) ≡ front ++ (block ∷ s.behind))
        s.same_addr
        (at_block-front a false front s.block s.behind (set_free false) ahead (s.same_addr ∙ at))

take_front :
    (size e : ℕ) (front : List Block) (b : Block) (behind : List Block)
    → e < u64_mod
    → size % 16 ≡ 0
    → size ≤ b.size
    → b.free ≡ true
    → Layout kernel_heap_start false (front ++ (b ∷ behind)) e
    → Takes size e b (front ++ (b ∷ behind))
unfolding used_blocks
take_front size e front b behind small al fits is_free h =
    let a = kernel_heap_start in
    let ahead = Layout-front a e false front (b ∷ behind) h in
    let own = Layout-back a e false front (b ∷ behind) h in
    let m = end_of a front in
    let s = Split-Layout m e (last_free false front) b behind small size al is_free fits own in
    let block : Block = record s.block { free = false } in
    let shape = taken-shape m e size front b behind ahead own.0 s in
    let laid : Layout a false (front ++ (block ∷ s.behind)) e =
      Layout-join a e false front (block ∷ s.behind) ahead
        (s.layout.0, s.layout.1, ground arith, s.layout.3) in
    let inside = Layout-le _ e false s.behind s.layout.3 in
    record {
      block = block;
      l = used_blocks front;
      r = used_blocks behind;
      same_addr = s.same_addr;
      aligned =
          omega (arith, end_of_aligned a m false front (omega arith) ahead, own.0, s.same_addr);
      room = s.fits;
      laid = subst (λ x. Layout a false x e) (sym shape) laid;
      used_before =
          used_blocks-++ front (b ∷ behind) ∙ ap (λ u. used_blocks front ++ u) (ground arith);
      used_after =
          ap used_blocks shape
          ∙ used_blocks-++ front (block ∷ s.behind)
          ∙ ap (λ u. used_blocks front ++ (block ∷ u)) s.behind_used;
      near = omega (arith, s.layout.0);
    }

-- A new free block behind the last.
append-Lays :
    (a m size : ℕ) (before : Bool) (b : Block) (l : List Block)
    → Layout a before (b ∷ l) m
    → size % 16 ≡ 0
    → m + header_size + size < u64_mod
    → let new_block : Block = record { addr = m; size = size; free = true } in
      Layout a before (append_block (b ∷ l) new_block) (m + header_size + size)
      × (used_blocks (append_block (b ∷ l) new_block) ≡ used_blocks (b ∷ l))
unfolding append_block used_blocks merge_next
append-Lays a m size before b [] h al small = ground arith
append-Lays a m size before b (c ∷ l) h al small =
    let (laid, used) = append-Lays (a + header_size + b.size) m size b.free c l h.3 al small in
    ((h.0, h.1, h.2, laid), ground arith)

append_any :
    (m size : ℕ) (l : List Block)
    → Layout kernel_heap_start false l m
    → size % 16 ≡ 0
    → m + header_size + size < u64_mod
    → let new_block : Block = record { addr = m; size = size; free = true } in
      Layout kernel_heap_start false (append_block l new_block) (m + header_size + size)
      × (used_blocks (append_block l new_block) ≡ used_blocks l)
unfolding append_block used_blocks
append_any m size [] h al small = ((sym h, al, refl, omega arith), refl)
append_any m size (b ∷ l) h al small = append-Lays kernel_heap_start m size false b l h al small

append_region-IsValid :
    (h : Heap) (n : ℕ)
    → IsValid h
    → n % 16 ≡ 0
    → header_size ≤ n
    → h.mapped_end + n ≤ h.max_end
    → IsValid (append_region h n) × (used_blocks (append_region h n).blocks ≡ used_blocks h.blocks)
unfolding append_region
append_region-IsValid h n v al enough inside =
    let bounded = v.bounded in
    let limit = v.limit in
    let size : sub64 n header_size ≡ n - header_size = omega arith in
    let end : add64 h.mapped_end n ≡ h.mapped_end + header_size + (n - header_size) = omega arith in
    let (laid, used) =
      append_any h.mapped_end (n - header_size) h.blocks v.layout (omega arith) (omega arith) in
    rw (size, end) (record { layout = laid; bounded = omega arith; limit = v.limit }, used)

expand_size-fits :
    (min_size : ℕ)
    → min_size + 8192 ≤ u64_mod
    → (expand_size_of min_size % 16 ≡ 0)
      × (header_size + min_size ≤ expand_size_of min_size)
      × (expand_size_of min_size < header_size + min_size + kernel_heap_initial_size)
unfolding expand_size_of
expand_size-fits min_size small =
    let needed : add64 header_size min_size ≡ header_size + min_size = omega arith in
    let (whole, above, near) =
      align_up-IsRoundUp 12 (header_size + min_size) (omega arith) (omega arith) in
    rw needed (ground arith)

module _ {W : Type 0} (paging : Paging W) where
  -- Growing the heap, whether or not it succeeds.
  expand-cases :
      (min_size : ℕ) (w : W) (h : Heap)
      → ((heap_expand paging min_size (w, h)).2 ≡ h)
        ⊎ (((heap_expand paging min_size (w, h)).2 ≡ append_region h (expand_size_of min_size))
            × (add64 h.mapped_end (expand_size_of min_size) ≤ h.max_end))
  unfolding heap_expand
  expand-cases min_size w h = ground arith

  pub heap_expand-IsValid :
      (min_size : ℕ) (w : W) (h : Heap)
      → IsValid h
      → min_size ≤ 2 ^ 63
      → IsValid (heap_expand paging min_size (w, h)).2
        × (used_blocks (heap_expand paging min_size (w, h)).2.blocks ≡ used_blocks h.blocks)
  heap_expand-IsValid min_size w h v small = elim (expand-cases min_size w h) [
    | inl e ↦ rw e (v, refl)
    | inr (e, inside) ↦
        let (al, enough, near) = expand_size-fits min_size (omega arith) in
        let bounded = v.bounded in
        let limit = v.limit in
        rw e (append_region-IsValid h (expand_size_of min_size) v al (omega arith) (omega arith))
  ]

  -- The end of `kmalloc`, on the chain in which the block was found.
  take_block-Allocates :
      (size : ℕ) (b : Block) (h : Heap)
      → IsValid h
      → heap_find_free_block size h.blocks ≡ some b
      → size % 16 ≡ 0
      → let (ptr, h') = take_block size b h in
        IsValid h'
        × ((c : Block) × (l : List Block) × (r : List Block) × (c.addr + header_size ≡ ptr)
            × (ptr % 16 ≡ 0)
            × (size ≤ c.size)
            × (used_blocks h.blocks ≡ l ++ r)
            × (used_blocks h'.blocks ≡ l ++ (c ∷ r)))
  take_block-Allocates size b h v e al =
      let (z, is_free, fits) = found-At size h.blocks b e in
      let bounded = v.bounded in
      let limit = v.limit in
      let whole = subst (λ l. Layout kernel_heap_start false l h.mapped_end) z.whole v.layout in
      let t =
        subst (λ l. Takes size h.mapped_end b l) (sym z.whole)
          (take_front size h.mapped_end z.front b z.behind (omega arith) al fits is_free whole) in
      let address : add64 b.addr header_size ≡ t.block.addr + header_size =
        omega (arith, t.near, t.same_addr) in
      (
        record { layout = t.laid; bounded = v.bounded; limit = v.limit },
        (
          t.block,
          t.l,
          t.r,
          sym address,
          omega (arith, t.aligned, address),
          t.room,
          t.used_before,
          t.used_after,
        ),
      )

  abbrev Outcome : ℕ → Heap → ℕ × W × Heap → Type 0
  Outcome size h (ptr, w', h') =
      IsValid h'
      × (((ptr ≡ 0) × (used_blocks h'.blocks ≡ used_blocks h.blocks) × Full size h'.blocks)
          ⊎ ((c : Block) × (l : List Block) × (r : List Block) × (c.addr + header_size ≡ ptr)
              × (ptr % 16 ≡ 0)
              × (size ≤ c.size)
              × (used_blocks h.blocks ≡ l ++ r)
              × (used_blocks h'.blocks ≡ l ++ (c ∷ r))))

  found-Outcome :
      (size : ℕ) (h h' : Heap) (w' : W) (b : Block)
      → IsValid h'
      → used_blocks h'.blocks ≡ used_blocks h.blocks
      → size % 16 ≡ 0
      → heap_find_free_block size h'.blocks ≡ some b
      → Outcome size h ((take_block size b h').0, w', (take_block size b h').1)
  found-Outcome size h h' w' b v same al e =
      let (v', (c, l, r, at, whole, room, before, after)) = take_block-Allocates size b h' v e al in
      (v', inr (c, l, r, at, whole, room, sym same ∙ before, after))

  -- The second search, after the heap has grown.
  search_again-Outcome :
      (size : ℕ) (h h' : Heap) (w' : W)
      → IsValid h'
      → used_blocks h'.blocks ≡ used_blocks h.blocks
      → size % 16 ≡ 0
      → Outcome size h (search_again size w' h')
  unfolding search_again
  search_again-Outcome size h h' w' v same al =
      elim (Option-cases (heap_find_free_block size h'.blocks)) [
        | inl e ↦ rw (e, search_again) (v, inl (refl, same, none-Full size h'.blocks e))
        | inr (b, e) ↦ rw (e, search_again) (found-Outcome size h h' w' b v same al e)
      ]

  pub malloc_found :
      (size : ℕ) (w : W) (h : Heap) (b : Block)
      → heap_find_free_block size h.blocks ≡ some b
      → malloc_rounded paging size (w, h) ≡ ((take_block size b h).0, w, (take_block size b h).1)
  unfolding malloc_rounded
  malloc_found size w h b e = ground arith

  malloc_grown :
      (size : ℕ) (w : W) (h : Heap)
      → heap_find_free_block size h.blocks ≡ none
      → (heap_expand paging size (w, h)).0 ≡ true
      → malloc_rounded paging size (w, h)
        ≡ search_again size (heap_expand paging size (w, h)).1 (heap_expand paging size (w, h)).2
  unfolding malloc_rounded
  malloc_grown size w h e f = ground arith

  malloc_failed :
      (size : ℕ) (w : W) (h : Heap)
      → heap_find_free_block size h.blocks ≡ none
      → (heap_expand paging size (w, h)).0 ≡ false
      → malloc_rounded paging size (w, h) ≡ (0, (heap_expand paging size (w, h)).1, h)
  unfolding malloc_rounded heap_expand
  malloc_failed size w h e f = ground arith

  malloc_rounded-Outcome :
      (size : ℕ) (w : W) (h : Heap)
      → IsValid h
      → size % 16 ≡ 0
      → size ≤ 2 ^ 63
      → Outcome size h (malloc_rounded paging size (w, h))
  malloc_rounded-Outcome size w h v al small =
      elim (Option-cases (heap_find_free_block size h.blocks)) [
        | inr (b, e) ↦ rw (malloc_found size w h b e) (found-Outcome size h h w b v refl al e)
        | inl e ↦ elim (Bool-cases (heap_expand paging size (w, h)).0) [
          | inr f ↦ rw (malloc_failed size w h e f) (v, inl (refl, refl, none-Full size h.blocks e))
          | inl f ↦
              let (v', same) = heap_expand-IsValid size w h v small in
              rw (malloc_grown size w h e f) (
                search_again-Outcome size h (heap_expand paging size (w, h)).2
                  (heap_expand paging size (w, h)).1 v' same al)
        ]
      ]

  kmalloc_refused :
      (size : ℕ) (w : W) (h : Heap)
      → (h.initialized ≡ false) ⊎ (size ≡ 0)
      → kmalloc paging size (w, h) ≡ (0, w, h)
  unfolding kmalloc
  kmalloc_refused size w h e = ground arith

  pub kmalloc_runs :
      (size : ℕ) (w : W) (h : Heap)
      → h.initialized ≡ true
      → (size == 0) ≡ false
      → kmalloc paging size (w, h) ≡ malloc_rounded paging (align_up size heap_align) (w, h)
  unfolding kmalloc
  kmalloc_runs size w h e f = ground arith

  rounded-Allocates :
      (size : ℕ) (h : Heap) (r : ℕ × W × Heap)
      → size ≤ align_up size heap_align
      → Outcome (align_up size heap_align) h r
      → IsValid r.2 × Allocates size h (r.0, r.2)
  rounded-Allocates size h (ptr, w', h') up (v, inl (z, same, full)) =
      (v, inl (z, same, inr (inr full)))
  rounded-Allocates size h (ptr, w', h') up (v, inr (c, l, r, at, whole, room, before, after)) =
      (v, inr (c, l, r, at, whole, omega arith, before, after))

  -- On a valid heap, whatever the page tables and the frames do, `kmalloc` of at most 2 ^ 62 bytes
  -- keeps the heap valid. It returns 0 and hands out nothing, when the heap is not set up, the size
  -- is 0, or no free block is large enough even after growing; or it hands out exactly one block
  -- more, of the size at least, at an address in whole units of 16 bytes.
  pub kmalloc-Allocates :
      (size : ℕ) (w : W) (h : Heap)
      → IsValid h
      → size ≤ 2 ^ 62
      → let (ptr, w', h') = kmalloc paging size (w, h) in IsValid h' × Allocates size h (ptr, h')
  kmalloc-Allocates size w h v small = elim (Bool-cases h.initialized) [
    | inr e ↦ rw (kmalloc_refused size w h (inl e)) (v, inl (refl, refl, inl e))
    | inl e ↦ elim (Bool-cases (size == 0)) [
      | inl zero_size ↦
          let f = ==→eq size 0 zero_size in
          rw (kmalloc_refused size w h (inr f)) (v, inl (refl, refl, inr (inl f)))
      | inr some_size ↦
          let (whole, above, near) = align_up-IsRoundUp 4 size (omega arith) (omega arith) in
          rw (kmalloc_runs size w h e some_size) (
            rounded-Allocates size h (malloc_rounded paging (align_up size heap_align) (w, h)) above
              (malloc_rounded-Outcome (align_up size heap_align) w h v whole (omega arith)))
    ]
  ]

  -- `heap_init` leaves a valid heap that hands out nothing.
  pub heap_init-IsValid :
      (w : W) → IsValid (heap_init paging w).1 × (used_blocks (heap_init paging w).1.blocks ≡ [])
  unfolding heap_init used_blocks
  heap_init-IsValid w =
      let start : Heap = record {
        blocks = [];
        mapped_end = kernel_heap_start;
        max_end = kernel_heap_start + kernel_heap_max_size;
        initialized = false;
      } in
      let v : IsValid start = record { layout = refl; bounded = omega arith; limit = refl } in
      let (v', used) =
        heap_expand-IsValid (kernel_heap_initial_size - header_size) w start v (omega arith) in
      (record { layout = v'.layout; bounded = v'.bounded; limit = v'.limit }, used)
