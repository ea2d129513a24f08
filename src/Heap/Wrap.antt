-- ===== src/Heap/Wrap.antt =====
-- kernel/heap.c: kmalloc of the sizes whose rounding wraps around.
use my_os.Prelude.{
  ℕ, ◌+◌, ◌-◌, ◌^◌, ◌≤◌, ◌<◌, ◌≡◌, refl, sym, ap, ◌∙◌, subst, ◌⊎◌, inl, inr, true, false, List, [],
  ◌∷◌, ◌++◌, some, arith, add64, sub64, dec_lt, u64_mod,
}
use my_os.Utils.Laws.{bit_and-mask}
use my_os.Utils.{align_up_u64}
use my_os.Heap.{
  Block, Heap, Paging, header_size, heap_align, align_up, heap_find_free_block, kmalloc, take_block,
  block_at, split_block, kernel_heap_start,
}
use my_os.Heap.Layout.{
  Layout, Layout-le, Layout-front, Layout-back, end_of, last_free, Split-Layout,
}
use my_os.Heap.Zipper.{found-At, block_at-front}
use my_os.Heap.Free.{IsValid}
use my_os.Heap.RoundTrip.{split_kept, split_cut}
use my_os.Heap.Malloc.{malloc_found, kmalloc_runs, taken_blocks, taken-shape}

-- The last fifteen sizes are rounded up to 0.
align_up-wraps : (size : ℕ) → 2 ^ 64 - 16 < size → size < 2 ^ 64 → align_up size heap_align ≡ 0
unfolding align_up_u64
align_up-wraps size low high =
    let sum : sub64 (add64 size (2 ^ 4)) 1 ≡ size + 15 - 2 ^ 64 = omega arith in
    rw (sum, bit_and-mask 4 (size + 15 - 2 ^ 64) (omega arith) (omega arith)) (omega arith)

-- How the block comes to be handed out: as a block of 0 bytes, or whole where it is too small for a
-- header and 32 bytes to be split off.
abbrev IsCut : Block → Block → Type 0
IsCut b c = ((80 ≤ b.size) × (c.size ≡ 0)) ⊎ ((b.size < 80) × (c.size ≡ b.size))

first_size : List Block → ℕ
first_size [] = 0
first_size (b ∷ rest) = b.size

split_nothing :
    (b c : Block) (behind rest : List Block) → split_block 0 b behind ≡ c ∷ rest → IsCut b c
unfolding first_size
split_nothing b c behind rest e = elim (dec_lt b.size 80) [
  | yes close ↦ inr (
    close,
    sym (ap first_size e) ∙ ap first_size (split_kept 0 b behind (omega arith) (omega arith)),
  )
  | no wide ↦ inl (
    omega arith,
    sym (ap first_size e) ∙ ap first_size (split_cut 0 b behind (omega arith) (omega arith)),
  )
]

-- What stands at the address of a free block once 0 bytes are taken from it.
taken_front :
    (e : ℕ) (front : List Block) (b : Block) (behind : List Block)
    → e < u64_mod
    → b.free ≡ true
    → Layout kernel_heap_start false (front ++ (b ∷ behind)) e
    → (c : Block) × (block_at b.addr (taken_blocks 0 b (front ++ (b ∷ behind))) ≡ some c)
      × (c.free ≡ false)
      × IsCut b c
taken_front e front b behind small is_free h =
    let a = kernel_heap_start in
    let ahead = Layout-front a e false front (b ∷ behind) h in
    let own = Layout-back a e false front (b ∷ behind) h in
    let m = end_of a front in
    let s =
      Split-Layout m e (last_free false front) b behind small 0 refl is_free (omega arith) own in
    let block : Block = record s.block { free = false } in
    (
      block,
      ap (block_at b.addr) (taken-shape m e 0 front b behind ahead own.0 s)
          ∙ subst (λ x. block_at x (front ++ (block ∷ s.behind)) ≡ some block) s.same_addr
              (block_at-front a false front block s.behind ahead (s.same_addr ∙ own.0)),
      refl,
      split_nothing b s.block behind s.behind s.splits,
    )

-- What the call does with the free block `b`: it hands it out.
abbrev pub Wraps : {W : Type 0} → Heap → Block → W → ℕ × W × Heap → Type 0
Wraps h b w (ptr, w', h') =
    (ptr ≡ b.addr + 48)
    × (w' ≡ w)
    × (h'.mapped_end ≡ h.mapped_end)
    × ((c : Block) × (block_at b.addr h'.blocks ≡ some c) × (c.free ≡ false) × IsCut b c)

-- On a valid heap that is set up and has a free block, asking for one of the last fifteen sizes
-- below 2 ^ 64 does not fail and maps no memory: it hands out the first free block of any size, cut
-- down to 0 bytes where it has at least 80, and otherwise whole.
pub kmalloc-Wraps :
    {W : Type 0} (paging : Paging W) (size : ℕ) (w : W) (h : Heap) (b : Block)
    → IsValid h
    → 2 ^ 64 - 16 < size
    → size < 2 ^ 64
    → h.initialized ≡ true
    → heap_find_free_block 0 h.blocks ≡ some b
    → Wraps h b w (kmalloc paging size (w, h))
kmalloc-Wraps paging size w h b v low high ready e =
    let bounded = v.bounded in
    let limit = v.limit in
    let (z, is_free, fits) = found-At 0 h.blocks b e in
    let layout = subst (λ l. Layout kernel_heap_start false l h.mapped_end) z.whole v.layout in
    let own = Layout-back kernel_heap_start h.mapped_end false z.front (b ∷ z.behind) layout in
    let inside = Layout-le _ h.mapped_end b.free z.behind own.3 in
    let taken =
      subst
        (λ l.
          (c : Block) × (block_at b.addr (taken_blocks 0 b l) ≡ some c)
          × (c.free ≡ false)
          × IsCut b c)
        (sym z.whole) (taken_front h.mapped_end z.front b z.behind (omega arith) is_free layout) in
    let run : kmalloc paging size (w, h) ≡ (add64 b.addr header_size, w, (take_block 0 b h).1) =
      kmalloc_runs paging size w h ready (ground arith)
      ∙ rw (align_up-wraps size low high) (malloc_found paging 0 w h b e) in
    rw run (omega arith, refl, refl, taken)
