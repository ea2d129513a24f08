-- ===== src/Heap/RoundTrip.antt =====
-- kernel/heap.c: kfree of what kmalloc has just returned.
use my_os.Prelude.{
  ℕ, ◌+◌, ◌-◌, ◌%◌, ◌^◌, ◌≤◌, ◌<◌, ◌≡◌, refl, sym, ap, ◌∙◌, subst, ◌≢◌, Bool, true, false, List, [],
  ◌∷◌, ◌++◌, none, some, arith, add64, sub64, dec_lt, u64_mod,
}
use my_os.Utils.Laws.{align_up-IsRoundUp}
use my_os.Heap.{
  Foreign, Block, Heap, Paging, header_size, heap_align, align_up, kernel_heap_start, at_block,
  block_at, split_block, set_free, merge_next, coalesce_prev, heap_coalesce, heap_find_free_block,
  take_block, kmalloc, kfree,
}
use my_os.Heap.Layout.{
  Layout, Layout-le, Layout-front, Layout-back, end_of, last_free, at_block-front, Split-Layout,
}
use my_os.Heap.Zipper.{
  found-At, block_at-front, prev_of-front, last_block, Snoc-cases, last_block-snoc, last_free-snoc,
}
use my_os.Heap.Free.{IsValid, prev_none, prev_used}
use my_os.Heap.Malloc.{taken_blocks, taken-shape, malloc_found, kmalloc_runs}

-- The first block marked free again, and merged.
abbrev remerge : List Block → List Block
remerge [] = []
remerge (b ∷ l) = merge_next (record b { free = true }) l

pub split_kept :
    (size : ℕ) (b : Block) (behind : List Block)
    → size ≤ b.size
    → b.size - size < 80
    → split_block size b behind ≡ b ∷ behind
unfolding split_block
split_kept size b behind fits close = ground arith

abbrev pub new_block : ℕ → Block → Block
new_block size b = record {
  addr = add64 (add64 b.addr header_size) size;
  size = b.size - size - header_size;
  free = true;
}

pub split_cut :
    (size : ℕ) (b : Block) (behind : List Block)
    → size ≤ b.size
    → 80 ≤ b.size - size
    → split_block size b behind ≡ record b { size = size } ∷ new_block size b ∷ behind
unfolding split_block
split_cut size b behind fits wide = ground arith

same_block :
    (b : Block) (size : ℕ)
    → b.free ≡ true
    → size ≡ b.size
    → record b { size = size; free = true } ≡ b
same_block b size f e = λ i. record b { size = e i; free = sym f i }

-- A used block in front stays apart.
merge_used :
    (m e : ℕ) (b : Block) (behind : List Block)
    → Layout m true behind e
    → merge_next b behind ≡ b ∷ behind
unfolding merge_next
merge_used m e b [] h = refl
merge_used m e b (c ∷ behind) h = ground arith

remerge-split :
    (m e size : ℕ) (before : Bool) (b : Block) (behind : List Block)
    → e < u64_mod
    → size ≤ b.size
    → b.free ≡ true
    → Layout m before (b ∷ behind) e
    → remerge (split_block size b behind) ≡ b ∷ behind
unfolding merge_next
remerge-split m e size before b behind small fits is_free h =
    let inside = Layout-le (m + header_size + b.size) e b.free behind h.3 in
    let after = subst (λ x. Layout (m + header_size + b.size) x behind e) is_free h.3 in
    elim (dec_lt (b.size - size) 80) [
      | yes close ↦
          ap remerge (split_kept size b behind fits close)
          ∙ merge_used (m + header_size + b.size) e (record b { free = true }) behind after
          ∙ ap (λ (x : Block). x ∷ behind) (same_block b b.size is_free refl)
      | no wide ↦
          ap remerge (split_cut size b behind fits (omega arith))
          ∙ ap (λ (x : Block). x ∷ behind)
              (same_block b (add64 (add64 size header_size) (b.size - size - header_size)) is_free
                (omega arith))
    ]

-- The block in front of a free one is not free, so that nothing more is merged.
prev_kept :
    (a e : ℕ) (front : List Block) (b : Block) (rest : List Block)
    → Layout a false front (end_of a front)
    → b.addr ≡ end_of a front
    → last_free false front ≡ false
    → coalesce_prev b.addr (front ++ (b ∷ rest)) ≡ front ++ (b ∷ rest)
prev_kept a e [] b rest h at f =
    prev_none b.addr (b ∷ rest) (prev_of-front a false none [] b rest refl at)
prev_kept a e (c ∷ l) b rest h at f =
    let s = Snoc-cases c l in
    let prev =
      prev_of-front a false none (c ∷ l) b rest h at
      ∙ ap (last_block none) s.whole
      ∙ last_block-snoc none s.init s.last in
    prev_used b.addr ((c ∷ l) ++ (b ∷ rest)) s.last prev
      (sym (last_free-snoc false s.init s.last) ∙ ap (last_free false) (sym s.whole) ∙ f)

-- The block taken is found again, and giving it back restores the chain.
abbrev Restores : ℕ → Block → List Block → Type 0
Restores size b blocks =
    (c : Block) × (block_at b.addr (taken_blocks size b blocks) ≡ some c)
    × (c.free ≡ false)
    × (heap_coalesce b.addr (at_block b.addr (set_free true) (taken_blocks size b blocks)) ≡ blocks)

kfree_step :
    (foreign : Foreign) (ptr addr : ℕ) (h : Heap) (c : Block)
    → sub64 ptr header_size ≡ addr
    → ptr ≢ 0
    → block_at addr h.blocks ≡ some c
    → c.free ≡ false
    → kfree foreign ptr h
      ≡ record h { blocks = heap_coalesce addr (at_block addr (set_free true) h.blocks) }
unfolding kfree
kfree_step foreign ptr addr h c e n at taken = ground arith

restore_front :
    (size e : ℕ) (front : List Block) (b : Block) (behind : List Block)
    → e < u64_mod
    → size % 16 ≡ 0
    → size ≤ b.size
    → b.free ≡ true
    → Layout kernel_heap_start false (front ++ (b ∷ behind)) e
    → Restores size b (front ++ (b ∷ behind))
unfolding heap_coalesce
restore_front size e front b behind small al fits is_free h =
    let a = kernel_heap_start in
    let ahead = Layout-front a e false front (b ∷ behind) h in
    let own = Layout-back a e false front (b ∷ behind) h in
    let m = end_of a front in
    let s = Split-Layout m e (last_free false front) b behind small size al is_free fits own in
    let block : Block = record s.block { free = false } in
    let shape = taken-shape m e size front b behind ahead own.0 s in
    let here = s.same_addr ∙ own.0 in
    let merged : merge_next (record s.block { free = true }) s.behind ≡ b ∷ behind =
      sym (ap remerge s.splits)
      ∙ remerge-split m e size (last_free false front) b behind small fits is_free own in
    let restored : heap_coalesce block.addr
          (at_block block.addr (set_free true) (front ++ (block ∷ s.behind)))
        ≡ front ++ (b ∷ behind) =
      ap (heap_coalesce block.addr)
        (at_block-front a false front block s.behind (set_free true) ahead here)
      ∙ ap (coalesce_prev block.addr) (
          at_block-front a false front (record s.block { free = true }) s.behind merge_next ahead
            here
          ∙ ap (λ x. front ++ x) merged)
      ∙ subst (λ x. coalesce_prev x (front ++ (b ∷ behind)) ≡ front ++ (b ∷ behind))
          (sym s.same_addr) (prev_kept a e front b behind ahead own.0 (ground arith)) in
    (
      block,
      ap (block_at b.addr) shape
          ∙ subst (λ x. block_at x (front ++ (block ∷ s.behind)) ≡ some block) s.same_addr
              (block_at-front a false front block s.behind ahead here),
      refl,
      ap (λ l. heap_coalesce b.addr (at_block b.addr (set_free true) l)) shape
          ∙ subst
              (λ x.
                heap_coalesce x (at_block x (set_free true) (front ++ (block ∷ s.behind)))
                ≡ front ++ (b ∷ behind))
              s.same_addr restored,
    )

-- On a valid heap that is set up, when some free block is large enough, freeing what `kmalloc`
-- returns restores the heap exactly: the split block is merged again, and nothing else.
pub kfree-kmalloc :
    {W : Type 0} (paging : Paging W) (foreign : Foreign) (size : ℕ) (w : W) (h : Heap) (b : Block)
    → IsValid h
    → h.initialized ≡ true
    → 0 < size
    → size ≤ 2 ^ 62
    → heap_find_free_block (align_up size heap_align) h.blocks ≡ some b
    → let (ptr, w', h') = kmalloc paging size (w, h) in kfree foreign ptr h' ≡ h
kfree-kmalloc paging foreign size w h b v ready some_size small e =
    let n = align_up size heap_align in
    let (whole, above, near) = align_up-IsRoundUp 4 size (omega arith) (omega arith) in
    let bounded = v.bounded in
    let limit = v.limit in
    let (z, is_free, fits) = found-At n h.blocks b e in
    let layout = subst (λ l. Layout kernel_heap_start false l h.mapped_end) z.whole v.layout in
    let own = Layout-back kernel_heap_start h.mapped_end false z.front (b ∷ z.behind) layout in
    let inside = Layout-le _ h.mapped_end b.free z.behind own.3 in
    let (c, at, taken, restored) =
      subst (λ l. Restores n b l) (sym z.whole)
        (restore_front n h.mapped_end z.front b z.behind (omega arith) whole fits is_free layout) in
    rw (kmalloc_runs paging size w h ready (ground arith) ∙ malloc_found paging n w h b e) (
      kfree_step foreign (add64 b.addr header_size) b.addr (take_block n b h).1 c (omega arith)
        (omega arith) at taken
      ∙ ap (λ l. record h { blocks = l }) restored)
