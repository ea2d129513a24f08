-- ===== src/Heap.antt =====
-- kernel/heap.c: the kernel heap. The `next` chain from `heap_first` is the list `blocks`, and the
-- `prev` of a block is the one in front of it. A pointer to a block is its address. Every header in
-- the chain was written by `heap_init_block`, so its magic number is the right one and is left out;
-- what memory holds at an address that is no header in the chain is an argument of `kfree`.
mod Tests
pub mod Layout
pub mod Zipper
pub mod Malloc
pub mod Free
pub mod RoundTrip
pub mod Wrap
use my_os.Prelude.{
  ℕ, zero, suc, ◌+◌, ◌-◌, ◌*◌, ◌/◌, Bool, true, false, not, ◌&&◌, List, [], ◌∷◌, Option, none, some,
  add64, sub64, ltb, leb, ◌==◌, if◌then◌else◌,
}
use my_os.Utils.{align_up_u64}
use my_os.Pmm.{page_size}

abbrev pub heap_align : ℕ
heap_align = 16

abbrev pub heap_min_split : ℕ
heap_min_split = 32

-- `sizeof(heap_block_t)`.
abbrev pub header_size : ℕ
header_size = 48

abbrev pub heap_page_flags : ℕ
heap_page_flags = 3

abbrev pub kernel_heap_start : ℕ
kernel_heap_start = 0x41000000

abbrev pub kernel_heap_initial_size : ℕ
kernel_heap_initial_size = 0x4000

abbrev pub kernel_heap_max_size : ℕ
kernel_heap_max_size = 0x1000000

-- `heap_block_t` at `addr`.
pub record Block : Type 0 where
  pub addr : ℕ
  pub size : ℕ
  pub free : Bool

-- The static variables; `heap_start` never changes.
pub record Heap : Type 0 where
  pub blocks : List Block
  pub mapped_end : ℕ
  pub max_end : ℕ
  pub initialized : Bool

-- The static `align_up` has the body of `align_up_u64`.
abbrev pub align_up : ℕ → ℕ → ℕ
align_up value align = align_up_u64 value align

-- An update through a pointer to the block at `addr`: `f` is given the block and those behind it.
unfoldable pub at_block : ℕ → (Block → List Block → List Block) → List Block → List Block
at_block addr f [] = []
at_block addr f (b ∷ rest) =
    let later = at_block addr f rest in if b.addr == addr then f b rest else b ∷ later

unfoldable pub block_at : ℕ → List Block → Option Block
block_at addr [] = none
block_at addr (b ∷ rest) =
    let later = block_at addr rest in if b.addr == addr then some b else later

-- The `prev` of the block at `addr`; `before` is the block in front of the list.
unfoldable pub prev_of : Option Block → ℕ → List Block → Option Block
prev_of before addr [] = none
prev_of before addr (b ∷ rest) =
    let later = prev_of (some b) addr rest in if b.addr == addr then before else later

unfoldable pub heap_find_free_block : ℕ → List Block → Option Block
heap_find_free_block size [] = none
heap_find_free_block size (b ∷ rest) =
    let later = heap_find_free_block size rest in
    if b.free && leb size b.size then some b else later

-- `heap_split_block` at the block and those behind it.
unfoldable pub split_block : ℕ → Block → List Block → List Block
split_block size b rest =
    let remaining = b.size - size in
    let new_block : Block = record {
      addr = add64 (add64 b.addr header_size) size;
      size = remaining - header_size;
      free = true;
    } in
    if ltb b.size size
    then b ∷ rest
    else if ltb remaining (header_size + heap_min_split)
    then b ∷ rest
    else record b { size = size } ∷ new_block ∷ rest

abbrev pub set_free : Bool → Block → List Block → List Block
set_free free b rest = record b { free = free } ∷ rest

-- `heap_coalesce_with_next` at the block and those behind it.
unfoldable pub merge_next : Block → List Block → List Block
merge_next b [] = b ∷ []
merge_next b (next ∷ rest) =
    if next.free
    then record b { size = add64 (add64 b.size header_size) next.size } ∷ rest
    else b ∷ next ∷ rest

-- The second half of `heap_coalesce`: a free block in front of the one at `addr`.
unfoldable pub coalesce_prev : ℕ → List Block → List Block
coalesce_prev addr blocks = elim (prev_of none addr blocks) [
  | none ↦ blocks
  | some prev ↦ if prev.free then at_block prev.addr merge_next blocks else blocks
]

-- `heap_coalesce` of the block at `addr`.
unfoldable pub heap_coalesce : ℕ → List Block → List Block
heap_coalesce addr blocks = coalesce_prev addr (at_block addr merge_next blocks)

-- The end of `heap_expand`: the walk of `heap_last_block`, and the new block behind the last.
unfoldable pub append_block : List Block → Block → List Block
append_block [] new_block = new_block ∷ []
append_block (b ∷ []) new_block =
    if b.free then merge_next b (new_block ∷ []) else b ∷ new_block ∷ []
append_block (b ∷ c ∷ rest) new_block = b ∷ append_block (c ∷ rest) new_block

unfoldable pub append_region : Heap → ℕ → Heap
append_region h expand_size =
    let new_block : Block = record {
      addr = h.mapped_end;
      size = sub64 expand_size header_size;
      free = true;
    } in
    record h {
      mapped_end = add64 h.mapped_end expand_size;
      blocks = append_block h.blocks new_block;
    }

unfoldable pub expand_size_of : ℕ → ℕ
expand_size_of min_payload_size =
    let expand_size = align_up (add64 header_size min_payload_size) page_size in
    if ltb expand_size kernel_heap_initial_size then kernel_heap_initial_size else expand_size

-- `HEAP_BLOCK_MAGIC`.
abbrev pub heap_block_magic : ℕ
heap_block_magic = 0x48454150424C4B30

-- Memory at the addresses where no header of the chain stands: what `kfree` reads there as the magic
-- number and as the mark of a free block, and what becomes of the heap when it takes such memory for
-- a block that is handed out and links it into the chain, with the pointers that it finds there.
pub record Foreign : Type 0 where
  pub magic : ℕ → ℕ
  pub is_free : ℕ → Bool
  pub corrupt : ℕ → Heap → Heap

unfoldable pub kfree : Foreign → ℕ → Heap → Heap
kfree foreign ptr h =
    let addr = sub64 ptr header_size in
    if ptr == 0 then h else elim (block_at addr h.blocks) [
      | none ↦
          if not (foreign.magic addr == heap_block_magic)
          then h
          else if foreign.is_free addr
          then h
          else foreign.corrupt addr h
      | some b ↦
          if b.free
          then h
          else record h { blocks = heap_coalesce addr (at_block addr (set_free true) h.blocks) }
    ]

-- The loops that report on the chain.
unfoldable pub heap_total_free_bytes : List Block → ℕ
heap_total_free_bytes [] = 0
heap_total_free_bytes (b ∷ rest) =
    let total = heap_total_free_bytes rest in if b.free then add64 b.size total else total

unfoldable pub heap_largest_free_block : ℕ → List Block → ℕ
heap_largest_free_block largest [] = largest
heap_largest_free_block largest (b ∷ rest) =
    heap_largest_free_block (if b.free && ltb largest b.size then b.size else largest) rest

unfoldable pub heap_block_count : List Block → ℕ
heap_block_count [] = 0
heap_block_count (b ∷ rest) = suc (heap_block_count rest)

-- The end of `kmalloc`, with the block that was found.
abbrev pub take_block : ℕ → Block → Heap → ℕ × Heap
take_block size b h = (
  add64 b.addr header_size,
  record h {
    blocks = at_block b.addr (set_free false) (at_block b.addr (split_block size) h.blocks);
  },
)

-- The second search of `kmalloc`, in the heap that has grown.
unfoldable pub search_again {ℓ} : {W : Type ℓ} → ℕ → W → Heap → ℕ × W × Heap
search_again size w h = elim (heap_find_free_block size h.blocks) [
  | none ↦ (0, w, h)
  | some b ↦ let (ptr, h') = take_block size b h in (ptr, w, h')
]

-- What the heap uses of kernel/pmm.c and kernel/vmm.c, on a world of their own.
pub record Paging (W : Type 0) : Type 0 where
  pub alloc_frame : W → ℕ × W
  pub map_page : ℕ → ℕ → ℕ → W → W
  pub unmap_page : ℕ → W → W

module _ {W : Type 0} (paging : Paging W) where
  -- The inner loop of `heap_map_pages`: `n` pages are mapped.
  pub unmap_loop : ℕ → ℕ → W → W
  unmap_loop zero virt_start w = w
  unmap_loop (suc n) virt_start w =
      unmap_loop n virt_start (paging.unmap_page (add64 virt_start (n * page_size)) w)

  -- The outer loop with `left` pages left, after `n` pages.
  pub map_loop : ℕ → ℕ → ℕ → W → Bool × W
  unfolding unmap_loop
  map_loop zero n virt_start w = (true, w)
  map_loop (suc left) n virt_start w =
      let (phys, w') = paging.alloc_frame w in
      elim (phys == 0) [
        | true ↦ (false, unmap_loop n virt_start w')
        | false ↦
            map_loop left (n + 1) virt_start
              (paging.map_page (add64 virt_start (n * page_size)) phys heap_page_flags w')
      ]

  unfoldable pub heap_map_pages : ℕ → ℕ → W → Bool × W
  unfolding map_loop
  heap_map_pages virt_start size w = map_loop (align_up size page_size / page_size) 0 virt_start w

  unfoldable pub heap_expand : ℕ → W × Heap → Bool × W × Heap
  heap_expand min_payload_size (w, h) =
      let expand_size = expand_size_of min_payload_size in
      let (mapped, w') = heap_map_pages h.mapped_end expand_size w in
      if ltb h.max_end (add64 h.mapped_end expand_size)
      then (false, w, h)
      else if not mapped
      then (false, w', h)
      else (true, w', append_region h expand_size)

  unfoldable pub heap_init : W → W × Heap
  heap_init w =
      let start : Heap = record {
        blocks = [];
        mapped_end = kernel_heap_start;
        max_end = kernel_heap_start + kernel_heap_max_size;
        initialized = false;
      } in
      let (expanded, w', h) = heap_expand (kernel_heap_initial_size - header_size) (w, start) in
      (w', record h { initialized = expanded })

  -- `kmalloc` behind its tests, with the rounded size.
  unfoldable pub malloc_rounded : ℕ → W × Heap → ℕ × W × Heap
  malloc_rounded size (w, h) = elim (heap_find_free_block size h.blocks) [
    | some b ↦ let (ptr, h') = take_block size b h in (ptr, w, h')
    | none ↦
        let (expanded, w', h') = heap_expand size (w, h) in
        elim expanded [ false ↦ (0, w', h') | true ↦ search_again size w' h' ]
  ]

  unfoldable pub kmalloc : ℕ → W × Heap → ℕ × W × Heap
  kmalloc size (w, h) =
      if not h.initialized
      then (0, w, h)
      else if size == 0
      then (0, w, h)
      else malloc_rounded (align_up size heap_align) (w, h)
