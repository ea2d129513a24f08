-- ===== src/Heap/Tests.antt =====
-- Examples on a heap of four pages with one block handed out.
use my_os.Prelude.{ℕ, ◌+◌, ◌≡◌, refl, inl, true, false, [], ◌∷◌, some, arith}
use my_os.Utils.{align_up_u64}
use my_os.Heap.{
  Foreign, Block, Heap, Paging, heap_find_free_block, heap_align, align_up, kmalloc, kfree,
}
use my_os.Heap.Free.{IsValid, Frees, kfree-Frees}
use my_os.Heap.Malloc.{Allocates, kmalloc-Allocates}
use my_os.Heap.RoundTrip.{kfree-kmalloc}
use my_os.Heap.Wrap.{Wraps, kmalloc-Wraps}

-- Frames are counted off, and the page tables left out.
abbrev counter : Paging ℕ
counter = record {
  alloc_frame = λ n. (n + 4096, n + 4096);
  map_page = λ virt phys flags n. n;
  unmap_page = λ virt n. n;
}

-- Memory where a wrong magic number stands.
abbrev blank : Foreign
blank = record { magic = λ addr. addr; is_free = λ addr. false; corrupt = λ addr h. h }

abbrev first_block : Block
first_block = record { addr = 0x41000000; size = 64; free = false }

abbrev second_block : Block
second_block = record { addr = 0x41000070; size = 16224; free = true }

abbrev small_heap : Heap
small_heap = record {
  blocks = first_block ∷ second_block ∷ [];
  mapped_end = 0x41004000;
  max_end = 0x42000000;
  initialized = true;
}

small_heap-IsValid : IsValid small_heap
small_heap-IsValid = record {
  layout = (refl, refl, refl, (refl, refl, refl, refl));
  bounded = omega arith;
  limit = refl;
}

kfree-Frees_example :
    IsValid (kfree blank 0x41000030 small_heap)
    × Frees 0x41000030 small_heap (kfree blank 0x41000030 small_heap)
kfree-Frees_example =
    kfree-Frees blank 0x41000030 small_heap small_heap-IsValid (omega arith)
      (λ e. inl (omega arith))

kmalloc-Allocates_example :
    IsValid (kmalloc counter 100 (0, small_heap)).2
    × Allocates 100 small_heap
        ((kmalloc counter 100 (0, small_heap)).0, (kmalloc counter 100 (0, small_heap)).2)
kmalloc-Allocates_example =
    kmalloc-Allocates counter 100 0 small_heap small_heap-IsValid (omega arith)

finds_second : heap_find_free_block (align_up 100 heap_align) small_heap.blocks ≡ some second_block
unfolding heap_find_free_block align_up_u64
finds_second = refl

kfree-kmalloc_example :
    kfree blank (kmalloc counter 100 (0, small_heap)).0 (kmalloc counter 100 (0, small_heap)).2
    ≡ small_heap
kfree-kmalloc_example =
    kfree-kmalloc counter blank 100 0 small_heap second_block small_heap-IsValid refl (omega arith)
      (omega arith) finds_second

finds_any : heap_find_free_block 0 small_heap.blocks ≡ some second_block
unfolding heap_find_free_block
finds_any = refl

kmalloc-Wraps_example :
    Wraps small_heap second_block 0 (kmalloc counter 18446744073709551615 (0, small_heap))
kmalloc-Wraps_example =
    kmalloc-Wraps counter 18446744073709551615 0 small_heap second_block small_heap-IsValid
      (omega arith) (omega arith) refl finds_any
