-- ===== src/Elf/Tests.antt =====
-- Examples on a file with one program header, which asks for 8 bytes, 4 of them from the file.
use my_os.Prelude.{
  ℕ, zero, suc, ◌+◌, ◌<◌, ◌≡◌, refl, true, false, ltb, ◌&&◌, Bool, List, [], ◌∷◌, arith, get_or,
}
use my_os.Heap.{Heap, Paging, Foreign}
use my_os.Elf.{field_at, elf_range_ok, elf_validate_header}

abbrev program : List ℕ
program =
    127 ∷ 69 ∷ 76 ∷ 70 ∷ 2 ∷ 1 ∷ 1 ∷ 0 ∷ 0 ∷ 0 ∷ 0 ∷ 0 ∷ 0 ∷ 0 ∷ 0 ∷ 0 ∷ 2 ∷ 0 ∷ 62 ∷ 0 ∷ 1 ∷ 0 ∷ 0
    ∷ 0 ∷ 0 ∷ 0 ∷ 64 ∷ 0 ∷ 0 ∷ 0 ∷ 0 ∷ 0 ∷ 64 ∷ 0 ∷ 0 ∷ 0 ∷ 0 ∷ 0 ∷ 0 ∷ 0 ∷ 0 ∷ 0 ∷ 0 ∷ 0 ∷ 0 ∷ 0
    ∷ 0 ∷ 0 ∷ 0 ∷ 0 ∷ 0 ∷ 0 ∷ 64 ∷ 0 ∷ 56 ∷ 0 ∷ 1 ∷ 0 ∷ 0 ∷ 0 ∷ 0 ∷ 0 ∷ 0 ∷ 0 ∷ 1 ∷ 0 ∷ 0 ∷ 0 ∷ 5
    ∷ 0 ∷ 0 ∷ 0 ∷ 120 ∷ 0 ∷ 0 ∷ 0 ∷ 0 ∷ 0 ∷ 0 ∷ 0 ∷ 0 ∷ 0 ∷ 64 ∷ 0 ∷ 0 ∷ 0 ∷ 0 ∷ 0 ∷ 0 ∷ 0 ∷ 0 ∷ 0
    ∷ 0 ∷ 0 ∷ 0 ∷ 0 ∷ 4 ∷ 0 ∷ 0 ∷ 0 ∷ 0 ∷ 0 ∷ 0 ∷ 0 ∷ 8 ∷ 0 ∷ 0 ∷ 0 ∷ 0 ∷ 0 ∷ 0 ∷ 0 ∷ 0 ∷ 0 ∷ 0 ∷ 0
    ∷ 0 ∷ 0 ∷ 0 ∷ 0 ∷ 1 ∷ 2 ∷ 3 ∷ 4 ∷ []

abbrev are_bytes : List ℕ → Bool
are_bytes [] = true
are_bytes (b ∷ rest) = ltb b 256 && are_bytes rest

are_bytes-lt : (l : List ℕ) → are_bytes l ≡ true → (i : ℕ) → get_or l i 0 < 256
are_bytes-lt [] h i = omega arith
are_bytes-lt (b ∷ rest) h zero = ground arith
are_bytes-lt (b ∷ rest) h (suc i) = are_bytes-lt rest (ground arith) i

accepted : elf_validate_header program ≡ true
unfolding elf_validate_header field_at elf_range_ok
accepted = refl

abbrev counter : Paging ℕ
counter = record {
  alloc_frame = λ n. (n + 4096, n + 4096);
  map_page = λ virt phys flags n. n;
  unmap_page = λ virt n. n;
}

-- Memory without a magic number.
abbrev blank : Foreign
blank = record { magic = λ addr. 0; is_free = λ addr. false; corrupt = λ addr h. h }

abbrev small_heap : Heap
small_heap = record {
  blocks = record { addr = 0x41000000; size = 16336; free = true } ∷ [];
  mapped_end = 0x41004000;
  max_end = 0x42000000;
  initialized = true;
}
