-- ===== src/Vmm/Tests.antt =====
-- kernel/vmm.c: examples on an empty top table in frame 1 of eight frames.
use my_os.Prelude.{
  ℕ, zero, suc, ◌/◌, subst, sym, ◌<◌, ◌≡◌, refl, true, false, none, some, [], ◌∷◌, arith, get_or,
  ◌==◌, if◌then◌else◌, Bool-cases, inl, inr, ==→eq,
}
use my_os.Pmm.{Pmm, page_size}
use my_os.Pmm.Bitmap.{IsBitmap, bitmap_test}
use my_os.Pmm.Count.{count_clear}
use my_os.Pmm.Alloc.{IsValid}
use my_os.Vmm.{Tables, entry_addr, vmm_map_page, vmm_unmap_page}
use my_os.Vmm.Entry.{absent_zero}
use my_os.Vmm.Shape.{Roles, IsTree}
use my_os.Vmm.Reach.{HasTree}
use my_os.Vmm.Map.{Maps, vmm_map_page-Maps}
use my_os.Vmm.Unmap.{Unmaps, vmm_unmap_page-Unmaps}

-- Frames 0 and 1 are in use.
abbrev memory : Pmm
memory = record { bitmap = 0x0010_0000; bytes = 3 ∷ []; total_frames = 8; free_frames = 6 }

abbrev no_tables : Tables
no_tables t i = 0

abbrev roles : Roles
roles t = if t == 4096 then some (3, 0) else none

memory_bytes : (i : ℕ) → get_or memory.bytes i 0 < 256
memory_bytes zero = omega arith
memory_bytes (suc i) = omega arith

memory-IsBitmap : IsBitmap 8 memory.bytes
memory-IsBitmap = record { covers = omega arith; are_bytes = memory_bytes }

memory-IsValid : IsValid memory
unfolding count_clear bitmap_test
memory-IsValid = record { bits = memory-IsBitmap; addressable = omega arith; counted = refl }

frame_1 : bitmap_test memory.bytes 1 ≡ true
unfolding bitmap_test
frame_1 = refl

empty-IsTree : IsTree 4096 no_tables memory roles
empty-IsTree = record {
  top = refl;
  next = λ t l pre i h inside here flat. absurd (let none_there = absent_zero in cc);
  plain = λ t pre i h inside here. absurd (let none_there = absent_zero in cc);
  owned = λ t l pre h. elim (Bool-cases (t == 4096)) [
    | inl e ↦
        let at : t ≡ 4096 = ==→eq t 4096 e in
        subst (λ t. bitmap_test memory.bytes (t / page_size) ≡ true) (sym at) frame_1
    | inr e ↦ absurd (let never = rw e at h in cc)
  ];
  valid = memory-IsValid;
  mapped = omega arith;
  small = omega arith;
}

top_table : entry_addr 4099 ≡ 4096
unfolding entry_addr
top_table = refl

empty-HasTree : HasTree (entry_addr 4099) no_tables memory
empty-HasTree = rw top_table (roles, empty-IsTree)

vmm_map_page-Maps_example :
    Maps 4099 0x4000_0000 0x0020_0000 no_tables 0x4000_0010
      (vmm_map_page 4099 0x4000_0000 0x0020_0000 2 (no_tables, memory))
vmm_map_page-Maps_example =
    vmm_map_page-Maps 4099 0x4000_0000 0x0020_0000 2 0x4000_0010 no_tables memory empty-HasTree
      (omega arith) (omega arith) (omega arith) (omega arith)

vmm_unmap_page-Unmaps_example :
    Unmaps 4099 0x4000_0000 false no_tables memory 0x4000_0010
      (vmm_unmap_page 4099 0x4000_0000 false (no_tables, memory))
vmm_unmap_page-Unmaps_example =
    vmm_unmap_page-Unmaps 4099 0x4000_0000 0x4000_0010 false no_tables memory empty-HasTree
      (omega arith) (omega arith)
