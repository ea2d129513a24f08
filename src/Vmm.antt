-- ===== src/Vmm.antt =====
-- kernel/vmm.c: the page tables. The memory that holds them is a function from the address of a
-- table and an index to the entry there; `cr3` is the value of the register. Frames come from
-- kernel/pmm.c. invlpg only drops what the processor has cached, and is left out.
pub mod Entry
pub mod Walk
pub mod Shape
pub mod Create
pub mod Reach
pub mod Map
pub mod Unmap
mod Tests
use my_os.Prelude.{
  ℕ, ◌+◌, ◌/◌, ◌^◌, Bool, true, false, not, ◌&&◌, ◌||◌, Option, none, some, bit_and, bit_or, ◌==◌,
  if◌then◌else◌,
}
use my_os.Utils.{align_down_u64}
use my_os.Pmm.{Pmm, page_size, alloc_frame, free_frame}

abbrev pub pte_present : ℕ
pte_present = 0x001

abbrev pub pte_writable : ℕ
pte_writable = 0x002

abbrev pub pte_huge : ℕ
pte_huge = 0x080

abbrev pub pte_addr_mask : ℕ
pte_addr_mask = 0x000F_FFFF_FFFF_F000

-- `entry & PTE_PRESENT`, `entry & PTE_HUGE` and `entry & PTE_ADDR_MASK`.
unfoldable pub present : ℕ → Bool
present entry = not (bit_and entry pte_present == 0)

unfoldable pub huge : ℕ → Bool
huge entry = not (bit_and entry pte_huge == 0)

unfoldable pub entry_addr : ℕ → ℕ
entry_addr entry = bit_and entry pte_addr_mask

abbrev pub Tables : Type 0
Tables = ℕ → ℕ → ℕ

-- `table[index] = entry`.
abbrev pub set_entry : Tables → ℕ → ℕ → ℕ → Tables
set_entry m table index entry t i = if (table == t) && (index == i) then entry else m t i

abbrev pub zero_page : Tables → ℕ → Tables
zero_page m phys_addr t i = if phys_addr == t then 0 else m t i

unfoldable pub pml4_index : ℕ → ℕ
pml4_index virt_addr = bit_and (virt_addr / 2 ^ 39) 0x1FF

unfoldable pub pdpt_index : ℕ → ℕ
pdpt_index virt_addr = bit_and (virt_addr / 2 ^ 30) 0x1FF

unfoldable pub pd_index : ℕ → ℕ
pd_index virt_addr = bit_and (virt_addr / 2 ^ 21) 0x1FF

unfoldable pub pt_index : ℕ → ℕ
pt_index virt_addr = bit_and (virt_addr / 2 ^ 12) 0x1FF

-- `vmm_get_or_create_next_table`; a null pointer is 0.
unfoldable pub get_or_create_next_table : ℕ → ℕ → Tables × Pmm → ℕ × Tables × Pmm
get_or_create_next_table table index (m, p) =
    let entry = m table index in
    let (new_table_phys, p') = alloc_frame p in
    let new_entry = bit_or (bit_or new_table_phys pte_present) pte_writable in
    if present entry
    then (if huge entry then (0, m, p) else (entry_addr entry, m, p))
    else if new_table_phys == 0
    then (0, m, p')
    else (new_table_phys, set_entry (zero_page m new_table_phys) table index new_entry, p')

-- The table and the index that `vmm_get_pte_ptr` points to.
unfoldable pub get_pte_ptr : ℕ → Tables → ℕ → Option (ℕ × ℕ)
get_pte_ptr cr3 m virt_addr =
    let virt = align_down_u64 virt_addr page_size in
    let pml4e = m (entry_addr cr3) (pml4_index virt) in
    let pdpte = m (entry_addr pml4e) (pdpt_index virt) in
    let pde = m (entry_addr pdpte) (pd_index virt) in
    if not (present pml4e)
    then none
    else if huge pml4e
    then none
    else if not (present pdpte)
    then none
    else if huge pdpte
    then none
    else if not (present pde)
    then none
    else if huge pde
    then none
    else some (entry_addr pde, pt_index virt)

-- `vmm_map_page`. The result is `false` where it prints that it failed.
unfoldable pub vmm_map_page : ℕ → ℕ → ℕ → ℕ → Tables × Pmm → Bool × Tables × Pmm
vmm_map_page cr3 virt_addr phys_addr flags s =
    let virt = align_down_u64 virt_addr page_size in
    let phys = align_down_u64 phys_addr page_size in
    let (pdpt, m1, p1) = get_or_create_next_table (entry_addr cr3) (pml4_index virt) s in
    let (pd, m2, p2) = get_or_create_next_table pdpt (pdpt_index virt) (m1, p1) in
    let (pt, m3, p3) = get_or_create_next_table pd (pd_index virt) (m2, p2) in
    if pdpt == 0
    then (false, m1, p1)
    else if pd == 0
    then (false, m2, p2)
    else if pt == 0
    then (false, m3, p3)
    else (true, set_entry m3 pt (pt_index virt) (bit_or (bit_or phys flags) pte_present), p3)

unfoldable pub vmm_unmap_page : ℕ → ℕ → Bool → Tables × Pmm → ℕ × Tables × Pmm
vmm_unmap_page cr3 virt_addr free_phys (m, p) =
    elim (get_pte_ptr cr3 m (align_down_u64 virt_addr page_size)) [
      | none ↦ (0, m, p)
      | some (pt, index) ↦
          let phys_addr = entry_addr (m pt index) in
          if not (present (m pt index)) then (0, m, p) else (
            phys_addr,
            set_entry m pt index 0,
            if free_phys && not (phys_addr == 0) then free_frame p phys_addr else p,
          )
    ]

unfoldable pub vmm_get_mapping : ℕ → Tables → ℕ → ℕ
vmm_get_mapping cr3 m virt_addr =
    let virt = align_down_u64 virt_addr page_size in
    let pml4e = m (entry_addr cr3) (pml4_index virt) in
    let pdpte = m (entry_addr pml4e) (pdpt_index virt) in
    let pde = m (entry_addr pdpte) (pd_index virt) in
    let pte = m (entry_addr pde) (pt_index virt) in
    if not (present pml4e)
    then 0
    else if not (present pdpte)
    then 0
    else if huge pdpte
    then entry_addr pdpte + bit_and virt 0x3FFF_FFFF
    else if not (present pde)
    then 0
    else if huge pde
    then entry_addr pde + bit_and virt 0x1F_FFFF
    else if not (present pte)
    then 0
    else entry_addr pte + bit_and virt 0xFFF
