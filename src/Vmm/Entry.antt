-- ===== src/Vmm/Entry.antt =====
-- kernel/vmm.c: the bits of an entry, and the parts of an address.
use my_os.Prelude.{
  ℕ, ◌+◌, ◌*◌, ◌/◌, ◌%◌, ◌^◌, ◌<◌, ◌≡◌, ap, ◌∙◌, true, false, not, arith, bit_and, bit_or, u64_mod,
  ◌==◌,
}
use my_os.Prelude.Bits.{ones, bit_and-ones, bit_and-pow_mul, bit_or-one, bit_or-two, bit_or-low}
use my_os.Utils.{align_down_u64}
use my_os.Utils.Laws.{bit_and-mask}
use my_os.Pmm.{page_size}
use my_os.Vmm.{
  present, huge, entry_addr, pml4_index, pdpt_index, pd_index, pt_index, pte_present, pte_writable,
}

present_lem : (e : ℕ) → present e ≡ not (e % 2 == 0)
unfolding present
present_lem e = ap (λ b. not (b == 0)) (bit_and-ones 1 e)

huge_lem : (e : ℕ) → huge e ≡ not (e / 128 % 2 == 0)
unfolding huge
huge_lem e = let moved = bit_and-pow_mul 7 1 e in let low = bit_and-ones 1 (e / 128) in ground arith

entry_addr_lem : (e : ℕ) → entry_addr e ≡ e / 4096 % 2 ^ 40 * 4096
unfolding entry_addr
entry_addr_lem e =
    let moved = bit_and-pow_mul 12 (ones 40) e in
    let low = bit_and-ones 40 (e / 2 ^ 12) in omega arith

low_bits_9 : (x : ℕ) → bit_and x 0x1FF ≡ x % 512
low_bits_9 x = bit_and-ones 9 x

pub low_bits_12 : (x : ℕ) → bit_and x 0xFFF ≡ x % 4096
low_bits_12 x = bit_and-ones 12 x

pub index_values :
    (a : ℕ)
    → (pml4_index a ≡ a / 2 ^ 39 % 512)
      × (pdpt_index a ≡ a / 2 ^ 30 % 512)
      × (pd_index a ≡ a / 2 ^ 21 % 512)
      × (pt_index a ≡ a / 2 ^ 12 % 512)
unfolding pml4_index pdpt_index pd_index pt_index
index_values a = (
  low_bits_9 (a / 2 ^ 39),
  low_bits_9 (a / 2 ^ 30),
  low_bits_9 (a / 2 ^ 21),
  low_bits_9 (a / 2 ^ 12),
)

pub align_down_page : (a : ℕ) → a < u64_mod → align_down_u64 a page_size ≡ a / 4096 * 4096
unfolding align_down_u64
align_down_page a h = bit_and-mask 12 a (omega arith) h

pub absent_zero : present 0 ≡ false
absent_zero = present_lem 0

-- The entry that points to a new table.
pub table_entry :
    (q : ℕ)
    → q < 2 ^ 40
    → (present (bit_or (bit_or (q * 4096) pte_present) pte_writable) ≡ true)
      × (huge (bit_or (bit_or (q * 4096) pte_present) pte_writable) ≡ false)
      × (entry_addr (bit_or (bit_or (q * 4096) pte_present) pte_writable) ≡ q * 4096)
table_entry q h =
    let value : bit_or (bit_or (q * 4096) 1) 2 ≡ q * 4096 + 3 =
      omega (arith, bit_or-one (q * 4096), bit_or-two (bit_or (q * 4096) 1)) in
    rw value (
      rw (present_lem (q * 4096 + 3)) (ground arith),
      rw (huge_lem (q * 4096 + 3)) (ground arith),
      rw (entry_addr_lem (q * 4096 + 3)) (omega arith),
    )

-- The entry that points to a page.
pub page_entry :
    (q flags : ℕ)
    → q < 2 ^ 40
    → flags < 4096
    → (present (bit_or (bit_or (q * 4096) flags) pte_present) ≡ true)
      × (entry_addr (bit_or (bit_or (q * 4096) flags) pte_present) ≡ q * 4096)
page_entry q flags h small =
    let low = bit_or-low 12 q flags small in
    let order : q * 4096 ≡ 2 ^ 12 * q = omega arith in
    let joined = ap (λ x. bit_or x flags) order ∙ low in
    let one = bit_or-one (2 ^ 12 * q + flags) in
    let value : bit_or (bit_or (q * 4096) flags) 1 ≡ (2 ^ 12 * q + flags) / 2 * 2 + 1 =
      ap (λ x. bit_or x 1) joined ∙ one in
    rw value (
      rw (present_lem ((2 ^ 12 * q + flags) / 2 * 2 + 1)) (ground arith),
      rw (entry_addr_lem ((2 ^ 12 * q + flags) / 2 * 2 + 1)) (omega arith),
    )

-- An address of a page is a multiple of the page size.
pub entry_addr-page : (e : ℕ) → (entry_addr e % 4096 ≡ 0) × (entry_addr e < 2 ^ 52)
entry_addr-page e = rw (entry_addr_lem e) (omega arith, omega arith)
