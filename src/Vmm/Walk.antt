-- ===== src/Vmm/Walk.antt =====
-- kernel/vmm.c: the four levels of vmm_get_mapping, as a walk by levels. The page tables are level
-- 0, and the table that cr3 points to is level 3.
use my_os.Prelude.{
  ℕ, zero, suc, ◌+◌, ◌*◌, ◌/◌, ◌%◌, ◌^◌, ◌<◌, ◌≡◌, refl, sym, ap, ◌∙◌, Bool, true, false, not,
  arith, bit_and, if◌then◌else◌, Bool-cases, inl, inr,
}
use my_os.Utils.{align_down_u64}
use my_os.Pmm.{page_size}
use my_os.Vmm.{
  Tables, present, huge, entry_addr, pml4_index, pdpt_index, pd_index, pt_index, vmm_get_mapping,
}
use my_os.Vmm.Entry.{index_values}

abbrev pub index : ℕ → ℕ → ℕ
index zero a = pt_index a
index (suc zero) a = pd_index a
index (suc (suc zero)) a = pdpt_index a
index (suc (suc (suc l))) a = pml4_index a

pub index_small : (l a : ℕ) → index l a < 512
index_small zero a = let values = index_values a in omega arith
index_small (suc zero) a = let values = index_values a in omega arith
index_small (suc (suc zero)) a = let values = index_values a in omega arith
index_small (suc (suc (suc l))) a = let values = index_values a in omega arith

-- Whether the walk ends at an entry of a level for a large page, and the part of the address there.
abbrev pub ends : ℕ → Bool → Bool
ends zero b = b
ends (suc zero) b = b
ends (suc (suc zero)) b = b
ends (suc (suc (suc l))) b = false

abbrev pub offset : ℕ → ℕ → ℕ
offset zero a = bit_and a 0xFFF
offset (suc zero) a = bit_and a 0x1F_FFFF
offset (suc (suc l)) a = bit_and a 0x3FFF_FFFF

abbrev pub walk : ℕ → Tables → ℕ → ℕ → ℕ
walk zero m t a =
    let e = m t (pt_index a) in if not (present e) then 0 else entry_addr e + bit_and a 0xFFF
walk (suc l) m t a =
    let e = m t (index (suc l) a) in
    let rest = walk l m (entry_addr e) a in
    if not (present e)
    then 0
    else if ends (suc l) (huge e)
    then entry_addr e + offset (suc l) a
    else rest

pub get_mapping-walk :
    (cr3 : ℕ) (m : Tables) (v : ℕ)
    → vmm_get_mapping cr3 m v ≡ walk 3 m (entry_addr cr3) (align_down_u64 v page_size)
unfolding vmm_get_mapping
get_mapping-walk cr3 m v = refl

pub walk_absent :
    (l : ℕ) (m : Tables) (t a : ℕ) → present (m t (index l a)) ≡ false → walk l m t a ≡ 0
walk_absent zero m t a h = rw h refl
walk_absent (suc l) m t a h = rw h refl

pub walk_next :
    (l : ℕ) (m : Tables) (t a : ℕ)
    → present (m t (index (suc l) a)) ≡ true
    → ends (suc l) (huge (m t (index (suc l) a))) ≡ false
    → walk (suc l) m t a ≡ walk l m (entry_addr (m t (index (suc l) a))) a
walk_next l m t a p h = rw (p, h) refl

pub ends-plain : (l : ℕ) (b : Bool) → b ≡ false → ends l b ≡ false
ends-plain zero b h = h
ends-plain (suc zero) b h = h
ends-plain (suc (suc zero)) b h = h
ends-plain (suc (suc (suc l))) b h = refl

-- Two walks that see the same entry, and go on alike where they go on.
pub walk_same_leaf :
    (m m' : Tables) (t a : ℕ) → m' t (pt_index a) ≡ m t (pt_index a) → walk 0 m' t a ≡ walk 0 m t a
walk_same_leaf m m' t a e = rw e refl

pub walk_same :
    (l : ℕ) (m m' : Tables) (t a : ℕ)
    → m' t (index (suc l) a) ≡ m t (index (suc l) a)
    → (present (m t (index (suc l) a)) ≡ true
        → ends (suc l) (huge (m t (index (suc l) a))) ≡ false
        → walk l m' (entry_addr (m t (index (suc l) a))) a
          ≡ walk l m (entry_addr (m t (index (suc l) a))) a)
    → walk (suc l) m' t a ≡ walk (suc l) m t a
walk_same l m m' t a e more = elim (Bool-cases (present (m t (index (suc l) a)))) [
  | inr absent ↦ walk_absent (suc l) m' t a (rw e absent) ∙ sym (walk_absent (suc l) m t a absent)
  | inl here ↦ elim (Bool-cases (ends (suc l) (huge (m t (index (suc l) a))))) [
    | inl large ↦ rw (e, here, large) refl
    | inr plain ↦
        walk_next l m' t a (rw e here) (rw e plain)
        ∙ ap (λ x. walk l m' (entry_addr x) a) e
        ∙ more here plain
        ∙ sym (walk_next l m t a here plain)
  ]
]

-- The indices above a level, as one number; the tables that lie on the way to an address have it.
abbrev pub prefix_of : ℕ → ℕ → ℕ
prefix_of zero a = (pml4_index a * 512 + pdpt_index a) * 512 + pd_index a
prefix_of (suc zero) a = pml4_index a * 512 + pdpt_index a
prefix_of (suc (suc zero)) a = pml4_index a
prefix_of (suc (suc (suc l))) a = 0

pub prefix_of_next : (l a : ℕ) → l < 3 → prefix_of (suc l) a * 512 + index (suc l) a ≡ prefix_of l a
prefix_of_next zero a h = refl
prefix_of_next (suc zero) a h = refl
prefix_of_next (suc (suc zero)) a h = omega arith
prefix_of_next (suc (suc (suc l))) a h = absurd (omega arith)

abbrev pub page_number : ℕ → ℕ
page_number a = a / 2 ^ 12 % 2 ^ 36

pub page_number_parts : (a : ℕ) → prefix_of 0 a * 512 + pt_index a ≡ page_number a
page_number_parts a = let values = index_values a in omega arith
