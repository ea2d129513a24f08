-- ===== src/Vmm/Map.antt =====
-- kernel/vmm.c: vmm_map_page, against vmm_get_mapping at every address.
use my_os.Prelude.{
  ℕ, ◌*◌, ◌/◌, ◌^◌, ◌<◌, ◌≡◌, ◌≢◌, refl, sym, ◌∙◌, ◌⊎◌, inl, inr, Bool, true, false, arith, bit_and,
  bit_or, u64_mod, ◌==◌, ==→eq, if◌then◌else◌, Bool-cases,
}
use my_os.Utils.{align_down_u64}
use my_os.Pmm.{Pmm, page_size}
use my_os.Vmm.{
  Tables, present, entry_addr, set_entry, pml4_index, pdpt_index, pd_index, pt_index,
  get_or_create_next_table, pte_present, vmm_map_page, vmm_get_mapping,
}
use my_os.Vmm.Entry.{align_down_page, low_bits_12, page_entry}
use my_os.Vmm.Walk.{index_small, walk, get_mapping-walk, prefix_of, page_number}
use my_os.Vmm.Shape.{Roles, IsTree}
use my_os.Vmm.Create.{Extends, Extends-trans, get_or_create-Finds}
use my_os.Vmm.Reach.{
  HasTree, IsTree-set_leaf, Reaches, points_role, points_on, pt_role, walk-set_same, walk-set_away,
}

-- What `vmm_map_page` leaves: it fails, and no address is mapped differently; or the page is
-- mapped, and no address on another page is mapped differently.
abbrev pub Maps : ℕ → ℕ → ℕ → Tables → ℕ → Bool × Tables × Pmm → Type 0
Maps cr3 virt phys m v (ok, m', p') =
    HasTree (entry_addr cr3) m' p'
    × (((ok ≡ false) × (vmm_get_mapping cr3 m' v ≡ vmm_get_mapping cr3 m v))
        ⊎ ((ok ≡ true)
            × (vmm_get_mapping cr3 m' v ≡ (
                if page_number v == page_number virt
                then phys / 4096 * 4096
                else vmm_get_mapping cr3 m v))))

pub page_number-align :
    (v : ℕ) → v < u64_mod → page_number (align_down_u64 v page_size) ≡ page_number v
page_number-align v h = rw (align_down_page v h) (omega arith)

pub low_bits-align : (v : ℕ) → v < u64_mod → bit_and (align_down_u64 v page_size) 0xFFF ≡ 0
low_bits-align v h =
    low_bits_12 (align_down_u64 v page_size) ∙ rw (align_down_page v h) (omega arith)

module _ (cr3 virt phys flags : ℕ) (m : Tables) (p : Pmm) (role : Roles)
    (tree : IsTree (entry_addr cr3) m p role) (virt_small : virt < u64_mod)
    (phys_small : phys < 2 ^ 52) (flags_small : flags < 4096) where
  abbrev pml4 : ℕ
  pml4 = entry_addr cr3

  abbrev a : ℕ
  a = align_down_u64 virt page_size

  abbrev pdpt : ℕ × Tables × Pmm
  pdpt = get_or_create_next_table pml4 (pml4_index a) (m, p)

  abbrev pd : ℕ × Tables × Pmm
  pd = get_or_create_next_table pdpt.0 (pdpt_index a) (pdpt.1, pdpt.2)

  abbrev pt : ℕ × Tables × Pmm
  pt = get_or_create_next_table pd.0 (pd_index a) (pd.1, pd.2)

  abbrev leaf : ℕ
  leaf = bit_or (bit_or (align_down_u64 phys page_size) flags) pte_present

  -- A state on the way: the tree, without a change in any walk.
  abbrev On : Tables → Pmm → Type 0
  On m' p' = (role' : Roles) × IsTree pml4 m' p' role' × Extends pml4 m role m' role'

  abbrev Passes : Type 0
  Passes =
      ((m' : Tables) × (p' : Pmm) × On m' p'
        × (vmm_map_page cr3 virt phys flags (m, p) ≡ (false, m', p')))
      ⊎ ((role' : Roles) × IsTree pml4 pt.1 pt.2 role'
          × Extends pml4 m role pt.1 role'
          × Reaches pml4 pt.1 role' a pt.0
          × (vmm_map_page cr3 virt phys flags (m, p)
              ≡ (true, set_entry pt.1 pt.0 (pt_index a) leaf, pt.2)))

  fails_pdpt : pdpt.0 ≡ 0 → vmm_map_page cr3 virt phys flags (m, p) ≡ (false, pdpt.1, pdpt.2)
  unfolding vmm_map_page
  fails_pdpt h = rw h refl

  fails_pd : pdpt.0 ≢ 0 → pd.0 ≡ 0 → vmm_map_page cr3 virt phys flags (m, p) ≡ (false, pd.1, pd.2)
  unfolding vmm_map_page
  fails_pd h h' = let e : (pdpt.0 == 0) ≡ false = ground arith in rw (e, h') refl

  fails_pt :
      pdpt.0 ≢ 0
      → pd.0 ≢ 0
      → pt.0 ≡ 0
      → vmm_map_page cr3 virt phys flags (m, p) ≡ (false, pt.1, pt.2)
  unfolding vmm_map_page
  fails_pt h h' h'' =
      let e : (pdpt.0 == 0) ≡ false = ground arith in
      let e' : (pd.0 == 0) ≡ false = ground arith in rw (e, e', h'') refl

  maps_pt :
      pdpt.0 ≢ 0
      → pd.0 ≢ 0
      → pt.0 ≢ 0
      → vmm_map_page cr3 virt phys flags (m, p)
        ≡ (true, set_entry pt.1 pt.0 (pt_index a) leaf, pt.2)
  unfolding vmm_map_page
  maps_pt h h' h'' =
      let e : (pdpt.0 == 0) ≡ false = ground arith in
      let e' : (pd.0 == 0) ≡ false = ground arith in
      let e'' : (pt.0 == 0) ≡ false = ground arith in rw (e, e', e'') refl

  passes : Passes
  passes =
      let (role1, tree1, ext1, out1) =
        get_or_create-Finds pml4 m p role tree pml4 (pml4_index a) 2 0 tree.top (omega arith)
          (index_small 3 a) in
      elim out1 [
        | inl null ↦ inl (pdpt.1, pdpt.2, (role1, tree1, ext1), fails_pdpt null)
        | inr (real3, p3) ↦
            let r2 = points_role pdpt.1 role1 2 pml4 pdpt.0 a (omega arith) p3 in
            let (role2, tree2, ext2, out2) =
              get_or_create-Finds pml4 pdpt.1 pdpt.2 role1 tree1 pdpt.0 (pdpt_index a) 1
                (prefix_of 2 a) r2 (omega arith) (index_small 2 a) in
            elim out2 [
              | inl null ↦ inl (
                pd.1,
                pd.2,
                (role2, tree2, Extends-trans pml4 m pdpt.1 pd.1 role role1 role2 ext1 ext2),
                fails_pd real3 null,
              )
              | inr (real2, p2) ↦
                  let r1 = points_role pd.1 role2 1 pdpt.0 pd.0 a (omega arith) p2 in
                  let (role3, tree3, ext3, out3) =
                    get_or_create-Finds pml4 pd.1 pd.2 role2 tree2 pd.0 (pd_index a) 0
                      (prefix_of 1 a) r1 (omega arith) (index_small 1 a) in
                  let ext =
                    Extends-trans pml4 m pd.1 pt.1 role role2 role3
                      (Extends-trans pml4 m pdpt.1 pd.1 role role1 role2 ext1 ext2) ext3 in
                  elim out3 [
                    | inl null ↦ inl (pt.1, pt.2, (role3, tree3, ext), fails_pt real3 real2 null)
                    | inr (real1, p1) ↦
                        let later =
                          Extends-trans pml4 pdpt.1 pd.1 pt.1 role1 role2 role3 ext2 ext3 in
                        let way3 =
                          points_on pml4 pdpt.1 pt.1 role1 role3 pml4 (pml4_index a) 2 3 0 0 pdpt.0
                            later tree1.top p3 in
                        let kept = ext2.keeps pdpt.0 2 (prefix_of 2 a) r2 in
                        let way2 =
                          points_on pml4 pd.1 pt.1 role2 role3 pdpt.0 (pdpt_index a) 1 2
                            (prefix_of 2 a) (prefix_of 2 a) pd.0 ext3 kept p2 in
                        inr (
                          role3,
                          tree3,
                          ext,
                          (pdpt.0, pd.0, way3, way2, p1),
                          maps_pt real3 real2 real1,
                        )
                  ]
            ]
      ]

  leaf_facts : (present leaf ≡ true) × (entry_addr leaf ≡ phys / 4096 * 4096)
  leaf_facts =
      rw (align_down_page phys (omega arith))
        (page_entry (phys / 4096) flags (omega arith) flags_small)

  module _ (v : ℕ) (v_small : v < u64_mod) where
    abbrev b : ℕ
    b = align_down_u64 v page_size

    mapping_kept :
        (m' : Tables)
        → walk 3 m' pml4 b ≡ walk 3 m pml4 b
        → vmm_get_mapping cr3 m' v ≡ vmm_get_mapping cr3 m v
    mapping_kept m' same = get_mapping-walk cr3 m' v ∙ same ∙ sym (get_mapping-walk cr3 m v)

    module _ (role' : Roles) (tree' : IsTree pml4 pt.1 pt.2 role')
        (ext : Extends pml4 m role pt.1 role') (way : Reaches pml4 pt.1 role' a pt.0) where
      abbrev written : Tables
      written = set_entry pt.1 pt.0 (pt_index a) leaf

      mapped_page :
          page_number v ≡ page_number virt → vmm_get_mapping cr3 written v ≡ phys / 4096 * 4096
      mapped_page same =
          let (here, leads) = leaf_facts in
          let same' : page_number b ≡ page_number a =
            page_number-align v v_small ∙ same ∙ sym (page_number-align virt virt_small) in
          get_mapping-walk cr3 written v
          ∙ walk-set_same pml4 pt.1 pt.2 role' tree' a pt.0 leaf way b same'
          ∙ rw (here, leads, low_bits-align v v_small) (omega arith)

      other_page :
          page_number v ≢ page_number virt → vmm_get_mapping cr3 written v ≡ vmm_get_mapping cr3 m v
      other_page other = mapping_kept written (
          walk-set_away pml4 pt.1 pt.2 role' tree' a pt.0 leaf way b (λ same.
            other (sym (page_number-align v v_small) ∙ same ∙ page_number-align virt virt_small))
          ∙ ext.same b)

      IsTree-map : HasTree pml4 written pt.2
      IsTree-map = (
        role',
        IsTree-set_leaf pml4 pt.1 pt.2 role' pt.0 (pt_index a) leaf (prefix_of 0 a) tree'
            (pt_role pml4 pt.1 pt.2 role' tree' a pt.0 leaf way b),
      )

    map_page : Maps cr3 virt phys m v (vmm_map_page cr3 virt phys flags (m, p))
    map_page = elim passes [
      | inl (m', p', (role', tree', ext), e) ↦
          rw e ((role', tree'), inl (refl, mapping_kept m' (ext.same b)))
      | inr (role', tree', ext, way, e) ↦ elim (Bool-cases (page_number v == page_number virt)) [
        | inl same ↦
            rw (e, same)
              (
                IsTree-map role' tree' ext way,
                inr (
                  refl,
                  mapped_page role' tree' ext way (==→eq (page_number v) (page_number virt) same),
                ),
              )
        | inr other ↦
            rw (e, other)
              (
                IsTree-map role' tree' ext way,
                inr (refl, other_page role' tree' ext way (ground arith)),
              )
      ]
    ]

-- When the tables form a tree in frames that are in use, `vmm_map_page` of an address below 2 ^ 52
-- with flags below the address bits keeps them one, whether it makes new tables or not. It fails
-- and changes no mapping; or it maps the page to the page of the address, and changes the mapping
-- of no address on another page.
pub vmm_map_page-Maps :
    (cr3 virt phys flags v : ℕ) (m : Tables) (p : Pmm)
    → HasTree (entry_addr cr3) m p
    → virt < u64_mod
    → phys < 2 ^ 52
    → flags < 4096
    → v < u64_mod
    → Maps cr3 virt phys m v (vmm_map_page cr3 virt phys flags (m, p))
vmm_map_page-Maps cr3 virt phys flags v m p (role, tree) virt_small phys_small flags_small v_small =
    map_page cr3 virt phys flags m p role tree virt_small phys_small flags_small v v_small
