-- ===== src/Vmm/Unmap.antt =====
-- kernel/vmm.c: vmm_unmap_page, against vmm_get_mapping at every address.
use my_os.Prelude.{
  ℕ, ◌*◌, ◌/◌, ◌<◌, ◌≡◌, ◌≢◌, refl, sym, ap, ◌∙◌, ◌⊎◌, inl, inr, Bool, true, false, not, ◌&&◌, ◌||◌,
  none, some, arith, u64_mod, ◌==◌, ==→eq, if◌then◌else◌, Bool-cases,
}
use my_os.Utils.{align_down_u64}
use my_os.Pmm.{Pmm, page_size, free_frame}
use my_os.Vmm.{
  Tables, present, huge, entry_addr, set_entry, pml4_index, pdpt_index, pd_index, pt_index,
  get_pte_ptr, vmm_unmap_page, vmm_get_mapping,
}
use my_os.Vmm.Entry.{align_down_page, absent_zero}
use my_os.Vmm.Walk.{
  index_small, walk, walk_absent, walk_next, get_mapping-walk, prefix_of, page_number,
}
use my_os.Vmm.Shape.{Roles, IsTree}
use my_os.Vmm.Create.{PointsTo}
use my_os.Vmm.Reach.{
  HasTree, IsTree-set_leaf, Reaches, points_role, pt_role, walk-set_same, walk-set_away,
  walk_reached,
}
use my_os.Vmm.Map.{page_number-align, low_bits-align}

-- The address lies on a large page of 1 GiB or 2 MiB.
abbrev pub on_large_page : ℕ → Tables → ℕ → Bool
on_large_page cr3 m virt =
    let a = align_down_u64 virt page_size in
    let pml4e = m (entry_addr cr3) (pml4_index a) in
    let pdpte = m (entry_addr pml4e) (pdpt_index a) in
    let pde = m (entry_addr pdpte) (pd_index a) in
    present pml4e && present pdpte && (huge pdpte || (present pde && huge pde))

-- What `vmm_unmap_page` leaves: nothing has changed, as the page is not mapped or part of a large
-- one; or it returns where the page was mapped, no address on the page is mapped any more, and no
-- other address is mapped differently.
abbrev pub Unmaps : ℕ → ℕ → Bool → Tables → Pmm → ℕ → ℕ × Tables × Pmm → Type 0
Unmaps cr3 virt free_phys m p v (phys, m', p') =
    (((vmm_get_mapping cr3 m virt ≡ 0) ⊎ (on_large_page cr3 m virt ≡ true))
      × (phys ≡ 0)
      × (m' ≡ m)
      × (p' ≡ p))
    ⊎ (HasTree (entry_addr cr3) m' p
        × (phys ≡ vmm_get_mapping cr3 m virt)
        × (p' ≡ (if free_phys && not (phys == 0) then free_frame p phys else p))
        × (vmm_get_mapping cr3 m' v
            ≡ (if page_number v == page_number virt then 0 else vmm_get_mapping cr3 m v)))

align_down_twice :
    (v : ℕ)
    → v < u64_mod
    → align_down_u64 (align_down_u64 v page_size) page_size ≡ align_down_u64 v page_size
align_down_twice v h =
    let once = align_down_page v h in
    let twice = align_down_page (v / 4096 * 4096) (omega arith) in
    ap (λ x. align_down_u64 x page_size) once ∙ twice ∙ sym (once ∙ omega arith)

module _ (cr3 virt : ℕ) (free_phys : Bool) (m : Tables) (p : Pmm) (role : Roles)
    (tree : IsTree (entry_addr cr3) m p role) (virt_small : virt < u64_mod) where
  abbrev pml4 : ℕ
  pml4 = entry_addr cr3

  abbrev a : ℕ
  a = align_down_u64 virt page_size

  abbrev e3 : ℕ
  e3 = m pml4 (pml4_index a)

  abbrev e2 : ℕ
  e2 = m (entry_addr e3) (pdpt_index a)

  abbrev e1 : ℕ
  e1 = m (entry_addr e2) (pd_index a)

  abbrev unmapped : ℕ × Tables × Pmm
  unmapped = vmm_unmap_page cr3 virt free_phys (m, p)

  abbrev Stays : Type 0
  Stays =
      ((vmm_get_mapping cr3 m virt ≡ 0) ⊎ (on_large_page cr3 m virt ≡ true))
      × (unmapped ≡ (0, m, p))

  abbrev found : ℕ
  found = entry_addr e1

  abbrev Clears : Type 0
  Clears =
      Reaches pml4 m role a found
      × (present (m found (pt_index a)) ≡ true)
      × (unmapped ≡ (
        entry_addr (m found (pt_index a)),
        set_entry m found (pt_index a) 0,
        if free_phys && not (entry_addr (m found (pt_index a)) == 0)
            then free_frame p (entry_addr (m found (pt_index a)))
            else p,
      ))

  stays_none : get_pte_ptr cr3 m a ≡ none → unmapped ≡ (0, m, p)
  unfolding vmm_unmap_page
  stays_none h = rw (vmm_unmap_page, h) refl

  stays_absent :
      get_pte_ptr cr3 m a ≡ some (found, pt_index a)
      → present (m found (pt_index a)) ≡ false
      → unmapped ≡ (0, m, p)
  unfolding vmm_unmap_page
  stays_absent h absent = rw (vmm_unmap_page, h, absent) refl

  clears :
      get_pte_ptr cr3 m a ≡ some (found, pt_index a)
      → present (m found (pt_index a)) ≡ true
      → unmapped ≡ (
        entry_addr (m found (pt_index a)),
        set_entry m found (pt_index a) 0,
        if free_phys && not (entry_addr (m found (pt_index a)) == 0)
            then free_frame p (entry_addr (m found (pt_index a)))
            else p,
      )
  unfolding vmm_unmap_page
  clears h here = rw (vmm_unmap_page, h, here) refl

  twice : align_down_u64 a page_size ≡ a
  twice = align_down_twice virt virt_small

  ptr_absent3 : present e3 ≡ false → get_pte_ptr cr3 m a ≡ none
  unfolding get_pte_ptr
  ptr_absent3 h = rw (twice, h) refl

  ptr_absent2 :
      present e3 ≡ true → huge e3 ≡ false → present e2 ≡ false → get_pte_ptr cr3 m a ≡ none
  unfolding get_pte_ptr
  ptr_absent2 h f h2 = rw (twice, h, f, h2) refl

  ptr_huge2 :
      present e3 ≡ true
      → huge e3 ≡ false
      → present e2 ≡ true
      → huge e2 ≡ true
      → get_pte_ptr cr3 m a ≡ none
  unfolding get_pte_ptr
  ptr_huge2 h f h2 f2 = rw (twice, h, f, h2, f2) refl

  ptr_absent1 :
      present e3 ≡ true
      → huge e3 ≡ false
      → present e2 ≡ true
      → huge e2 ≡ false
      → present e1 ≡ false
      → get_pte_ptr cr3 m a ≡ none
  unfolding get_pte_ptr
  ptr_absent1 h f h2 f2 h1 = rw (twice, h, f, h2, f2, h1) refl

  ptr_last :
      present e3 ≡ true
      → huge e3 ≡ false
      → present e2 ≡ true
      → huge e2 ≡ false
      → present e1 ≡ true
      → get_pte_ptr cr3 m a ≡ (if huge e1 then none else some (found, pt_index a))
  unfolding get_pte_ptr
  ptr_last h f h2 f2 h1 = rw (twice, h, f, h2, f2, h1) refl

  mapping : vmm_get_mapping cr3 m virt ≡ walk 3 m pml4 a
  mapping = get_mapping-walk cr3 m virt

  -- The tables that the walk goes through.
  module _ (h3 : present e3 ≡ true) where
    f3 : huge e3 ≡ false
    f3 = tree.plain pml4 0 (pml4_index a) tree.top (index_small 3 a) h3

    p3 : PointsTo m role pml4 (pml4_index a) 2 0 (entry_addr e3)
    p3 = (tree.next pml4 2 0 (pml4_index a) tree.top (index_small 3 a) h3 f3, h3, f3, refl)

    mapping2 : vmm_get_mapping cr3 m virt ≡ walk 2 m (entry_addr e3) a
    mapping2 = mapping ∙ walk_next 2 m pml4 a h3 refl

    r2 : role (entry_addr e3) ≡ some (2, prefix_of 2 a)
    r2 = points_role m role 2 pml4 (entry_addr e3) a (omega arith) p3

    module _ (h2 : present e2 ≡ true) (f2 : huge e2 ≡ false) where
      p2 : PointsTo m role (entry_addr e3) (pdpt_index a) 1 (prefix_of 2 a) (entry_addr e2)
      p2 = (
        tree.next (entry_addr e3) 1 (prefix_of 2 a) (pdpt_index a) r2 (index_small 2 a) h2 f2,
        h2,
        f2,
        refl,
      )

      mapping1 : vmm_get_mapping cr3 m virt ≡ walk 1 m (entry_addr e2) a
      mapping1 = mapping2 ∙ walk_next 1 m (entry_addr e3) a h2 f2

      r1 : role (entry_addr e2) ≡ some (1, prefix_of 1 a)
      r1 = points_role m role 1 (entry_addr e3) (entry_addr e2) a (omega arith) p2

      module _ (h1 : present e1 ≡ true) (f1 : huge e1 ≡ false) where
        p1 : PointsTo m role (entry_addr e2) (pd_index a) 0 (prefix_of 1 a) found
        p1 = (
          tree.next (entry_addr e2) 0 (prefix_of 1 a) (pd_index a) r1 (index_small 1 a) h1 f1,
          h1,
          f1,
          refl,
        )

        mapping0 : vmm_get_mapping cr3 m virt ≡ walk 0 m found a
        mapping0 = mapping1 ∙ walk_next 0 m (entry_addr e2) a h1 f1

        ptr : get_pte_ptr cr3 m a ≡ some (found, pt_index a)
        ptr = ptr_last h3 f3 h2 f2 h1 ∙ rw f1 refl

        last_cases : Stays ⊎ Clears
        last_cases = elim (Bool-cases (present (m found (pt_index a)))) [
          | inr absent ↦
              inl (inl (mapping0 ∙ walk_absent 0 m found a absent), stays_absent ptr absent)
          | inl here ↦ inr ((entry_addr e3, entry_addr e2, p3, p2, p1), here, clears ptr here)
        ]

  unmap_cases : Stays ⊎ Clears
  unmap_cases = elim (Bool-cases (present e3)) [
    | inr absent ↦
        inl (inl (mapping ∙ walk_absent 3 m pml4 a absent), stays_none (ptr_absent3 absent))
    | inl h3 ↦ elim (Bool-cases (present e2)) [
      | inr absent ↦ inl (
        inl (mapping2 h3 ∙ walk_absent 2 m (entry_addr e3) a absent),
        stays_none (ptr_absent2 h3 (f3 h3) absent),
      )
      | inl h2 ↦ elim (Bool-cases (huge e2)) [
        | inl large ↦
            inl (inr (rw (h3, h2, large) refl), stays_none (ptr_huge2 h3 (f3 h3) h2 large))
        | inr f2 ↦ elim (Bool-cases (present e1)) [
          | inr absent ↦ inl (
            inl (mapping1 h3 h2 f2 ∙ walk_absent 1 m (entry_addr e2) a absent),
            stays_none (ptr_absent1 h3 (f3 h3) h2 f2 absent),
          )
          | inl h1 ↦ elim (Bool-cases (huge e1)) [
            | inl large ↦ inl (
              inr (rw (h3, h2, f2, h1, large) refl),
              stays_none (ptr_last h3 (f3 h3) h2 f2 h1 ∙ rw large refl),
            )
            | inr f1 ↦ last_cases h3 h2 f2 h1 f1
          ]
        ]
      ]
    ]
  ]

  module _ (v : ℕ) (v_small : v < u64_mod) (way : Reaches pml4 m role a found)
      (here : present (m found (pt_index a)) ≡ true) where
    abbrev cleared : Tables
    cleared = set_entry m found (pt_index a) 0

    abbrev b : ℕ
    b = align_down_u64 v page_size

    tree_left : HasTree pml4 cleared p
    tree_left = (
      role,
      IsTree-set_leaf pml4 m p role found (pt_index a) 0 (prefix_of 0 a) tree
          (pt_role pml4 m p role tree a found 0 way b),
    )

    page_gone : page_number v ≡ page_number virt → vmm_get_mapping cr3 cleared v ≡ 0
    page_gone same =
        get_mapping-walk cr3 cleared v
        ∙ walk-set_same pml4 m p role tree a found 0 way b
            (page_number-align v v_small ∙ same ∙ sym (page_number-align virt virt_small))
        ∙ rw absent_zero refl

    others_stay :
        page_number v ≢ page_number virt → vmm_get_mapping cr3 cleared v ≡ vmm_get_mapping cr3 m v
    others_stay other =
        get_mapping-walk cr3 cleared v
        ∙ walk-set_away pml4 m p role tree a found 0 way b (λ same.
          other (sym (page_number-align v v_small) ∙ same ∙ page_number-align virt virt_small))
        ∙ sym (get_mapping-walk cr3 m v)

    was_mapped : entry_addr (m found (pt_index a)) ≡ vmm_get_mapping cr3 m virt
    was_mapped = sym (
        mapping
        ∙ walk_reached m a a refl pml4 found role way
        ∙ rw (here, low_bits-align virt virt_small) (omega arith))

  unmap_page : (v : ℕ) → v < u64_mod → Unmaps cr3 virt free_phys m p v unmapped
  unmap_page v v_small = elim unmap_cases [
    | inl (why, e) ↦ rw e (inl (why, refl, refl, refl))
    | inr (way, here, e) ↦ elim (Bool-cases (page_number v == page_number virt)) [
      | inl same ↦
          rw (e, same)
            (inr (
              tree_left v v_small way here,
              was_mapped v v_small way here,
              refl,
              page_gone v v_small way here (==→eq (page_number v) (page_number virt) same),
            ))
      | inr other ↦
          rw (e, other)
            (inr (
              tree_left v v_small way here,
              was_mapped v v_small way here,
              refl,
              others_stay v v_small way here (ground arith),
            ))
    ]
  ]

-- When the tables form a tree, `vmm_unmap_page` of a page that is not mapped, or that is part of a
-- large page, returns 0 and changes nothing. Otherwise it keeps the tables a tree and returns where
-- the page was mapped, gives that frame back if asked to, and leaves no mapping of the page;
-- it changes the mapping of no address on another page.
pub vmm_unmap_page-Unmaps :
    (cr3 virt v : ℕ) (free_phys : Bool) (m : Tables) (p : Pmm)
    → HasTree (entry_addr cr3) m p
    → virt < u64_mod
    → v < u64_mod
    → Unmaps cr3 virt free_phys m p v (vmm_unmap_page cr3 virt free_phys (m, p))
vmm_unmap_page-Unmaps cr3 virt v free_phys m p (role, tree) virt_small v_small =
    unmap_page cr3 virt free_phys m p role tree virt_small v v_small
