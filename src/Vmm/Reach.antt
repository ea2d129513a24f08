-- ===== src/Vmm/Reach.antt =====
-- kernel/vmm.c: the way to the entry of a page, and a write to that entry.
use my_os.Prelude.{
  ℕ, zero, suc, ◌+◌, ◌*◌, ◌<◌, ◌≡◌, ◌≢◌, refl, ap, ◌∙◌, subst, inl, inr, false, not, some, arith,
  bit_and, ◌==◌, ==→eq, ==_refl, if◌then◌else◌, Bool-cases,
}
use my_os.Pmm.{Pmm}
use my_os.Vmm.{Tables, present, huge, entry_addr, set_entry, pt_index}
use my_os.Vmm.Entry.{index_values}
use my_os.Vmm.Walk.{index, ends-plain, walk, walk_next, prefix_of, prefix_of_next, page_number}
use my_os.Vmm.Shape.{Roles, IsTree, role_level, walk-set_other}
use my_os.Vmm.Create.{Extends, PointsTo}

-- The tables below `pml4` form a tree, in frames that are in use.
abbrev pub HasTree : ℕ → Tables → Pmm → Type 0
HasTree pml4 m p = (role : Roles) × IsTree pml4 m p role

-- A write to a page table leaves the tree.
pub IsTree-set_leaf :
    (pml4 : ℕ) (m : Tables) (p : Pmm) (role : Roles) (pt i e pre : ℕ)
    → IsTree pml4 m p role
    → role pt ≡ some (0, pre)
    → IsTree pml4 (set_entry m pt i e) p role
IsTree-set_leaf pml4 m p role pt i e pre tree r = record {
  top = tree.top;
  next = λ t l q j h inside here flat.
      let at = away t (suc l) q h (omega arith) in
      rw at (tree.next t l q j h inside (rw at at here) (rw at at flat));
  plain = λ t q j h inside here.
      let at = away t 3 q h (omega arith) in rw at (tree.plain t q j h inside (rw at at here));
  owned = tree.owned;
  valid = tree.valid;
  mapped = tree.mapped;
  small = tree.small;
}
  where
    away : (t l q : ℕ) → role t ≡ some (l, q) → 0 < l → (pt == t) ≡ false
    away t l q h above = elim (Bool-cases (pt == t)) [
      | inl hit ↦
          let (level, same) =
            role_level role t 0 l pre q (subst (λ x. role x ≡ some (0, pre)) (==→eq pt t hit) r)
              h in
          absurd (omega arith)
      | inr miss ↦ miss
    ]

-- The three tables on the way to the page of `a`.
abbrev pub Reaches : ℕ → Tables → Roles → ℕ → ℕ → Type 0
Reaches pml4 m role a pt =
    (pdpt : ℕ) × (pd : ℕ) × PointsTo m role pml4 (index 3 a) 2 (prefix_of 3 a) pdpt
    × PointsTo m role pdpt (index 2 a) 1 (prefix_of 2 a) pd
    × PointsTo m role pd (index 1 a) 0 (prefix_of 1 a) pt

-- Addresses on one page take the same way.
module _ (m : Tables) (a b : ℕ) (same : page_number b ≡ page_number a) where
  pub same_index : (l : ℕ) → index l b ≡ index l a
  same_index zero = let va = index_values a in let vb = index_values b in omega arith
  same_index (suc zero) = let va = index_values a in let vb = index_values b in omega arith
  same_index (suc (suc zero)) = let va = index_values a in let vb = index_values b in omega arith
  same_index (suc (suc (suc l))) = let va = index_values a in let vb = index_values b in omega arith

  step_to :
      (role : Roles) (l t t' pre : ℕ)
      → PointsTo m role t (index (suc l) a) l pre t'
      → walk (suc l) m t b ≡ walk l m t' b
  step_to role l t t' pre (r, here, flat, leads) =
      let i = same_index (suc l) in
      walk_next l m t b (rw i here) (ends-plain (suc l) (huge (m t (index (suc l) b))) (rw i flat))
      ∙ ap (λ x. walk l m x b) (ap (λ j. entry_addr (m t j)) i ∙ leads)

  pub walk_reached :
      (pml4 pt : ℕ) (role : Roles) → Reaches pml4 m role a pt → walk 3 m pml4 b ≡ walk 0 m pt b
  walk_reached pml4 pt role (pdpt, pd, p3, p2, p1) =
      step_to role 2 pml4 pdpt (prefix_of 3 a) p3
      ∙ step_to role 1 pdpt pd (prefix_of 2 a) p2
      ∙ step_to role 0 pd pt (prefix_of 1 a) p1

-- The role of the table behind an entry.
pub points_role :
    (m : Tables) (role : Roles) (l t t' a : ℕ)
    → l < 3
    → PointsTo m role t (index (suc l) a) l (prefix_of (suc l) a) t'
    → role t' ≡ some (l, prefix_of l a)
points_role m role l t t' a low (r, here, flat, leads) =
    r ∙ ap (λ q. some (l, q)) (prefix_of_next l a low)

pub points_on :
    (pml4 : ℕ) (m m' : Tables) (role role' : Roles) (t i l k q pre r : ℕ)
    → Extends pml4 m role m' role'
    → role t ≡ some (k, q)
    → PointsTo m role t i l pre r
    → PointsTo m' role' t i l pre r
points_on pml4 m m' role role' t i l k q pre r e h (is, here, flat, leads) =
    let at = e.grows t k q i h here in
    (e.keeps r l (pre * 512 + i) is, rw at here, rw at flat, ap entry_addr at ∙ leads)

module _ (m : Tables) (role : Roles) (pt i e pre0 : ℕ) (leaf : role pt ≡ some (0, pre0)) where
  points_leaf :
      (t j l q pre r : ℕ)
      → role t ≡ some (suc l, q)
      → PointsTo m role t j l pre r
      → PointsTo (set_entry m pt i e) role t j l pre r
  points_leaf t j l q pre r h (is, here, flat, leads) =
      let at : set_entry m pt i e t j ≡ m t j = elim (Bool-cases (pt == t)) [
        | inl hit ↦
            let (level, same) =
              role_level role t 0 (suc l) pre0 q
                (subst (λ x. role x ≡ some (0, pre0)) (==→eq pt t hit) leaf) h in
            absurd (omega arith)
        | inr miss ↦ rw miss refl
      ] in
      (is, rw at here, rw at flat, ap entry_addr at ∙ leads)

  pub Reaches-leaf :
      (pml4 a pt' : ℕ)
      → role pml4 ≡ some (3, 0)
      → Reaches pml4 m role a pt'
      → Reaches pml4 (set_entry m pt i e) role a pt'
  Reaches-leaf pml4 a pt' top (pdpt, pd, p3, p2, p1) =
      let r2 = points_role m role 2 pml4 pdpt a (omega arith) p3 in
      let r1 = points_role m role 1 pdpt pd a (omega arith) p2 in
      (
        pdpt,
        pd,
        points_leaf pml4 (index 3 a) 2 0 (prefix_of 3 a) pdpt top p3,
        points_leaf pdpt (index 2 a) 1 (prefix_of 2 a) (prefix_of 2 a) pd r2 p2,
        points_leaf pd (index 1 a) 0 (prefix_of 1 a) (prefix_of 1 a) pt' r1 p1,
      )

-- The walks after a write to the page table of `a`: those of the page of `a` see the entry.
module _ (pml4 : ℕ) (m : Tables) (p : Pmm) (role : Roles) (tree : IsTree pml4 m p role) (a pt e : ℕ)
    (way : Reaches pml4 m role a pt) (b : ℕ) where
  pub pt_role : role pt ≡ some (0, prefix_of 0 a)
  pt_role = let (pdpt, pd, p3, p2, p1) = way in points_role m role 0 pd pt a (omega arith) p1

  pub walk-set_same :
      page_number b ≡ page_number a
      → walk 3 (set_entry m pt (pt_index a) e) pml4 b
        ≡ (if not (present e) then 0 else entry_addr e + bit_and b 0xFFF)
  walk-set_same same =
      walk_reached (set_entry m pt (pt_index a) e) a b same pml4 pt role
        (Reaches-leaf m role pt (pt_index a) e (prefix_of 0 a) pt_role pml4 a pt tree.top way)
      ∙ (let i = same_index m a b same 0 in rw (i, ==_refl pt, ==_refl (pt_index a)) refl)

  pub walk-set_away :
      page_number b ≢ page_number a
      → walk 3 (set_entry m pt (pt_index a) e) pml4 b ≡ walk 3 m pml4 b
  walk-set_away other = walk-set_other tree pt a e pt_role 3 pml4 b (omega arith) tree.top other
