-- ===== src/Vmm/Shape.antt =====
-- kernel/vmm.c: which frames hold tables. A role gives the level of a table and the indices that
-- lead to it, as one number.
use my_os.Prelude.{
  ℕ, zero, suc, ◌+◌, ◌*◌, ◌/◌, ◌^◌, ◌≤◌, ◌<◌, ◌≡◌, ◌≢◌, refl, sym, ap, ◌∙◌, subst, inl, inr, true,
  false, ◌&&◌, Option, none, some, arith, ◌==◌, ==→eq, ==_refl, Bool-cases,
}
use my_os.Pmm.{Pmm, page_size}
use my_os.Pmm.Bitmap.{bitmap_test}
use my_os.Pmm.Alloc.{IsValid}
use my_os.Vmm.{Tables, present, huge, entry_addr, set_entry, zero_page, pt_index}
use my_os.Vmm.Entry.{absent_zero}
use my_os.Vmm.Walk.{
  index, index_small, ends, ends-plain, walk, walk_absent, walk_next, walk_same, walk_same_leaf,
  prefix_of, prefix_of_next, page_number, page_number_parts,
}

abbrev pub Roles : Type 0
Roles = ℕ → Option (ℕ × ℕ)

-- The tables form a tree: the top table has level 3, an entry that points on points to a table of
-- the level below, under its own indices, and the frames of tables are in use.
pub record IsTree (pml4 : ℕ) (m : Tables) (p : Pmm) (role : Roles) : Type 0 where
  pub top : role pml4 ≡ some (3, 0)
  pub next :
      (t l pre i : ℕ)
      → role t ≡ some (suc l, pre)
      → i < 512
      → present (m t i) ≡ true
      → huge (m t i) ≡ false
      → role (entry_addr (m t i)) ≡ some (l, pre * 512 + i)
  pub plain :
      (t pre i : ℕ)
      → role t ≡ some (3, pre)
      → i < 512
      → present (m t i) ≡ true
      → huge (m t i) ≡ false
  pub owned : (t l pre : ℕ) → role t ≡ some (l, pre) → bitmap_test p.bytes (t / page_size) ≡ true
  pub valid : IsValid p
  pub mapped : p.bitmap ≢ 0
  pub small : p.total_frames ≤ 2 ^ 40

-- Two roles of one table.
pub role_level :
    (role : Roles) (t l l' pre pre' : ℕ)
    → role t ≡ some (l, pre)
    → role t ≡ some (l', pre')
    → (l ≡ l') × (pre ≡ pre')
role_level role t l l' pre pre' h h' =
    let same : ◌≡◌ {A = Option (ℕ × ℕ)} (some (l, pre)) (some (l', pre')) = sym h ∙ h' in (cc, cc)

module _ {pml4 : ℕ} {m : Tables} {p : Pmm} {role : Roles} (tree : IsTree pml4 m p role) where
  -- Where the walk goes on, it goes on to a table of the next level on the way to the address.
  pub walk_role :
      (l t a : ℕ)
      → l < 3
      → role t ≡ some (suc l, prefix_of (suc l) a)
      → present (m t (index (suc l) a)) ≡ true
      → ends (suc l) (huge (m t (index (suc l) a))) ≡ false
      → (huge (m t (index (suc l) a)) ≡ false)
        × (role (entry_addr (m t (index (suc l) a))) ≡ some (l, prefix_of l a))
  walk_role l t a low r here plain =
      let flat : huge (m t (index (suc l) a)) ≡ false = flat_at l low r here plain in
      (
        flat,
        tree.next t l (prefix_of (suc l) a) (index (suc l) a) r (index_small (suc l) a) here flat
            ∙ ap (λ q. some (l, q)) (prefix_of_next l a low),
      )
    where
      flat_at :
          (l : ℕ)
          → l < 3
          → role t ≡ some (suc l, prefix_of (suc l) a)
          → present (m t (index (suc l) a)) ≡ true
          → ends (suc l) (huge (m t (index (suc l) a))) ≡ false
          → huge (m t (index (suc l) a)) ≡ false
      flat_at zero low r here plain = plain
      flat_at (suc zero) low r here plain = plain
      flat_at (suc (suc zero)) low r here plain =
          tree.plain t (prefix_of 3 a) (index 3 a) r (index_small 3 a) here
      flat_at (suc (suc (suc l))) low r here plain = absurd (omega arith)

  -- An entry of a page table is written: the walk of an address on another page stays as it is.
  pub walk-set_other :
      (pt b e : ℕ)
      → role pt ≡ some (0, prefix_of 0 b)
      → (l t a : ℕ) → l ≤ 3
      → role t ≡ some (l, prefix_of l a)
      → page_number a ≢ page_number b
      → walk l (set_entry m pt (pt_index b) e) t a ≡ walk l m t a
  walk-set_other pt b e rp zero t a low r other =
      walk_same_leaf m (set_entry m pt (pt_index b) e) t a
        (elim (Bool-cases ((pt == t) && (pt_index b == pt_index a))) [
          | inl hit ↦
              let same_table : pt ≡ t = ground arith in
              let same_index : pt_index b ≡ pt_index a = ground arith in
              let (level, same_prefix) =
                role_level role t 0 0 (prefix_of 0 a) (prefix_of 0 b) r
                  (subst (λ x. role x ≡ some (0, prefix_of 0 b)) same_table rp) in
              absurd (other (omega (arith, page_number_parts a, page_number_parts b)))
          | inr miss ↦ rw miss refl
        ])
  walk-set_other pt b e rp (suc l) t a low r other =
      walk_same l m (set_entry m pt (pt_index b) e) t a
        (elim (Bool-cases (pt == t)) [
          | inl hit ↦
              let (level, same_prefix) =
                role_level role t 0 (suc l) (prefix_of 0 b) (prefix_of (suc l) a)
                  (subst (λ x. role x ≡ some (0, prefix_of 0 b)) (==→eq pt t hit) rp) r in
              absurd (omega arith)
          | inr miss ↦ rw miss refl
        ])
        (λ here plain.
          let (flat, r') = walk_role l t a (omega arith) r here plain in
          walk-set_other pt b e rp l (entry_addr (m t (index (suc l) a))) a (omega arith) r' other)

  -- A fresh table is hung into an empty entry: no walk changes.
  module _ (n t0 i0 ne : ℕ) (fresh : role n ≡ none) (empty : present (m t0 i0) ≡ false)
      (there : present ne ≡ true) (flat : huge ne ≡ false) (leads : entry_addr ne ≡ n) where
    abbrev pub hung : Tables
    hung = set_entry (zero_page m n) t0 i0 ne

    pub fresh_other : (t l pre : ℕ) → role t ≡ some (l, pre) → (n == t) ≡ false
    fresh_other t l pre r = elim (Bool-cases (n == t)) [
      | inl e ↦ absurd (let clash = sym fresh ∙ ap role (==→eq n t e) ∙ r in cc)
      | inr e ↦ e
    ]

    -- The new table has no entries yet.
    walk-hung_other : (l a : ℕ) → (t0 == n) ≡ false → walk l hung n a ≡ 0
    walk-hung_other l a other = walk_absent l hung n a (rw (other, ==_refl n) absent_zero)

    module _ (k pre : ℕ) (r0 : role t0 ≡ some (suc k, pre)) where
      pub hung_away :
          (t i l q : ℕ) → role t ≡ some (l, q) → ((t0 == t) && (i0 == i)) ≡ false → hung t i ≡ m t i
      hung_away t i l q r miss = rw (miss, fresh_other t l q r) refl

      pub walk-hung :
          (l t a : ℕ) → l ≤ 3 → role t ≡ some (l, prefix_of l a) → walk l hung t a ≡ walk l m t a
      walk-hung zero t a low r = walk_same_leaf m hung t a (elim (Bool-cases (t0 == t)) [
        | inl hit ↦
            let (level, same) =
              role_level role t (suc k) 0 pre (prefix_of 0 a)
                (subst (λ x. role x ≡ some (suc k, pre)) (==→eq t0 t hit) r0) r in
            absurd (omega arith)
        | inr miss ↦ hung_away t (pt_index a) 0 (prefix_of 0 a) r (rw miss refl)
      ])
      walk-hung (suc l) t a low r = elim (Bool-cases ((t0 == t) && (i0 == index (suc l) a))) [
        | inl hit ↦
            let same_table : t0 ≡ t = ground arith in
            let same_index : i0 ≡ index (suc l) a = ground arith in
            let absent : present (m t (index (suc l) a)) ≡ false =
              subst (λ i. present (m t i) ≡ false) same_index
                (subst (λ x. present (m x i0) ≡ false) same_table empty) in
            let entry : hung t (index (suc l) a) ≡ ne = rw hit refl in
            walk_next l hung t a (rw entry there) (ends-plain (suc l) _ (rw entry flat))
            ∙ ap (λ x. walk l hung x a) (ap entry_addr entry ∙ leads)
            ∙ walk-hung_other l a
                (let away = fresh_other t (suc l) (prefix_of (suc l) a) r in ground arith)
            ∙ sym (walk_absent (suc l) m t a absent)
        | inr miss ↦
            walk_same l m hung t a
              (hung_away t (index (suc l) a) (suc l) (prefix_of (suc l) a) r miss)
              (λ here plain.
                let (flat_here, r') = walk_role l t a (omega arith) r here plain in
                walk-hung l (entry_addr (m t (index (suc l) a))) a (omega arith) r')
      ]
