-- ===== src/Vmm/Create.antt =====
-- kernel/vmm.c: vmm_get_or_create_next_table.
use my_os.Prelude.{
  ℕ, suc, ◌+◌, ◌*◌, ◌/◌, ◌<◌, ◌≡◌, ◌≢◌, refl, sym, ap, ◌∙◌, subst, ◌⊎◌, inl, inr, true, false, ◌&&◌,
  Option, none, some, arith, bit_or, ◌==◌, ==→eq, ==_refl, if◌then◌else◌, Bool-cases, Option-cases,
}
use my_os.Pmm.{Pmm, page_size, alloc_frame}
use my_os.Pmm.Bitmap.{bitmap_test}
use my_os.Pmm.Alloc.{IsValid, alloc_frame-Allocates, alloc_frame-IsValid, alloc_frame_fixed}
use my_os.Vmm.{
  Tables, present, huge, entry_addr, set_entry, zero_page, get_or_create_next_table, pte_present,
  pte_writable,
}
use my_os.Vmm.Entry.{absent_zero, table_entry}
use my_os.Vmm.Walk.{walk}
use my_os.Vmm.Shape.{Roles, IsTree, role_level, fresh_other, walk-hung}

-- Later tables and roles agree with earlier ones where there were any, and no walk changes.
pub record Extends (pml4 : ℕ) (m : Tables) (role : Roles) (m' : Tables) (role' : Roles)
    : Type 0 where
  pub keeps : (t l pre : ℕ) → role t ≡ some (l, pre) → role' t ≡ some (l, pre)
  pub grows : (t l pre i : ℕ) → role t ≡ some (l, pre) → present (m t i) ≡ true → m' t i ≡ m t i
  pub same : (a : ℕ) → walk 3 m' pml4 a ≡ walk 3 m pml4 a

Extends-refl : (pml4 : ℕ) (m : Tables) (role : Roles) → Extends pml4 m role m role
Extends-refl pml4 m role = record {
  keeps = λ t l pre h. h;
  grows = λ t l pre i h here. refl;
  same = λ a. refl;
}

pub Extends-trans :
    (pml4 : ℕ) (m m' m'' : Tables) (role role' role'' : Roles)
    → Extends pml4 m role m' role'
    → Extends pml4 m' role' m'' role''
    → Extends pml4 m role m'' role''
Extends-trans pml4 m m' m'' role role' role'' e f = record {
  keeps = λ t l pre h. f.keeps t l pre (e.keeps t l pre h);
  grows = λ t l pre i h here.
      f.grows t l pre i (e.keeps t l pre h) (rw (e.grows t l pre i h here) here)
      ∙ e.grows t l pre i h here;
  same = λ a. f.same a ∙ e.same a;
}

-- The table `r` that an entry points to.
abbrev pub PointsTo : Tables → Roles → ℕ → ℕ → ℕ → ℕ → ℕ → Type 0
PointsTo m role t i l pre r =
    (role r ≡ some (l, pre * 512 + i))
    × (present (m t i) ≡ true)
    × (huge (m t i) ≡ false)
    × (entry_addr (m t i) ≡ r)

-- A failure, or a table behind the entry; the tree lives on in both cases.
abbrev pub Finds : ℕ → Tables → Roles → ℕ → ℕ → ℕ → ℕ → ℕ × Tables × Pmm → Type 0
Finds pml4 m role t i l pre (r, m', p') =
    (role' : Roles) × IsTree pml4 m' p' role'
    × Extends pml4 m role m' role'
    × ((r ≡ 0) ⊎ ((r ≢ 0) × PointsTo m' role' t i l pre r))

-- More frames are in use.
IsTree-grow :
    (pml4 : ℕ) (m : Tables) (p p' : Pmm) (role : Roles)
    → IsTree pml4 m p role
    → ((g : ℕ) → bitmap_test p.bytes g ≡ true → bitmap_test p'.bytes g ≡ true)
    → IsValid p'
    → (p'.total_frames ≡ p.total_frames) × (p'.bitmap ≡ p.bitmap)
    → IsTree pml4 m p' role
IsTree-grow pml4 m p p' role tree more v (same, same_bitmap) = record {
  top = tree.top;
  next = tree.next;
  plain = tree.plain;
  owned = λ t l pre h. more (t / page_size) (tree.owned t l pre h);
  valid = v;
  mapped = rw same_bitmap tree.mapped;
  small = rw same tree.small;
}

module _ (pml4 : ℕ) (m : Tables) (p : Pmm) (role : Roles) (tree : IsTree pml4 m p role)
    (t0 i0 k pre : ℕ) (r0 : role t0 ≡ some (suc k, pre)) (low : k < 3) (inside : i0 < 512) where
  get_present :
      present (m t0 i0) ≡ true
      → Finds pml4 m role t0 i0 k pre (get_or_create_next_table t0 i0 (m, p))
  unfolding get_or_create_next_table
  get_present here = elim (Bool-cases (huge (m t0 i0))) [
    | inl large ↦ rw (here, large) (role, tree, Extends-refl pml4 m role, inl refl)
    | inr flat ↦ elim (Bool-cases (entry_addr (m t0 i0) == 0)) [
      | inl null ↦
          rw (here, flat)
            (role, tree, Extends-refl pml4 m role, inl (==→eq (entry_addr (m t0 i0)) 0 null))
      | inr address ↦
          let real : entry_addr (m t0 i0) ≢ 0 = ground arith in
          rw (here, flat)
            (
              role,
              tree,
              Extends-refl pml4 m role,
              inr (real, (tree.next t0 k pre i0 r0 inside here flat, here, flat, refl)),
            )
    ]
  ]

  -- The state behind an allocation, with a table in the frame if there is one.
  module _ (empty : present (m t0 i0) ≡ false) (f : ℕ) (few : f < p.total_frames) (p' : Pmm)
      (v : IsValid p') (fixed : (p'.total_frames ≡ p.total_frames) × (p'.bitmap ≡ p.bitmap))
      (clear : bitmap_test p.bytes f ≡ false)
      (bits : (g : ℕ)
        → bitmap_test p'.bytes g ≡ (if f == g then true else bitmap_test p.bytes g)) where
    abbrev n : ℕ
    n = f * 4096

    abbrev ne : ℕ
    ne = bit_or (bit_or n pte_present) pte_writable

    abbrev role' : Roles
    role' x = if n == x then some (k, pre * 512 + i0) else role x

    entry_facts : (present ne ≡ true) × (huge ne ≡ false) × (entry_addr ne ≡ n)
    entry_facts = table_entry f (let s = tree.small in omega arith)

    -- A frame that was free holds no table.
    fresh : role n ≡ none
    fresh = elim (Option-cases (role n)) [
      | inl e ↦ e
      | inr ((l, q), e) ↦
          let used = tree.owned n l q e in
          let frame : n / 4096 ≡ f = omega arith in
          absurd (let both = sym clear ∙ ap (λ g. bitmap_test p.bytes g) (sym frame) ∙ used in cc)
    ]

    abbrev m' : Tables
    m' = set_entry (zero_page m n) t0 i0 ne

    other_table : (t l q : ℕ) → role t ≡ some (l, q) → (n == t) ≡ false
    other_table =
        fresh_other tree n t0 i0 ne fresh empty (entry_facts.0) (entry_facts.1) (entry_facts.2)

    more : (g : ℕ) → bitmap_test p.bytes g ≡ true → bitmap_test p'.bytes g ≡ true
    more g h = let b = bits g in ground arith

    keeps : (t l q : ℕ) → role t ≡ some (l, q) → role' t ≡ some (l, q)
    keeps t l q h = rw (other_table t l q h) h

    entry_hit : m' t0 i0 ≡ ne
    entry_hit = rw (==_refl t0, ==_refl i0) refl

    -- An entry that points on is the new one, or it was there.
    entry_cases :
        (t i l q : ℕ)
        → role' t ≡ some (l, q)
        → present (m' t i) ≡ true
        → ((t0 ≡ t) × (i0 ≡ i)) ⊎ ((role t ≡ some (l, q)) × (m' t i ≡ m t i))
    entry_cases t i l q h here = elim (Bool-cases ((t0 == t) && (i0 == i))) [
      | inl hit ↦ inl (ground arith, ground arith)
      | inr miss ↦ elim (Bool-cases (n == t)) [
        | inl new ↦ absurd (
            let cleared : m' t i ≡ 0 = rw (miss, new) refl in
            let none_there = sym (ap present cleared ∙ absent_zero) ∙ here in cc)
        | inr old ↦ inr (rw old at h, rw (miss, old) refl)
      ]
    ]

    new_role : role' n ≡ some (k, pre * 512 + i0)
    new_role = rw (==_refl n) refl

    next_hit :
        (t l q i : ℕ)
        → role' t ≡ some (suc l, q)
        → t0 ≡ t
        → i0 ≡ i
        → role' (entry_addr (m' t i)) ≡ some (l, q * 512 + i)
    next_hit t l q i h table index =
        let (level, same) =
          role_level role' t (suc k) (suc l) pre q
            (subst (λ x. role' x ≡ some (suc k, pre)) table (keeps t0 (suc k) pre r0)) h in
        let level' : k ≡ l = omega arith in
        let value : ◌≡◌ {A = Option (ℕ × ℕ)} (some (k, pre * 512 + i0)) (some (l, q * 512 + i0)) =
          rw (level', same) refl in
        subst (λ x. role' (entry_addr (m' x i)) ≡ some (l, q * 512 + i)) table
          (subst (λ j. role' (entry_addr (m' t0 j)) ≡ some (l, q * 512 + j)) index
            (ap (λ e. role' (entry_addr e)) entry_hit
              ∙ ap role' (entry_facts.2)
              ∙ new_role
              ∙ value))

    IsTree-create : IsTree pml4 m' p' role'
    IsTree-create = record {
      top = keeps pml4 3 0 tree.top;
      next = λ t l q i h small here flat. elim (entry_cases t i (suc l) q h here) [
        | inl (table, index) ↦ next_hit t l q i h table index
        | inr (old, entry) ↦
            ap (λ e. role' (entry_addr e)) entry
            ∙ keeps (entry_addr (m t i)) l (q * 512 + i)
                (tree.next t l q i old small (rw entry at here) (rw entry at flat))
      ];
      plain = λ t q i h small here. elim (entry_cases t i 3 q h here) [
        | inl (table, index) ↦
            subst (λ t. huge (m' t i) ≡ false) table
              (subst (λ i. huge (m' t0 i) ≡ false) index (rw entry_hit (entry_facts.1)))
        | inr (old, entry) ↦ rw entry (tree.plain t q i old small (rw entry at here))
      ];
      owned = λ t l q h. elim (Bool-cases (n == t)) [
        | inl new ↦
            let frame : t / 4096 ≡ f = ground arith in rw frame (let b = bits f in ground arith)
        | inr old ↦ more (t / page_size) (tree.owned t l q (rw old at h))
      ];
      valid = v;
      mapped = rw (fixed.1) tree.mapped;
      small = rw (fixed.0) tree.small;
    }

    Extends-create : Extends pml4 m role m' role'
    Extends-create = record {
      keeps = keeps;
      grows = λ t l q i h here. elim (Bool-cases ((t0 == t) && (i0 == i))) [
        | inl hit ↦
            let table : t0 ≡ t = ground arith in
            let index : i0 ≡ i = ground arith in
            let none_there =
              subst (λ j. present (m t j) ≡ false) index
                (subst (λ x. present (m x i0) ≡ false) table empty) in
            absurd (let clash = sym none_there ∙ here in cc)
        | inr miss ↦ rw (miss, other_table t l q h) refl
      ];
      same = λ a.
          walk-hung tree n t0 i0 ne fresh empty (entry_facts.0) (entry_facts.1) (entry_facts.2) k
            pre r0 3 pml4 a (omega arith) tree.top;
    }

    created : n ≢ 0 → (n ≢ 0) × PointsTo m' role' t0 i0 k pre n
    created real = (
      real,
      (
        new_role,
        rw entry_hit (entry_facts.0),
        rw entry_hit (entry_facts.1),
        rw entry_hit (entry_facts.2),
      ),
    )

  get_absent :
      present (m t0 i0) ≡ false
      → Finds pml4 m role t0 i0 k pre (get_or_create_next_table t0 i0 (m, p))
  unfolding get_or_create_next_table
  get_absent empty =
      let kept = alloc_frame-IsValid tree.valid tree.mapped in
      elim (alloc_frame-Allocates tree.valid tree.mapped) [
        | inl (full, null, same, all) ↦
            rw (get_or_create_next_table, empty, null, same)
              (role, tree, Extends-refl pml4 m role, inl refl)
        | inr (f, few, clear, first, address, bits, count) ↦
            elim (Bool-cases ((alloc_frame p).0 == 0)) [
              | inl null ↦
                  rw (get_or_create_next_table, empty, null)
                    (
                      role,
                      IsTree-grow pml4 m p (alloc_frame p).1 role tree
                          (λ g h. let b = bits g in ground arith) kept (alloc_frame_fixed p),
                      Extends-refl pml4 m role,
                      inl refl,
                    )
              | inr real ↦
                  let there : f * 4096 ≢ 0 = ground arith in
                  rw (get_or_create_next_table, empty, real, address)
                    (
                      role' empty f few (alloc_frame p).1 kept (alloc_frame_fixed p) clear bits,
                      IsTree-create empty f few (alloc_frame p).1 kept (alloc_frame_fixed p) clear
                          bits,
                      Extends-create empty f few (alloc_frame p).1 kept (alloc_frame_fixed p) clear
                          bits,
                      inr (
                          created empty f few (alloc_frame p).1 kept (alloc_frame_fixed p) clear
                            bits there),
                    )
            ]
      ]

  -- With the entry of a table, `vmm_get_or_create_next_table` fails or finds the table behind it.
  pub get_or_create-Finds : Finds pml4 m role t0 i0 k pre (get_or_create_next_table t0 i0 (m, p))
  get_or_create-Finds = elim (Bool-cases (present (m t0 i0))) [
    | inl here ↦ get_present here
    | inr empty ↦ get_absent empty
  ]
