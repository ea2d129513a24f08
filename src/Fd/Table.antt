-- ===== src/Fd/Table.antt =====
-- kernel/fd.c: what opening, closing and transferring do to the table of descriptors.
use my_os.Prelude.{
  ℕ, zero, suc, ◌+◌, ◌≤◌, ◌<◌, ◌≡◌, refl, sym, ap, ◌∙◌, ◌≢◌, ◌⊎◌, inl, inr, true, false, List,
  Option, none, some, arith, add64, ◌==◌, ==→eq, ==_refl, Bool-cases, Option-cases, length, set,
  length-set, get_or-set_self, get_or-set_ne, set-set, subst,
}
use my_os.Fd.{
  FdEntry, Node, file, vfs_node, fd_table_size, clear_entry, vfs_entry, entry_at, first_unused,
  is_openable, fd_open, fd_close, advance, read_entry, fd_read,
}

-- The table has its 32 entries, and the three standard descriptors stay in use.
pub record IsValid (table : List FdEntry) : Type 0 where
  pub sized : length table ≡ fd_table_size
  pub standard : (i : ℕ) → i < 3 → (entry_at table i).used ≡ true

abbrev IsFirst : List FdEntry → ℕ → ℕ → Option ℕ → Type 0
IsFirst table n i none = (j : ℕ) → i ≤ j → j < i + n → (entry_at table j).used ≡ true
IsFirst table n i (some fd) =
    (i ≤ fd)
    × (fd < i + n)
    × ((entry_at table fd).used ≡ false)
    × ((j : ℕ) → i ≤ j → j < fd → (entry_at table j).used ≡ true)

later :
    (table : List FdEntry) (n i : ℕ) (o : Option ℕ)
    → (entry_at table i).used ≡ true
    → IsFirst table n (i + 1) o
    → IsFirst table (suc n) i o
later table n i none e h = λ j p q. elim (Bool-cases (i == j)) [
  | inl same ↦ ap (λ k. (entry_at table k).used) (sym (==→eq i j same)) ∙ e
  | inr other ↦ h j (ground arith) (omega arith)
]
later table n i (some fd) e (a, b, c, d) = (
  omega arith,
  omega arith,
  c,
  λ j p q. elim (Bool-cases (i == j)) [
    | inl same ↦ ap (λ k. (entry_at table k).used) (sym (==→eq i j same)) ∙ e
    | inr other ↦ d j (ground arith) q
  ],
)

first_unused-IsFirst : (table : List FdEntry) (n i : ℕ) → IsFirst table n i (first_unused table n i)
unfolding first_unused
first_unused-IsFirst table zero i = λ j p q. absurd (omega arith)
first_unused-IsFirst table (suc n) i = elim (Bool-cases (entry_at table i).used) [
  | inl e ↦ rw e (later table n i _ e (first_unused-IsFirst table n (i + 1)))
  | inr e ↦ rw e (omega arith, omega arith, e, λ j p q. absurd (omega arith))
]

-- What opening a node does: it takes the lowest descriptor above the standard ones that is not in
-- use, at offset 0, and leaves all others; it fails, and changes nothing, only if all are in use.
abbrev pub Opens : Node → List FdEntry → Option ℕ × List FdEntry → Type 0
Opens node table (none, table') =
    (table' ≡ table) × ((j : ℕ) → 3 ≤ j → j < fd_table_size → (entry_at table j).used ≡ true)
Opens node table (some fd, table') =
    (3 ≤ fd)
    × (fd < fd_table_size)
    × ((entry_at table fd).used ≡ false)
    × ((j : ℕ) → 3 ≤ j → j < fd → (entry_at table j).used ≡ true)
    × (entry_at table' fd ≡ vfs_entry node true true)
    × ((j : ℕ) → fd ≢ j → entry_at table' j ≡ entry_at table j)

open-none :
    (node : Node) (table : List FdEntry)
    → is_openable node.node_type ≡ true
    → first_unused table 29 3 ≡ none
    → fd_open (some node) table ≡ (none, table)
unfolding fd_open
open-none node table o e = rw (o, e) refl

open-some :
    (node : Node) (table : List FdEntry) (fd : ℕ)
    → is_openable node.node_type ≡ true
    → first_unused table 29 3 ≡ some fd
    → fd_open (some node) table ≡ (some fd, set table fd (vfs_entry node true true))
unfolding fd_open
open-some node table fd o e = rw (o, e) refl

-- On a table of 32 entries, `fd_open` of a file or a device takes the lowest free descriptor above
-- the standard ones and points it at the start of the node, or fails, and changes nothing, if all
-- are in use.
pub fd_open-Opens :
    (node : Node) (table : List FdEntry)
    → length table ≡ fd_table_size
    → is_openable node.node_type ≡ true
    → Opens node table (fd_open (some node) table)
fd_open-Opens node table sized o =
    outcome (first_unused table 29 3) refl (first_unused-IsFirst table 29 3)
  where
    outcome :
        (r : Option ℕ)
        → first_unused table 29 3 ≡ r
        → IsFirst table 29 3 r
        → Opens node table (fd_open (some node) table)
    outcome none e h = rw (open-none node table o e) (refl, h)
    outcome (some fd) e (low, high, free, before) = rw (open-some node table fd o e) (
      low,
      high,
      free,
      before,
      get_or-set_self table fd (vfs_entry node true true) clear_entry (omega arith),
      λ j other. get_or-set_ne table fd j (vfs_entry node true true) clear_entry other,
    )

closes :
    (table : List FdEntry) (fd : ℕ)
    → 3 ≤ fd
    → fd < fd_table_size
    → (entry_at table fd).used ≡ true
    → fd_close fd table ≡ (true, set table fd clear_entry)
unfolding fd_close
closes table fd low high e = ground arith

-- On a table of 32 entries, closing the descriptor that `fd_open` just took for a file or a device
-- succeeds, and leaves the table as before, with
-- that entry cleared.
pub fd_close-fd_open :
    (node : Node) (table : List FdEntry) (fd : ℕ)
    → length table ≡ fd_table_size
    → is_openable node.node_type ≡ true
    → (fd_open (some node) table).0 ≡ some fd
    → fd_close fd (fd_open (some node) table).1 ≡ (true, set table fd clear_entry)
fd_close-fd_open node table fd sized o e = elim (Option-cases (first_unused table 29 3)) [
  | inl n ↦ absurd (none-ne-some (sym (ap (λ r. r.0) (open-none node table o n)) ∙ e))
  | inr (g, q) ↦
      let same : first_unused table 29 3 ≡ some fd =
        q ∙ sym (ap (λ r. r.0) (open-some node table g o q)) ∙ e in
      let (low, high, free, before) =
        subst (IsFirst table 29 3) same (first_unused-IsFirst table 29 3) in
      let opened = vfs_entry node true true in
      let now_used =
        ap (λ (x : FdEntry). x.used) (get_or-set_self table fd opened clear_entry (omega arith)) in
      rw (open-some node table fd o same) (
        closes (set table fd opened) fd low (omega arith) now_used
        ∙ ap (λ t. (true, t)) (set-set table fd opened clear_entry))
]
  where
    none-ne-some : none ≡ some fd → ⊥
    none-ne-some h = cc

set-IsValid :
    (table : List FdEntry) (fd : ℕ) (entry : FdEntry)
    → 3 ≤ fd
    → IsValid table
    → IsValid (set table fd entry)
set-IsValid table fd entry low v = record {
  sized = length-set table fd entry ∙ v.sized;
  standard = λ i h.
      ap (λ (x : FdEntry). x.used) (get_or-set_ne table fd i entry clear_entry (omega arith))
      ∙ v.standard i h;
}

close-cases :
    (fd : ℕ) (table : List FdEntry)
    → ((fd_close fd table).1 ≡ table)
      ⊎ ((3 ≤ fd) × ((fd_close fd table).1 ≡ set table fd clear_entry))
unfolding fd_close
close-cases fd table = ground arith

-- Opening and closing, whatever the descriptor, keep the table valid: 32 entries, and the three
-- standard descriptors in use.
pub fd_open_close-IsValid :
    (found : Option Node) (fd : ℕ) (table : List FdEntry)
    → IsValid table
    → IsValid (fd_open found table).1 × IsValid (fd_close fd table).1
unfolding fd_open
fd_open_close-IsValid found fd table v = (opened found, closed)
  where
    opened : (o : Option Node) → IsValid (fd_open o table).1
    opened none = v
    opened (some node) = elim (Bool-cases (is_openable node.node_type)) [
      | inr e ↦ rw e v
      | inl e ↦ elim (Option-cases (first_unused table 29 3)) [
        | inl n ↦ rw (e, n) v
        | inr (g, q) ↦
            let first = subst (IsFirst table 29 3) q (first_unused-IsFirst table 29 3) in
            rw (e, q) (set-IsValid table g (vfs_entry node true true) first.0 v)
      ]
    ]

    closed : IsValid (fd_close fd table).1
    closed = elim (close-cases fd table) [
      | inl e ↦ rw e v
      | inr (low, e) ↦ rw e (set-IsValid table fd clear_entry low v)
    ]

entry-read :
    (fd size : ℕ) (table : List FdEntry)
    → fd < fd_table_size
    → 0 < size
    → (entry_at table fd).used ≡ true
    → (entry_at table fd).readable ≡ true
    → read_entry fd true size table ≡ some (entry_at table fd)
unfolding read_entry
entry-read fd size table inside some_size used readable = ground arith

advance_file :
    (fd moved : ℕ) (node : Node) (table : List FdEntry)
    → node.node_type ≡ file
    → (entry_at table fd).used ≡ true
    → (entry_at table fd).object ≡ some node
    → advance fd node moved table ≡ (
        let entry = entry_at table fd in
        set table fd (record entry { offset = add64 entry.offset moved }))
unfolding advance
advance_file fd moved node table is used object = rw (is, used, object, ==_refl node.address) refl

-- On a table of 32 entries, reading at least one byte of a file through a readable descriptor in
-- use returns what the node gives at the offset of the
-- entry, moves that offset by as much, and changes no other entry.
pub fd_read_file :
    (transfer : Node → ℕ → ℕ → ℕ) (fd size : ℕ) (node : Node) (table : List FdEntry)
    → length table ≡ fd_table_size
    → fd < fd_table_size
    → 0 < size
    → node.node_type ≡ file
    → (entry_at table fd).used ≡ true
    → (entry_at table fd).readable ≡ true
    → (entry_at table fd).fd_type ≡ vfs_node
    → (entry_at table fd).object ≡ some node
    → let offset = (entry_at table fd).offset in
      let moved = transfer node offset size in
      let (result, table') = fd_read transfer fd true size table in
      (result ≡ some moved)
      × ((entry_at table' fd).offset ≡ add64 offset moved)
      × ((j : ℕ) → fd ≢ j → entry_at table' j ≡ entry_at table j)
unfolding fd_read
fd_read_file transfer fd size node table sized inside some_size is used readable kind object =
    let entry = entry_at table fd in
    let moved = transfer node entry.offset size in
    let entry' : FdEntry = record entry { offset = add64 entry.offset moved } in
    rw (reads moved refl) (
      refl,
      ap (λ (x : FdEntry). x.offset) (get_or-set_self table fd entry' clear_entry (omega arith)),
      λ j other. get_or-set_ne table fd j entry' clear_entry other,
    )
  where
    reads :
        (moved : ℕ)
        → moved ≡ transfer node (entry_at table fd).offset size
        → fd_read transfer fd true size table ≡ (
          some moved,
          let entry = entry_at table fd in
              set table fd (record entry { offset = add64 entry.offset moved }),
        )
    reads moved e =
        rw
          (
            entry-read fd size table inside some_size used readable,
            fd_read,
            kind,
            object,
            sym e,
            advance_file fd moved node table is used object,
          )
          (rw (kind, object) refl)
