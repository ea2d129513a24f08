-- ===== src/Ramfs/File.antt =====
-- kernel/ramfs.c: reading and writing a file, byte by byte.
use my_os.Prelude.{
  ℕ, zero, suc, ◌+◌, ◌-◌, ◌≤◌, ◌<◌, ◌≡◌, ◌≢◌, refl, sym, ap, ◌∙◌, ◌⊎◌, inl, inr, Bool, true, false,
  List, [], ◌∷◌, arith, add64, u64_mod, ltb, leb, ◌==◌, Bool-cases, length, get_or, set, take, drop,
  replicate, min, max, length-set, length-replicate, get_or-replicate, get_or_past, get_or-set_self,
  get_or-set_ne, length-drop,
}
use my_os.Ramfs.{
  RamFile, ramfs_memcpy, ramfs_read, grow_file, store_bytes, ramfs_write, file_from_buffer,
}

-- The byte at a position; behind the memory there are zeros.
abbrev pub byte_at : RamFile → ℕ → ℕ
byte_at f i = get_or f.bytes i 0

-- The memory has the capacity, the contents lie in it, and it is clear behind them.
abbrev pub IsValid : RamFile → Type 0
IsValid f =
    (length f.bytes ≡ f.capacity)
    × (f.size ≤ f.capacity)
    × (f.capacity < u64_mod)
    × ((i : ℕ) → f.size ≤ i → byte_at f i ≡ 0)

length-memcpy :
    (dst : List ℕ) (at : ℕ) (src : List ℕ) → length (ramfs_memcpy dst at src) ≡ length dst
unfolding ramfs_memcpy
length-memcpy dst at [] = refl
length-memcpy dst at (b ∷ src) = length-memcpy (set dst at b) (at + 1) src ∙ length-set dst at b

-- A byte that is not copied over.
memcpy_outside :
    (dst : List ℕ) (at : ℕ) (src : List ℕ) (i : ℕ)
    → (i < at) ⊎ (at + length src ≤ i)
    → get_or (ramfs_memcpy dst at src) i 0 ≡ get_or dst i 0
unfolding ramfs_memcpy
memcpy_outside dst at [] i h = refl
memcpy_outside dst at (b ∷ src) i h =
    memcpy_outside (set dst at b) (at + 1) src i (ground arith)
    ∙ get_or-set_ne dst at i b 0 (ground arith)

-- A byte that is copied.
memcpy_inside :
    (dst : List ℕ) (at : ℕ) (src : List ℕ) (j : ℕ)
    → at + length src ≤ length dst
    → j < length src
    → get_or (ramfs_memcpy dst at src) (at + j) 0 ≡ get_or src j 0
unfolding ramfs_memcpy
memcpy_inside dst at [] j room h = absurd (omega arith)
memcpy_inside dst at (b ∷ src) zero room h =
    memcpy_outside (set dst at b) (at + 1) src (at + 0) (inl (omega arith))
    ∙ ap (λ i. get_or (set dst at b) i 0) (omega arith)
    ∙ get_or-set_self dst at b 0 (omega arith)
memcpy_inside dst at (b ∷ src) (suc j) room h =
    let on : at + suc j ≡ (at + 1) + j = omega arith in
    rw on (
      memcpy_inside (set dst at b) (at + 1) src j (rw (length-set dst at b) (omega arith))
        (omega arith))

memcpy_front :
    (dst src : List ℕ) (i : ℕ)
    → length src ≤ length dst
    → i < length src
    → get_or (ramfs_memcpy dst 0 src) i 0 ≡ get_or src i 0
memcpy_front dst src i room h =
    let here : i ≡ 0 + i = omega arith in
    ap (λ k. get_or (ramfs_memcpy dst 0 src) k 0) here ∙ memcpy_inside dst 0 src i (omega arith) h

-- `take` at a position.
get_or-take_inside : (n : ℕ) (l : List ℕ) (i : ℕ) → i < n → get_or (take n l) i 0 ≡ get_or l i 0
get_or-take_inside zero l i h = absurd (omega arith)
get_or-take_inside (suc n) [] i h = refl
get_or-take_inside (suc n) (x ∷ l) zero h = refl
get_or-take_inside (suc n) (x ∷ l) (suc i) h = get_or-take_inside n l i (omega arith)

length-take_inside : (n : ℕ) (l : List ℕ) → n ≤ length l → length (take n l) ≡ n
length-take_inside zero l h = refl
length-take_inside (suc n) [] h = absurd (omega arith)
length-take_inside (suc n) (x ∷ l) h = ap suc (length-take_inside n l (omega arith))

get_or-drop : (n : ℕ) (l : List ℕ) (i : ℕ) → get_or (drop n l) i 0 ≡ get_or l (n + i) 0
get_or-drop zero l i = ap (λ j. get_or l j 0) (omega arith)
get_or-drop (suc n) [] i = refl
get_or-drop (suc n) (x ∷ l) i =
    let on : suc n + i ≡ suc (n + i) = omega arith in rw on (get_or-drop n l i)

-- Two lists of the same length with the same bytes.
list_ext :
    (l r : List ℕ)
    → length l ≡ length r
    → ((i : ℕ) → i < length l → get_or l i 0 ≡ get_or r i 0)
    → l ≡ r
list_ext [] [] e h = refl
list_ext [] (y ∷ r) e h = absurd (omega arith)
list_ext (x ∷ l) [] e h = absurd (omega arith)
list_ext (x ∷ l) (y ∷ r) e h =
    let first : x ≡ y = h 0 (omega arith) in
    let rest : l ≡ r = list_ext l r (omega arith) (λ i inside. h (suc i) (omega arith)) in cc

-- Moving a file to a larger memory.
module _ (f : RamFile) (end : ℕ) (v : IsValid f) (grows : f.capacity < end)
    (small : end < u64_mod) where
  abbrev grown : RamFile
  grown = grow_file end f

  grown-capacity : (grown.capacity < u64_mod) × (end ≤ grown.capacity) × (grown.size ≡ f.size)
  unfolding grow_file
  grown-capacity = (ground arith, ground arith, refl)

  grown-length : length grown.bytes ≡ grown.capacity
  unfolding grow_file
  grown-length = elim (Bool-cases (f.size == 0)) [
    | inl e ↦ rw e (length-replicate _ 0)
    | inr e ↦ rw e (length-memcpy _ 0 (take f.size f.bytes) ∙ length-replicate _ 0)
  ]

  room_for : length (take f.size f.bytes) ≤ length (replicate {A = ℕ} grown.capacity 0)
  room_for =
      let (whole, fits, bound, clear) = v in
      let (small, holds, same) = grown-capacity in
      let taken = length-take_inside f.size f.bytes (omega arith) in
      rw (length-replicate {A = ℕ} grown.capacity 0, taken) (omega arith)

  grown_byte : (i : ℕ) → byte_at grown i ≡ byte_at f i
  unfolding grow_file
  grown_byte i =
      let (whole, fits, bound, clear) = v in
      elim (Bool-cases (f.size == 0)) [
        | inl e ↦ rw e (get_or-replicate _ 0 i ∙ sym (clear i (ground arith)))
        | inr e ↦
            let taken = length-take_inside f.size f.bytes (omega arith) in
            elim (Bool-cases (ltb i f.size)) [
              | inl inside ↦ rw e (
                  memcpy_front (replicate grown.capacity 0) (take f.size f.bytes) i room_for
                    (let below : i < f.size = ground arith in omega (arith, taken))
                  ∙ get_or-take_inside f.size f.bytes i (ground arith))
              | inr outside ↦ rw e (
                  memcpy_outside (replicate grown.capacity 0) 0 (take f.size f.bytes) i
                    (inr (ground arith))
                  ∙ get_or-replicate grown.capacity 0 i
                  ∙ sym (clear i (ground arith)))
            ]
      ]

  grown-IsValid : IsValid grown
  grown-IsValid =
      let (whole, fits, bound, clear) = v in
      let (small, holds, same) = grown-capacity in
      (grown-length, omega arith, small, λ i h. grown_byte i ∙ clear i (omega arith))

-- What a write leaves: the bytes of the buffer from `offset` on, the others as before.
abbrev pub Written : RamFile → ℕ → List ℕ → RamFile → Type 0
Written f offset buffer f' =
    (f'.size ≡ max f.size (offset + length buffer))
    × ((j : ℕ) → j < length buffer → byte_at f' (offset + j) ≡ get_or buffer j 0)
    × ((i : ℕ) → (i < offset) ⊎ (offset + length buffer ≤ i) → byte_at f' i ≡ byte_at f i)

module _ (f : RamFile) (offset : ℕ) (buffer : List ℕ) (v : IsValid f)
    (room : offset + length buffer ≤ f.capacity) where
  stored-Written : Written f offset buffer (store_bytes offset buffer f)
  unfolding store_bytes
  stored-Written =
      let (whole, fits, bound, clear) = v in
      (
        ground arith,
        λ j h. memcpy_inside f.bytes offset buffer j (omega arith) h,
        λ i h. memcpy_outside f.bytes offset buffer i h,
      )

  stored-IsValid : IsValid (store_bytes offset buffer f)
  unfolding store_bytes
  stored-IsValid =
      let (whole, fits, bound, clear) = v in
      (
        length-memcpy f.bytes offset buffer ∙ whole,
        ground arith,
        bound,
        λ i h. memcpy_outside f.bytes offset buffer i (inr (ground arith)) ∙ clear i (ground arith),
      )

-- What `ramfs_write` does: nothing, and returns 0; or it writes, and returns the number of bytes.
abbrev pub Writes : Bool → RamFile → ℕ → List ℕ → ℕ × RamFile → Type 0
Writes has_memory f offset buffer (written, f') =
    ((written ≡ 0)
      × (f' ≡ f)
      × ((length buffer ≡ 0) ⊎ ((has_memory ≡ false) × (f.capacity < offset + length buffer))))
    ⊎ ((written ≡ length buffer) × (length buffer ≢ 0) × Written f offset buffer f')

module _ (has_memory : Bool) (f : RamFile) (offset : ℕ) (buffer : List ℕ) (v : IsValid f)
    (small : offset + length buffer < u64_mod) where
  abbrev end : ℕ
  end = offset + length buffer

  write_cases :
      (((length buffer ≡ 0) ⊎ ((has_memory ≡ false) × (f.capacity < end)))
        × (ramfs_write has_memory f offset buffer ≡ (0, f)))
      ⊎ ((length buffer ≢ 0)
          × (end ≤ f.capacity)
          × (ramfs_write has_memory f offset buffer ≡ (length buffer, store_bytes offset buffer f)))
      ⊎ ((length buffer ≢ 0)
          × (f.capacity < end)
          × (ramfs_write has_memory f offset buffer
              ≡ (length buffer, store_bytes offset buffer (grow_file end f))))
  unfolding ramfs_write
  write_cases =
      let exact : add64 offset (length buffer) ≡ end = omega arith in
      elim (Bool-cases (length buffer == 0)) [
        | inl empty ↦ inl (inl (ground arith), ground arith)
        | inr some_bytes ↦ elim (Bool-cases (ltb f.capacity end)) [
          | inr fits ↦ inr (inl (ground arith, ground arith, rw (exact, some_bytes, fits) refl))
          | inl grows ↦ elim (Bool-cases has_memory) [
            | inl m ↦ inr (inr (ground arith, ground arith, rw (exact, some_bytes, grows, m) refl))
            | inr m ↦ inl (inr (m, ground arith), rw (exact, some_bytes, grows, m) refl)
          ]
        ]
      ]

  grown-Written :
      f.capacity < end → Written f offset buffer (store_bytes offset buffer (grow_file end f))
  grown-Written grows =
      let (bound, holds, same) = grown-capacity f end v grows small in
      let (size, inside, outside) =
        stored-Written (grow_file end f) offset buffer (grown-IsValid f end v grows small) holds in
      (
        size ∙ ap (λ n. max n end) same,
        inside,
        λ i h. outside i h ∙ grown_byte f end v grows small i,
      )

  -- On a valid file, when the end of the range is below 2 ^ 64, `ramfs_write` either returns 0 and
  -- changes nothing, for an empty buffer or when the file would have to grow and there is no memory;
  -- or it returns the number of bytes, the range has the bytes of the buffer, all other bytes are as
  -- before, those between the old end and the range being 0, and the size covers the range.
  pub ramfs_write-Writes :
      Writes has_memory f offset buffer (ramfs_write has_memory f offset buffer)
      × IsValid (ramfs_write has_memory f offset buffer).1
  ramfs_write-Writes = elim write_cases [
    | inl (why, same) ↦ rw same (inl (refl, refl, why), v)
    | inr (inl (some_bytes, fits, same)) ↦ rw same (
      inr (refl, some_bytes, stored-Written f offset buffer v fits),
      stored-IsValid f offset buffer v fits,
    )
    | inr (inr (some_bytes, grows, same)) ↦
        let (bound, holds, size) = grown-capacity f end v grows small in
        rw same (
          inr (refl, some_bytes, grown-Written grows),
          stored-IsValid (grow_file end f) offset buffer (grown-IsValid f end v grows small) holds,
        )
  ]

-- What `ramfs_read` returns: the bytes of the range as far as the file goes.
abbrev pub Reads : RamFile → ℕ → ℕ → List ℕ → Type 0
Reads f offset size result =
    (length result ≡ min size (f.size - offset))
    × ((i : ℕ) → i < length result → get_or result i 0 ≡ byte_at f (offset + i))

read_range :
    (n offset : ℕ) (l : List ℕ)
    → n ≤ length l - offset
    → (length (take n (drop offset l)) ≡ n)
      × ((i : ℕ) → i < n → get_or (take n (drop offset l)) i 0 ≡ get_or l (offset + i) 0)
read_range n offset l h = (
  length-take_inside n (drop offset l) (rw (length-drop offset l) h),
  λ i below. get_or-take_inside n (drop offset l) i below ∙ get_or-drop offset l i,
)

-- On a valid file `ramfs_read` returns the bytes from `offset` on, as many as asked for or as there
-- are up to the end of the file.
pub ramfs_read-Reads :
    (f : RamFile) (offset size : ℕ) → IsValid f → Reads f offset size (ramfs_read f offset size)
unfolding ramfs_read
ramfs_read-Reads f offset size v =
    let (whole, fits, bound, clear) = v in
    elim (Bool-cases (size == 0)) [
      | inl e ↦ rw e (ground arith, λ i h. absurd (omega arith))
      | inr e ↦ elim (Bool-cases (leb f.size offset)) [
        | inl past ↦ rw (e, past) (ground arith, λ i h. absurd (omega arith))
        | inr before ↦ elim (Bool-cases (ltb (f.size - offset) size)) [
          | inl short ↦
              let (long, bytes) = read_range (f.size - offset) offset f.bytes (omega arith) in
              rw (e, before, short) (long ∙ ground arith, λ i h. bytes i (omega arith))
          | inr all ↦
              let (long, bytes) = read_range size offset f.bytes (ground arith) in
              rw (e, before, all) (long ∙ ground arith, λ i h. bytes i (omega arith))
        ]
      ]
    ]

-- On a valid file, what `ramfs_write` has written is read back by `ramfs_read` of the same range.
pub ramfs_read-ramfs_write :
    (has_memory : Bool) (f : RamFile) (offset : ℕ) (buffer : List ℕ)
    → IsValid f
    → offset + length buffer < u64_mod
    → (ramfs_write has_memory f offset buffer).0 ≢ 0
    → ramfs_read (ramfs_write has_memory f offset buffer).1 offset (length buffer) ≡ buffer
ramfs_read-ramfs_write has_memory f offset buffer v small h =
    let (writes, v') = ramfs_write-Writes has_memory f offset buffer v small in
    let f' = (ramfs_write has_memory f offset buffer).1 in
    let (long, bytes) = ramfs_read-Reads f' offset (length buffer) v' in
    elim writes [
      | inl (z, same, why) ↦ absurd (h z)
      | inr (n, some_bytes, (size, inside, outside)) ↦
          list_ext (ramfs_read f' offset (length buffer)) buffer (omega arith)
            (λ i below. bytes i below ∙ inside i (omega arith))
    ]

-- The data of a new file.
abbrev pub Filled : List ℕ → Bool × RamFile → Type 0
Filled buffer (filled, f) =
    (filled ≡ true) × (f.bytes ≡ buffer) × (f.size ≡ length buffer) × (f.capacity ≡ length buffer)

pub file_from_buffer-Filled : (buffer : List ℕ) → Filled buffer (file_from_buffer true buffer)
unfolding file_from_buffer
file_from_buffer-Filled [] = (refl, refl, refl, refl)
file_from_buffer-Filled (x ∷ buffer) =
    let some_bytes : (length (x ∷ buffer) == 0) ≡ false = ground arith in
    rw some_bytes (refl, refl, refl, refl)

-- Reading a new file from its start to its end gives back the buffer it was made from.
pub ramfs_read-file_from_buffer :
    (buffer : List ℕ)
    → length buffer < u64_mod
    → ramfs_read (file_from_buffer true buffer).1 0 (length buffer) ≡ buffer
ramfs_read-file_from_buffer buffer small =
    let f = (file_from_buffer true buffer).1 in
    let (filled, same, size, capacity) = file_from_buffer-Filled buffer in
    let full : length f.bytes ≡ length buffer = ap (λ (l : List ℕ). length l) same in
    let (long, bytes) =
      ramfs_read-Reads f 0 (length buffer)
        (omega arith, omega arith, omega arith, λ i h. get_or_past f.bytes i 0 (omega arith)) in
    list_ext (ramfs_read f 0 (length buffer)) buffer (omega arith) (λ i below.
      bytes i below
      ∙ ap (λ (l : List ℕ). get_or l (0 + i) 0) same
      ∙ ap (λ k. get_or buffer k 0) (omega arith))
