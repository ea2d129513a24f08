-- ===== src/Initramfs/Paths.antt =====
-- kernel/initramfs.c: the paths that the buffers hold.
use my_os.Prelude.{
  ℕ, ◌+◌, ◌-◌, ◌≤◌, ◌<◌, ◌≢◌, List, [], ◌∷◌, Option, none, some, length, arith, ltb, leb, leb-false,
  ltb→lt, ==_false, ◌==◌, Bool-cases, Option-cases, List-cases, inl, inr, get_or, length-append,
  length-take_le,
}
use my_os.Vfs.{str_equal}
use my_os.Initramfs.{
  append_char, append_field, bytes_at, tar_name_size, tar_prefix_size, put_prefix, put_name,
  tar_get_raw_path, skip_slashes, skip_dot_slash, trim_slashes, normalize_path, str_copy_limit,
}

-- A path that a function gives has characters, and fits into its buffer together with its NUL.
abbrev Fits : ℕ → Option (List ℕ) → Type 0
Fits size none = Unit
Fits size (some path) = length path < size

append_char-Fits : (dst : List ℕ) (size c : ℕ) → Fits size (append_char dst size c)
unfolding append_char
append_char-Fits dst size c = elim (Bool-cases (leb size (length dst + 1))) [
  | inl full ↦ rw full tt
  | inr room ↦
      let fits = leb-false _ _ room in
      let longer = length-append dst (c ∷ []) in rw room (omega arith)
]

append_field-Fits :
    (field dst : List ℕ) (size : ℕ) → length dst < size → Fits size (append_field dst size field)
unfolding append_field
append_field-Fits [] dst size fits = fits
append_field-Fits (c ∷ field) dst size fits = elim (Bool-cases (c == 0)) [
  | inl end ↦ rw end fits
  | inr go ↦ elim (Option-cases (append_char dst size c)) [
    | inl full ↦ rw (go, full) tt
    | inr (longer, more) ↦
        let fits' = rw more at (append_char-Fits dst size c) in
        rw (go, more) (append_field-Fits field longer size fits')
  ]
]

-- The last character is no slash.
abbrev pub EndsNoSlash : List ℕ → Type 0
EndsNoSlash [] = Unit
EndsNoSlash (c ∷ []) = c ≢ 47
EndsNoSlash (c ∷ d ∷ rest) = EndsNoSlash (d ∷ rest)

trim_slashes-EndsNoSlash :
    (path : List ℕ) → EndsNoSlash (trim_slashes path) × (length (trim_slashes path) ≤ length path)
unfolding trim_slashes
trim_slashes-EndsNoSlash [] = (tt, omega arith)
trim_slashes-EndsNoSlash (c ∷ rest) =
    let (ends, le) = trim_slashes-EndsNoSlash rest in
    elim (List-cases (trim_slashes rest)) [
      | inl none_left ↦ elim (Bool-cases (c == 47)) [
        | inl slash ↦ rw (none_left, slash) (tt, omega arith)
        | inr other ↦ rw (none_left, other) (==_false c 47 other, omega arith)
      ]
      | inr (d, trimmed, e) ↦
          let ends' = rw e at ends in let le' = rw e at le in rw e (ends', omega arith)
    ]

-- What normalize_path leaves in the buffer.
abbrev pub Normal : ℕ → Option (List ℕ) → Type 0
Normal size none = Unit
Normal size (some path) = (0 < length path) × (length path < size) × EndsNoSlash path

pub normalize_path-Normal :
    (raw : List ℕ) (size : ℕ) → 0 < size → Normal size (normalize_path raw size)
unfolding normalize_path
normalize_path-Normal raw size h =
    let p = skip_dot_slash (skip_slashes raw) in
    let (ends, le) = trim_slashes-EndsNoSlash (str_copy_limit p size) in
    let copied = length-take_le (size - 1) p in
    elim (Bool-cases (str_equal p (46 ∷ []))) [
      | inl dot ↦ rw dot tt
      | inr path ↦ elim (Bool-cases (ltb 0 (length (trim_slashes (str_copy_limit p size))))) [
        | inl some_left ↦ rw (path, some_left) (ltb→lt _ _ some_left, omega arith, ends)
        | inr none_left ↦ rw (path, none_left) tt
      ]
    ]

abbrev pub IsRawPath : ℕ → Option (List ℕ) → Type 0
IsRawPath size none = Unit
IsRawPath size (some path) = (0 < length path) × (length path < size)

put_name-IsRawPath :
    (name dir : List ℕ) (size : ℕ) → length dir < size → IsRawPath size (put_name name size dir)
unfolding put_name
put_name-IsRawPath name dir size fits = elim (Option-cases (append_field dir size name)) [
  | inl full ↦ rw (full, IsRawPath) tt
  | inr (path, e) ↦
      let fits' = rw e at (append_field-Fits name dir size fits) in
      elim (Bool-cases (ltb 0 (length path))) [
        | inl some_left ↦ rw (e, some_left, IsRawPath) (ltb→lt _ _ some_left, fits')
        | inr none_left ↦ rw (e, none_left, IsRawPath) tt
      ]
]

put_prefix-Fits : (prefix : List ℕ) (size : ℕ) → 0 < size → Fits size (put_prefix prefix size)
unfolding put_prefix
put_prefix-Fits prefix size h = elim (Bool-cases (get_or prefix 0 0 == 0)) [
  | inl no_prefix ↦ rw no_prefix h
  | inr has_prefix ↦ elim (Option-cases (append_field [] size prefix)) [
    | inl full ↦ rw (has_prefix, full) tt
    | inr (dir, e) ↦ rw (has_prefix, e) (append_char-Fits dir size 47)
  ]
]

pub tar_get_raw_path-IsRawPath :
    (archive : List ℕ) (header size : ℕ)
    → 0 < size
    → IsRawPath size (tar_get_raw_path archive header size)
unfolding tar_get_raw_path
tar_get_raw_path-IsRawPath archive header size h =
    let prefix = bytes_at archive (header + 345) tar_prefix_size in
    elim (Option-cases (put_prefix prefix size)) [
      | inl full ↦ rw (full, IsRawPath) tt
      | inr (dir, e) ↦
          let fits = rw e at (put_prefix-Fits prefix size h) in
          rw (e, IsRawPath)
            (put_name-IsRawPath (bytes_at archive header tar_name_size) dir size fits)
    ]

-- For any bytes in the header, the path that tar_get_raw_path stores has at least one character and
-- fits into a buffer of `size` bytes together with its NUL; and what normalize_path makes of any
-- path has at least one character, fits as well, and does not end with a slash.
pub paths-Fit :
    (archive raw : List ℕ) (header size : ℕ)
    → 0 < size
    → IsRawPath size (tar_get_raw_path archive header size) × Normal size (normalize_path raw size)
paths-Fit archive raw header size h =
    (tar_get_raw_path-IsRawPath archive header size h, normalize_path-Normal raw size h)
