-- ===== src/Initramfs/Octal.antt =====
-- kernel/initramfs.c: tar_parse_octal and align_tar_size.
use mathlib.Core.List.{append_assoc}
use my_os.Prelude.{
  ℕ, zero, suc, ◌+◌, ◌-◌, ◌*◌, ◌/◌, ◌%◌, ◌^◌, ◌≤◌, ◌<◌, ◌≡◌, refl, ◌∙◌, ap, false, ◌||◌, List, [],
  ◌∷◌, ◌++◌, length, arith, add64, u64_mod, ltb, ◌==◌, Bool-cases, inl, inr,
}
use my_os.Initramfs.{parse_octal, tar_parse_octal, align_tar_size}

-- A number in `w` octal digits.
unfoldable pub octal : ℕ → ℕ → List ℕ
octal zero n = []
octal (suc w) n = octal w (n / 8) ++ ((n % 8 + 48) ∷ [])

parse_octal-digit :
    (value d : ℕ) (field : List ℕ)
    → value * 8 + d < u64_mod
    → d < 8
    → parse_octal value ((d + 48) ∷ field) ≡ parse_octal (value * 8 + d) field
unfolding parse_octal
parse_octal-digit value d field small digit =
    let stop : ((d + 48 == 0) || (d + 48 == 32)) ≡ false = ground arith in
    let skip : (ltb (d + 48) 48 || ltb 55 (d + 48)) ≡ false = ground arith in
    let next : add64 (value * 8 % u64_mod) (d + 48 - 48) ≡ value * 8 + d = omega arith in
    rw (stop, skip, next) refl

parse_octal-octal :
    (w n : ℕ) (field : List ℕ)
    → n < 8 ^ w
    → n < u64_mod
    → parse_octal 0 (octal w n ++ field) ≡ parse_octal n field
unfolding octal
parse_octal-octal zero n field h small =
    ap (λ v. parse_octal v field) (let z : 0 ≡ n = omega arith in z)
parse_octal-octal (suc w) n field h small =
    ap (parse_octal 0) (append_assoc (octal w (n / 8)) ((n % 8 + 48) ∷ []) field)
    ∙ parse_octal-octal w (n / 8) ((n % 8 + 48) ∷ field) (omega arith) (omega arith)
    ∙ parse_octal-digit (n / 8) (n % 8) field (omega arith) (omega arith)
    ∙ ap (λ v. parse_octal v field) (let z : n / 8 * 8 + n % 8 ≡ n = omega arith in z)

-- The octal digits of a number, up to a NUL, are read back as the number.
pub tar_parse_octal-octal :
    (w n : ℕ) (rest : List ℕ)
    → n < 8 ^ w
    → n < u64_mod
    → tar_parse_octal (octal w n ++ (0 ∷ rest)) ≡ n
unfolding parse_octal
tar_parse_octal-octal w n rest h small = parse_octal-octal w n (0 ∷ rest) h small

-- The largest number that `n` further digits make of a value.
abbrev top : ℕ → ℕ → ℕ
top zero value = value
top (suc n) value = top n (value * 8 + 7)

top_mono : (n a b : ℕ) → a ≤ b → top n a ≤ top n b
top_mono zero a b h = h
top_mono (suc n) a b h = top_mono n (a * 8 + 7) (b * 8 + 7) (omega arith)

top-ge : (n a : ℕ) → a ≤ top n a
top-ge zero a = omega arith
top-ge (suc n) a = let later = top-ge n (a * 8 + 7) in omega arith

top-long : (m n a : ℕ) → m ≤ n → top m a ≤ top n a
top-long zero n a h = top-ge n a
top-long (suc m) zero a h = absurd (omega arith)
top-long (suc m) (suc n) a h = top-long m n (a * 8 + 7) (omega arith)

parse_octal-top : (field : List ℕ) (value : ℕ) → parse_octal value field ≤ top (length field) value
unfolding parse_octal
parse_octal-top [] value = omega arith
parse_octal-top (c ∷ field) value =
    let skipped = parse_octal-top field value in
    let next = add64 (value * 8 % u64_mod) (c - 48) in
    let rest = parse_octal-top field next in
    let here = top-ge (suc (length field)) value in
    let wider = top_mono (length field) value (value * 8 + 7) (omega arith) in
    elim (Bool-cases ((c == 0) || (c == 32))) [
      | inl stop ↦ rw stop here
      | inr go ↦ elim (Bool-cases (ltb c 48 || ltb 55 c)) [
        | inl skip ↦ rw (go, skip) (omega arith)
        | inr digit ↦
            let low : c ≤ 55 = ground arith in
            let fits = top_mono (length field) next (value * 8 + 7) (omega arith) in
            rw (go, digit) (omega arith)
      ]
    ]

-- A field of at most 12 characters gives less than 2 ^ 36.
pub tar_parse_octal-small : (field : List ℕ) → length field ≤ 12 → tar_parse_octal field < 2 ^ 36
tar_parse_octal-small field h =
    let below = parse_octal-top field 0 in
    let twelve = top-long (length field) 12 0 h in omega arith

pub align_tar_size-Bounds :
    (size : ℕ)
    → size < 2 ^ 63
    → (size ≤ align_tar_size size)
      × (align_tar_size size < size + 512)
      × (align_tar_size size % 512 ≡ 0)
unfolding align_tar_size
align_tar_size-Bounds size h = (omega arith, omega arith, omega arith)
