-- ===== src/Utils/Laws.antt =====
-- kernel/utils.c: rounding to a power of two, and the overlap test.
use native.Mathlib.Nat.{pow-le-pow_right, one-le-pow, mod-lt, div-add-mod, mul_comm, mul-mod_left}
use my_os.Prelude.{
  ℕ, suc, ◌+◌, ◌-◌, ◌*◌, ◌/◌, ◌%◌, ◌^◌, max, ◌≤◌, ◌<◌, ◌≡◌, ◌↔◌, sym, ◌∙◌, ap, true, arith, add64,
  sub64, u64_mod, bit_and,
}
use my_os.Prelude.Bits.{bit_and-high}
use my_os.Utils.{not64, align_up_u64, align_down_u64, ranges_overlap}

-- The mask `~(align - 1)` at a power of two.
mask-pow : (k : ℕ) → k < 64 → not64 (sub64 (2 ^ k) 1) ≡ 2 ^ 64 - 2 ^ k
mask-pow k h =
    let pos = one-le-pow k 2 (omega arith) in
    let fits = pow-le-pow_right {n = 2} (omega arith) {i = suc k} {j = 64} h in
    let half = pow-le-pow_right {n = 2} (omega arith) {i = k} {j = 63} (omega arith) in omega arith

pub bit_and-mask :
    (k a : ℕ) → k < 64 → a < u64_mod → bit_and a (not64 (sub64 (2 ^ k) 1)) ≡ a / 2 ^ k * 2 ^ k
bit_and-mask k a h ha =
    let width : k + (64 - k) ≡ 64 = omega arith in
    let width' = ap (λ (t : ℕ). 2 ^ t) width in
    let high = bit_and-high k (64 - k) a (omega arith) in
    rw (mask-pow k h) (ap (λ p. bit_and a (p - 2 ^ k)) (sym width') ∙ high)

-- A multiple of `p` that is at most `p - 1` below `v`.
abbrev pub IsRoundDown : ℕ → ℕ → ℕ → Type 0
IsRoundDown p v r = (r % p ≡ 0) × (r ≤ v) × (v < r + p)

-- A multiple of `p` that is at most `p - 1` above `v`.
abbrev pub IsRoundUp : ℕ → ℕ → ℕ → Type 0
IsRoundUp p v r = (r % p ≡ 0) × (v ≤ r) × (r < v + p)

div-mul-IsRoundDown : (p v : ℕ) → 0 < p → IsRoundDown p v (v / p * p)
div-mul-IsRoundDown p v h =
    let parts = div-add-mod v p in
    let low = mod-lt v h in
    let order = mul_comm p (v / p) in (mul-mod_left (v / p) p, omega arith, omega arith)

-- For a power of two below 2 ^ 64, `align_down_u64` gives the largest multiple of it that is not
-- above the value.
pub align_down-IsRoundDown :
    (k v : ℕ) → k < 64 → v < u64_mod → IsRoundDown (2 ^ k) v (align_down_u64 v (2 ^ k))
unfolding align_down_u64
align_down-IsRoundDown k v h hv =
    rw (bit_and-mask k v h hv) (div-mul-IsRoundDown (2 ^ k) v (one-le-pow k 2 (omega arith)))

-- For a power of two below 2 ^ 64 and a value at least that far from the end of `u64`,
-- `align_up_u64` gives the least multiple of it that is not below the value.
pub align_up-IsRoundUp :
    (k v : ℕ) → k < 64 → v + 2 ^ k ≤ u64_mod → IsRoundUp (2 ^ k) v (align_up_u64 v (2 ^ k))
unfolding align_up_u64
align_up-IsRoundUp k v h hv =
    let pos = one-le-pow k 2 (omega arith) in
    let before : sub64 (add64 v (2 ^ k)) 1 ≡ v + 2 ^ k - 1 = omega arith in
    let (whole, below, near) = div-mul-IsRoundDown (2 ^ k) (v + 2 ^ k - 1) pos in
    rw (before, bit_and-mask k (v + 2 ^ k - 1) h (omega arith)) (whole, omega arith, omega arith)

-- `ranges_overlap` holds exactly if some address lies in both half-open ranges.
pub ranges_overlap_iff :
    (a_start a_end b_start b_end : ℕ)
    → (ranges_overlap a_start a_end b_start b_end ≡ true)
      ↔ ((x : ℕ) × (a_start ≤ x) × (x < a_end) × (b_start ≤ x) × (x < b_end))
unfolding ranges_overlap
ranges_overlap_iff a_start a_end b_start b_end = (there, back)
  where
    there :
        ranges_overlap a_start a_end b_start b_end ≡ true
        → (x : ℕ) × (a_start ≤ x) × (x < a_end) × (b_start ≤ x) × (x < b_end)
    there h = (max a_start b_start, ground arith, ground arith, ground arith, ground arith)

    back :
        (x : ℕ) × (a_start ≤ x) × (x < a_end) × (b_start ≤ x) × (x < b_end)
        → ranges_overlap a_start a_end b_start b_end ≡ true
    back (x, a, b, c, d) = ground arith
