-- ===== src/Prelude/Bits.antt =====
-- Laws of the bit operations at variables: the lowest digit, masks, and bytes by tables.
use Prim.Native.Nat.{
  ℕ, zero, suc, ◌+◌, ◌-◌, ◌*◌, ◌/◌, ◌%◌, ◌^◌, ◌≤◌, ◌<◌, min, max, bit_and, bit_or, digits,
  bit_and-bitwise, bit_or-bitwise,
}
use mathlib.Core.Path.{◌≡◌, refl, sym, ap, ◌∙◌}
use native.Mathlib.Nat.{
  zero-add, two-pow-succ, mul_comm, mod-one, one-le-pow, mod-lt, div-add-mod, mod-eq_of_lt,
  mul-add-mod_self_left, div-one, one-mul, div-div-eq-div-mul, div-lt_iff_lt-mul,
}
use native.Mathlib.Omega.{arith}

-- The digit recursion has the same value on any count that is large enough.
digits_count :
    (z : ℕ → ℕ) (f : ℕ → ℕ → ℕ) (n m a b : ℕ) → a ≤ n → a ≤ m → digits z f n a b ≡ digits z f m a b
digits_count z f zero zero zero b p q = refl
digits_count z f zero (suc m) zero b p q = refl
digits_count z f (suc n) zero zero b p q = refl
digits_count z f (suc n) (suc m) zero b p q = refl
digits_count z f zero m (suc a) b p q = absurd (omega arith)
digits_count z f (suc n) zero (suc a) b p q = absurd (omega arith)
digits_count z f (suc n) (suc m) (suc a) b p q =
    let half = digits_count z f n m (suc a / 2) (b / 2) (omega arith) (omega arith) in
    ap (λ k. k * 2 + f (suc a % 2) (b % 2)) half

bit_and-zero_left : (b : ℕ) → bit_and 0 b ≡ 0
bit_and-zero_left b = bit_and-bitwise 0 b

-- The lowest digit of a conjunction, and the rest.
pub bit_and-digit : (a b : ℕ) → bit_and a b ≡ bit_and (a / 2) (b / 2) * 2 + min (a % 2) (b % 2)
bit_and-digit zero b = omega (arith, bit_and-zero_left b, bit_and-zero_left (b / 2))
bit_and-digit (suc a) b =
    let whole = bit_and-bitwise (suc a) b in
    let half = bit_and-bitwise (suc a / 2) (b / 2) in
    let count =
      digits_count (λ _. zero) min a (suc a / 2) (suc a / 2) (b / 2) (omega arith) (omega arith) in
    omega arith

bit_and-zero_below : (n a : ℕ) → a ≤ n → bit_and a 0 ≡ 0
bit_and-zero_below n zero h = refl
bit_and-zero_below zero (suc a) h = absurd (omega arith)
bit_and-zero_below (suc n) (suc a) h =
    omega (arith, bit_and-digit (suc a) 0, bit_and-zero_below n (suc a / 2) (omega arith))

pub bit_and-zero_right : (a : ℕ) → bit_and a 0 ≡ 0
bit_and-zero_right a = bit_and-zero_below a a (omega arith)

-- `n` ones.
abbrev pub ones : ℕ → ℕ
ones zero = 0
ones (suc n) = 2 * ones n + 1

pub ones-pow : (n : ℕ) → ones n + 1 ≡ 2 ^ n
ones-pow zero = refl
ones-pow (suc n) = omega (arith, ones-pow n, two-pow-succ n)

-- A mask of low ones keeps the remainder.
pub bit_and-ones : (n a : ℕ) → bit_and a (ones n) ≡ a % 2 ^ n
bit_and-ones zero a = bit_and-zero_right a ∙ sym (mod-one a)
bit_and-ones (suc n) a =
    let half : (2 * ones n + 1) / 2 ≡ ones n = omega arith in
    let digit = bit_and-digit a (2 * ones n + 1) in
    let pos = one-le-pow n 2 (omega arith) in
    rw (digit, half, bit_and-ones n (a / 2), two-pow-succ n) (halves (2 ^ n) a pos)
  where
    halves : (p x : ℕ) → 1 ≤ p → x / 2 % p * 2 + min (x % 2) ((2 * ones n + 1) % 2) ≡ x % (p + p)
    halves p x h =
        let low = mod-lt (x / 2) h in
        let whole = div-add-mod (x / 2) p in
        let rest = x / 2 % p * 2 + x % 2 in
        let sum : (p + p) * (x / 2 / p) + rest ≡ x = omega arith in
        let small = mod-eq_of_lt {n = rest} {m = p + p} (omega arith) in
        let turn = mul-add-mod_self_left (p + p) (x / 2 / p) rest in
        let same = ap (λ k. k % (p + p)) sum in omega arith

-- A factor of 2 ^ k in the mask moves out.
pub bit_and-pow_mul : (k m a : ℕ) → bit_and a (2 ^ k * m) ≡ 2 ^ k * bit_and (a / 2 ^ k) m
bit_and-pow_mul zero m a = rw (div-one a, one-mul (bit_and a m)) (ap (bit_and a) (omega arith))
bit_and-pow_mul (suc k) m a =
    let digit = bit_and-digit a (2 ^ suc k * m) in
    let double : 2 ^ suc k * m ≡ (2 ^ k * m) * 2 =
      omega (arith, ap (λ p. p * m) (two-pow-succ k)) in
    let half : 2 ^ suc k * m / 2 ≡ 2 ^ k * m = omega arith in
    let deeper : a / 2 / 2 ^ k ≡ a / 2 ^ suc k =
      div-div-eq-div-mul a 2 (2 ^ k) ∙ ap (λ p. a / p) (omega (arith, two-pow-succ k)) in
    let inner = bit_and-pow_mul k m (a / 2) in
    let inner' = ap (λ q. bit_and (a / 2) q) half in
    let inner'' = ap (λ q. 2 ^ k * bit_and q m) deeper in
    omega (arith, ap (λ p. p * bit_and (a / 2 ^ suc k) m) (two-pow-succ k))

pow_add : (k n : ℕ) → 2 ^ (k + n) ≡ 2 ^ k * 2 ^ n
pow_add zero n = omega (arith, ap (λ (t : ℕ). 2 ^ t) (zero-add n))
pow_add (suc k) n =
    let next : suc k + n ≡ suc (k + n) = omega arith in
    let shift = ap (λ (t : ℕ). 2 ^ t) next in
    let scale = ap (λ p. p * 2 ^ n) (two-pow-succ k) in
    omega (arith, two-pow-succ (k + n), pow_add k n)

-- A mask that clears the low `k` of `k + n` digits rounds down to a multiple of 2 ^ k.
pub bit_and-high :
    (k n a : ℕ) → a < 2 ^ (k + n) → bit_and a (2 ^ (k + n) - 2 ^ k) ≡ a / 2 ^ k * 2 ^ k
bit_and-high k n a h =
    let pos = one-le-pow k 2 (omega arith) in
    let split = pow_add k n in
    let mask : 2 ^ (k + n) - 2 ^ k ≡ 2 ^ k * ones n =
      omega (arith, ap (λ p. 2 ^ k * p) (ones-pow n)) in
    let moved = bit_and-pow_mul k (ones n) a in
    let low = ap (λ q. 2 ^ k * q) (bit_and-ones n (a / 2 ^ k)) in
    let fits : a / 2 ^ k < 2 ^ n =
      (div-lt_iff_lt-mul pos).1 (omega (arith, mul_comm (2 ^ k) (2 ^ n))) in
    let same = ap (λ q. 2 ^ k * q) (mod-eq_of_lt fits) in
    rw mask (omega (arith, mul_comm (2 ^ k) (a / 2 ^ k)))

bit_or-zero_left : (b : ℕ) → bit_or 0 b ≡ b
bit_or-zero_left b = bit_or-bitwise 0 b

-- The lowest digit of a disjunction, and the rest.
pub bit_or-digit : (a b : ℕ) → bit_or a b ≡ bit_or (a / 2) (b / 2) * 2 + max (a % 2) (b % 2)
bit_or-digit zero b = omega (arith, bit_or-zero_left b, bit_or-zero_left (b / 2))
bit_or-digit (suc a) b =
    let whole = bit_or-bitwise (suc a) b in
    let half = bit_or-bitwise (suc a / 2) (b / 2) in
    let count =
      digits_count (λ c. c) max a (suc a / 2) (suc a / 2) (b / 2) (omega arith) (omega arith) in
    omega arith

bit_or-zero_below : (n a : ℕ) → a ≤ n → bit_or a 0 ≡ a
bit_or-zero_below n zero h = bit_or-zero_left 0
bit_or-zero_below zero (suc a) h = absurd (omega arith)
bit_or-zero_below (suc n) (suc a) h =
    omega (arith, bit_or-digit (suc a) 0, bit_or-zero_below n (suc a / 2) (omega arith))

pub bit_or-zero_right : (a : ℕ) → bit_or a 0 ≡ a
bit_or-zero_right a = bit_or-zero_below a a (omega arith)

pub bit_or-one : (a : ℕ) → bit_or a 1 ≡ a / 2 * 2 + 1
bit_or-one a = omega (arith, bit_or-digit a 1, bit_or-zero_right (a / 2))

pub bit_or-two : (a : ℕ) → bit_or a 2 ≡ a / 4 * 4 + 2 + a % 2
bit_or-two a = omega (arith, bit_or-digit a 2, bit_or-one (a / 2))

-- A number below 2 ^ k fills the low digits of a multiple of 2 ^ k.
pub bit_or-low : (k q f : ℕ) → f < 2 ^ k → bit_or (2 ^ k * q) f ≡ 2 ^ k * q + f
bit_or-low zero q f h =
    let none_left : f ≡ 0 = omega arith in
    rw none_left (bit_or-zero_right (2 ^ zero * q) ∙ omega arith)
bit_or-low (suc k) q f h =
    let double : 2 ^ suc k * q ≡ (2 ^ k * q) * 2 =
      omega (arith, ap (λ p. p * q) (two-pow-succ k)) in
    let half : 2 ^ suc k * q / 2 ≡ 2 ^ k * q = omega arith in
    let digit = bit_or-digit (2 ^ suc k * q) f in
    let deeper = bit_or-low k q (f / 2) (omega (arith, two-pow-succ k)) in
    let same = ap (λ x. bit_or x (f / 2)) half in omega arith
