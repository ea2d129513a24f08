-- ===== src/Print/Decimal.antt =====
-- kernel/print.c: print_dec64.
use my_os.Prelude.{
  ℕ, zero, suc, ◌+◌, ◌-◌, ◌*◌, ◌/◌, ◌%◌, ◌^◌, ◌≤◌, ◌<◌, ◌≡◌, refl, ap, ◌∙◌, List, [], ◌∷◌, some,
  length, arith, u64_mod, ◌==◌, ==→eq, Bool-cases, inl, inr,
}
use my_os.Print.{dec_digits, dec64}

-- The number that decimal digits stand for, behind the digits of a number.
unfoldable pub decimal : ℕ → List ℕ → ℕ
decimal value [] = value
decimal value (c ∷ digits) = decimal (value * 10 + (c - 48)) digits

dec_digits-decimal :
    (n fuel value : ℕ) (buffer : List ℕ)
    → n < fuel
    → value < 10 ^ n
    → (digits : List ℕ) × (dec_digits fuel value buffer ≡ some digits)
      × (length digits ≤ length buffer + n)
      × (decimal 0 digits ≡ decimal value buffer)
unfolding dec_digits decimal
dec_digits-decimal n zero value buffer h small = absurd (omega arith)
dec_digits-decimal zero (suc fuel) value buffer h small =
    let z : value ≡ 0 = omega arith in (buffer, rw z refl, omega arith, rw z refl)
dec_digits-decimal (suc n) (suc fuel) value buffer h small = elim (Bool-cases (value == 0)) [
  | inl is_zero ↦
      let z : value ≡ 0 = ==→eq value 0 is_zero in (buffer, rw is_zero refl, omega arith, rw z refl)
  | inr more ↦
      let (digits, e, len, same) =
        dec_digits-decimal n fuel (value / 10) ((48 + value % 10) ∷ buffer) (omega arith)
          (omega arith) in
      let split : value / 10 * 10 + (48 + value % 10 - 48) ≡ value = omega arith in
      (digits, rw more e, omega arith, same ∙ ap (λ v. decimal v buffer) split)
]

-- For a 64-bit number, 20 rounds of the first loop of print_dec64 and the test that ends it are
-- enough; it prints at most 20 characters, fewer than its buffer holds, and read as decimal
-- digits they give the number.
pub print_dec64-decimal :
    (value fuel : ℕ)
    → value < u64_mod
    → 20 < fuel
    → (digits : List ℕ) × (dec64 fuel value ≡ some digits)
      × (length digits ≤ 20)
      × (decimal 0 digits ≡ value)
unfolding dec64 decimal
print_dec64-decimal value fuel small enough = elim (Bool-cases (value == 0)) [
  | inl is_zero ↦
      let z = ==→eq value 0 is_zero in (48 ∷ [], rw is_zero refl, omega arith, omega arith)
  | inr more ↦
      let (digits, e, len, same) = dec_digits-decimal 20 fuel value [] enough (omega arith) in
      (digits, rw more e, len, same)
]
