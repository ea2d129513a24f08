-- ===== src/Pmm/Count.antt =====
-- kernel/pmm.c: the number of clear bits, against which the free-frame counter is read, and the
-- search for the first one.
use my_os.Prelude.{
  ℕ, zero, suc, ◌+◌, ◌≤◌, ◌<◌, ◌≡◌, refl, ◌⊎◌, inl, inr, true, false, List, Option, none, some,
  arith, ◌==◌, if◌then◌else◌, Bool-cases, add64, u64_mod,
}
use my_os.Pmm.Bitmap.{
  bitmap_set, bitmap_clear, bitmap_test, IsBitmap, bitmap_test-set, bitmap_test-clear,
}
use my_os.Pmm.{first_clear, recount_loop}

-- How many of the `n` frames from `f` on are clear.
unfoldable pub count_clear : List ℕ → ℕ → ℕ → ℕ
count_clear bytes zero f = 0
count_clear bytes (suc n) f = (if bitmap_test bytes f then 0 else 1) + count_clear bytes n (f + 1)

pub count_clear-le : (bytes : List ℕ) (n f : ℕ) → count_clear bytes n f ≤ n
unfolding count_clear
count_clear-le bytes zero f = omega arith
count_clear-le bytes (suc n) f = ground (arith, count_clear-le bytes n (f + 1))

-- The counter of the loop does not wrap.
pub recount_loop-count :
    (bytes : List ℕ) (n f count : ℕ)
    → count + n < u64_mod
    → recount_loop bytes n f count ≡ count + count_clear bytes n f
unfolding recount_loop count_clear
recount_loop-count bytes zero f count h = omega arith
recount_loop-count bytes (suc n) f count h = elim (Bool-cases (bitmap_test bytes f)) [
  | inl e ↦ rw e (omega (arith, recount_loop-count bytes n (f + 1) count (omega arith)))
  | inr e ↦ rw e (omega (arith, recount_loop-count bytes n (f + 1) (add64 count 1) (omega arith)))
]

-- Where every frame is used, the count is zero.
pub count_clear-full :
    (bytes : List ℕ) (n f : ℕ)
    → ((g : ℕ) → f ≤ g → g < f + n → bitmap_test bytes g ≡ true)
    → count_clear bytes n f ≡ 0
unfolding count_clear
count_clear-full bytes zero f h = refl
count_clear-full bytes (suc n) f h =
    rw (h f (omega arith) (omega arith))
      (omega (arith, count_clear-full bytes n (f + 1) (λ g p q. h g (omega arith) (omega arith))))

-- The search meets its specification: the first clear frame, or none is clear.
abbrev pub IsFirst : List ℕ → ℕ → ℕ → Option ℕ → Type 0
IsFirst bytes n f none = (g : ℕ) → f ≤ g → g < f + n → bitmap_test bytes g ≡ true
IsFirst bytes n f (some r) =
    (f ≤ r)
    × (r < f + n)
    × (bitmap_test bytes r ≡ false)
    × ((g : ℕ) → f ≤ g → g < r → bitmap_test bytes g ≡ true)

later :
    (bytes : List ℕ) (n f : ℕ) (o : Option ℕ)
    → bitmap_test bytes f ≡ true
    → IsFirst bytes n (f + 1) o
    → IsFirst bytes (suc n) f o
later bytes n f none e h = λ g p q. elim (Bool-cases (f == g)) [
  | inl same ↦ ground arith
  | inr other ↦ h g (ground arith) (omega arith)
]
later bytes n f (some r) e (a, b, c, d) = (
  omega arith,
  omega arith,
  c,
  λ g p q. elim (Bool-cases (f == g)) [
    | inl same ↦ ground arith
    | inr other ↦ d g (ground arith) q
  ],
)

pub first_clear-IsFirst : (bytes : List ℕ) (n f : ℕ) → IsFirst bytes n f (first_clear bytes n f)
unfolding first_clear
first_clear-IsFirst bytes zero f = λ g p q. absurd (omega arith)
first_clear-IsFirst bytes (suc n) f = elim (Bool-cases (bitmap_test bytes f)) [
  | inl e ↦ rw e (later bytes n f _ e (first_clear-IsFirst bytes n (f + 1)))
  | inr e ↦ rw e (omega arith, omega arith, e, λ g p q. absurd (omega arith))
]

module _ {total : ℕ} {bytes : List ℕ} (b : IsBitmap total bytes) (r : ℕ) (inside : r < total) where
  -- A write to a frame outside the range does not change the count.
  count_clear-set_out :
      (n f : ℕ)
      → (r < f) ⊎ (f + n ≤ r)
      → count_clear (bitmap_set bytes r) n f ≡ count_clear bytes n f
  unfolding count_clear
  count_clear-set_out zero f h = refl
  count_clear-set_out (suc n) f h =
      ground (arith, bitmap_test-set b r inside f, count_clear-set_out n (f + 1))

  -- Setting a clear bit of the range takes one from the count, and the other way round.
  pub count_clear-set :
      (n f : ℕ)
      → f ≤ r
      → r < f + n
      → bitmap_test bytes r ≡ false
      → count_clear (bitmap_set bytes r) n f + 1 ≡ count_clear bytes n f
  unfolding count_clear
  count_clear-set zero f p q e = absurd (omega arith)
  count_clear-set (suc n) f p q e = ground (
    arith,
    bitmap_test-set b r inside f,
    count_clear-set_out n (f + 1),
    count_clear-set n (f + 1),
  )

  count_clear-clear_out :
      (n f : ℕ)
      → (r < f) ⊎ (f + n ≤ r)
      → count_clear (bitmap_clear bytes r) n f ≡ count_clear bytes n f
  unfolding count_clear
  count_clear-clear_out zero f h = refl
  count_clear-clear_out (suc n) f h =
      ground (arith, bitmap_test-clear b r inside f, count_clear-clear_out n (f + 1))

  pub count_clear-clear :
      (n f : ℕ)
      → f ≤ r
      → r < f + n
      → bitmap_test bytes r ≡ true
      → count_clear (bitmap_clear bytes r) n f ≡ count_clear bytes n f + 1
  unfolding count_clear
  count_clear-clear zero f p q e = absurd (omega arith)
  count_clear-clear (suc n) f p q e = ground (
    arith,
    bitmap_test-clear b r inside f,
    count_clear-clear_out n (f + 1),
    count_clear-clear n (f + 1),
  )
