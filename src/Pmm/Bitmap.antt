-- ===== src/Pmm/Bitmap.antt =====
-- kernel/pmm.c: the bitmap, one bit for each frame, and the three accesses to it.
use my_os.Prelude.{
  ℕ, ◌-◌, ◌*◌, ◌/◌, ◌%◌, ◌^◌, ◌≤◌, ◌<◌, ◌≡◌, refl, inl, inr, Bool, true, false, not, List, arith,
  u32_mod, bit_and, bit_or, ◌==◌, ==→eq, ==_false, if◌then◌else◌, Bool-cases, all_below,
  all_below-apply, agree, agree→eq, length, get_or, set, length-set, get_or-set_self, get_or-set_ne,
  set-set, set-get_or,
}

-- `(u8)(1u << bit_index)`.
abbrev pub bit : ℕ → ℕ
bit i = 2 ^ i % 256

-- `(u8)~(1u << bit_index)`.
abbrev bit_complement : ℕ → ℕ
bit_complement i = (u32_mod - 1 - 2 ^ i) % 256

-- The accesses inside one byte.
abbrev set_in : ℕ → ℕ → ℕ
set_in b i = bit_or b (bit i) % 256

abbrev clear_in : ℕ → ℕ → ℕ
clear_in b i = bit_and b (bit_complement i) % 256

abbrev pub test_in : ℕ → ℕ → Bool
test_in b i = not (bit_and b (bit i) == 0)

-- A write past the end of the bitmap changes nothing, and a read there gives a clear bit;
-- `IsBitmap` rules both out.
unfoldable pub bitmap_set : List ℕ → ℕ → List ℕ
bitmap_set bytes frame_index =
    let byte_index = frame_index / 8 in
    let bit_index = frame_index % 8 in
    set bytes byte_index (set_in (get_or bytes byte_index 0) bit_index)

unfoldable pub bitmap_clear : List ℕ → ℕ → List ℕ
bitmap_clear bytes frame_index =
    let byte_index = frame_index / 8 in
    let bit_index = frame_index % 8 in
    set bytes byte_index (clear_in (get_or bytes byte_index 0) bit_index)

unfoldable pub bitmap_test : List ℕ → ℕ → Bool
bitmap_test bytes frame_index =
    let byte_index = frame_index / 8 in
    let bit_index = frame_index % 8 in test_in (get_or bytes byte_index 0) bit_index

-- What a byte answers after a write to one of its bits, for every byte and every pair of bits.
set_table :
    all_below 256 (λ b. all_below 8 (λ i.
      all_below 8 (λ j. agree (test_in (set_in b i) j) (if i == j then true else test_in b j))))
    ≡ true
unfolding all_below
set_table = refl

clear_table :
    all_below 256 (λ b. all_below 8 (λ i.
      all_below 8 (λ j. agree (test_in (clear_in b i) j) (if i == j then false else test_in b j))))
    ≡ true
unfolding all_below
clear_table = refl

-- Clearing a bit undoes setting it, where it was clear.
undo_table :
    all_below 256
      (λ b. all_below 8 (λ i. if test_in b i then true else clear_in (set_in b i) i == b))
    ≡ true
unfolding all_below
undo_table = refl

-- The bitmap has a bit for each of `n` frames, and its entries are bytes.
pub record IsBitmap (n : ℕ) (bytes : List ℕ) : Type 0 where
  pub covers : n ≤ 8 * length bytes
  pub are_bytes : (i : ℕ) → get_or bytes i 0 < 256

get_or-set_any :
    (bytes : List ℕ) (i j v : ℕ)
    → i < length bytes
    → get_or (set bytes i v) j 0 ≡ (if i == j then v else get_or bytes j 0)
get_or-set_any bytes i j v h = elim (Bool-cases (i == j)) [
  | inl e ↦ rw (e, ← ==→eq i j e) (get_or-set_self bytes i v 0 h)
  | inr e ↦ rw e (get_or-set_ne bytes i j v 0 (==_false i j e))
]

set-IsBitmap :
    (n : ℕ) (bytes : List ℕ) (i v : ℕ)
    → i < length bytes
    → v < 256
    → IsBitmap n bytes
    → IsBitmap n (set bytes i v)
set-IsBitmap n bytes i v h hv b = record {
  covers = omega (arith, length-set bytes i v, b.covers);
  are_bytes = λ j. rw (get_or-set_any bytes i j v h) (ground (arith, b.are_bytes j));
}

module _ {n : ℕ} {bytes : List ℕ} (b : IsBitmap n bytes) (f : ℕ) (inside : f < n) where
  in_range : f / 8 < length bytes
  in_range = omega (arith, b.covers)

  pub bitmap_set-IsBitmap : IsBitmap n (bitmap_set bytes f)
  unfolding bitmap_set
  bitmap_set-IsBitmap = set-IsBitmap n bytes (f / 8) _ in_range (omega arith) b

  pub bitmap_clear-IsBitmap : IsBitmap n (bitmap_clear bytes f)
  unfolding bitmap_clear
  bitmap_clear-IsBitmap = set-IsBitmap n bytes (f / 8) _ in_range (omega arith) b

  -- After a write to frame `f`, a test of any frame sees the new bit of `f` and the old bits of
  -- all others.
  module _ (g : ℕ) where
    table_entry :
        (p : ℕ → ℕ → ℕ → Bool)
        → all_below 256 (λ x. all_below 8 (λ i. all_below 8 (λ j. p x i j))) ≡ true
        → p (get_or bytes (f / 8) 0) (f % 8) (g % 8) ≡ true
    table_entry p table =
        let x = get_or bytes (f / 8) 0 in
        let bytes_ok = all_below-apply 256 _ x table (b.are_bytes (f / 8)) in
        let bits_ok = all_below-apply 8 _ (f % 8) bytes_ok (omega arith) in
        all_below-apply 8 _ (g % 8) bits_ok (omega arith)

    test_after :
        (v : ℕ) (bit_value : Bool)
        → test_in v (g % 8)
          ≡ (if f % 8 == g % 8 then bit_value else test_in (get_or bytes (f / 8) 0) (g % 8))
        → test_in (get_or (set bytes (f / 8) v) (g / 8) 0) (g % 8)
          ≡ (if f == g then bit_value else test_in (get_or bytes (g / 8) 0) (g % 8))
    test_after v bit_value h =
        rw (get_or-set_any bytes (f / 8) (g / 8) v in_range) (elim (Bool-cases (f / 8 == g / 8)) [
          | inl e ↦ let same = ==→eq (f / 8) (g / 8) e in rw (e, h, same) (ground arith)
          | inr e ↦ let other = ==_false (f / 8) (g / 8) e in rw e (ground arith)
        ])

    pub bitmap_test-set :
        bitmap_test (bitmap_set bytes f) g ≡ (if f == g then true else bitmap_test bytes g)
    unfolding bitmap_test bitmap_set
    bitmap_test-set = test_after _ true (agree→eq _ _ (table_entry _ set_table))

    pub bitmap_test-clear :
        bitmap_test (bitmap_clear bytes f) g ≡ (if f == g then false else bitmap_test bytes g)
    unfolding bitmap_test bitmap_clear
    bitmap_test-clear = test_after _ false (agree→eq _ _ (table_entry _ clear_table))

  -- Clearing a bit that was clear before it was set gives the old bitmap back.
  pub bitmap_clear-set : bitmap_test bytes f ≡ false → bitmap_clear (bitmap_set bytes f) f ≡ bytes
  unfolding bitmap_clear bitmap_set bitmap_test
  bitmap_clear-set clear =
      let x = get_or bytes (f / 8) 0 in
      let bytes_ok = all_below-apply 256 _ x undo_table (b.are_bytes (f / 8)) in
      let entry = all_below-apply 8 _ (f % 8) bytes_ok (omega arith) in
      let undone : clear_in (set_in x (f % 8)) (f % 8) ≡ x = ground arith in
      rw
        (set-set bytes (f / 8), get_or-set_self bytes (f / 8) (set_in x (f % 8)) 0 in_range, undone)
        (set-get_or bytes (f / 8) 0)
