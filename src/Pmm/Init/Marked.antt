-- ===== src/Pmm/Init/Marked.antt =====
-- kernel/pmm.c, pmm_init: what is known of the bitmap while the ranges are marked one by one.
use my_os.Prelude.{
  ℕ, ◌+◌, ◌*◌, ◌≤◌, ◌<◌, ◌≡◌, refl, ◌∙◌, ◌⊎◌, inl, inr, false, List, [], ◌∷◌, arith, ◌==◌, ==→eq,
  Bool-cases, u64_mod, All, Any,
}
use my_os.Pmm.{
  Pmm, page_size, min_usable_addr, Reserved, MmapEntry, usable_start, usable_end, mark_range_used,
  mark_range_free, mark_available_regions_free,
}
use my_os.Pmm.Bitmap.{bitmap_test, IsBitmap}
use my_os.Pmm.Ranges.{
  mark_range_used-IsBitmap, mark_range_used-bits, mark_range_free-IsBitmap, mark_range_free-bits,
}
use my_os.Pmm.Region.{Fits, usable_bounds}

-- The page of frame `g` lies inside the usable entry, above the first megabyte.
abbrev pub PageIn : ℕ → MmapEntry → Type 0
PageIn g entry =
    (entry.kind ≡ 1)
    × (entry.addr ≤ g * page_size)
    × (min_usable_addr ≤ g * page_size)
    × (g * page_size + page_size ≤ entry.addr + entry.len)

total_frames-mark_free :
    (p : Pmm) (start end : ℕ) → (mark_range_free p start end).total_frames ≡ p.total_frames
unfolding mark_range_free
total_frames-mark_free p start end = ground arith

total_frames-mark_used :
    (p : Pmm) (start end : ℕ) → (mark_range_used p start end).total_frames ≡ p.total_frames
unfolding mark_range_used
total_frames-mark_used p start end = ground arith

-- What is known of an allocator while the ranges are marked: the bitmap is in order, has `total`
-- frames, and a frame of it is clear only if `Q` holds of it.
pub record Marked (total : ℕ) (Q : ℕ → Type 0) (p : Pmm) : Type 0 where
  pub size : p.total_frames ≡ total
  pub bits : IsBitmap p.total_frames p.bytes
  pub clear_only : (g : ℕ) → g < total → bitmap_test p.bytes g ≡ false → Q g

-- The page of frame `g` has no byte in the range.
abbrev pub Apart : Reserved → ℕ → Type 0
Apart r g = (g * page_size + page_size ≤ r.start) ⊎ (r.end ≤ g * page_size)

pub mark_used-Marked :
    (total : ℕ) (Q : ℕ → Type 0) (p : Pmm) (r : Reserved)
    → r.start < u64_mod
    → r.end + page_size ≤ u64_mod
    → Marked total Q p
    → Marked total (λ g. Q g × Apart r g) (mark_range_used p r.start r.end)
mark_used-Marked total Q p r hs he m = record {
  size = omega (arith, total_frames-mark_used p r.start r.end, m.size);
  bits = mark_range_used-IsBitmap p m.bits r.start r.end;
  clear_only = λ g inside clear.
      let after = mark_range_used-bits p m.bits r.start r.end g hs he (omega (arith, m.size)) in
      let old : bitmap_test p.bytes g ≡ false = ground arith in
      (m.clear_only g inside old, ground arith);
}

mark_free-Marked :
    (total : ℕ) (Q : ℕ → Type 0) (p : Pmm) (entry : MmapEntry)
    → Fits entry
    → entry.kind ≡ 1
    → Marked total Q p
    → Marked total
        (λ g. PageIn g entry ⊎ Q g)
        (mark_range_free p (usable_start entry) (usable_end entry))
mark_free-Marked total Q p entry fits usable m =
    let (a, b, c, d) = usable_bounds entry fits in
    record {
      size =
          omega (arith, total_frames-mark_free p (usable_start entry) (usable_end entry), m.size);
      bits = mark_range_free-IsBitmap p m.bits (usable_start entry) (usable_end entry);
      clear_only = λ g inside clear.
          let after =
            mark_range_free-bits p m.bits (usable_start entry) (usable_end entry) g (omega arith)
              (omega arith) (omega (arith, m.size)) in
          elim (Bool-cases (bitmap_test p.bytes g)) [
            | inr old ↦ inr (m.clear_only g inside old)
            | inl used ↦ inl (usable, ground arith, ground arith, ground arith)
          ];
    }

pub Marked-mono :
    (total : ℕ) (Q R : ℕ → Type 0) (p : Pmm)
    → ((g : ℕ) → Q g → R g)
    → Marked total Q p
    → Marked total R p
Marked-mono total Q R p h m = record {
  size = m.size;
  bits = m.bits;
  clear_only = λ g inside clear. h g (m.clear_only g inside clear);
}

pub mark_available-Marked :
    (total : ℕ) (Q : ℕ → Type 0) (p : Pmm) (entries : List MmapEntry)
    → All Fits entries
    → Marked total Q p
    → Marked total (λ g. Any (PageIn g) entries ⊎ Q g) (mark_available_regions_free p entries)
unfolding mark_available_regions_free
mark_available-Marked total Q p [] fits m = Marked-mono total Q _ p (λ g h. inr h) m
mark_available-Marked total Q p (entry ∷ entries) fits m = elim (Bool-cases (entry.kind == 1)) [
  | inr other ↦ rw other (
      Marked-mono total _ _ _ (λ g. elim [ inl h ↦ inl (inr h) | inr h ↦ inr h ])
        (mark_available-Marked total Q p entries fits.1 m))
  | inl usable ↦
      let first = mark_free-Marked total Q p entry fits.0 (==→eq entry.kind 1 usable) m in
      rw usable (
        Marked-mono total _ _ _
          (λ g. elim [ inl h ↦ inl (inr h) | inr (inl h) ↦ inl (inl h) | inr (inr h) ↦ inr h ])
          (mark_available-Marked total (λ g. PageIn g entry ⊎ Q g) _ entries fits.1 first))
]

bitmap-mark_free : (p : Pmm) (start end : ℕ) → (mark_range_free p start end).bitmap ≡ p.bitmap
unfolding mark_range_free
bitmap-mark_free p start end = ground arith

pub bitmap-mark_used : (p : Pmm) (start end : ℕ) → (mark_range_used p start end).bitmap ≡ p.bitmap
unfolding mark_range_used
bitmap-mark_used p start end = ground arith

pub bitmap-mark_available :
    (p : Pmm) (entries : List MmapEntry) → (mark_available_regions_free p entries).bitmap ≡ p.bitmap
unfolding mark_available_regions_free
bitmap-mark_available p [] = refl
bitmap-mark_available p (entry ∷ entries) = elim (Bool-cases (entry.kind == 1)) [
  | inl e ↦
      rw (e, mark_available_regions_free)
        (bitmap-mark_available (mark_range_free p (usable_start entry) (usable_end entry)) entries
          ∙ bitmap-mark_free p _ _)
  | inr e ↦ rw (e, mark_available_regions_free) (bitmap-mark_available p entries)
]
