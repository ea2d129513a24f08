-- ===== src/Pmm/Ranges.antt =====
-- kernel/pmm.c: which frames pmm_mark_range_used and pmm_mark_range_free mark.
use my_os.Prelude.{
  ℕ, zero, suc, ◌+◌, ◌-◌, ◌*◌, ◌/◌, max, ◌≤◌, ◌<◌, ◌≡◌, inl, inr, true, false, List, arith, ltb,
  leb, ◌&&◌, if◌then◌else◌, Bool-cases, u64_mod,
}
use my_os.Utils.{align_up_u64, align_down_u64}
use my_os.Utils.Laws.{IsRoundDown, IsRoundUp, align_down-IsRoundDown, align_up-IsRoundUp}
use my_os.Pmm.Bitmap.{
  bitmap_test, IsBitmap, bitmap_test-set, bitmap_test-clear, bitmap_set-IsBitmap,
  bitmap_clear-IsBitmap,
}
use my_os.Pmm.{
  Pmm, page_size, clamp_frame, set_frames, clear_frames, mark_range_used, mark_range_free,
}

module _ (total : ℕ) where
  pub set_frames-IsBitmap :
      (n f : ℕ) (bytes : List ℕ)
      → f + n ≤ max f total
      → IsBitmap total bytes
      → IsBitmap total (set_frames bytes n f)
  unfolding set_frames
  set_frames-IsBitmap zero f bytes h b = b
  set_frames-IsBitmap (suc n) f bytes h b =
      set_frames-IsBitmap n (f + 1) _ (omega arith) (bitmap_set-IsBitmap b f (omega arith))

  bitmap_test-set_frames :
      (n f g : ℕ) (bytes : List ℕ)
      → f + n ≤ max f total
      → IsBitmap total bytes
      → bitmap_test (set_frames bytes n f) g
        ≡ (if leb f g && ltb g (f + n) then true else bitmap_test bytes g)
  unfolding set_frames
  bitmap_test-set_frames zero f g bytes h b = ground arith
  bitmap_test-set_frames (suc n) f g bytes h b =
      let here = bitmap_test-set b f (omega arith) g in
      let there = bitmap_set-IsBitmap b f (omega arith) in
      let rest = bitmap_test-set_frames n (f + 1) g _ (omega arith) there in
      rw (rest, here) (ground arith)

  pub clear_frames-IsBitmap :
      (n f : ℕ) (bytes : List ℕ)
      → f + n ≤ max f total
      → IsBitmap total bytes
      → IsBitmap total (clear_frames bytes n f)
  unfolding clear_frames
  clear_frames-IsBitmap zero f bytes h b = b
  clear_frames-IsBitmap (suc n) f bytes h b =
      clear_frames-IsBitmap n (f + 1) _ (omega arith) (bitmap_clear-IsBitmap b f (omega arith))

  bitmap_test-clear_frames :
      (n f g : ℕ) (bytes : List ℕ)
      → f + n ≤ max f total
      → IsBitmap total bytes
      → bitmap_test (clear_frames bytes n f) g
        ≡ (if leb f g && ltb g (f + n) then false else bitmap_test bytes g)
  unfolding clear_frames
  bitmap_test-clear_frames zero f g bytes h b = ground arith
  bitmap_test-clear_frames (suc n) f g bytes h b =
      let here = bitmap_test-clear b f (omega arith) g in
      let there = bitmap_clear-IsBitmap b f (omega arith) in
      let rest = bitmap_test-clear_frames n (f + 1) g _ (omega arith) there in
      rw (rest, here) (ground arith)

pub page_down : (v : ℕ) → v < u64_mod → IsRoundDown page_size v (align_down_u64 v page_size)
page_down v h = align_down-IsRoundDown 12 v (omega arith) h

pub page_up : (v : ℕ) → v + page_size ≤ u64_mod → IsRoundUp page_size v (align_up_u64 v page_size)
page_up v h = align_up-IsRoundUp 12 v (omega arith) h

module _ (p : Pmm) (b : IsBitmap p.total_frames p.bytes) (start end : ℕ) where
  pub mark_range_used-IsBitmap :
      IsBitmap (mark_range_used p start end).total_frames (mark_range_used p start end).bytes
  unfolding mark_range_used
  mark_range_used-IsBitmap =
      let first = align_down_u64 start page_size / page_size in
      let last = clamp_frame p (align_up_u64 end page_size / page_size) in
      let marked =
        set_frames-IsBitmap p.total_frames (last - first) first p.bytes (ground arith) b in
      elim (Bool-cases (leb (align_up_u64 end page_size) (align_down_u64 start page_size))) [
        | inl e ↦ rw e b
        | inr e ↦ rw e marked
      ]

  -- With a bitmap for all frames and a range that ends a page before the end of `u64`, marking a
  -- range used sets the bit of a frame below the limit exactly if its page has a byte in front of
  -- `end` and a byte at or behind `start`, and leaves it otherwise.
  pub mark_range_used-bits :
      (g : ℕ)
      → start < u64_mod
      → end + page_size ≤ u64_mod
      → g < p.total_frames
      → bitmap_test (mark_range_used p start end).bytes g ≡ (
          if ltb start (g * page_size + page_size) && ltb (g * page_size) end
          then true
          else bitmap_test p.bytes g)
  unfolding mark_range_used
  mark_range_used-bits g hs he inside =
      let low = page_down start hs in
      let high = page_up end he in
      let first = align_down_u64 start page_size / page_size in
      let last = clamp_frame p (align_up_u64 end page_size / page_size) in
      let marked =
        bitmap_test-set_frames p.total_frames (last - first) first g p.bytes (ground arith) b in
      ground arith

  pub mark_range_free-IsBitmap :
      IsBitmap (mark_range_free p start end).total_frames (mark_range_free p start end).bytes
  unfolding mark_range_free
  mark_range_free-IsBitmap =
      let first = align_up_u64 start page_size / page_size in
      let last = clamp_frame p (align_down_u64 end page_size / page_size) in
      let marked =
        clear_frames-IsBitmap p.total_frames (last - first) first p.bytes (ground arith) b in
      elim (Bool-cases (leb (align_down_u64 end page_size) (align_up_u64 start page_size))) [
        | inl e ↦ rw e b
        | inr e ↦ rw e marked
      ]

  -- With a bitmap for all frames and a range that starts a page before the end of `u64`, marking a
  -- range free clears the bit of a frame below the limit exactly if its whole
  -- page lies between `start` and `end`, and leaves it otherwise.
  pub mark_range_free-bits :
      (g : ℕ)
      → start + page_size ≤ u64_mod
      → end < u64_mod
      → g < p.total_frames
      → bitmap_test (mark_range_free p start end).bytes g ≡ (
          if leb start (g * page_size) && leb (g * page_size + page_size) end
          then false
          else bitmap_test p.bytes g)
  unfolding mark_range_free
  mark_range_free-bits g hs he inside =
      let low = page_up start hs in
      let high = page_down end he in
      let first = align_up_u64 start page_size / page_size in
      let last = clamp_frame p (align_down_u64 end page_size / page_size) in
      let marked =
        bitmap_test-clear_frames p.total_frames (last - first) first g p.bytes (ground arith) b in
      ground arith
