-- ===== src/Pmm/Alloc.antt =====
-- kernel/pmm.c: pmm_alloc_frame, what it hands out and how pmm_free_frame relates to it.
use my_os.Prelude.{
  ℕ, ◌+◌, ◌*◌, ◌/◌, ◌^◌, ◌≤◌, ◌<◌, ◌≡◌, refl, ◌≢◌, ◌⊎◌, inl, inr, true, false, Option, none, some,
  arith, ◌==◌, if◌then◌else◌,
}
use my_os.Pmm.Bitmap.{
  bitmap_set, bitmap_test, IsBitmap, bitmap_test-set, bitmap_set-IsBitmap, bitmap_clear-set,
}
use my_os.Pmm.Count.{
  count_clear, count_clear-le, first_clear-IsFirst, IsFirst, count_clear-set, count_clear-full,
  recount_loop-count,
}
use my_os.Pmm.{
  Pmm, page_size, first_clear, take_frame, alloc_frame, free_frame, recount_free_frames,
}

-- The bitmap covers every frame, the frames lie in the address space, and the counter is the
-- number of clear bits.
pub record IsValid (p : Pmm) : Type 0 where
  pub bits : IsBitmap p.total_frames p.bytes
  pub addressable : p.total_frames ≤ 2 ^ 52
  pub counted : p.free_frames ≡ count_clear p.bytes p.total_frames 0

-- `pmm_recount_free_frames` makes the counter exact, whatever it was before.
pub recount_free_frames-IsValid :
    (p : Pmm)
    → IsBitmap p.total_frames p.bytes
    → p.total_frames ≤ 2 ^ 52
    → IsValid (recount_free_frames p)
unfolding recount_free_frames
recount_free_frames-IsValid p b h = record {
  bits = b;
  addressable = h;
  counted = omega (arith, recount_loop-count p.bytes p.total_frames 0 0 (omega arith));
}

-- The two outcomes of an allocation: no frame is clear, and nothing changes; or the first clear
-- frame is handed out, its bit alone is set, and the counter falls by one.
abbrev pub Allocates : Pmm → ℕ × Pmm → Type 0
Allocates p (addr, q) =
    ((p.free_frames ≡ 0)
      × (addr ≡ 0)
      × (q ≡ p)
      × ((g : ℕ) → g < p.total_frames → bitmap_test p.bytes g ≡ true))
    ⊎ ((f : ℕ) × (f < p.total_frames)
        × (bitmap_test p.bytes f ≡ false)
        × ((g : ℕ) → g < f → bitmap_test p.bytes g ≡ true)
        × (addr ≡ f * page_size)
        × ((g : ℕ) → bitmap_test q.bytes g ≡ (if f == g then true else bitmap_test p.bytes g))
        × (q.free_frames + 1 ≡ p.free_frames))

module _ {p : Pmm} (v : IsValid p) (f : ℕ) (inside : f < p.total_frames) where
  module _ (clear : bitmap_test p.bytes f ≡ false) where
    counts : count_clear (bitmap_set p.bytes f) p.total_frames 0 + 1 ≡ p.free_frames
    counts = omega (
      arith,
      count_clear-set v.bits f inside p.total_frames 0 (omega arith) (omega arith) clear,
      v.counted,
    )

    pub take_frame-IsValid : IsValid (take_frame p f).1
    unfolding take_frame
    take_frame-IsValid = record {
      bits = bitmap_set-IsBitmap v.bits f inside;
      addressable = v.addressable;
      counted = ground (arith, counts);
    }

    pub take_frame-free_frames : (take_frame p f).1.free_frames + 1 ≡ p.free_frames
    unfolding take_frame
    take_frame-free_frames = ground (arith, counts)

    pub take_frame-bits :
        (g : ℕ)
        → bitmap_test (take_frame p f).1.bytes g ≡ (if f == g then true else bitmap_test p.bytes g)
    unfolding take_frame
    take_frame-bits g = bitmap_test-set v.bits f inside g

    pub take_frame-address : (take_frame p f).0 ≡ f * page_size
    unfolding take_frame
    take_frame-address = omega (arith, v.addressable)

    pub take_frame-free : p.bitmap ≢ 0 → free_frame (take_frame p f).1 (f * page_size) ≡ p
    unfolding take_frame free_frame
    take_frame-free mapped =
        let index : f * page_size / page_size ≡ f = omega arith in
        let set_now = bitmap_test-set v.bits f inside f in
        let back = bitmap_clear-set v.bits f inside clear in
        let few = count_clear-le p.bytes p.total_frames 0 in
        rw index (ground (arith, set_now, back, counts, v.addressable, v.counted, few))

module _ (p : Pmm) (mapped : p.bitmap ≢ 0) where
  alloc_frame-none : first_clear p.bytes p.total_frames 0 ≡ none → alloc_frame p ≡ (0, p)
  unfolding alloc_frame
  alloc_frame-none e = ground arith

  alloc_frame-some :
      (f : ℕ) → first_clear p.bytes p.total_frames 0 ≡ some f → alloc_frame p ≡ take_frame p f
  unfolding alloc_frame
  alloc_frame-some f e = ground arith

-- An allocation moves neither the bitmap nor the end of the frames.
pub alloc_frame_fixed :
    (p : Pmm)
    → ((alloc_frame p).1.total_frames ≡ p.total_frames) × ((alloc_frame p).1.bitmap ≡ p.bitmap)
unfolding alloc_frame
alloc_frame_fixed p = ground arith

module _ {p : Pmm} (v : IsValid p) (mapped : p.bitmap ≢ 0) where
  -- The search result decides which way the allocation goes.
  pub allocation :
      ((p.free_frames ≡ 0)
        × (alloc_frame p ≡ (0, p))
        × ((g : ℕ) → g < p.total_frames → bitmap_test p.bytes g ≡ true))
      ⊎ ((f : ℕ) × (f < p.total_frames)
          × (bitmap_test p.bytes f ≡ false)
          × ((g : ℕ) → g < f → bitmap_test p.bytes g ≡ true)
          × (alloc_frame p ≡ take_frame p f))
  allocation =
      go (first_clear p.bytes p.total_frames 0) refl (first_clear-IsFirst p.bytes p.total_frames 0)
    where
      go :
          (o : Option ℕ)
          → first_clear p.bytes p.total_frames 0 ≡ o
          → IsFirst p.bytes p.total_frames 0 o
          → ((p.free_frames ≡ 0)
              × (alloc_frame p ≡ (0, p))
              × ((g : ℕ) → g < p.total_frames → bitmap_test p.bytes g ≡ true))
            ⊎ ((f : ℕ) × (f < p.total_frames)
                × (bitmap_test p.bytes f ≡ false)
                × ((g : ℕ) → g < f → bitmap_test p.bytes g ≡ true)
                × (alloc_frame p ≡ take_frame p f))
      go none e full = inl (
        omega (arith, v.counted, count_clear-full p.bytes p.total_frames 0 full),
        alloc_frame-none p mapped e,
        λ g h. full g (omega arith) (omega arith),
      )
      go (some f) e (low, inside, clear, first) =
          inr (f, omega arith, clear, λ g h. first g (omega arith) h, alloc_frame-some p mapped f e)

  -- On a valid allocator with a bitmap, `pmm_alloc_frame` either returns 0 and changes nothing, as
  -- no frame is free, or takes the first free frame: it returns its address, sets its bit and no
  -- other, and lowers the counter by one.
  pub alloc_frame-Allocates : Allocates p (alloc_frame p)
  alloc_frame-Allocates = elim allocation [
    | inl (empty, e, full) ↦ rw e (inl (empty, refl, refl, full))
    | inr (f, inside, clear, first, e) ↦ rw e (
        inr (
          f,
          inside,
          clear,
          first,
          take_frame-address v f inside clear,
          take_frame-bits v f inside clear,
          take_frame-free_frames v f inside clear,
        ))
  ]

  -- `pmm_alloc_frame` keeps a valid allocator with a bitmap valid.
  pub alloc_frame-IsValid : IsValid (alloc_frame p).1
  alloc_frame-IsValid = elim allocation [
    | inl (empty, e, full) ↦ rw e v
    | inr (f, inside, clear, first, e) ↦ rw e (take_frame-IsValid v f inside clear)
  ]

  -- On a valid allocator with a bitmap and a free frame, freeing what `pmm_alloc_frame` returns
  -- restores the allocator.
  pub free_frame-alloc_frame :
      0 < p.free_frames → free_frame (alloc_frame p).1 (alloc_frame p).0 ≡ p
  free_frame-alloc_frame some_left = elim allocation [
    | inl (empty, e, full) ↦ absurd (omega arith)
    | inr (f, inside, clear, first, e) ↦
        rw (e, take_frame-address v f inside clear) (take_frame-free v f inside clear mapped)
  ]
