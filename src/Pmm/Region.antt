-- ===== src/Pmm/Region.antt =====
-- kernel/pmm.c: pmm_find_free_region, the search of a place for the bitmap.
use my_os.Prelude.{
  ℕ, zero, suc, ◌+◌, ◌^◌, ◌≤◌, ◌<◌, ◌≡◌, refl, ◌⊎◌, inl, inr, false, List, [], ◌∷◌, Option, none,
  some, arith, leb, ltb, ◌==◌, if◌then◌else◌, Bool-cases, Option-cases, add64, All, Any, subst,
  leb→le, ==→eq,
}
use my_os.Utils.{align_up_u64, ranges_overlap, max_u64}
use my_os.Pmm.Ranges.{page_up, page_down}
use my_os.Pmm.{
  page_size, Reserved, MmapEntry, usable_start, usable_end, collision, Placement, placed, no_room,
  out_of_fuel, place, place_fuel, place_in, first_region, find_free_region,
}

-- Physical addresses of the architecture have at most 52 bits.
abbrev pub phys_limit : ℕ
phys_limit = 2 ^ 52

abbrev pub Clear : ℕ → ℕ → Reserved → Type 0
Clear from to r = ranges_overlap from to r.start r.end ≡ false

collision-none :
    (rs : List Reserved) (from to : ℕ) → collision rs from to ≡ none → All (Clear from to) rs
unfolding collision
collision-none [] from to e = tt
collision-none (r ∷ rs) from to e = ground (arith, collision-none rs from to)

-- How many reserves end behind a cursor.
ahead : List Reserved → ℕ → ℕ
ahead [] cursor = 0
ahead (r ∷ rs) cursor = (if ltb cursor r.end then 1 else 0) + ahead rs cursor

ahead-lt-fuel : (rs : List Reserved) (cursor : ℕ) → ahead rs cursor < place_fuel rs
unfolding ahead
ahead-lt-fuel [] cursor = omega arith
ahead-lt-fuel (r ∷ rs) cursor = ground (arith, ahead-lt-fuel rs cursor)

ahead_mono : (rs : List Reserved) (c d : ℕ) → c ≤ d → ahead rs d ≤ ahead rs c
unfolding ahead
ahead_mono [] c d h = omega arith
ahead_mono (r ∷ rs) c d h = ground (arith, ahead_mono rs c d)

collision-end :
    (rs : List Reserved) (from to : ℕ) (r : Reserved) → collision rs from to ≡ some r → from < r.end
unfolding collision ranges_overlap
collision-end [] from to r e = absurd (cc)
collision-end (s ∷ rs) from to r e = ground (arith, collision-end rs from to r)

-- Past the reserve that a candidate collides with there is one reserve fewer.
collision-ahead :
    (rs : List Reserved) (from to d : ℕ) (r : Reserved)
    → collision rs from to ≡ some r
    → r.end ≤ d
    → from ≤ d
    → ahead rs d < ahead rs from
unfolding collision ahead ranges_overlap
collision-ahead [] from to d r e h k = cc
collision-ahead (s ∷ rs) from to d r e h k =
    elim (Bool-cases (ranges_overlap from to s.start s.end)) [
      | inl hit ↦ ground (arith, ahead_mono rs from d k)
      | inr miss ↦ ground (arith, collision-ahead rs from to d r)
    ]

collision-All {ℓ} :
    (P : Reserved → Type ℓ) (rs : List Reserved) (from to : ℕ) (r : Reserved)
    → All P rs
    → collision rs from to ≡ some r
    → P r
unfolding collision
collision-All P [] from to r h e = absurd (none-ne-some e)
  where
    none-ne-some : Option.none ≡ some r → ⊥
    none-ne-some q = cc
collision-All P (s ∷ rs) from to r h e = elim (Bool-cases (ranges_overlap from to s.start s.end)) [
  | inl hit ↦ let same : s ≡ r = ground arith in subst P same h.0
  | inr miss ↦ collision-All P rs from to r h.1 (ground arith)
]

abbrev pub Ends : Reserved → Type 0
Ends r = r.end ≤ phys_limit

-- What a place for `size` bytes in front of `end` and at or behind `cursor` has to meet.
abbrev pub IsPlace : List Reserved → ℕ → ℕ → ℕ → Placement → Type 0
IsPlace reserves size end cursor (placed c) =
    (cursor ≤ c) × (c + size ≤ end) × All (Clear c (c + size)) reserves
IsPlace reserves size end cursor no_room = Unit
IsPlace reserves size end cursor out_of_fuel = ⊥

raise :
    (reserves : List Reserved) (size end c d : ℕ) (r : Placement)
    → c ≤ d
    → IsPlace reserves size end d r
    → IsPlace reserves size end c r
raise reserves size end c d (placed e) h (a, b, f) = (omega arith, b, f)
raise reserves size end c d no_room h p = tt
raise reserves size end c d out_of_fuel h p = p

-- With more fuel than reserves ahead the loop ends, and what it finds is a place.
place-IsPlace :
    (fuel : ℕ) (reserves : List Reserved) (size end cursor : ℕ)
    → All Ends reserves
    → size ≤ phys_limit
    → end ≤ phys_limit
    → cursor ≤ 2 ^ 53
    → ahead reserves cursor < fuel
    → IsPlace reserves size end cursor (place fuel reserves size end cursor)
unfolding place
place-IsPlace zero reserves size end cursor ends hs he hc enough = absurd (omega arith)
place-IsPlace (suc fuel) reserves size end cursor ends hs he hc enough =
    let sum : add64 cursor size ≡ cursor + size = omega arith in
    elim (Bool-cases (leb (add64 cursor size) end)) [
      | inr past ↦ rw (past, place) tt
      | inl fits ↦ elim (Option-cases (collision reserves cursor (add64 cursor size))) [
        | inl free ↦
            let clear = collision-none reserves cursor (add64 cursor size) free in
            rw (fits, free, place) (omega arith, omega (arith, leb→le _ _ fits), rw sum at clear)
        | inr (r, hit) ↦
            let bound = collision-All Ends reserves cursor (add64 cursor size) r ends hit in
            let (multiple, above, near) = page_up r.end (omega arith) in
            let d = align_up_u64 r.end page_size in
            let behind = collision-end reserves cursor (add64 cursor size) r hit in
            let fewer =
              collision-ahead reserves cursor (add64 cursor size) d r hit above (omega arith) in
            rw (fits, hit, place)
              (raise reserves size end cursor d _ (omega arith)
                (place-IsPlace fuel reserves size end d ends hs he (omega arith) (omega arith)))
      ]
    ]

-- The entry ends inside the physical address space.
abbrev pub Fits : MmapEntry → Type 0
Fits entry = entry.addr + entry.len ≤ phys_limit

-- The range of `size` bytes at `c` lies in usable memory of the entry.
abbrev pub Holds : ℕ → ℕ → MmapEntry → Type 0
Holds c size entry =
    (entry.kind ≡ 1) × (entry.addr ≤ c) × (0x0010_0000 ≤ c) × (c + size ≤ entry.addr + entry.len)

pub usable_bounds :
    (entry : MmapEntry)
    → Fits entry
    → (entry.addr ≤ usable_start entry)
      × (0x0010_0000 ≤ usable_start entry)
      × (usable_start entry ≤ 2 ^ 53)
      × (usable_end entry ≤ entry.addr + entry.len)
usable_bounds entry fits =
    let (m, above, near) = page_up (max_u64 entry.addr 0x0010_0000) (ground arith) in
    let (m', below, near') = page_down (add64 entry.addr entry.len) (omega arith) in
    (ground arith, ground arith, ground arith, omega arith)

-- How the search over the entries ends.
abbrev IsFound : List Reserved → ℕ → List MmapEntry → Placement → Type 0
IsFound reserves size entries (placed c) =
    Any (Holds c size) entries × All (Clear c (c + size)) reserves
IsFound reserves size entries no_room = Unit
IsFound reserves size entries out_of_fuel = ⊥

module _ (reserves : List Reserved) (ends : All Ends reserves) (size : ℕ)
    (small : size ≤ phys_limit) where
  -- The loop over the candidates of one entry ends by its own tests, and what it finds lies in
  -- usable memory and meets no reserve.
  place_in-Holds :
      (entry : MmapEntry)
      → Fits entry
      → (place_in reserves size entry ≡ no_room)
        ⊎ ((c : ℕ) × (place_in reserves size entry ≡ placed c)
            × Holds c size entry
            × All (Clear c (c + size)) reserves)
  place_in-Holds entry fits =
      let (a, b, c, d) = usable_bounds entry fits in
      let loop =
        place-IsPlace (place_fuel reserves) reserves size (usable_end entry) (usable_start entry)
          ends small (omega arith) c (ahead-lt-fuel reserves (usable_start entry)) in
      elim (Bool-cases (entry.kind == 1)) [
        | inr other ↦ inl (rw other)
        | inl usable ↦ elim (Bool-cases (leb (usable_end entry) (usable_start entry))) [
          | inl none_left ↦ inl (rw (usable, none_left))
          | inr room ↦
              outcome
                (place (place_fuel reserves) reserves size (usable_end entry) (usable_start entry))
                (rw (usable, room)) (==→eq entry.kind 1 usable) loop a b d
        ]
      ]
    where
      outcome :
          (r : Placement)
          → place_in reserves size entry ≡ r
          → entry.kind ≡ 1
          → IsPlace reserves size (usable_end entry) (usable_start entry) r
          → entry.addr ≤ usable_start entry
          → 0x0010_0000 ≤ usable_start entry
          → usable_end entry ≤ entry.addr + entry.len
          → (place_in reserves size entry ≡ no_room)
            ⊎ ((c : ℕ) × (place_in reserves size entry ≡ placed c)
                × Holds c size entry
                × All (Clear c (c + size)) reserves)
      outcome (placed c) e k (p, q, clear) a b d =
          inr (c, e, (k, omega arith, omega arith, omega arith), clear)
      outcome no_room e k p a b d = inl e
      outcome out_of_fuel e k p a b d = absurd p

  first_region-skip :
      (entry : MmapEntry) (entries : List MmapEntry)
      → place_in reserves size entry ≡ no_room
      → first_region (entry ∷ entries) reserves size ≡ first_region entries reserves size
  unfolding first_region
  first_region-skip entry entries e = rw (e, first_region)

  first_region-placed :
      (entry : MmapEntry) (entries : List MmapEntry) (c : ℕ)
      → place_in reserves size entry ≡ placed c
      → first_region (entry ∷ entries) reserves size ≡ placed c
  unfolding first_region
  first_region-placed entry entries c e = rw (e, first_region)

  first_region-nil : first_region [] reserves size ≡ no_room
  unfolding first_region
  first_region-nil = refl

  IsFound-cons :
      (entry : MmapEntry) (entries : List MmapEntry) (r : Placement)
      → IsFound reserves size entries r
      → IsFound reserves size (entry ∷ entries) r
  IsFound-cons entry entries (placed c) (h, clear) = (inr h, clear)
  IsFound-cons entry entries no_room h = tt
  IsFound-cons entry entries out_of_fuel h = h

  first_region-Holds :
      (entries : List MmapEntry)
      → All Fits entries
      → IsFound reserves size entries (first_region entries reserves size)
  first_region-Holds [] fits = rw first_region-nil tt
  first_region-Holds (entry ∷ entries) fits = elim (place_in-Holds entry fits.0) [
    | inr (c, e, h, clear) ↦ rw (first_region-placed entry entries c e) (inl h, clear)
    | inl e ↦
        rw (first_region-skip entry entries e)
          (IsFound-cons entry entries _ (first_region-Holds entries fits.1))
  ]

-- The bytes that the region is rounded up to.
abbrev pub rounded : ℕ → ℕ
rounded size = align_up_u64 size page_size

-- A search that ended by its own tests, and the address that it came to: 0 where nothing was found,
-- otherwise a place.
abbrev pub Finds : List MmapEntry → List Reserved → ℕ → ℕ → Type 0
Finds entries reserves size c =
    ((first_region entries reserves (rounded size) ≡ no_room) × (c ≡ 0))
    ⊎ ((first_region entries reserves (rounded size) ≡ placed c)
        × (size ≤ rounded size)
        × Any (Holds c (rounded size)) entries
        × All (Clear c (c + rounded size)) reserves)

found_outcome :
    (entries : List MmapEntry) (reserves : List Reserved) (size : ℕ) (r : Placement)
    → first_region entries reserves (rounded size) ≡ r
    → size ≤ rounded size
    → IsFound reserves (rounded size) entries r
    → Finds entries reserves size (find_free_region entries reserves size)
unfolding find_free_region
found_outcome entries reserves size (placed c) e up (h, clear) =
    rw (find_free_region, e) (inr (refl, up, h, clear))
found_outcome entries reserves size no_room e up h = rw (find_free_region, e) (inl (refl, refl))
found_outcome entries reserves size out_of_fuel e up h = absurd h

-- Where the memory map and the reserves end inside the physical address space, and the size is at
-- most 2 ^ 51, the rounds that the search for a region is given are enough for each of its loops to
-- end by its own tests; it ends either without a place, and returns 0, or with the start of a range
-- that holds `size` bytes rounded up to pages inside one usable entry above the first megabyte, and
-- meets no reserve.
pub find_free_region-Holds :
    (entries : List MmapEntry) (reserves : List Reserved) (size : ℕ)
    → All Fits entries
    → All Ends reserves
    → size ≤ 2 ^ 51
    → Finds entries reserves size (find_free_region entries reserves size)
find_free_region-Holds entries reserves size fits ends small =
    let (m, above, near) = page_up size (omega arith) in
    found_outcome entries reserves size _ refl above
      (first_region-Holds reserves ends (rounded size) (omega arith) entries fits)
