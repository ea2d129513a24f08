-- ===== src/Elf/Image.antt =====
-- kernel/elf.c: which headers and segments are accepted, and the image that they are added to.
use my_os.Prelude.{
  ℕ, ◌+◌, ◌*◌, ◌%◌, ◌^◌, ◌≤◌, ◌<◌, ◌≡◌, ◌≢◌, refl, ap, ◌↔◌, true, false, List, [], ◌∷◌, ◌++◌, arith,
  u64_mod, length, length-append, get_or,
}
use my_os.Elf.Contents.{Matches, Matches-snoc, filled_contents, contents-from_file, contents-zeros}
use my_os.Elf.{
  field_at, ehdr_size, phdr_size, e_entry, e_phoff, e_phentsize, e_phnum, Phdr, phdr_at,
  LoadedSegment, LoadedImage, elf_range_ok, elf_validate_header, segment_contents, add_segment,
  is_refused,
}

-- `elf_range_ok` holds exactly if the range ends inside the file, without wrapping around.
pub elf_range_ok_iff :
    (offset size file_size : ℕ)
    → (elf_range_ok offset size file_size ≡ true) ↔ (offset + size ≤ file_size)
unfolding elf_range_ok
elf_range_ok_iff offset size file_size = (λ h. ground arith, λ h. ground arith)

field_2-lt :
    (file : List ℕ) (offset : ℕ)
    → ((i : ℕ) → get_or file i 0 < 256)
    → field_at file offset 2 < 2 ^ 16
unfolding field_at
field_2-lt file offset b = let low = b offset in let high = b (offset + 1) in omega arith

-- The header and the whole table of program headers of an accepted file lie inside it, so that
-- every field that the loader reads does.
pub elf_validate_header-InBounds :
    (file : List ℕ)
    → ((i : ℕ) → get_or file i 0 < 256)
    → elf_validate_header file ≡ true
    → (ehdr_size ≤ length file)
      × (e_phentsize file ≡ phdr_size)
      × (0 < e_phnum file)
      × ((i : ℕ) → i < e_phnum file → e_phoff file + i * e_phentsize file + phdr_size ≤ length file)
unfolding elf_validate_header
elf_validate_header-InBounds file b h =
    let few = field_2-lt file 56 b in
    let facts : (ehdr_size ≤ length file)
        × (e_phentsize file ≡ phdr_size)
        × (e_phnum file ≢ 0)
        × (elf_range_ok (e_phoff file) (e_phentsize file * e_phnum file % u64_mod) (length file)
            ≡ true) =
      ground arith in
    let range =
      (elf_range_ok_iff (e_phoff file) (e_phentsize file * e_phnum file % u64_mod) (length file)).0
        facts.3 in
    let size : e_phentsize file * e_phnum file ≡ phdr_size * e_phnum file =
      ap (λ n. n * e_phnum file) facts.1 in
    (
      facts.0,
      facts.1,
      omega (arith, facts.2),
      λ i inside.
          let step : i * e_phentsize file ≡ i * phdr_size = ap (λ n. i * n) facts.1 in omega arith,
    )

abbrev pub sum_memsz : List LoadedSegment → ℕ
sum_memsz [] = 0
sum_memsz (s ∷ rest) = s.memsz + sum_memsz rest

-- An image while it is built, from the program headers of these positions.
pub record IsImage (file positions : List ℕ) (image : LoadedImage) : Type 0 where
  pub loaded : Matches file image.segments positions
  pub counted : image.segment_count ≡ length image.segments
  pub few : length image.segments ≤ 8
  pub summed : image.total_memory ≡ sum_memsz image.segments % u64_mod
  pub entered : image.entry ≡ e_entry file

sum-snoc :
    (xs : List LoadedSegment) (x : LoadedSegment)
    → sum_memsz (xs ++ (x ∷ [])) ≡ sum_memsz xs + x.memsz
sum-snoc [] x = omega arith
sum-snoc (y ∷ xs) x = omega (arith, sum-snoc xs x)

accepted_facts :
    (file : List ℕ) (p : Phdr) (image : LoadedImage)
    → is_refused file p image ≡ false
    → (p.p_filesz ≤ p.p_memsz)
      × (elf_range_ok p.p_offset p.p_filesz (length file) ≡ true)
      × (image.segment_count < 8)
accepted_facts file p image h = ground arith

pub add_segment-IsImage :
    (file positions : List ℕ) (i memory : ℕ) (image : LoadedImage)
    → let p = phdr_at file (e_phoff file + i * e_phentsize file) in
      i < e_phnum file
      → is_refused file p image ≡ false
      → memory ≢ 0
      → IsImage file positions image
      → IsImage file (positions ++ (i ∷ [])) (add_segment file p memory image)
add_segment-IsImage file positions i memory image inside accepted real v =
    let p = phdr_at file (e_phoff file + i * e_phentsize file) in
    let (fits, range, room) = accepted_facts file p image accepted in
    let in_file = (elf_range_ok_iff p.p_offset p.p_filesz (length file)).0 range in
    let added : LoadedSegment = record {
      vaddr = p.p_vaddr;
      memsz = p.p_memsz;
      filesz = p.p_filesz;
      flags = p.p_flags;
      memory = memory;
      contents = segment_contents file p;
    } in
    let counted = v.counted in
    let summed = v.summed in
    let more = length-append image.segments (added ∷ []) in
    record {
      loaded = Matches-snoc file image.segments positions added i v.loaded (record {
        present = inside;
        in_file = in_file;
        filesz = refl;
        memsz = refl;
        vaddr = refl;
        flags = refl;
        filled = filled_contents file p fits in_file;
        from_file = contents-from_file file p in_file;
        zeros = λ j low high. contents-zeros file p in_file j low;
        allocated = real;
      });
      counted = omega arith;
      few = omega arith;
      summed = omega (arith, sum-snoc image.segments added);
      entered = v.entered;
    }
