-- ===== src/Elf/Load.antt =====
-- kernel/elf.c: what an accepted file leaves in memory, and why a load fails.
use my_os.Prelude.{
  ℕ, ◌+◌, ◌≤◌, ◌<◌, ◌≡◌, ◌≢◌, Bool, true, false, List, [], ◌∷◌, ◌++◌, Option, none, some, ◌⊎◌,
  length,
}
use my_os.Elf.Contents.{header_at, load_headers}
use my_os.Heap.{Heap, Paging, kmalloc}
use my_os.Elf.{e_phnum, Phdr, LoadedImage, elf_clear_image, elf_validate_header}
use my_os.Elf.Image.{IsImage}

-- Why the segment of a program header is refused, behind so many others.
abbrev pub Refused : List ℕ → Phdr → ℕ → Type 0
Refused file p segments =
    (p.p_memsz < p.p_filesz) ⊎ (length file < p.p_offset + p.p_filesz) ⊎ (8 ≤ segments)

module _ {W : Type 0} (paging : Paging W) where
  -- What an allocation leaves.
  abbrev pub after_kmalloc : ℕ → W × Heap → W × Heap
  after_kmalloc size s = let (memory, w', h') = kmalloc paging size s in (w', h')

  -- Memory once the segments of these program headers are allocated.
  abbrev pub allocated : List ℕ → List ℕ → W × Heap → W × Heap
  allocated file [] s = s
  allocated file (i ∷ positions) s =
      allocated file positions (after_kmalloc (header_at file i).p_memsz s)

  -- One of the program headers at these positions cannot be loaded behind those in front of it.
  abbrev pub Stops : List ℕ → W × Heap → List ℕ → Type 0
  Stops file s positions =
      (before : List ℕ) × (i : ℕ) × (rest : List ℕ) × (positions ≡ before ++ (i ∷ rest))
      × (Refused file (header_at file i) (length before)
          ⊎ ((kmalloc paging (header_at file i).p_memsz (allocated file before s)).0 ≡ 0))

  -- What the loop comes to.
  abbrev Builds : List ℕ → W × Heap → List ℕ → Option LoadedImage × W × Heap → Type 0
  Builds file s positions (none, w, h) = Stops file s positions
  Builds file s positions (some image, w, h) = IsImage file positions image

  -- What a load of a file comes to, from memory `s` on: an image of the file, or the cleared image
  -- because the header or a segment is not accepted or memory is short.
  abbrev pub Loaded : List ℕ → W × Heap → Bool × LoadedImage × W × Heap → Type 0
  Loaded file s (false, image, w, h) =
      (image ≡ elf_clear_image)
      × ((elf_validate_header file ≡ false) ⊎ Stops file s (load_headers file (e_phnum file) 0))
  Loaded file s (true, image, w, h) =
      (elf_validate_header file ≡ true)
      × (image.valid ≡ true)
      × IsImage file (load_headers file (e_phnum file) 0) image

  -- The same for a path: there may be no file, none that is read whole, or no memory for it.
  abbrev pub Loads : Option (List ℕ) → ℕ → W × Heap → Bool × LoadedImage × W × Heap → Type 0
  Loads found read s (result, image, w, h) =
      ((result ≡ false)
        × (image ≡ elf_clear_image)
        × ((found ≡ none)
            ⊎ ((file : List ℕ) × (found ≡ some file)
                × ((length file ≡ 0)
                    ⊎ ((kmalloc paging (length file) s).0 ≡ 0)
                    ⊎ (read ≢ length file)))))
      ⊎ ((file : List ℕ) × (found ≡ some file)
          × (read ≡ length file)
          × Loaded file (after_kmalloc (length file) s) (result, image, w, h))
