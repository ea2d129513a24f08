-- ===== src/Ramfs/Tests.antt =====
-- kernel/ramfs.c: sample runs on a file of three bytes.
use my_os.Prelude.{◌≤◌, get_or, ℕ, ◌≡◌, ◌≢◌, refl, true, List, [], ◌∷◌, arith, zero, suc}
use my_os.Ramfs.{RamFile, ramfs_memcpy, ramfs_read, ramfs_write, store_bytes, grow_file}
use my_os.Ramfs.File.{IsValid, Writes, ramfs_write-Writes}

abbrev three_bytes : RamFile
three_bytes = record { bytes = 7 ∷ 8 ∷ 9 ∷ []; size = 3; capacity = 3 }

abbrev two_bytes : List ℕ
two_bytes = 1 ∷ 2 ∷ []

three_bytes-IsValid : IsValid three_bytes
three_bytes-IsValid = (refl, omega arith, omega arith, clear)
  where
    clear : (i : ℕ) → 3 ≤ i → get_or three_bytes.bytes i 0 ≡ 0
    clear zero h = absurd (omega arith)
    clear (suc zero) h = absurd (omega arith)
    clear (suc (suc zero)) h = absurd (omega arith)
    clear (suc (suc (suc i))) h = refl

ramfs_write-Writes_example :
    Writes true three_bytes 5 two_bytes (ramfs_write true three_bytes 5 two_bytes)
    × IsValid (ramfs_write true three_bytes 5 two_bytes).1
ramfs_write-Writes_example =
    ramfs_write-Writes true three_bytes 5 two_bytes three_bytes-IsValid (omega arith)

two_written : (ramfs_write true three_bytes 5 two_bytes).0 ≢ 0
unfolding ramfs_write
two_written h = absurd (omega (arith, h))

-- The bytes between the old end and the range are 0.
gap_run :
    ramfs_read (ramfs_write true three_bytes 5 two_bytes).1 0 9 ≡ 7 ∷ 8 ∷ 9 ∷ 0 ∷ 0 ∷ 1 ∷ 2 ∷ []
unfolding ramfs_read ramfs_write store_bytes grow_file ramfs_memcpy
gap_run = refl
