-- ===== src/Initramfs/Ends.antt =====
-- kernel/initramfs.c: the loop of initramfs_load over the archive.
use my_os.Prelude.{
  ℕ, zero, suc, ◌+◌, ◌*◌, ◌/◌, ◌^◌, ◌≤◌, ◌<◌, ◌≡◌, refl, Bool, List, some, length, arith, add64,
  ltb, ltb-false, Bool-cases, Option-cases, inl, inr, drop, length-take_le,
}
use my_os.Initramfs.{
  Initramfs, tar_block_size, initramfs_path_max, bytes_at, all_zero, tar_parse_octal,
  tar_get_raw_path, load_entry, load_loop, initramfs_load,
}
use my_os.Initramfs.Octal.{tar_parse_octal-small, align_tar_size-Bounds}

-- A round moves on by at least a block, and by less than 2 ^ 37.
load_entry-reach :
    (grants : ℕ → Bool) (archive : List ℕ) (offset : ℕ) (raw_path : List ℕ) (s : Initramfs)
    → (512 ≤ (load_entry grants archive offset raw_path s).0)
      × ((load_entry grants archive offset raw_path s).0 < 2 ^ 37)
unfolding load_entry
load_entry-reach grants archive offset raw_path s =
    let field = bytes_at archive (offset + 124) 12 in
    let size = tar_parse_octal-small field (length-take_le 12 (drop (offset + 124) archive)).0 in
    let (low, high, whole) = align_tar_size-Bounds (tar_parse_octal field) (omega arith) in
    (omega arith, omega arith)

module _ (grants : ℕ → Bool) (archive : List ℕ) (small : length archive < 2 ^ 62) where
  load_loop-Ends :
      (fuel offset : ℕ) (s : Initramfs)
      → 0 < fuel
      → offset ≤ length archive + 2 ^ 37
      → length archive < offset + 512 * fuel
      → (s' : Initramfs) × (load_loop grants archive fuel offset s ≡ some s')
  unfolding load_loop
  load_loop-Ends zero offset s some_fuel near enough = absurd (omega arith)
  load_loop-Ends (suc fuel) offset s some_fuel near enough =
      elim (Bool-cases (ltb (length archive) (add64 offset tar_block_size))) [
        | inl past ↦ (s, rw past refl)
        | inr inside ↦
            let room : offset + 512 ≤ length archive =
              (let r = ltb-false _ _ inside in omega arith) in
            elim (Bool-cases (all_zero (bytes_at archive offset tar_block_size))) [
              | inl end ↦ (s, rw (inside, end) refl)
              | inr header ↦
                  elim (Option-cases (tar_get_raw_path archive offset initramfs_path_max)) [
                    | inl no_path ↦
                        let (s', e) =
                          load_loop-Ends fuel (add64 offset tar_block_size) s (omega arith)
                            (omega arith) (omega arith) in
                        (s', rw (inside, header, no_path) e)
                    | inr (raw_path, path) ↦
                        let entry = load_entry grants archive offset raw_path s in
                        let (low, high) = load_entry-reach grants archive offset raw_path s in
                        let (s', e) =
                          load_loop-Ends fuel (add64 offset entry.0) entry.1 (omega arith)
                            (omega arith) (omega arith) in
                        (s', rw (inside, header, path) e)
                  ]
            ]
      ]

  -- For an archive of less than 2 ^ 62 bytes, whatever they are and whether or not allocations
  -- succeed, the loop of initramfs_load ends: one round more than the archive has blocks is enough.
  pub initramfs_load-Ends :
      (s : Initramfs) (fuel : ℕ)
      → length archive / 512 < fuel
      → (s' : Initramfs) × (initramfs_load grants archive fuel s ≡ some s')
  unfolding initramfs_load
  initramfs_load-Ends s fuel enough =
      load_loop-Ends fuel 0 (record s { loaded_files = 0; loaded_dirs = 0; loaded_bytes = 0 })
        (omega arith) (omega arith) (omega arith)
