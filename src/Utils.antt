-- ===== src/Utils.antt =====
-- kernel/utils.c.
pub mod Laws
use my_os.Prelude.{ℕ, ◌-◌, ◌<◌, Bool, bit_and, add64, sub64, u64_mod, ltb, if◌then◌else◌}

-- `~x` on `u64`.
abbrev pub not64 : ℕ → ℕ
not64 x = u64_mod - 1 - x

unfoldable pub align_up_u64 : ℕ → ℕ → ℕ
align_up_u64 value align = bit_and (sub64 (add64 value align) 1) (not64 (sub64 align 1))

unfoldable pub align_down_u64 : ℕ → ℕ → ℕ
align_down_u64 value align = bit_and value (not64 (sub64 align 1))

abbrev pub max_u64 : ℕ → ℕ → ℕ
max_u64 a b = if ltb b a then a else b

abbrev pub min_u64 : ℕ → ℕ → ℕ
min_u64 a b = if ltb a b then a else b

unfoldable pub ranges_overlap : ℕ → ℕ → ℕ → ℕ → Bool
ranges_overlap a_start a_end b_start b_end =
    let start = max_u64 a_start b_start in let end = min_u64 a_end b_end in ltb start end
