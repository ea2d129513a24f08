-- ===== src/Rtc.antt =====
-- kernel/rtc.c: the clock. `cmos` is what reading a register of the clock gives; waiting until no
-- update is in progress changes nothing that is read here.
pub mod Decode
mod Tests
use my_os.Prelude.{ℕ, ◌+◌, ◌*◌, ◌/◌, ◌%◌, ◌^◌, Bool, not, ◌&&◌, bit_and, ltb, ◌==◌, if◌then◌else◌}

abbrev pub cmos_reg_second : ℕ
cmos_reg_second = 0x00

abbrev pub cmos_reg_minute : ℕ
cmos_reg_minute = 0x02

abbrev pub cmos_reg_hour : ℕ
cmos_reg_hour = 0x04

abbrev pub cmos_reg_day : ℕ
cmos_reg_day = 0x07

abbrev pub cmos_reg_month : ℕ
cmos_reg_month = 0x08

abbrev pub cmos_reg_year : ℕ
cmos_reg_year = 0x09

abbrev pub cmos_reg_status_b : ℕ
cmos_reg_status_b = 0x0B

-- `rtc_time_t`.
pub record RtcTime : Type 0 where
  pub year : ℕ
  pub month : ℕ
  pub day : ℕ
  pub hour : ℕ
  pub minute : ℕ
  pub second : ℕ

unfoldable pub bcd_to_bin : ℕ → ℕ
bcd_to_bin value = (bit_and value 0x0F + value / 2 ^ 4 * 10) % 256

-- The second half of the decoding: the hour of a 12-hour clock.
unfoldable pub hour_of : ℕ → ℕ → ℕ
hour_of status_b hour =
    let pm = not (bit_and hour 0x80 == 0) in
    let hour' = bit_and hour 0x7F in
    let hour'' = if pm && ltb hour' 12 then (hour' + 12) % 256 else hour' in
    if bit_and status_b 0x02 == 0 then (if not pm && (hour'' == 12) then 0 else hour'') else hour

unfoldable pub rtc_read_time : (ℕ → ℕ) → RtcTime
rtc_read_time cmos =
    let status_b = cmos cmos_reg_status_b in
    let bcd = bit_and status_b 0x04 == 0 in
    let hour = cmos cmos_reg_hour in
    let decode : ℕ → ℕ = λ value. if bcd then bcd_to_bin value else value in
    record {
      year = 2000 + decode (cmos cmos_reg_year);
      month = decode (cmos cmos_reg_month);
      day = decode (cmos cmos_reg_day);
      hour = hour_of status_b (if bcd then bcd_to_bin (bit_and hour 0x7F) else hour);
      minute = decode (cmos cmos_reg_minute);
      second = decode (cmos cmos_reg_second);
    }
