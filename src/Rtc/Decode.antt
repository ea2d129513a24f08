-- ===== src/Rtc/Decode.antt =====
-- kernel/rtc.c: rtc_read_time against the registers of a clock that shows a time.
use my_os.Prelude.{
  ℕ, ◌+◌, ◌-◌, ◌*◌, ◌/◌, ◌%◌, ◌≤◌, ◌<◌, ◌≡◌, refl, Bool, true, false, arith, bit_and, ltb, ◌==◌,
  ==→eq, if◌then◌else◌, all_below, all_below-apply,
}
use my_os.Rtc.{
  RtcTime, cmos_reg_second, cmos_reg_minute, cmos_reg_hour, cmos_reg_day, cmos_reg_month,
  cmos_reg_year, cmos_reg_status_b, bcd_to_bin, hour_of, rtc_read_time,
}

-- The four modes of the clock: numbers in BCD or binary, 12 or 24 hours.
pub data Mode : Type 0 where
  bcd_12 bcd_24 binary_12 binary_24 : Mode

abbrev binary : Mode → Bool
binary bcd_12 = false
binary bcd_24 = false
binary binary_12 = true
binary binary_24 = true

abbrev hours_24 : Mode → Bool
hours_24 bcd_12 = false
hours_24 bcd_24 = true
hours_24 binary_12 = false
hours_24 binary_24 = true

-- A number in a register.
abbrev number : Mode → ℕ → ℕ
number mode n = if binary mode then n else n / 10 * 16 + n % 10

-- The hours of a 12-hour clock run from 12 over 1 to 11, with bit 7 in the afternoon.
abbrev hour_register : Mode → ℕ → ℕ
hour_register mode hour =
    if hours_24 mode
    then number mode hour
    else number mode (if hour % 12 == 0 then 12 else hour % 12) + (if ltb hour 12 then 0 else 128)

abbrev status : Mode → ℕ
status mode = (if binary mode then 4 else 0) + (if hours_24 mode then 2 else 0)

-- The registers of a clock that shows a time of this century.
unfoldable pub registers : Mode → RtcTime → ℕ → ℕ
registers mode t reg =
    if reg == cmos_reg_second
    then number mode t.second
    else if reg == cmos_reg_minute
    then number mode t.minute
    else if reg == cmos_reg_hour
    then hour_register mode t.hour
    else if reg == cmos_reg_day
    then number mode t.day
    else if reg == cmos_reg_month
    then number mode t.month
    else if reg == cmos_reg_year
    then number mode (t.year - 2000)
    else if reg == cmos_reg_status_b
    then status mode
    else 0

bcd_number : (n : ℕ) → n < 100 → bcd_to_bin (n / 10 * 16 + n % 10) ≡ n
unfolding bcd_to_bin all_below
bcd_number n h =
    ==→eq _ _ (all_below-apply 100 (λ n. bcd_to_bin (n / 10 * 16 + n % 10) == n) n refl h)

-- The hour that comes out: in BCD and 12 hours the afternoon is lost.
abbrev pub hour_read : Mode → ℕ → ℕ
hour_read mode hour = if binary mode then hour else if hours_24 mode then hour else hour % 12

-- What `rtc_read_time` makes of the register.
abbrev hour_decoded : Mode → ℕ → ℕ
hour_decoded mode hour = hour_of (status mode) (
    if bit_and (status mode) 0x04 == 0
    then bcd_to_bin (bit_and (hour_register mode hour) 0x7F)
    else hour_register mode hour)

hour_decoded-read :
    (mode : Mode) (hour : ℕ) → hour < 24 → hour_decoded mode hour ≡ hour_read mode hour
unfolding bcd_to_bin hour_of all_below
hour_decoded-read bcd_12 hour h =
    ==→eq _ _ (all_below-apply 24 (λ n. hour_decoded bcd_12 n == hour_read bcd_12 n) hour refl h)
hour_decoded-read bcd_24 hour h =
    ==→eq _ _ (all_below-apply 24 (λ n. hour_decoded bcd_24 n == hour_read bcd_24 n) hour refl h)
hour_decoded-read binary_12 hour h =
    ==→eq _ _
      (all_below-apply 24 (λ n. hour_decoded binary_12 n == hour_read binary_12 n) hour refl h)
hour_decoded-read binary_24 hour h = refl

-- A time of this century.
pub record IsTime (t : RtcTime) : Type 0 where
  pub years : 2000 ≤ t.year
  pub century : t.year < 2100
  pub months : t.month ≤ 12
  pub days : t.day ≤ 31
  pub hours : t.hour < 24
  pub minutes : t.minute < 60
  pub seconds : t.second < 60

number_read :
    (mode : Mode) (n : ℕ)
    → n < 100
    → (if bit_and (status mode) 0x04 == 0 then bcd_to_bin (number mode n) else number mode n) ≡ n
number_read bcd_12 n h = bcd_number n h
number_read bcd_24 n h = bcd_number n h
number_read binary_12 n h = refl
number_read binary_24 n h = refl

RtcTime-ext :
    (a b : RtcTime)
    → a.year ≡ b.year
    → a.month ≡ b.month
    → a.day ≡ b.day
    → a.hour ≡ b.hour
    → a.minute ≡ b.minute
    → a.second ≡ b.second
    → a ≡ b
RtcTime-ext a b year month day hour minute second = λ i. record {
  year = year i;
  month = month i;
  day = day i;
  hour = hour i;
  minute = minute i;
  second = second i;
}

-- rtc_read_time from the registers of a clock that shows a time of this century gives that time, in
-- BCD and in binary, with 12 and with 24 hours, except for the hour of a clock in BCD with 12
-- hours, which comes out modulo 12: there the afternoon is lost.
pub rtc_read_time-registers :
    (mode : Mode) (t : RtcTime)
    → IsTime t
    → rtc_read_time (registers mode t) ≡ record t { hour = hour_read mode t.hour }
unfolding rtc_read_time registers
rtc_read_time-registers mode t h =
    RtcTime-ext _ _
      (omega (arith, h.years, number_read mode (t.year - 2000) (omega (arith, h.century))))
      (number_read mode t.month (omega (arith, h.months)))
      (number_read mode t.day (omega (arith, h.days))) (hour_decoded-read mode t.hour h.hours)
      (number_read mode t.minute (omega (arith, h.minutes)))
      (number_read mode t.second (omega (arith, h.seconds)))
