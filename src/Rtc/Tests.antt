-- ===== src/Rtc/Tests.antt =====
-- kernel/rtc.c: an evening on a clock in BCD with 12 hours.
use my_os.Prelude.{◌≡◌, arith}
use my_os.Rtc.{RtcTime, rtc_read_time}
use my_os.Rtc.Decode.{IsTime, bcd_12, registers, rtc_read_time-registers}

abbrev evening : RtcTime
evening = record { year = 2024; month = 12; day = 31; hour = 21; minute = 59; second = 30 }

evening-IsTime : IsTime evening
evening-IsTime = record {
  years = omega arith;
  century = omega arith;
  months = omega arith;
  days = omega arith;
  hours = omega arith;
  minutes = omega arith;
  seconds = omega arith;
}

rtc_read_time-registers_example :
    rtc_read_time (registers bcd_12 evening) ≡ record evening { hour = 9 }
rtc_read_time-registers_example = rtc_read_time-registers bcd_12 evening evening-IsTime
