-- ===== src/Time/Tests.antt =====
-- Dates of time.c and rtc.c, and the theorems there.
use pcboot.Prelude.{ℕ, ◌^◌, ◌<◌, ◌≡◌, refl, false, some, arith, if◌then◌else◌, ◌==◌}
use pcboot.Time.{Tm, is_leap_year, year_days, mktime, gmtime_r, day_of_year}
use pcboot.Time.RoundTrip.{IsDate, mktime-gmtime_r, gmtime_r-mktime}
use pcboot.Time.Rtc.{read_rtc, Shows, read_rtc-Shows}

-- Thursday, the 29th of February 2024, 13:05:09, which is the 60th day of the year.
abbrev leap_day : Tm
leap_day = record {
  tm_sec = 9;
  tm_min = 5;
  tm_hour = 13;
  tm_mday = 29;
  tm_mon = 1;
  tm_year = 124;
  tm_wday = 4;
  tm_yday = 59;
}

leap_day-time : mktime leap_day ≡ (1709211909, leap_day)
unfolding mktime day_of_year year_days
leap_day-time = refl

leap_day-IsDate : IsDate leap_day
unfolding is_leap_year
leap_day-IsDate = record {
  year = omega arith;
  month = omega arith;
  first = omega arith;
  last = omega arith;
  hour = omega arith;
  min = omega arith;
  sec = omega arith;
}

epoch :
    gmtime_r 86399
    ≡ some (record {
      tm_sec = 59;
      tm_min = 59;
      tm_hour = 23;
      tm_mday = 1;
      tm_mon = 0;
      tm_year = 70;
      tm_wday = 4;
      tm_yday = 0;
    })
unfolding gmtime_r year_days
epoch = refl

mktime-gmtime_r_example :
    (tm : Tm) × (gmtime_r 951782400 ≡ some tm) × IsDate tm × (mktime tm ≡ (951782400, tm))
mktime-gmtime_r_example = mktime-gmtime_r 951782400

gmtime_r-mktime_example :
    ((mktime leap_day).0 < 2 ^ 31) × (gmtime_r (mktime leap_day).0 ≡ some (mktime leap_day).1)
gmtime_r-mktime_example = gmtime_r-mktime leap_day leap_day-IsDate (omega arith)

-- A clock in BCD that counts twelve hours: 01:05:09 in the afternoon.
abbrev bcd_clock : ℕ → ℕ
bcd_clock r =
    if r == 0
    then 0x09
    else if r == 2
    then 0x05
    else if r == 4
    then 0x81
    else if r == 7
    then 0x29
    else if r == 8
    then 0x02
    else if r == 9
    then 0x24
    else 0

bcd_clock-Shows : Shows false false bcd_clock leap_day
bcd_clock-Shows = record {
  statb = refl;
  sec = refl;
  min = refl;
  hour = refl;
  day = refl;
  month = refl;
  year = refl;
}

-- What stands in the struct before
abbrev left_over : Tm
left_over = record {
  tm_sec = 1;
  tm_min = 2;
  tm_hour = 3;
  tm_mday = 4;
  tm_mon = 5;
  tm_year = 6;
  tm_wday = 7;
  tm_yday = 8;
}

read_rtc-Shows_example : read_rtc bcd_clock left_over ≡ record leap_day { tm_wday = 7; tm_yday = 8 }
read_rtc-Shows_example =
    read_rtc-Shows false false bcd_clock left_over leap_day (omega arith) (omega arith)
      (omega arith) (omega arith) (omega arith) (omega arith) (omega arith) bcd_clock-Shows
