-- ===== src/Time/RoundTrip.antt =====
-- `mktime` and `gmtime_r` of time.c undo one another.
use pcboot.Prelude.{
  ℕ, zero, suc, ◌+◌, ◌-◌, ◌*◌, ◌/◌, ◌%◌, ◌^◌, ◌≤◌, ◌<◌, ◌≡◌, refl, subst, ap, ◌∙◌, some, arith,
}
use pcboot.Time.{
  Tm, is_leap_year, year_days, mday, add_months, add_years, find_year, find_month, day_of_year,
  mktime, gmtime_r, daysec, hoursec, minsec, epoch_wday,
}
use pcboot.Time.Calendar.{
  year_days-months, find_year-add_years, find_month-add_months, find_year_of_sum, find_month_of_sum,
  add_months-lt-left,
}

-- A time of day on a day of the calendar, from 1970 on. The other fields are free.
pub record IsDate (tm : Tm) : Type 0 where
  pub year : 70 ≤ tm.tm_year
  pub month : tm.tm_mon < 12
  pub first : 1 ≤ tm.tm_mday
  pub last : tm.tm_mday ≤ mday (is_leap_year (tm.tm_year + 1900)) tm.tm_mon
  pub hour : tm.tm_hour < 24
  pub min : tm.tm_min < 60
  pub sec : tm.tm_sec < 60

-- The fields that `gmtime_r` makes of a year, a month and a day of it, and a time.
abbrev broken_down : ℕ → (year yday mon day : ℕ) → Tm
broken_down tp year yday mon day = record {
  tm_sec = tp % daysec % hoursec % minsec;
  tm_min = tp % daysec % hoursec / minsec;
  tm_hour = tp % daysec / hoursec;
  tm_mday = day + 1;
  tm_mon = mon;
  tm_year = year - 1900;
  tm_wday = (tp / daysec + epoch_wday) % 7;
  tm_yday = yday;
}

gmtime_r_found :
    (tp year r mon day : ℕ)
    → find_year (tp / daysec + 1) 1970 (tp / daysec) ≡ some (year, r)
    → find_month (is_leap_year year) 13 0 r ≡ some (mon, day)
    → gmtime_r tp ≡ some (broken_down tp year r mon day)
unfolding gmtime_r
gmtime_r_found tp year r mon day found found' = rw (found, found', gmtime_r)

broken_down-IsDate :
    (tp year r mon day : ℕ)
    → 1970 ≤ year
    → mon < 12
    → day < mday (is_leap_year year) mon
    → IsDate (broken_down tp year r mon day)
broken_down-IsDate tp year r mon day from within inside =
    let same : year - 1900 + 1900 ≡ year = omega arith in
    record {
      year = omega arith;
      month = within;
      first = omega arith;
      last = rw same (omega arith);
      hour = omega arith;
      min = omega arith;
      sec = omega arith;
    }

mktime-broken_down :
    (tp year k r mon day : ℕ)
    → year ≡ 1970 + k
    → add_years k 1970 r ≡ tp / daysec
    → add_months (is_leap_year year) mon 0 day ≡ r
    → mktime (broken_down tp year r mon day) ≡ (tp, broken_down tp year r mon day)
unfolding mktime day_of_year
mktime-broken_down tp year k r mon day from days yday =
    let same : year - 1900 + 1900 ≡ year = omega arith in
    let since : year - 1900 - 70 ≡ k = omega arith in
    let back : day + 1 - 1 ≡ day = omega arith in
    let seconds : tp / daysec * daysec
          + tp % daysec / hoursec * hoursec
          + tp % daysec % hoursec / minsec * minsec
          + tp % daysec % hoursec % minsec
        ≡ tp =
      omega arith in
    rw (same, since, back, yday, days)
      (ap {B = ℕ × Tm} (λ t. (t, broken_down tp year r mon day)) seconds)

-- `gmtime_r` ends on every time, gives a date of the calendar, and `mktime` gives the time and the
-- same fields back: those that it corrects were right.
pub mktime-gmtime_r :
    (tp : ℕ) → (tm : Tm) × (gmtime_r tp ≡ some tm) × IsDate tm × (mktime tm ≡ (tp, tm))
mktime-gmtime_r tp =
    let (k, r, found, days, inside) =
      find_year-add_years (tp / daysec + 1) 1970 (tp / daysec) (omega arith) in
    let (mon, day, found', yday, inside', within) =
      find_month-add_months (is_leap_year (1970 + k)) 12 0 r
        (rw (← year_days-months (1970 + k)) inside) in
    let month : 0 + mon ≡ mon = omega arith in
    (
      broken_down tp (1970 + k) r mon day,
      gmtime_r_found tp (1970 + k) r mon day found (rw month at found'),
      broken_down-IsDate tp (1970 + k) r mon day (omega arith) within (rw month at inside'),
      mktime-broken_down tp (1970 + k) k r mon day refl days yday,
    )

module _ (tm : Tm) (v : IsDate tm) (yday days tp : ℕ)
    (of_months : yday ≡ add_months (is_leap_year (tm.tm_year + 1900)) tm.tm_mon 0 (tm.tm_mday - 1))
    (of_years : days ≡ add_years (tm.tm_year - 70) 1970 yday)
    (of_time : tp ≡ days * daysec + tm.tm_hour * hoursec + tm.tm_min * minsec + tm.tm_sec) where
  same_day : tp / daysec ≡ days
  same_day = omega (arith, v.hour, v.min, v.sec)

  from_zero : 0 + tm.tm_mon ≡ tm.tm_mon
  from_zero = omega arith

  inside_month : tm.tm_mday - 1 < mday (is_leap_year (tm.tm_year + 1900)) (0 + tm.tm_mon)
  inside_month = rw from_zero (omega (arith, v.first, v.last))

  inside_year : yday < year_days (tm.tm_year + 1900)
  inside_year =
      rw (of_months, year_days-months)
        (add_months-lt-left (is_leap_year (tm.tm_year + 1900)) 12 tm.tm_mon 0 (tm.tm_mday - 1)
          v.month inside_month)

  finds_year : find_year (tp / daysec + 1) 1970 (tp / daysec) ≡ some (tm.tm_year + 1900, yday)
  finds_year =
      let year : tm.tm_year + 1900 ≡ 1970 + (tm.tm_year - 70) = omega (arith, v.year) in
      rw (same_day, of_years, year)
        (find_year_of_sum (tm.tm_year - 70) 1970 yday (add_years (tm.tm_year - 70) 1970 yday + 1)
          (rw (← year) inside_year) (omega arith))

  finds_month :
      find_month (is_leap_year (tm.tm_year + 1900)) 13 0 yday ≡ some (tm.tm_mon, tm.tm_mday - 1)
  finds_month =
      rw of_months (
        find_month_of_sum (is_leap_year (tm.tm_year + 1900)) tm.tm_mon 0 (tm.tm_mday - 1) 13
          inside_month (omega (arith, v.month)))
      ∙ ap (λ mon. some (mon, tm.tm_mday - 1)) from_zero

  same_fields :
      broken_down tp (tm.tm_year + 1900) yday tm.tm_mon (tm.tm_mday - 1)
      ≡ record tm { tm_yday = yday; tm_wday = (days + epoch_wday) % 7 }
  same_fields = ground (arith, v.hour, v.min, v.sec, v.first, same_day)

add_years-grows : (n k year days : ℕ) → add_years n year days ≤ add_years (n + k) year days
unfolding add_years
add_years-grows zero zero year days = omega arith
add_years-grows zero (suc k) year days =
    let e : 0 + suc k ≡ suc k = omega arith in
    let f : 0 + k ≡ k = omega arith in
    let more : days + year_days year ≤ add_years k (year + 1) (days + year_days year) =
      subst (λ n. days + year_days year ≤ add_years n (year + 1) (days + year_days year)) f
        (add_years-grows zero k (year + 1) (days + year_days year)) in
    rw e (omega (arith, more))
add_years-grows (suc n) k year days =
    let e : suc n + k ≡ suc (n + k) = omega arith in
    rw e (add_years-grows n k (year + 1) (days + year_days year))

-- The days in front of 2037
sixty_seven_years : (days : ℕ) → add_years 67 1970 days ≤ days + 24472
unfolding add_years year_days is_leap_year
sixty_seven_years days = omega arith

before_2038 :
    (n yday h m s : ℕ)
    → n ≤ 67
    → yday < 366
    → h < 24
    → m < 60
    → s < 60
    → add_years n 1970 yday * daysec + h * hoursec + m * minsec + s < 2 ^ 31
before_2038 n yday h m s few inside hour min sec =
    let e : n + (67 - n) ≡ 67 = omega (arith, few) in
    let all : add_years n 1970 yday ≤ add_years 67 1970 yday =
      subst (λ k. add_years n 1970 yday ≤ add_years k 1970 yday) e
        (add_years-grows n (67 - n) 1970 yday) in
    omega (arith, all, sixty_seven_years yday, inside, hour, min, sec)

year_days-le : (year : ℕ) → year_days year ≤ 366
unfolding year_days
year_days-le year = ground arith

-- For a date of the calendar up to the end of 2037 the time of `mktime` has 31 bits, so that no sum on its way
-- wraps, and `gmtime_r` gives the date back from it, with the day of the week and of the year as `mktime`
-- corrects them.
pub gmtime_r-mktime :
    (tm : Tm)
    → IsDate tm
    → tm.tm_year < 138
    → ((mktime tm).0 < 2 ^ 31) × (gmtime_r (mktime tm).0 ≡ some (mktime tm).1)
unfolding mktime day_of_year
gmtime_r-mktime tm v to =
    let inside = inside_year tm v _ _ _ refl refl refl in
    (
      before_2038 (tm.tm_year - 70) _ tm.tm_hour tm.tm_min tm.tm_sec (omega (arith, to))
          (omega (arith, inside, year_days-le (tm.tm_year + 1900))) v.hour v.min v.sec,
      gmtime_r_found _ _ _ _ _ (finds_year tm v _ _ _ refl refl refl)
            (finds_month tm v _ _ _ refl refl refl)
          ∙ ap some (same_fields tm v _ _ _ refl refl refl),
    )
