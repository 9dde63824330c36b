-- ===== src/Time.antt =====
-- src/libc/time.c: the calendar. A field of `struct tm` and a `time_t` are the integers of the
-- source where those are not negative; the sums wrap nowhere below the year 2038.
pub mod Calendar
pub mod RoundTrip
pub mod Rtc
mod Tests
use pcboot.Prelude.{
  ℕ, zero, suc, ◌+◌, ◌-◌, ◌*◌, ◌/◌, ◌%◌, Bool, true, false, List, [], ◌∷◌, Option, none, some, ltb,
  leb, ◌==◌, if◌then◌else◌, get_or,
}

pub record Tm : Type 0 where
  pub tm_sec : ℕ
  pub tm_min : ℕ
  pub tm_hour : ℕ
  pub tm_mday : ℕ
  pub tm_mon : ℕ
  pub tm_year : ℕ
  pub tm_wday : ℕ
  pub tm_yday : ℕ

abbrev pub minsec : ℕ
minsec = 60

abbrev pub hoursec : ℕ
hoursec = 60 * minsec

abbrev pub daysec : ℕ
daysec = 24 * hoursec

-- 1-1-1970 was a Thursday.
abbrev pub epoch_wday : ℕ
epoch_wday = 4

pub is_leap_year : ℕ → Bool
is_leap_year yr = if yr % 400 == 0 then true else if yr % 100 == 0 then false else yr % 4 == 0

pub year_days : ℕ → ℕ
unfolding is_leap_year
year_days yr = if is_leap_year yr then 366 else 365

abbrev pub mdays : Bool → List ℕ
mdays false = 31 ∷ 28 ∷ 31 ∷ 30 ∷ 31 ∷ 30 ∷ 31 ∷ 31 ∷ 30 ∷ 31 ∷ 30 ∷ 31 ∷ []
mdays true = 31 ∷ 29 ∷ 31 ∷ 30 ∷ 31 ∷ 30 ∷ 31 ∷ 31 ∷ 30 ∷ 31 ∷ 30 ∷ 31 ∷ []

-- A read past the table is 0 here; `Calendar` shows that there is none in a month of a year.
abbrev pub mday : Bool → ℕ → ℕ
mday leap mon = get_or (mdays leap) mon 0

-- `for(i=0; i<mon; i++) yday += mdays[leap][i];`, counted by the rounds that are left.
pub add_months : Bool → (rounds i yday : ℕ) → ℕ
add_months leap zero i yday = yday
add_months leap (suc n) i yday = add_months leap n (i + 1) (yday + mday leap i)

pub day_of_year : (year mon day : ℕ) → ℕ
unfolding add_months
day_of_year year mon day = add_months (is_leap_year year) mon 0 day

-- `for(i=0; i<num_years; i++) days += YEARDAYS(year++);`
pub add_years : (rounds year days : ℕ) → ℕ
add_years zero year days = days
add_years (suc n) year days = add_years n (year + 1) (days + year_days year)

-- The time, and the fields that `mktime` corrects.
pub mktime : Tm → ℕ × Tm
unfolding add_years
mktime tm =
    let yday = day_of_year (tm.tm_year + 1900) tm.tm_mon (tm.tm_mday - 1) in
    let days = add_years (tm.tm_year - 70) 1970 yday in
    (
      days * daysec + tm.tm_hour * hoursec + tm.tm_min * minsec + tm.tm_sec,
      record tm { tm_yday = yday; tm_wday = (days + epoch_wday) % 7 },
    )

-- `while(days >= (yrdays = YEARDAYS(year)))`, on fuel: the year and the day in it.
pub find_year : (fuel year days : ℕ) → Option (ℕ × ℕ)
find_year zero year days = none
find_year (suc fuel) year days =
    let rest = find_year fuel (year + 1) (days - year_days year) in
    if leb (year_days year) days then rest else some (year, days)

-- `while(days >= mdays[leap][tm->tm_mon])`, on fuel: the month and the day in it.
pub find_month : Bool → (fuel mon days : ℕ) → Option (ℕ × ℕ)
find_month leap zero mon days = none
find_month leap (suc fuel) mon days =
    let rest = find_month leap fuel (mon + 1) (days - mday leap mon) in
    if leb (mday leap mon) days then rest else some (mon, days)

-- The fuel is more than the years and the months that can pass.
pub gmtime_r : ℕ → Option Tm
unfolding find_year find_month
gmtime_r tp =
    let days = tp / daysec in
    let t = tp % daysec in
    elim (find_year (days + 1) 1970 days) [
      | none ↦ none
      | some (year, yday) ↦ elim (find_month (is_leap_year year) 13 0 yday) [
        | none ↦ none
        | some (mon, day) ↦ some (record {
          tm_sec = t % hoursec % minsec;
          tm_min = t % hoursec / minsec;
          tm_hour = t / hoursec;
          tm_mday = day + 1;
          tm_mon = mon;
          tm_year = year - 1900;
          tm_wday = (days + epoch_wday) % 7;
          tm_yday = yday;
        })
      ]
    ]
