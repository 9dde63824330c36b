-- ===== src/Time/Rtc.antt =====
-- src/rtc.c: the real-time clock. A register is the byte that `read_reg` gives for its number, once
-- the loop on `STATA_BUSY` has ended.
use Prim.Native.Nat.{bit_and}
use pcboot.Prelude.{
  ℕ, ◌+◌, ◌-◌, ◌*◌, ◌/◌, ◌%◌, ◌^◌, ◌≤◌, ◌<◌, ◌≡◌, refl, Bool, true, false, ltb, ◌==◌, if◌then◌else◌,
  arith,
}
use pcboot.Prelude.Table.{agree, agree-eq}
use pcboot.Time.{Tm, mktime}

abbrev reg_sec : ℕ
reg_sec = 0

abbrev reg_min : ℕ
reg_min = 2

abbrev reg_hour : ℕ
reg_hour = 4

abbrev reg_day : ℕ
reg_day = 7

abbrev reg_month : ℕ
reg_month = 8

abbrev reg_year : ℕ
reg_year = 9

abbrev reg_statb : ℕ
reg_statb = 11

abbrev statb_24hr : ℕ
statb_24hr = 2 ^ 1

abbrev statb_bin : ℕ
statb_bin = 2 ^ 2

abbrev hour_pm_bit : ℕ
hour_pm_bit = 2 ^ 7

bcd_to_bin : ℕ → ℕ
bcd_to_bin x = bit_and (x / 2 ^ 4) 0xf * 10 + bit_and x 0xf

-- The number in a register, by the format of the clock.
number : (statb x : ℕ) → ℕ
unfolding bcd_to_bin
number statb x = if bit_and statb statb_bin == 0 then bcd_to_bin x else x

-- Years that have no century are of this one. Below 1900 the source gives a negative year.
full_year : ℕ → ℕ
full_year y = if ltb y 100 then y + 100 else y - 1900

-- The hour of the day from that of a clock of 12 hours.
full_hour : (statb pm hour : ℕ) → ℕ
full_hour statb pm hour =
    if bit_and statb statb_24hr == 0
    then (let h = if hour == 12 then 0 else hour in if pm == 0 then h else h + 12)
    else hour

-- The month counts from 0, which a register holds from 1. `tm_wday` and `tm_yday` are not set.
pub read_rtc : (ℕ → ℕ) → Tm → Tm
read_rtc reg tm =
    let statb = reg reg_statb in
    let pm = bit_and (reg reg_hour) hour_pm_bit in
    let hour = bit_and (reg reg_hour) (2 ^ 32 - 1 - hour_pm_bit) in
    record tm {
      tm_sec = number statb (reg reg_sec);
      tm_min = number statb (reg reg_min);
      tm_hour = full_hour statb pm (number statb hour);
      tm_mday = number statb (reg reg_day);
      tm_mon = number statb (reg reg_month) - 1;
      tm_year = full_year (number statb (reg reg_year));
    }

-- `start_time`
pub init_rtc : (ℕ → ℕ) → Tm → ℕ
unfolding read_rtc
init_rtc reg tm = (mktime (read_rtc reg tm)).0

-- How a clock in each of its formats holds a date: in BCD or binary, by 24 or by 12 hours.
abbrev encode : Bool → ℕ → ℕ
encode binary x = if binary then x else x / 10 * 16 + x % 10

abbrev clock_hour : ℕ → ℕ
clock_hour h = if h % 12 == 0 then 12 else h % 12

abbrev encode_hour : (binary day24 : Bool) → ℕ → ℕ
encode_hour binary day24 h =
    if day24
    then encode binary h
    else encode binary (clock_hour h) + (if ltb h 12 then 0 else hour_pm_bit)

abbrev encode_statb : (binary day24 : Bool) → ℕ
encode_statb binary day24 = (if binary then statb_bin else 0) + (if day24 then statb_24hr else 0)

-- The registers of a clock show the date.
pub record Shows (binary day24 : Bool) (reg : ℕ → ℕ) (tm : Tm) : Type 0 where
  pub statb : reg reg_statb ≡ encode_statb binary day24
  pub sec : reg reg_sec ≡ encode binary tm.tm_sec
  pub min : reg reg_min ≡ encode binary tm.tm_min
  pub hour : reg reg_hour ≡ encode_hour binary day24 tm.tm_hour
  pub day : reg reg_day ≡ encode binary tm.tm_mday
  pub month : reg reg_month ≡ encode binary (tm.tm_mon + 1)
  pub year : reg reg_year ≡ encode binary (tm.tm_year - 100)

bcd_table : agree 100 (λ x. bcd_to_bin (encode false x)) (λ x. x) ≡ true
unfolding bcd_to_bin agree
bcd_table = refl

-- What `read_rtc` makes of the hour register, and the hour it should be.
hour_of : (binary day24 : Bool) → ℕ → ℕ
hour_of binary day24 h =
    let statb = encode_statb binary day24 in
    let r = encode_hour binary day24 h in
    full_hour statb (bit_and r hour_pm_bit) (number statb (bit_and r (2 ^ 32 - 1 - hour_pm_bit)))

hour_table : (binary day24 : Bool) → agree 24 (hour_of binary day24) (λ h. h) ≡ true
unfolding hour_of full_hour number agree
hour_table false false = refl
hour_table false true = refl
hour_table true false = refl
hour_table true true = refl

number_of_encode :
    (binary day24 : Bool) (x : ℕ)
    → x < 100
    → number (encode_statb binary day24) (encode binary x) ≡ x
unfolding number
number_of_encode false false x h = agree-eq 100 _ _ bcd_table x h
number_of_encode false true x h = agree-eq 100 _ _ bcd_table x h
number_of_encode true false x h = refl
number_of_encode true true x h = refl

hour_of_lem :
    (binary day24 : Bool) (h : ℕ)
    → h < 24
    → (let statb = encode_statb binary day24 in
        let r = encode_hour binary day24 h in
        full_hour statb
          (bit_and r hour_pm_bit)
          (number statb (bit_and r (2 ^ 32 - 1 - hour_pm_bit))))
      ≡ h
unfolding hour_of
hour_of_lem binary day24 h lt = agree-eq 24 _ _ (hour_table binary day24) h lt

full_year_of : (y : ℕ) → 100 ≤ y → y < 200 → full_year (y - 100) ≡ y
unfolding full_year
full_year_of y from to = ground arith

-- In each of the four formats of the clock `read_rtc` fills a struct of any contents with the date that the
-- registers show, for the years 2000 to 2099, and leaves the day of the week and of the year in it alone.
pub read_rtc-Shows :
    (binary day24 : Bool) (reg : ℕ → ℕ) (before tm : Tm)
    → tm.tm_sec < 60
    → tm.tm_min < 60
    → tm.tm_hour < 24
    → tm.tm_mday < 32
    → tm.tm_mon < 12
    → 100 ≤ tm.tm_year
    → tm.tm_year < 200
    → Shows binary day24 reg tm
    → read_rtc reg before ≡ record tm { tm_wday = before.tm_wday; tm_yday = before.tm_yday }
unfolding read_rtc
read_rtc-Shows binary day24 reg before tm sec min hour day mon from to s = λ i. record before {
  tm_sec = read s.sec (omega arith) i;
  tm_min = read s.min (omega arith) i;
  tm_hour = at_hour i;
  tm_mday = read s.day (omega arith) i;
  tm_mon = at_month i;
  tm_year = at_year i;
}
  where
    read : {r x : ℕ} → r ≡ encode binary x → x < 100 → number (reg reg_statb) r ≡ x
    read {x} e h = rw (s.statb, e) (number_of_encode binary day24 x h)

    at_hour :
        full_hour
          (reg reg_statb)
          (bit_and (reg reg_hour) hour_pm_bit)
          (number (reg reg_statb) (bit_and (reg reg_hour) (2 ^ 32 - 1 - hour_pm_bit)))
        ≡ tm.tm_hour
    at_hour = rw (s.statb, s.hour) (hour_of_lem binary day24 tm.tm_hour hour)

    at_month : number (reg reg_statb) (reg reg_month) - 1 ≡ tm.tm_mon
    at_month = rw (read s.month (omega arith)) (omega arith)

    at_year : full_year (number (reg reg_statb) (reg reg_year)) ≡ tm.tm_year
    at_year = rw (read s.year (omega arith)) (full_year_of tm.tm_year from to)
