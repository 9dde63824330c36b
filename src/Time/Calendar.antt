-- ===== src/Time/Calendar.antt =====
-- The loops of time.c over years and months: they end, and undo the sums.
use pcboot.Prelude.{
  ℕ, zero, suc, ◌+◌, ◌-◌, ◌≤◌, ◌<◌, ◌≡◌, refl, ap, ◌∙◌, Bool, true, some, leb, arith, Bool-cases,
  inl, inr,
}
use pcboot.Time.{is_leap_year, year_days, mday, add_months, add_years, find_year, find_month}

pub year_days_bounds : (y : ℕ) → (365 ≤ year_days y) × (year_days y ≤ 366)
unfolding year_days
year_days_bounds y = ground arith

pub add_years-add : (n y a b : ℕ) → add_years n y (a + b) ≡ add_years n y a + b
unfolding add_years
add_years-add zero y a b = refl
add_years-add (suc n) y a b =
    ap (add_years n (y + 1)) (omega arith) ∙ add_years-add n (y + 1) (a + year_days y) b

pub add_months-add :
    (leap : Bool) (n i a b : ℕ) → add_months leap n i (a + b) ≡ add_months leap n i a + b
unfolding add_months
add_months-add leap zero i a b = refl
add_months-add leap (suc n) i a b =
    ap (add_months leap n (i + 1)) (omega arith) ∙ add_months-add leap n (i + 1) (a + mday leap i) b

-- The search for the year ends, with a day inside the year, and the sum over the years gives the day
-- back.
pub find_year-add_years :
    (fuel y d : ℕ)
    → d < fuel
    → (k r : ℕ) × (find_year fuel y d ≡ some (y + k, r))
      × (add_years k y r ≡ d)
      × (r < year_days (y + k))
unfolding find_year add_years
find_year-add_years zero y d h = absurd (omega arith)
find_year-add_years (suc fuel) y d h = elim (Bool-cases (leb (year_days y) d)) [
  | inl later ↦
      let (k, r, found, back, inside) =
        find_year-add_years fuel (y + 1) (d - year_days y) (ground (arith, year_days_bounds y)) in
      let year : y + 1 + k ≡ y + suc k = omega arith in
      (
        suc k,
        r,
        rw (later, ← year) found,
        ground (arith, add_years-add k (y + 1) r (year_days y)),
        rw (← year) inside,
      )
  | inr here ↦
      let year : y + 0 ≡ y = omega arith in (0, d, rw (here, year), refl, rw year (ground arith))
]

-- The days of the months from `i` on, of which `n` are left.
abbrev pub left : Bool → (n i : ℕ) → ℕ
left leap zero i = 0
left leap (suc n) i = mday leap i + left leap n (i + 1)

pub year_days-months : (y : ℕ) → year_days y ≡ left (is_leap_year y) 12 0
unfolding year_days
year_days-months y = elim (Bool-cases (is_leap_year y)) [
  | inl leap ↦ rw leap
  | inr common ↦ rw common
]

pub find_month-add_months :
    (leap : Bool) (n i d : ℕ)
    → d < left leap n i
    → (k r : ℕ) × (find_month leap (suc n) i d ≡ some (i + k, r))
      × (add_months leap k i r ≡ d)
      × (r < mday leap (i + k))
      × (k < n)
unfolding find_month add_months
find_month-add_months leap zero i d h = elim h [ ]
find_month-add_months leap (suc n) i d h = elim (Bool-cases (leb (mday leap i) d)) [
  | inl later ↦
      let (k, r, found, back, inside, within) =
        find_month-add_months leap n (i + 1) (d - mday leap i) (ground arith) in
      let month : i + 1 + k ≡ i + suc k = omega arith in
      (
        suc k,
        r,
        rw (later, ← month) found,
        ground (arith, add_months-add leap k (i + 1) r (mday leap i)),
        rw (← month) inside,
        omega arith,
      )
  | inr here ↦
      let month : i + 0 ≡ i = omega arith in
      (0, d, rw (here, month), refl, rw month (ground arith), omega arith)
]

-- The searches also undo the sums.
pub find_year_of_sum :
    (k y r fuel : ℕ)
    → r < year_days (y + k)
    → add_years k y r < fuel
    → find_year fuel y (add_years k y r) ≡ some (y + k, r)
unfolding find_year add_years
find_year_of_sum k y r zero inside h = absurd (omega arith)
find_year_of_sum zero y r (suc fuel) inside h =
    let year : y + 0 ≡ y = omega arith in rw year (ground (arith, ap year_days year))
find_year_of_sum (suc k) y r (suc fuel) inside h =
    let sum = add_years-add k (y + 1) r (year_days y) in
    let year : y + 1 + k ≡ y + suc k = omega arith in
    let passed : leb (year_days y) (add_years k (y + 1) (r + year_days y)) ≡ true = ground arith in
    let before : add_years k (y + 1) (r + year_days y) - year_days y ≡ add_years k (y + 1) r =
      omega arith in
    rw (passed, before, ← year)
      (find_year_of_sum k (y + 1) r fuel (rw year inside) (omega (arith, year_days_bounds y)))

pub find_month_of_sum :
    (leap : Bool) (k i r fuel : ℕ)
    → r < mday leap (i + k)
    → k < fuel
    → find_month leap fuel i (add_months leap k i r) ≡ some (i + k, r)
unfolding find_month add_months
find_month_of_sum leap k i r zero inside h = absurd (omega arith)
find_month_of_sum leap zero i r (suc fuel) inside h =
    let month : i + 0 ≡ i = omega arith in rw month (ground (arith, ap (mday leap) month))
find_month_of_sum leap (suc k) i r (suc fuel) inside h =
    let sum = add_months-add leap k (i + 1) r (mday leap i) in
    let month : i + 1 + k ≡ i + suc k = omega arith in
    let passed : leb (mday leap i) (add_months leap k (i + 1) (r + mday leap i)) ≡ true =
      ground arith in
    let before : add_months leap k (i + 1) (r + mday leap i) - mday leap i
        ≡ add_months leap k (i + 1) r =
      omega arith in
    rw (passed, before, ← month)
      (find_month_of_sum leap k (i + 1) r fuel (rw month inside) (omega arith))

-- A day of one of the months is a day of them together.
pub add_months-lt-left :
    (leap : Bool) (n k i r : ℕ)
    → k < n
    → r < mday leap (i + k)
    → add_months leap k i r < left leap n i
unfolding add_months
add_months-lt-left leap zero k i r h inside = absurd (omega arith)
add_months-lt-left leap (suc n) zero i r h inside =
    let month : i + 0 ≡ i = omega arith in omega (arith, ap (mday leap) month)
add_months-lt-left leap (suc n) (suc k) i r h inside =
    let month : i + 1 + k ≡ i + suc k = omega arith in
    omega (
      arith,
      add_months-add leap k (i + 1) r (mday leap i),
      add_months-lt-left leap n k (i + 1) r (omega arith) (rw month inside),
    )
