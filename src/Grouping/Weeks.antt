-- ===== src/Grouping/Weeks.antt =====
-- viofosync_lib/_archive.py: the folder of a week.
use viofosync.Prelude.{
  ℕ, zero, suc, ◌+◌, ◌-◌, ◌%◌, ◌≤◌, ◌<◌, ◌≡◌, ◌≢◌, refl, true, false, arith, ltb, leb, le→leb, ◌==◌,
  if◌then◌else◌, Bool-cases, inl, inr,
}
use viofosync.Grouping.{
  Date, is_leap, days_in_month, is_valid_date, days_before_year, days_before_month, ordinal,
  weekday, previous_day, days_back, week_start,
}

year-days :
    (q : ℕ)
    → 1 ≤ q
    → days_before_year (q + 1) ≡ days_before_year q + (if is_leap q then 366 else 365)
unfolding days_before_year is_leap
year-days q h = elim (Bool-cases (q % 4 == 0)) [
  | inr n ↦
      let a : q % 4 ≢ 0 = ground arith in
      let b : (q % 400 == 0) ≡ false = ground arith in rw (n, b) (omega arith)
  | inl yes4 ↦
      let a : q % 4 ≡ 0 = ground arith in
      elim (Bool-cases (q % 100 == 0)) [
        | inr n ↦
            let c : q % 100 ≢ 0 = ground arith in
            let b : (q % 400 == 0) ≡ false = ground arith in rw (yes4, n) (omega arith)
        | inl yes100 ↦
            let c : q % 100 ≡ 0 = ground arith in
            elim (Bool-cases (q % 400 == 0)) [
              | inr n ↦ let e : q % 400 ≢ 0 = ground arith in rw (yes4, yes100, n) (omega arith)
              | inl yes400 ↦
                  let e : q % 400 ≡ 0 = ground arith in rw (yes4, yes100, yes400) (omega arith)
            ]
      ]
]

twelve-months : (y : ℕ) → days_before_month y 12 + 31 ≡ (if is_leap y then 366 else 365)
unfolding days_before_month days_in_month
twelve-months y = elim (Bool-cases (is_leap y)) [ inl e ↦ rw e refl | inr e ↦ rw e refl ]

month-days :
    (y m : ℕ)
    → 1 < m
    → days_before_month y (m - 1) + days_in_month y (m - 1) ≡ days_before_month y m
unfolding days_before_month
month-days y (suc zero) h = absurd (omega arith)
month-days y (suc (suc m)) h = let e : suc (suc m) - 1 ≡ suc m = omega arith in rw e refl
month-days y zero h = absurd (omega arith)

days_in_month-positive : (y m : ℕ) → 28 ≤ days_in_month y m
unfolding days_in_month
days_in_month-positive y m = ground arith

-- The day before is one less, and a date too.
Before : Date → Date → Type 0
Before d e = (ordinal e + 1 ≡ ordinal d) × (is_valid_date e ≡ true)

day-Before :
    (d : Date)
    → is_valid_date d ≡ true
    → ltb 1 d.day ≡ true
    → Before d (record d { day = d.day - 1 })
unfolding ordinal is_valid_date Before
day-Before d v h = (ground arith, ground arith)

month-Before :
    (d : Date)
    → is_valid_date d ≡ true
    → ltb 1 d.day ≡ false
    → ltb 1 d.month ≡ true
    → Before d (record d { month = d.month - 1; day = days_in_month d.year (d.month - 1) })
unfolding ordinal is_valid_date Before
month-Before d v h k =
    let e = month-days d.year d.month (ground arith) in
    let p = days_in_month-positive d.year (d.month - 1) in (ground arith, ground arith)

year-Before :
    (d : Date)
    → is_valid_date d ≡ true
    → ltb 1 d.day ≡ false
    → ltb 1 d.month ≡ false
    → 2 ≤ d.year
    → Before d (record { year = d.year - 1; month = 12; day = 31 })
unfolding ordinal is_valid_date Before days_before_month days_in_month
year-Before d v h k y =
    let e = year-days (d.year - 1) (omega arith) in
    let t = twelve-months (d.year - 1) in
    let same : d.year - 1 + 1 ≡ d.year = omega arith in
    let m : d.month ≡ 1 = ground arith in
    let one : d.day ≡ 1 = ground arith in
    let first : days_before_month d.year d.month ≡ 0 = rw m refl in
    let all_days : days_before_year d.year
        ≡ days_before_year (d.year - 1) + (days_before_month (d.year - 1) 12 + 31) =
      rw t (rw same at e) in
    (omega arith, rw (le→leb 1 (d.year - 1) (omega arith)) refl)

later_year :
    (d : Date)
    → is_valid_date d ≡ true
    → 1 < ordinal d
    → ltb 1 d.day ≡ false
    → ltb 1 d.month ≡ false
    → 2 ≤ d.year
unfolding ordinal is_valid_date days_before_month days_before_year
later_year d v o h k =
    let m : d.month ≡ 1 = ground arith in
    let one : d.day ≡ 1 = ground arith in
    let y : 1 ≤ d.year = ground arith in
    let first : days_before_month d.year d.month ≡ 0 = rw m refl in
    elim (Bool-cases (leb 2 d.year)) [
      | inl e ↦ ground arith
      | inr e ↦
          let same : d.year ≡ 1 = ground arith in
          let zeroth : days_before_year d.year ≡ 0 = rw same refl in absurd (omega arith)
    ]

previous_day-Before :
    (d : Date) → is_valid_date d ≡ true → 1 < ordinal d → Before d (previous_day d)
unfolding previous_day
previous_day-Before d v o = elim (Bool-cases (ltb 1 d.day)) [
  | inl h ↦ rw h (day-Before d v h)
  | inr h ↦ elim (Bool-cases (ltb 1 d.month)) [
    | inl k ↦ rw (h, k) (month-Before d v h k)
    | inr k ↦ rw (h, k) (year-Before d v h k (later_year d v o h k))
  ]
]

days_back-ordinal :
    (n : ℕ) (d : Date)
    → is_valid_date d ≡ true
    → n < ordinal d
    → (ordinal (days_back n d) + n ≡ ordinal d) × (is_valid_date (days_back n d) ≡ true)
unfolding days_back Before
days_back-ordinal zero d v h = (omega arith, v)
days_back-ordinal (suc n) d v h =
    let (e, w) = previous_day-Before d v (omega arith) in
    let (f, x) = days_back-ordinal n (previous_day d) w (omega arith) in (omega arith, x)

-- The folder of a week is named for a date, that date is a Monday, and it lies at most six days
-- before the recording's, which is a date.
pub week_start-Monday :
    (d : Date)
    → is_valid_date d ≡ true
    → (is_valid_date (week_start d) ≡ true)
      × (weekday (week_start d) ≡ 0)
      × (ordinal (week_start d) ≤ ordinal d)
      × (ordinal d ≤ ordinal (week_start d) + 6)
unfolding week_start weekday
week_start-Monday d v =
    let positive : 1 ≤ ordinal d = unfold ordinal is_valid_date in ground arith in
    let (e, w) = days_back-ordinal ((ordinal d + 6) % 7) d v (omega arith) in
    (w, omega arith, omega arith, omega arith)
