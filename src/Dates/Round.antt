-- ===== src/Dates/Round.antt =====
-- src/server/task.rs and src/spill.rs: the date of a day, and the day of that date.
use ida_rs_cli.Base.{
  ℕ, ◌+◌, ◌-◌, ◌*◌, ◌/◌, ◌≤◌, ◌<◌, true, false, if◌then◌else◌, ltb, leb, ◌≡◌, refl, ◌∙◌, arith,
  Bool-cases, inl, inr,
}
use ida_rs_cli.Dates.{
  Date, year_of_era, epoch_days_to_ymd, civil_from_days, days_from_civil, is_expired,
  spill_retention_days,
}

-- The year of a day of the era, and the days before that year.
record YearBounds (doe yoe : ℕ) : Type 0 where
  small : yoe ≤ 399
  low : 365 * yoe + yoe / 4 ≤ doe + yoe / 100
  high : doe + yoe / 100 ≤ 365 * yoe + yoe / 4 + 365

year_of_era-YearBounds : (doe : ℕ) → doe < 146097 → YearBounds doe (year_of_era doe)
unfolding year_of_era
year_of_era-YearBounds doe h = record { small = omega arith; low = omega arith; high = omega arith }

-- The shape that both algorithms share, over the year of the era and the day of the year.
abbrev date_of : ℕ → ℕ → ℕ → Date
date_of era yoe doy =
    let mp = (5 * doy + 2) / 153 in
    let m = if ltb mp 10 then mp + 3 else mp - 9 in
    record {
      year = if leb m 2 then yoe + era * 400 + 1 else yoe + era * 400;
      month = m;
      day = doy - (153 * mp + 2) / 5 + 1;
    }

-- A month from 1 to 12 and a day from 1 to 31.
pub record IsCivil (date : Date) : Type 0 where
  pub month_low : 1 ≤ date.month
  pub month_high : date.month ≤ 12
  pub day_low : 1 ≤ date.day
  pub day_high : date.day ≤ 31

date_of-IsCivil : (era yoe doy : ℕ) → doy ≤ 365 → IsCivil (date_of era yoe doy)
date_of-IsCivil era yoe doy h = elim (Bool-cases (ltb ((5 * doy + 2) / 153) 10)) [
  | inl early ↦ rw early (record {
    month_low = omega arith;
    month_high = ground arith;
    day_low = omega arith;
    day_high = omega arith;
  })
  | inr late ↦ rw late (record {
    month_low = ground arith;
    month_high = omega arith;
    day_low = omega arith;
    day_high = omega arith;
  })
]

era_of : (era yoe : ℕ) → yoe ≤ 399 → (yoe + era * 400) / 400 ≡ era
era_of era yoe h = omega arith

days_from_civil-date_of :
    (era yoe doy : ℕ)
    → yoe ≤ 399
    → doy ≤ 365
    → days_from_civil (date_of era yoe doy) ≡ era * 146097 + (yoe * 365 + yoe / 4 - yoe / 100 + doy)
unfolding days_from_civil
days_from_civil-date_of era yoe doy small h =
    let mp = (5 * doy + 2) / 153 in
    let era_back = era_of era yoe small in
    let yoe_back : yoe + era * 400 - era * 400 ≡ yoe = omega arith in
    elim (Bool-cases (ltb mp 10)) [
      | inl early ↦
          let plain : leb (mp + 3) 2 ≡ false = ground arith in
          let shifted : ltb 2 (mp + 3) ≡ true = ground arith in
          let mp_back : mp + 3 - 3 ≡ mp = omega arith in
          rw (early, plain, shifted, era_back, yoe_back, mp_back) (omega arith)
      | inr late ↦
          let next : leb (mp - 9) 2 ≡ true = ground arith in
          let shifted : ltb 2 (mp - 9) ≡ false = ground arith in
          let y_back : yoe + era * 400 + 1 - 1 ≡ yoe + era * 400 = omega arith in
          let mp_back : mp - 9 + 9 ≡ mp = ground arith in
          rw (late, next, shifted, y_back, era_back, yoe_back, mp_back) (omega arith)
    ]

-- The era, the year of the era and the day of the year from a day counted from March of year 0.
abbrev parts_date : ℕ → Date
parts_date z =
    let doe = z - z / 146097 * 146097 in
    let yoe = year_of_era doe in date_of (z / 146097) yoe (doe - (365 * yoe + yoe / 4 - yoe / 100))

parts_date-round : (z : ℕ) → (days_from_civil (parts_date z) ≡ z) × IsCivil (parts_date z)
parts_date-round z =
    let doe = z - z / 146097 * 146097 in
    let yoe = year_of_era doe in
    let b = year_of_era-YearBounds doe (omega arith) in
    let doy_small : doe - (365 * yoe + yoe / 4 - yoe / 100) ≤ 365 = omega (arith, b.low, b.high) in
    (
      days_from_civil-date_of (z / 146097) yoe _ b.small doy_small ∙ omega (arith, b.low, b.high),
      date_of-IsCivil (z / 146097) yoe _ doy_small,
    )

-- From 1970-01-01 on, the day of the date of a day is that day again, counted from March of year 0:
-- `days_from_civil` undoes `civil_from_days`, and `epoch_days_to_ymd` gives the same dates. Months are
-- from 1 to 12 and days from 1 to 31.
pub days_from_civil-civil_from_days :
    (days : ℕ)
    → (days_from_civil (civil_from_days days) ≡ days + 719468)
      × (epoch_days_to_ymd days ≡ civil_from_days days)
      × IsCivil (civil_from_days days)
unfolding civil_from_days epoch_days_to_ymd
days_from_civil-civil_from_days days =
    let (round, civil) = parts_date-round (days + 719468) in (round, refl, civil)

-- The spills of a day are pruned exactly when that day is more than three days ago.
pub is_expired-civil_from_days :
    (today day : ℕ)
    → is_expired today (civil_from_days day) ≡ ltb (day + spill_retention_days) today
unfolding is_expired
is_expired-civil_from_days today day =
    let round = (days_from_civil-civil_from_days day).0 in rw round (ground arith)
