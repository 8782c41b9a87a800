-- ===== src/Dates.antt =====
-- The civil dates of src/server/task.rs and src/spill.rs, days being counted from 1970-01-01.
pub mod Iso
pub mod Round
use ida_rs_cli.Base.{ℕ, ◌+◌, ◌-◌, ◌*◌, ◌/◌, Bool, if◌then◌else◌, ltb, leb}

pub record Date : Type 0 where
  pub year : ℕ
  pub month : ℕ
  pub day : ℕ

-- The day of the era (400 years, from March of year 0) and what the algorithm makes of it.
unfoldable pub year_of_era : ℕ → ℕ
year_of_era doe = (doe - doe / 1460 + doe / 36524 - doe / 146096) / 365

unfoldable pub epoch_days_to_ymd : ℕ → Date
unfolding year_of_era
epoch_days_to_ymd days =
    let z = days + 719468 in
    let era = z / 146097 in
    let doe = z - era * 146097 in
    let yoe = year_of_era doe in
    let y = yoe + era * 400 in
    let doy = doe - (365 * yoe + yoe / 4 - yoe / 100) in
    let mp = (5 * doy + 2) / 153 in
    let d = doy - (153 * mp + 2) / 5 + 1 in
    let m = if ltb mp 10 then mp + 3 else mp - 9 in
    record { year = if leb m 2 then y + 1 else y; month = m; day = d }

-- `civil_from_days` of src/spill.rs, of a day that is not before 1970.
unfoldable pub civil_from_days : ℕ → Date
unfolding year_of_era
civil_from_days days =
    let z = days + 719468 in
    let era = z / 146097 in
    let doe = z - era * 146097 in
    let yoe = year_of_era doe in
    let y = yoe + era * 400 in
    let doy = doe - (365 * yoe + yoe / 4 - yoe / 100) in
    let mp = (5 * doy + 2) / 153 in
    let d = doy - (153 * mp + 2) / 5 + 1 in
    let m = if ltb mp 10 then mp + 3 else mp - 9 in
    let year = if leb m 2 then y + 1 else y in record { year = year; month = m; day = d }

-- `days_from_civil` of src/spill.rs from March of year 0 on, so that no difference is negative;
-- the result has the 719468 days before 1970 still in it.
unfoldable pub days_from_civil : Date → ℕ
days_from_civil date =
    let y = if leb date.month 2 then date.year - 1 else date.year in
    let era = y / 400 in
    let yoe = y - era * 400 in
    let shifted = if ltb 2 date.month then date.month - 3 else date.month + 9 in
    let doy = (153 * shifted + 2) / 5 + date.day - 1 in
    let doe = yoe * 365 + yoe / 4 - yoe / 100 + doy in era * 146097 + doe

abbrev pub spill_retention_days : ℕ
spill_retention_days = 3

-- The test of `prune_old_spills` on the date in a directory's name, `today` being counted from 1970:
-- `today_days - dir_days > SPILL_RETENTION_DAYS`, with the sum on the other side.
unfoldable pub is_expired : ℕ → Date → Bool
is_expired today date = ltb (days_from_civil date + spill_retention_days) (today + 719468)
