-- ===== src/Tests/Dates.antt =====
-- The dates at one day, 2024-02-29.
use ida_rs_cli.Base.{◌+◌, ◌≡◌, refl}
use ida_rs_cli.Dates.{epoch_days_to_ymd, civil_from_days, days_from_civil}
use ida_rs_cli.Dates.Round.{IsCivil, days_from_civil-civil_from_days}

leap_day : civil_from_days 19782 ≡ record { year = 2024; month = 2; day = 29 }
unfolding civil_from_days
leap_day = refl

days_from_civil-civil_from_days_example :
    (days_from_civil (civil_from_days 19782) ≡ 19782 + 719468)
    × (epoch_days_to_ymd 19782 ≡ civil_from_days 19782)
    × IsCivil (civil_from_days 19782)
days_from_civil-civil_from_days_example = days_from_civil-civil_from_days 19782
