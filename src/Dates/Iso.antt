-- ===== src/Dates/Iso.antt =====
-- src/server/task.rs: `iso_now`, from the seconds of the system clock.
use ida_rs_cli.Base.{ℕ, ◌/◌, ◌%◌, List, [], ◌∷◌, ◌++◌}
use ida_rs_cli.Base.Text.{padded}
use ida_rs_cli.Dates.{Date, epoch_days_to_ymd}

-- `{year:04}-{month:02}-{day:02}T{hours:02}:{minutes:02}:{seconds:02}Z`
unfoldable pub iso_text : Date → ℕ → ℕ → ℕ → List ℕ
unfolding padded
iso_text date hours minutes seconds =
    padded 4 date.year
    ++ (b'-' ∷ padded 2 date.month)
    ++ (b'-' ∷ padded 2 date.day)
    ++ (b'T' ∷ padded 2 hours)
    ++ (b':' ∷ padded 2 minutes)
    ++ (b':' ∷ padded 2 seconds)
    ++ (b'Z' ∷ [])

unfoldable pub iso_of_secs : ℕ → List ℕ
unfolding iso_text epoch_days_to_ymd
iso_of_secs secs =
    let days = secs / 86400 in
    let time_secs = secs % 86400 in
    iso_text (epoch_days_to_ymd days) (time_secs / 3600) (time_secs % 3600 / 60) (time_secs % 60)
