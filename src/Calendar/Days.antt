-- ===== src/Calendar/Days.antt =====
-- `date + timedelta(days=n)` and `date - timedelta(days=n)`, which raise `OverflowError` out of
-- range.
use nelson_lending_v.Prelude.{ℕ, zero, suc, ◌+◌, ◌-◌, ltb, if◌then◌else◌}
use nelson_lending_v.Prelude.Result.{Result, ok, err, ◌>>=◌, date_out_of_range}
use nelson_lending_v.Calendar.{Date, days_in_month}

abbrev pub on : ℕ → ℕ → ℕ → Date
on year month day = record { year = year; month = month; day = day }

unfoldable pub next_day : Date → Result Date
unfolding days_in_month
next_day d =
    if ltb d.day (days_in_month d.year d.month)
    then ok (on d.year d.month (d.day + 1))
    else if ltb d.month 12
    then ok (on d.year (d.month + 1) 1)
    else if ltb d.year 9999
    then ok (on (d.year + 1) 1 1)
    else err date_out_of_range

unfoldable pub previous_day : Date → Result Date
unfolding days_in_month
previous_day d =
    if ltb 1 d.day
    then ok (on d.year d.month (d.day - 1))
    else if ltb 1 d.month
    then ok (on d.year (d.month - 1) (days_in_month d.year (d.month - 1)))
    else if ltb 1 d.year
    then ok (on (d.year - 1) 12 31)
    else err date_out_of_range

unfoldable pub plus_days : ℕ → Date → Result Date
unfolding next_day
plus_days zero d = ok d
plus_days (suc n) d = next_day d >>= plus_days n

unfoldable pub minus_days : ℕ → Date → Result Date
unfolding previous_day
minus_days zero d = ok d
minus_days (suc n) d = previous_day d >>= minus_days n
