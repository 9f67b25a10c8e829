-- ===== src/Calendar.antt =====
-- Python's `datetime.date` and `calendar.monthrange`, as far as the backend uses them.
pub mod Order
pub mod Days
use nelson_lending_v.Prelude.{
  ℕ, ◌+◌, ◌*◌, ◌-◌, ◌%◌, ◌≤◌, ◌<◌, Bool, ◌&&◌, ◌||◌, not, ltb, leb, ◌==◌, if◌then◌else◌,
}
use nelson_lending_v.Prelude.Result.{Result, ok, err, date_out_of_range}

pub record Date : Type 0 where
  pub year : ℕ
  pub month : ℕ
  pub day : ℕ

unfoldable pub is_leap : ℕ → Bool
is_leap year = (year % 4 == 0) && (not (year % 100 == 0) || (year % 400 == 0))

-- `calendar.monthrange(year, month)[1]`
unfoldable pub days_in_month : ℕ → ℕ → ℕ
unfolding is_leap
days_in_month year month =
    if month == 2
    then if is_leap year then 29 else 28
    else if (month == 4) || (month == 6) || (month == 9) || (month == 11)
    then 30
    else 31

-- `date(year, month, day)`, which raises `ValueError` out of range.
unfoldable pub new_date : ℕ → ℕ → ℕ → Result Date
new_date year month day =
    if leb 1 year
      && leb year 9999
      && leb 1 month
      && leb month 12
      && leb 1 day
      && leb day (days_in_month year month)
    then ok (record { year = year; month = month; day = day })
    else err date_out_of_range

-- What every `date` object satisfies.
pub record IsDate (d : Date) : Type 0 where
  pub year_pos : 1 ≤ d.year
  pub year_le : d.year ≤ 9999
  pub month_pos : 1 ≤ d.month
  pub month_le : d.month ≤ 12
  pub day_pos : 1 ≤ d.day
  pub day_le : d.day ≤ days_in_month d.year d.month

-- Dates compare by year, month and day.
unfoldable pub date_lt : Date → Date → Bool
date_lt a b =
    ltb a.year b.year
    || ((a.year == b.year) && (ltb a.month b.month || ((a.month == b.month) && ltb a.day b.day)))

unfoldable pub date_le : Date → Date → Bool
unfolding date_lt
date_le a b = not (date_lt b a)

unfoldable pub date_eq : Date → Date → Bool
date_eq a b = (a.year == b.year) && (a.month == b.month) && (a.day == b.day)
