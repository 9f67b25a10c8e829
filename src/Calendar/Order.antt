-- ===== src/Calendar/Order.antt =====
-- Valid dates in order: by their month, counted from year 0, and by a number for each day.
use nelson_lending_v.Prelude.{ℕ, ◌+◌, ◌-◌, ◌*◌, ◌≤◌, ◌<◌, ◌≡◌, ◌↔◌, true, arith}
use nelson_lending_v.Prelude.Result.{ok}
use nelson_lending_v.Calendar.{Date, IsDate, new_date, days_in_month, date_lt, date_le}

-- Months since year 0.
abbrev pub month_index : Date → ℕ
month_index d = d.year * 12 + (d.month - 1)

-- A number for each day that orders valid dates; not the day count.
abbrev pub day_key : Date → ℕ
day_key d = month_index d * 31 + (d.day - 1)

pub days_in_month_bounds : (y m : ℕ) → (28 ≤ days_in_month y m) × (days_in_month y m ≤ 31)
unfolding days_in_month
days_in_month_bounds y m = ground arith

pub new_date-IsDate : (y m d : ℕ) {t : Date} → new_date y m d ≡ ok t → IsDate t
unfolding new_date
new_date-IsDate y m d h = ground arith

pub new_date-eq_ok :
    (y m d : ℕ) {t : Date} → new_date y m d ≡ ok t → (t.year ≡ y) × (t.month ≡ m) × (t.day ≡ d)
unfolding new_date
new_date-eq_ok y m d h = ground arith

pub new_date_total :
    (y m d : ℕ)
    → 1 ≤ y
    → y ≤ 9999
    → 1 ≤ m
    → m ≤ 12
    → 1 ≤ d
    → d ≤ days_in_month y m
    → new_date y m d ≡ ok (record { year = y; month = m; day = d })
unfolding new_date
new_date_total y m d a b c e f g = ground arith

pub date_lt_iff :
    (a b : Date) → IsDate a → IsDate b → (date_lt a b ≡ true) ↔ (day_key a < day_key b)
unfolding date_lt
date_lt_iff a b ha hb =
    ground (arith, days_in_month_bounds a.year a.month, days_in_month_bounds b.year b.month)

pub date_le_iff :
    (a b : Date) → IsDate a → IsDate b → (date_le a b ≡ true) ↔ (day_key a ≤ day_key b)
unfolding date_le
date_le_iff a b ha hb =
    ground (arith, days_in_month_bounds a.year a.month, days_in_month_bounds b.year b.month)

pub new_date_self : (d : Date) → IsDate d → new_date d.year d.month d.day ≡ ok d
new_date_self d v =
    new_date_total d.year d.month d.day v.year_pos v.year_le v.month_pos v.month_le v.day_pos
      v.day_le
