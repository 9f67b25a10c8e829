-- ===== src/Calculator/DueDates/Advance.antt =====
-- `advance_due_date`, with which accrual walks over the due dates, agrees with the schedule that
-- `build_due_dates` lists, and always moves forward.
use nelson_lending_v.Prelude.{
  ℕ, suc, ◌+◌, ◌<◌, ◌≡◌, arith, min, List, some, true, get_elem?, Bool-cases, inl, inr, ◌==◌,
}
use nelson_lending_v.Prelude.Int.{pos}
use nelson_lending_v.Prelude.Result.{ok}
use nelson_lending_v.Calendar.{Date, IsDate, days_in_month, date_lt}
use nelson_lending_v.Calendar.Order.{
  month_index, new_date-IsDate, new_date-eq_ok, new_date_self, days_in_month_bounds, date_lt_iff,
}
use nelson_lending_v.Calculator.DueDates.{
  monthly, twice_monthly, build_due_dates, advance_due_date, next_year, next_month,
}
use nelson_lending_v.Calculator.DueDates.Monthly.{build_due_dates-IsMonthlyDue}
use nelson_lending_v.Calculator.DueDates.TwiceMonthly.{half_index, build_due_dates-IsHalfMonthDue}

-- The date that accrual advances to is the one that the schedule lists next.
pub advance_due_date-monthly :
    (first : Date) (n k : ℕ) {ds : List Date} {d e : Date}
    → IsDate first
    → build_due_dates first monthly (pos n) ≡ ok ds
    → get_elem? ds k ≡ some d
    → get_elem? ds (suc k) ≡ some e
    → advance_due_date d monthly first ≡ ok e
unfolding advance_due_date
advance_due_date-monthly first n k {d = d} {e = e} valid h hd he =
    let this = build_due_dates-IsMonthlyDue first n k valid h hd in
    let next = build_due_dates-IsMonthlyDue first n (suc k) valid h he in
    let y : next_year d.year d.month ≡ e.year = ground (arith, this, next) in
    let m : next_month d.month ≡ e.month = ground (arith, this, next) in
    rw (y, m, ← next.on_day) (new_date_self e next.valid)

-- Every accrual step moves the due date forward, into the next month.
pub advance_due_date_later :
    (first d : Date) {e : Date}
    → IsDate first
    → IsDate d
    → advance_due_date d monthly first ≡ ok e
    → IsDate e × (month_index e ≡ month_index d + 1) × (date_lt d e ≡ true)
unfolding advance_due_date
advance_due_date_later first d {e} vf vd h =
    let y = next_year d.year d.month in
    let m = next_month d.month in
    let day = min first.day (days_in_month y m) in
    let valid = new_date-IsDate y m day h in
    let (ey, em, ed) = new_date-eq_ok y m day h in
    let next : month_index e ≡ month_index d + 1 = ground arith in
    (valid, next, (date_lt_iff d e vd valid).1 (omega (arith, days_in_month_bounds d.year d.month)))

-- The same of a twice-monthly schedule.
pub advance_due_date-twice_monthly :
    (first : Date) (n k : ℕ) {ds : List Date} {d e : Date}
    → IsDate first
    → build_due_dates first twice_monthly (pos n) ≡ ok ds
    → get_elem? ds k ≡ some d
    → get_elem? ds (suc k) ≡ some e
    → advance_due_date d twice_monthly first ≡ ok e
unfolding advance_due_date
advance_due_date-twice_monthly first n k {d = d} {e = e} valid h hd he =
    let this = (build_due_dates-IsHalfMonthDue first n k valid h hd).1 in
    let next = (build_due_dates-IsHalfMonthDue first n (suc k) valid h he).1 in
    let self = new_date_self e next.valid in
    let long = days_in_month_bounds d.year d.month in
    let long' = days_in_month_bounds e.year e.month in ground arith

-- Every twice-monthly accrual step moves the due date forward.
pub advance_due_date_later_twice :
    (first d : Date) {e : Date}
    → IsDate d
    → advance_due_date d twice_monthly first ≡ ok e
    → IsDate e × (half_index d < half_index e) × (date_lt d e ≡ true)
unfolding advance_due_date
advance_due_date_later_twice first d {e} vd h =
    let long = days_in_month_bounds d.year d.month in
    elim (Bool-cases (d.day == 15)) [
      | inl fifteenth ↦
          let h' = rw fifteenth at h in
          let v = new_date-IsDate d.year d.month (days_in_month d.year d.month) h' in
          let f = new_date-eq_ok d.year d.month (days_in_month d.year d.month) h' in
          (v, ground arith, (date_lt_iff d e vd v).1 (ground arith))
      | inr last ↦
          let h' = rw last at h in
          let v = new_date-IsDate (next_year d.year d.month) (next_month d.month) 15 h' in
          let f = new_date-eq_ok (next_year d.year d.month) (next_month d.month) 15 h' in
          (v, ground arith, (date_lt_iff d e vd v).1 (ground arith))
    ]
