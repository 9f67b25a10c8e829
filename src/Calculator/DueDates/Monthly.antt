-- ===== src/Calculator/DueDates/Monthly.antt =====
-- The monthly schedule: one due date in each month, on the anchor day or the month's last.
use native.Mathlib.Nat.{zero-add}
use nelson_lending_v.Prelude.{
  ℕ, zero, suc, ◌+◌, ◌-◌, ◌/◌, ◌%◌, ◌≤◌, ◌<◌, ◌≡◌, ◌∙◌, refl, arith, min, List, [], ◌∷◌, some,
  length, get_elem?,
}
use nelson_lending_v.Prelude.Int.{pos, pos-not-le-zero}
use nelson_lending_v.Prelude.Result.{ok, cons-eq_ok}
use nelson_lending_v.Calendar.{Date, IsDate, days_in_month}
use nelson_lending_v.Calendar.Order.{
  month_index, new_date-IsDate, new_date-eq_ok, new_date_total, days_in_month_bounds,
}
use nelson_lending_v.Calculator.DueDates.{
  monthly, monthly_due_date, monthly_due_dates, build_due_dates,
}

-- `d` is due `i` months after `first`, on the day of `first` if the month has it.
pub record IsMonthlyDue (first : Date) (i : ℕ) (d : Date) : Type 0 where
  pub valid : IsDate d
  pub in_month : month_index d ≡ month_index first + i
  pub on_day : d.day ≡ min first.day (days_in_month d.year d.month)

monthly_due_date-IsMonthlyDue :
    (first : Date) (i : ℕ) {d : Date}
    → IsDate first
    → monthly_due_date first i ≡ ok d
    → IsMonthlyDue first i d
unfolding monthly_due_date
monthly_due_date-IsMonthlyDue first i valid h =
    let m = first.month - 1 + i in
    let y = first.year + m / 12 in
    let day = min first.day (days_in_month y (m % 12 + 1)) in
    let (ey, em, ed) = new_date-eq_ok y (m % 12 + 1) day h in
    record {
      valid = new_date-IsDate y (m % 12 + 1) day h;
      in_month = omega arith;
      on_day = rw (ey, em, ed);
    }

monthly_due_date_total :
    (first : Date) (i : ℕ)
    → IsDate first
    → month_index first + i < 120000
    → (d : Date) × (monthly_due_date first i ≡ ok d)
unfolding monthly_due_date
monthly_due_date_total first i valid h =
    let m = first.month - 1 + i in
    let y = first.year + m / 12 in
    let day = min first.day (days_in_month y (m % 12 + 1)) in
    (
      _,
      new_date_total y (m % 12 + 1) day (omega arith) (omega arith) (omega arith) (omega arith)
          (omega (arith, days_in_month_bounds y (m % 12 + 1))) (omega arith),
    )

monthly_due_dates_at :
    (first : Date) (i left k : ℕ) {ds : List Date} {d : Date}
    → monthly_due_dates first i left ≡ ok ds
    → get_elem? ds k ≡ some d
    → monthly_due_date first (i + k) ≡ ok d
unfolding monthly_due_dates
monthly_due_dates_at first i zero k h e = ground arith
monthly_due_dates_at first i (suc left) zero h e =
    let (a, r, ha, hr, er) =
      cons-eq_ok (monthly_due_date first i) (monthly_due_dates first (i + 1) left) h in
    let same : i + 0 ≡ i = omega arith in rw same (ha ∙ ground arith)
monthly_due_dates_at first i (suc left) (suc k) h e =
    let (a, r, ha, hr, er) =
      cons-eq_ok (monthly_due_date first i) (monthly_due_dates first (i + 1) left) h in
    let later : i + suc k ≡ i + 1 + k = omega arith in
    rw later (monthly_due_dates_at first (i + 1) left k hr (rw er at e))

length-monthly_due_dates :
    (first : Date) (i left : ℕ) {ds : List Date}
    → monthly_due_dates first i left ≡ ok ds
    → length ds ≡ left
unfolding monthly_due_dates
length-monthly_due_dates first i zero h = ground arith
length-monthly_due_dates first i (suc left) h =
    let (a, r, ha, hr, er) =
      cons-eq_ok (monthly_due_date first i) (monthly_due_dates first (i + 1) left) h in
    rw er (omega (arith, length-monthly_due_dates first (i + 1) left hr))

monthly_due_dates_total :
    (first : Date) (i left : ℕ)
    → IsDate first
    → month_index first + i + left ≤ 120000
    → (ds : List Date) × (monthly_due_dates first i left ≡ ok ds)
unfolding monthly_due_dates
monthly_due_dates_total first i zero valid h = ([], refl)
monthly_due_dates_total first i (suc left) valid h =
    let (d, e) = monthly_due_date_total first i valid (omega arith) in
    let (ds, es) = monthly_due_dates_total first (i + 1) left valid (omega arith) in
    (d ∷ ds, rw (e, es))

build_due_dates-monthly :
    (first : Date) (n : ℕ) {ds : List Date}
    → build_due_dates first monthly (pos n) ≡ ok ds
    → monthly_due_dates first 0 n ≡ ok ds
unfolding build_due_dates
build_due_dates-monthly first zero h = cc
build_due_dates-monthly first (suc n) h = rw (pos-not-le-zero (suc n) (omega arith)) at h

-- A monthly schedule has a date for each payment.
pub length-build_due_dates :
    (first : Date) (n : ℕ) {ds : List Date}
    → build_due_dates first monthly (pos n) ≡ ok ds
    → length ds ≡ n
length-build_due_dates first n h =
    length-monthly_due_dates first 0 n (build_due_dates-monthly first n h)

-- The date at place `k` of a monthly schedule lies `k` months after the first, on the first
-- date's day, or on the last day of a month that is shorter.
pub build_due_dates-IsMonthlyDue :
    (first : Date) (n k : ℕ) {ds : List Date} {d : Date}
    → IsDate first
    → build_due_dates first monthly (pos n) ≡ ok ds
    → get_elem? ds k ≡ some d
    → IsMonthlyDue first k d
build_due_dates-IsMonthlyDue first n k valid h e =
    monthly_due_date-IsMonthlyDue first k valid
      (rw zero-add at (monthly_due_dates_at first 0 n k (build_due_dates-monthly first n h) e))

-- A monthly schedule that does not run past the year 9999 exists.
pub build_due_dates_total :
    (first : Date) (n : ℕ)
    → IsDate first
    → 0 < n
    → month_index first + n ≤ 120000
    → (ds : List Date) × (build_due_dates first monthly (pos n) ≡ ok ds)
unfolding build_due_dates
build_due_dates_total first n valid h fits =
    let (ds, e) = monthly_due_dates_total first 0 n valid (omega arith) in
    (ds, rw (pos-not-le-zero n h) e)
