-- ===== src/Calculator/DueDates.antt =====
-- `build_due_dates` and `advance_due_date` of backend/app/features/loans/calculator.py.
pub mod Monthly
pub mod TwiceMonthly
pub mod Advance
use nelson_lending_v.Prelude.{
  ℕ, zero, suc, ◌+◌, ◌-◌, ◌/◌, ◌%◌, min, Bool, true, false, not, ◌&&◌, ltb, ◌==◌, if◌then◌else◌,
  List, [], ◌∷◌,
}
use nelson_lending_v.Prelude.Int.{ℤ, pos, pos_part, leb_ℤ}
use nelson_lending_v.Prelude.Result.{
  Result, ok, err, raise_if, ◌>>=◌, ◌>>◌, payments_not_positive, first_due_date_not_allowed,
  unsupported_frequency,
}
use nelson_lending_v.Calendar.{Date, days_in_month, new_date}

-- The strings that the code compares; `other` is any string but the two.
pub data PaymentFrequency : Type 0 where
  monthly twice_monthly other : PaymentFrequency

-- The date that the monthly loop appends in round `i`.
unfoldable pub monthly_due_date : Date → ℕ → Result Date
monthly_due_date first i =
    let year_offset = (first.month - 1 + i) / 12 in
    let target_month = (first.month - 1 + i) % 12 + 1 in
    let target_year = first.year + year_offset in
    let max_days = days_in_month target_year target_month in
    new_date target_year target_month (min first.day max_days)

-- `for i in range(number_of_payments)`, from round `i` with `left` rounds to go.
unfoldable pub monthly_due_dates : Date → ℕ → ℕ → Result (List Date)
unfolding monthly_due_date
monthly_due_dates first i zero = ok []
monthly_due_dates first i (suc left) = do
  due ← monthly_due_date first i
  rest ← monthly_due_dates first (i + 1) left
  ok (due ∷ rest)

-- The year and the month after `month`.
abbrev pub next_year : ℕ → ℕ → ℕ
next_year year month = if ltb 12 (month + 1) then year + 1 else year

abbrev pub next_month : ℕ → ℕ
next_month month = if ltb 12 (month + 1) then 1 else month + 1

-- The `while` loop of the twice-monthly branch, with `left` dates still to append.
unfoldable pub twice_monthly_due_dates : ℕ → ℕ → Bool → ℕ → Result (List Date)
twice_monthly_due_dates year month fifteenth zero = ok []
twice_monthly_due_dates year month true (suc left) = do
  due ← new_date year month 15
  rest ← twice_monthly_due_dates year month false left
  ok (due ∷ rest)
twice_monthly_due_dates year month false (suc left) = do
  due ← new_date year month (days_in_month year month)
  rest ← twice_monthly_due_dates (next_year year month) (next_month month) true left
  ok (due ∷ rest)

unfoldable pub build_due_dates : Date → PaymentFrequency → ℤ → Result (List Date)
unfolding monthly_due_dates twice_monthly_due_dates
build_due_dates first monthly number_of_payments = do
  raise_if (leb_ℤ number_of_payments (pos 0)) payments_not_positive
  monthly_due_dates first 0 (pos_part number_of_payments)
build_due_dates first twice_monthly number_of_payments = do
  raise_if (leb_ℤ number_of_payments (pos 0)) payments_not_positive
  let last_day = days_in_month first.year first.month
  raise_if (not (first.day == 15) && not (first.day == last_day)) first_due_date_not_allowed
  twice_monthly_due_dates first.year first.month (first.day == 15) (pos_part number_of_payments)
build_due_dates first other number_of_payments = do
  raise_if (leb_ℤ number_of_payments (pos 0)) payments_not_positive
  err unsupported_frequency

unfoldable pub advance_due_date : Date → PaymentFrequency → Date → Result Date
advance_due_date current monthly first =
    let year = next_year current.year current.month in
    let month = next_month current.month in
    new_date year month (min first.day (days_in_month year month))
advance_due_date current twice_monthly first =
    if current.day == 15
    then new_date current.year current.month (days_in_month current.year current.month)
    else new_date (next_year current.year current.month) (next_month current.month) 15
advance_due_date current other first = err unsupported_frequency
