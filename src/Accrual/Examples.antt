-- ===== src/Accrual/Examples.antt =====
-- The accrual theorems on a loan of 1,000.00 at 5% a month that has missed two due dates.
use nelson_lending_v.Prelude.{ℕ, ◌≡◌, ◌≤◌, refl, arith, List, [], ◌∷◌, none, some}
use nelson_lending_v.Prelude.Int.{pos, ◌+ℤ◌}
use nelson_lending_v.Prelude.Result.{ok, err, fuel_exhausted}
use nelson_lending_v.Decimal.{Decimal, decimal, cents, zero_money}
use nelson_lending_v.Calendar.{Date, IsDate}
use nelson_lending_v.Calculator.DueDates.{monthly}
use nelson_lending_v.Store.{Store, empty_store}
use nelson_lending_v.Store.Rows.{Loan, active}
use nelson_lending_v.Accrual.{accrue_until, accrue_due_interest}
use nelson_lending_v.Accrual.Loop.{
  Passes, times, accrued_loan, accrue_until-Passes, accrue_until_ends,
}
use nelson_lending_v.Accrual.Batch.{accrue_due_interest-idempotent}

abbrev day : (year month day : ℕ) → Date
day y m d = record { year = y; month = m; day = d }

abbrev first : Date
first = day 2026 1 31

abbrev as_of : Date
as_of = day 2026 3 1

abbrev rate : Decimal
rate = decimal (pos 500000000) 10

abbrev loan : Loan
loan = record {
  id = 1;
  loan_request_id = 2;
  borrower_id = 3;
  original_principal = cents (pos 100000);
  outstanding_principal = cents (pos 100000);
  accrued_interest = zero_money;
  monthly_rate = rate;
  term_months = pos 6;
  payment_frequency = monthly;
  number_of_payments = pos 6;
  first_due_date = first;
  final_due_date = day 2026 6 30;
  next_interest_due_date = first;
  status = active;
  disbursed_at = none;
  cancelled_at = none;
  paid_at = none;
}

abbrev after : Loan
after = accrued_loan loan (pos 10000) (day 2026 3 31)

abbrev store : Store
store = record (empty_store 10) { loans = loan ∷ [] }

interest :
    nelson_lending_v.Decimal.quantize_money (nelson_lending_v.Decimal.mul (cents (pos 100000)) rate)
    ≡ ok (cents (pos 5000))
unfolding nelson_lending_v.Decimal.quantize_money nelson_lending_v.Decimal.mul
    nelson_lending_v.Prelude.Int.◌*ℤ◌
interest = refl

two_periods : accrue_until rate as_of loan ≡ ok after
unfolding accrue_until nelson_lending_v.Accrual.accrue_rounds nelson_lending_v.Accrual.accrue_period
    nelson_lending_v.Decimal.quantize_money nelson_lending_v.Decimal.add
    nelson_lending_v.Decimal.mul nelson_lending_v.Calendar.date_le
    nelson_lending_v.Calendar.new_date nelson_lending_v.Calendar.days_in_month
    nelson_lending_v.Calculator.DueDates.advance_due_date nelson_lending_v.Prelude.Int.◌*ℤ◌ ◌+ℤ◌
two_periods = refl

batch : accrue_due_interest as_of store ≡ ok (1, record store { loans = after ∷ [] })
unfolding accrue_due_interest accrue_until nelson_lending_v.Accrual.accrue_rounds
    nelson_lending_v.Accrual.accrue_period nelson_lending_v.Decimal.quantize_money
    nelson_lending_v.Decimal.add nelson_lending_v.Decimal.mul nelson_lending_v.Calendar.date_le
    nelson_lending_v.Calendar.new_date nelson_lending_v.Calendar.days_in_month
    nelson_lending_v.Calculator.DueDates.advance_due_date nelson_lending_v.Prelude.Int.◌*ℤ◌ ◌+ℤ◌
    nelson_lending_v.Accrual.accrue_loans nelson_lending_v.Accrual.accrue_loan
    nelson_lending_v.Calculator.Quote.calculate_period_rate nelson_lending_v.Decimal.lt
batch = refl

valid-IsDate : (month d : ℕ) → 1 ≤ month → month ≤ 12 → 1 ≤ d → d ≤ 28 → IsDate (day 2026 month d)
unfolding nelson_lending_v.Calendar.days_in_month
valid-IsDate month d a b c e = record {
  year_pos = omega arith;
  year_le = omega arith;
  month_pos = a;
  month_le = b;
  day_pos = c;
  day_le = ground arith;
}

first-IsDate : IsDate first
unfolding nelson_lending_v.Calendar.days_in_month
first-IsDate = record {
  year_pos = omega arith;
  year_le = omega arith;
  month_pos = omega arith;
  month_le = omega arith;
  day_pos = omega arith;
  day_le = omega arith;
}

accrue_until-Passes_example :
    (k : ℕ) × Passes first monthly as_of k first (day 2026 3 31)
    × (after ≡ accrued_loan loan (pos 0 +ℤ times k (pos 5000)) (day 2026 3 31))
accrue_until-Passes_example =
    accrue_until-Passes rate as_of loan (pos 5000) interest refl two_periods

accrue_until_ends_example : ¬ (accrue_until rate as_of loan ≡ err fuel_exhausted)
accrue_until_ends_example =
    accrue_until_ends rate as_of loan
      (valid-IsDate 3 1 (omega arith) (omega arith) (omega arith) (omega arith)) first-IsDate
      first-IsDate

accrue_due_interest-idempotent_example :
    accrue_due_interest as_of (record store { loans = after ∷ [] })
    ≡ ok (0, record store { loans = after ∷ [] })
accrue_due_interest-idempotent_example = accrue_due_interest-idempotent as_of store batch
