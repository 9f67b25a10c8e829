-- ===== src/Accrual.antt =====
-- backend/app/features/loans/accrual_service.py, and the accrual loop that
-- backend/app/features/payments/service.py runs before an allocation.
pub mod Loop
pub mod Batch
mod Examples
use nelson_lending_v.Prelude.{ℕ, zero, suc, ◌+◌, Bool, true, false, ◌&&◌, List, [], ◌∷◌}
use nelson_lending_v.Prelude.Result.{Result, ok, err, ◌>>=◌, ◌>>◌, fuel_exhausted}
use nelson_lending_v.Decimal.{Decimal, add, mul, quantize_money}
use nelson_lending_v.Calendar.{Date, date_le}
use nelson_lending_v.Calendar.Order.{day_key}
use nelson_lending_v.Calculator.DueDates.{advance_due_date}
use nelson_lending_v.Calculator.Quote.{calculate_period_rate}
use nelson_lending_v.Store.{Store}
use nelson_lending_v.Store.Rows.{
  Loan, LoanStatus, pending_disbursement, active, paid, cancelled, defaulted,
}

-- One round: the interest of a period on what is owed, and the next due date.
unfoldable pub accrue_period : Decimal → Loan → Result Loan
accrue_period period_rate loan = do
  interest ← quantize_money (mul loan.outstanding_principal period_rate)
  accrued ← quantize_money (add loan.accrued_interest interest)
  next ← advance_due_date loan.next_interest_due_date loan.payment_frequency loan.first_due_date
  ok (record loan { accrued_interest = accrued; next_interest_due_date = next })

-- `while loan.next_interest_due_date <= accrual_date`, on fuel.
unfoldable pub accrue_rounds : ℕ → Decimal → Date → Loan → Result Loan
unfolding accrue_period
accrue_rounds zero period_rate accrual_date loan = err fuel_exhausted
accrue_rounds (suc fuel) period_rate accrual_date loan =
    elim (date_le loan.next_interest_due_date accrual_date) [
      | true ↦ accrue_period period_rate loan >>= λ next.
          accrue_rounds fuel period_rate accrual_date next
      | false ↦ ok loan
    ]

-- Each round moves the due date forward, so a round for each day up to the date is enough.
unfoldable pub accrue_until : Decimal → Date → Loan → Result Loan
unfolding accrue_rounds
accrue_until period_rate accrual_date =
    accrue_rounds (suc (day_key accrual_date)) period_rate accrual_date

abbrev pub is_active : LoanStatus → Bool
is_active pending_disbursement = false
is_active active = true
is_active paid = false
is_active cancelled = false
is_active defaulted = false

-- The `where` of the batch.
abbrev pub is_due : Date → Loan → Bool
is_due accrual_date loan = is_active loan.status && date_le loan.next_interest_due_date accrual_date

unfoldable pub accrue_loan : Date → Loan → Result Loan
unfolding accrue_until
accrue_loan accrual_date loan = do
  period_rate ← calculate_period_rate loan.monthly_rate loan.payment_frequency
  accrue_until period_rate accrual_date loan

-- The loop over the selected loans: the loans with the changed ones in place, and how many.
unfoldable pub accrue_loans : Date → List Loan → Result (List Loan × ℕ)
unfolding accrue_loan
accrue_loans accrual_date [] = ok ([], 0)
accrue_loans accrual_date (loan ∷ loans) = elim (is_due accrual_date loan) [
  | true ↦ do
    changed ← accrue_loan accrual_date loan
    rest ← accrue_loans accrual_date loans
    ok (changed ∷ rest.0, rest.1 + 1)
  | false ↦ do rest ← accrue_loans accrual_date loans; ok (loan ∷ rest.0, rest.1)
]

unfoldable pub accrue_due_interest : Date → Store → Result (ℕ × Store)
unfolding accrue_loans
accrue_due_interest accrual_date s = do
  result ← accrue_loans accrual_date s.loans
  ok (result.1, record s { loans = result.0 })
