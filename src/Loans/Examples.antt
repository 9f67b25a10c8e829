-- ===== src/Loans/Examples.antt =====
-- A request of 1,000.00 over two months becomes a loan, which is cancelled.
use nelson_lending_v.Prelude.{ℕ, ◌≡◌, refl, List, [], ◌∷◌, none, some}
use nelson_lending_v.Prelude.Int.{pos}
use nelson_lending_v.Prelude.Result.{
  ok, err, value_or, invalid_loan_transition, loan_already_created,
}
use nelson_lending_v.Decimal.{Decimal, decimal, cents, zero_money}
use nelson_lending_v.Calendar.{Date}
use nelson_lending_v.Calculator.DueDates.{monthly}
use nelson_lending_v.Store.{Store, Clock, empty_store}
use nelson_lending_v.Store.Rows.{Loan, LoanRequest, pending_disbursement, approved}
use nelson_lending_v.Loans.{create_loan_from_request, disburse_loan, cancel_loan}
use nelson_lending_v.Loans.Lifecycle.{cancel_loan_final, create_loan_from_request_once}

abbrev day : (year month day : ℕ) → Date
day y m d = record { year = y; month = m; day = d }

abbrev clock : Clock
clock = record {
  today = day 2026 3 1;
  now = record { instant = 1000; date = day 2026 3 1 };
  digest = λ i. i.aggregate_id;
}

abbrev request : LoanRequest
request = record {
  id = 2;
  borrower_id = 3;
  requested_principal = cents (pos 100000);
  requested_monthly_rate = decimal (pos 500000000) 10;
  requested_term_months = pos 2;
  requested_payment_frequency = monthly;
  requested_first_due_date = day 2026 3 31;
  status = approved;
  submitted_at = clock.now;
  reviewed_at = some clock.now;
  reviewed_by_owner_id = some 9;
  owner_note = none;
}

abbrev loan : Loan
loan = record {
  id = 10;
  loan_request_id = 2;
  borrower_id = 3;
  original_principal = cents (pos 100000);
  outstanding_principal = cents (pos 100000);
  accrued_interest = zero_money;
  monthly_rate = decimal (pos 500000000) 10;
  term_months = pos 2;
  payment_frequency = monthly;
  number_of_payments = pos 2;
  first_due_date = day 2026 3 31;
  final_due_date = day 2026 4 30;
  next_interest_due_date = day 2026 3 31;
  status = pending_disbursement;
  disbursed_at = none;
  cancelled_at = none;
  paid_at = none;
}

abbrev store : Store
store = record (empty_store 10) { loan_requests = request ∷ [] }

abbrev with_loan : Store
with_loan = record store { next_id = 11; loans = loan ∷ [] }

created : create_loan_from_request 2 store ≡ ok (loan, with_loan)
unfolding create_loan_from_request nelson_lending_v.Calculator.Quote.calculate_quote
    nelson_lending_v.Decimal.le nelson_lending_v.Decimal.lt nelson_lending_v.Decimal.eq
    nelson_lending_v.Decimal.div nelson_lending_v.Decimal.add nelson_lending_v.Decimal.sub
    nelson_lending_v.Decimal.mul nelson_lending_v.Decimal.negative_power
    nelson_lending_v.Decimal.ratio nelson_lending_v.Decimal.context_round
    nelson_lending_v.Decimal.quantize_money nelson_lending_v.Decimal.quantize_rate
    nelson_lending_v.Decimal.round_half_even nelson_lending_v.Decimal.round_half_up
    nelson_lending_v.Decimal.quantize nelson_lending_v.Calendar.is_leap
    nelson_lending_v.Calendar.days_in_month nelson_lending_v.Calendar.new_date
    nelson_lending_v.Calculator.Quote.calculate_period_rate
    nelson_lending_v.Calculator.Quote.level_payment nelson_lending_v.Calculator.Quote.installment
    nelson_lending_v.Calculator.Quote.schedule_round nelson_lending_v.Calculator.Quote.schedule_from
    nelson_lending_v.Calculator.Quote.first_date nelson_lending_v.Calculator.Quote.last_date
    nelson_lending_v.Calculator.DueDates.build_due_dates
    nelson_lending_v.Calculator.DueDates.monthly_due_date
    nelson_lending_v.Calculator.DueDates.monthly_due_dates
    nelson_lending_v.Calculator.DueDates.twice_monthly_due_dates nelson_lending_v.Prelude.Int.◌+ℤ◌
    nelson_lending_v.Prelude.Int.◌-ℤ◌ nelson_lending_v.Prelude.Int.◌*ℤ◌
created = refl

create_loan_from_request_once_example :
    create_loan_from_request 2 with_loan ≡ err loan_already_created
create_loan_from_request_once_example = create_loan_from_request_once 2 store created

abbrev after : Loan × Store
after = value_or (cancel_loan clock 10 with_loan) (loan, store)

cancelled_run : cancel_loan clock 10 with_loan ≡ ok (after.0, after.1)
unfolding cancel_loan
cancelled_run = refl

cancel_loan_final_example :
    (disburse_loan clock 10 after.1 ≡ err invalid_loan_transition)
    × (cancel_loan clock 10 after.1 ≡ err invalid_loan_transition)
cancel_loan_final_example = cancel_loan_final clock clock 10 with_loan cancelled_run
