-- ===== src/Loans.antt =====
-- backend/app/features/loans/service.py: from an approved request to a loan that is disbursed or
-- cancelled.
pub mod Lifecycle
mod Examples
use nelson_lending_v.Prelude.{
  ℕ, ◌+◌, Bool, true, false, not, ◌&&◌, ◌==◌, List, [], ◌∷◌, ◌++◌, Option, none, some,
}
use nelson_lending_v.Prelude.Result.{
  Result, ok, err, raise_if, ◌>>=◌, ◌>>◌, loan_not_found, invalid_loan_transition,
  request_not_found, request_not_approved, loan_already_created,
}
use nelson_lending_v.Decimal.{zero_money}
use nelson_lending_v.Calculator.Quote.{LoanQuote, calculate_quote}
use nelson_lending_v.Accounting.Journals.{post_disbursement_journal}
use nelson_lending_v.Notifications.{Notice, enqueue_notification}
use nelson_lending_v.Store.{Store, Clock}
use nelson_lending_v.Store.Rows.{
  DateTime, Loan, LoanStatus, pending_disbursement, active, paid, cancelled, defaulted, LoanRequest,
  RequestStatus, approved, loan_disbursed, loan_aggregate, borrower, in_app, loan_id_field,
  original_principal_field, id_string, money_string,
}
use nelson_lending_v.Store.Table.{one_or_none, update, is_some}

abbrev pub is_approved : RequestStatus → Bool
is_approved approved = true
is_approved _ = false

abbrev pub found_request : Option LoanRequest → Result LoanRequest
found_request none = err request_not_found
found_request (some r) = ok r

abbrev pub loan_of : ℕ → LoanRequest → LoanQuote → Loan
loan_of id r quote = record {
  id = id;
  loan_request_id = r.id;
  borrower_id = r.borrower_id;
  original_principal = r.requested_principal;
  outstanding_principal = r.requested_principal;
  accrued_interest = zero_money;
  monthly_rate = r.requested_monthly_rate;
  term_months = r.requested_term_months;
  payment_frequency = r.requested_payment_frequency;
  number_of_payments = quote.number_of_payments;
  first_due_date = r.requested_first_due_date;
  final_due_date = quote.final_due_date;
  next_interest_due_date = r.requested_first_due_date;
  status = pending_disbursement;
  disbursed_at = none;
  cancelled_at = none;
  paid_at = none;
}

unfoldable pub create_loan_from_request : ℕ → Store → Result (Loan × Store)
create_loan_from_request request_id s = do
  row ← one_or_none (λ (r : LoanRequest). r.id == request_id) s.loan_requests
  request ← found_request row
  raise_if (not (is_approved request.status)) request_not_approved
  existing ← one_or_none (λ (l : Loan). l.loan_request_id == request_id) s.loans
  raise_if (is_some existing) loan_already_created
  quote ←
      calculate_quote request.requested_principal request.requested_monthly_rate
        request.requested_term_months request.requested_payment_frequency
        request.requested_first_due_date
  let loan = loan_of s.next_id request quote
  ok (loan, record s { next_id = s.next_id + 1; loans = s.loans ++ (loan ∷ []) })

abbrev pub found_loan_row : Option Loan → Result Loan
found_loan_row none = err loan_not_found
found_loan_row (some loan) = ok loan

abbrev pub is_pending_disbursement : LoanStatus → Bool
is_pending_disbursement pending_disbursement = true
is_pending_disbursement _ = false

abbrev pub save_loan : Loan → Store → Store
save_loan loan s = record s { loans = update (λ (x : Loan). x.id == loan.id) (λ x. loan) s.loans }

abbrev pub disbursement_notice : Loan → Notice
disbursement_notice loan = record {
  event_type = loan_disbursed;
  aggregate_type = loan_aggregate;
  aggregate_id = loan.id;
  recipient_type = borrower;
  recipient_id = loan.borrower_id;
  template_key = loan_disbursed;
  payload =
      (loan_id_field, id_string loan.id)
      ∷ (original_principal_field, money_string loan.original_principal)
      ∷ [];
  channel = in_app;
  max_attempts = 5;
}

abbrev pub disbursed_loan : DateTime → Loan → Loan
disbursed_loan now loan = record loan {
  status = active;
  disbursed_at = some now;
  accrued_interest = zero_money;
}

unfoldable pub disburse_loan : Clock → ℕ → Store → Result (Loan × Store)
unfolding post_disbursement_journal enqueue_notification
disburse_loan clock loan_id s = do
  row ← one_or_none (λ (l : Loan). l.id == loan_id) s.loans
  loan ← found_loan_row row
  raise_if (not (is_pending_disbursement loan.status)) invalid_loan_transition
  let disbursed = disbursed_loan clock.now loan
  journal ← post_disbursement_journal clock disbursed (save_loan disbursed s)
  notice ← enqueue_notification clock (disbursement_notice disbursed) journal.1
  ok (disbursed, notice.1)

abbrev pub cancelled_loan : DateTime → Loan → Loan
cancelled_loan now loan = record loan { status = cancelled; cancelled_at = some now }

unfoldable pub cancel_loan : Clock → ℕ → Store → Result (Loan × Store)
cancel_loan clock loan_id s = do
  row ← one_or_none (λ (l : Loan). l.id == loan_id) s.loans
  loan ← found_loan_row row
  raise_if (not (is_pending_disbursement loan.status)) invalid_loan_transition
  let done = cancelled_loan clock.now loan
  ok (done, save_loan done s)
