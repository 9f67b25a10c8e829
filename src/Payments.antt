-- ===== src/Payments.antt =====
-- backend/app/features/payments/service.py: posting a payment against a loan.
pub mod Prepared
pub mod Idempotency
pub mod Later
mod Examples
use nelson_lending_v.Prelude.{
  ℕ, ◌+◌, Bool, true, false, not, ◌&&◌, ◌||◌, ltb, leb, ◌==◌, if◌then◌else◌, List, [], ◌∷◌, ◌++◌,
  Option, none, some,
}
use nelson_lending_v.Prelude.Result.{
  Result, ok, err, raise_if, ◌>>=◌, ◌>>◌, Error, loan_not_found, loan_not_payable,
  loan_already_paid, payment_in_future, payment_before_disbursement, payment_out_of_order,
  idempotency_conflict, integrity_error,
}
use nelson_lending_v.Decimal.{Decimal, zero_money, lt, le, eq, quantize_money}
use nelson_lending_v.Calendar.{Date, date_lt, date_eq}
use nelson_lending_v.Calculator.Allocation.{PaymentAllocationResult, allocate_payment}
use nelson_lending_v.Calculator.Quote.{calculate_period_rate}
use nelson_lending_v.Accrual.{accrue_until}
use nelson_lending_v.Accounting.Journals.{post_payment_journal}
use nelson_lending_v.Notifications.{Notice, enqueue_notification}
use nelson_lending_v.Store.{Store, Clock}
use nelson_lending_v.Store.Rows.{
  Text, DateTime, Loan, LoanStatus, pending_disbursement, active, paid, cancelled, defaulted,
  Payment, payment_received, payment_aggregate, borrower, in_app, payment_id_field, loan_id_field,
  amount_field, payment_date_field, id_string, money_string, date_string,
}
use nelson_lending_v.Store.Table.{one_or_none, update, filter, text_eq, option_text_eq, strip}

pub record PaymentPostRequest : Type 0 where
  pub amount : Decimal
  pub payment_date : Date
  pub reference : Option Text
  pub note : Option Text

abbrev pub has_key : ℕ → Text → Payment → Bool
has_key loan_id key p = (p.loan_id == loan_id) && text_eq p.idempotency_key key

unfoldable pub find_idempotent_payment : ℕ → Text → Store → Result (Option Payment)
find_idempotent_payment loan_id key s = one_or_none (has_key loan_id key) s.payments

unfoldable pub assert_idempotency_match : Payment → PaymentPostRequest → Result (Unit {0})
assert_idempotency_match existing payload = do
  amount ← quantize_money payload.amount
  raise_if
      (not (eq amount existing.amount)
        || not (date_eq payload.payment_date existing.payment_date)
        || not (option_text_eq payload.reference existing.reference)
        || not (option_text_eq payload.note existing.note))
      idempotency_conflict

-- A posted payment, and whether it is a replay.
abbrev pub Posted : Type 0
Posted = Payment × Bool × Store

unfoldable pub replay : Payment → PaymentPostRequest → Store → Result Posted
unfolding assert_idempotency_match
replay existing payload s = do assert_idempotency_match existing payload; ok (existing, true, s)

abbrev pub found_loan : Option Loan → Result Loan
found_loan none = err loan_not_found
found_loan (some loan) = ok loan

abbrev pub is_unpayable : LoanStatus → Bool
is_unpayable pending_disbursement = true
is_unpayable cancelled = true
is_unpayable active = false
is_unpayable paid = false
is_unpayable defaulted = false

abbrev pub is_paid : LoanStatus → Bool
is_paid paid = true
is_paid _ = false

abbrev pub predates : Date → Option DateTime → Bool
predates d none = false
predates d (some t) = date_lt d t.date

-- By payment date, then by the time of posting.
abbrev pub is_later : Payment → Payment → Bool
is_later p q =
    date_lt q.payment_date p.payment_date
    || (date_eq q.payment_date p.payment_date && ltb q.posted_at.instant p.posted_at.instant)

abbrev pub later_of : Payment → Option Payment → Payment
later_of p none = p
later_of p (some q) = if is_later q p then q else p

unfoldable pub latest_payment : List Payment → Option Payment
latest_payment [] = none
latest_payment (p ∷ rest) = some (later_of p (latest_payment rest))

abbrev pub precedes : Date → Option Payment → Bool
precedes d none = false
precedes d (some p) = date_lt d p.payment_date

unfoldable pub check_date : Clock → Loan → Date → Store → Result (Unit {0})
unfolding latest_payment
check_date clock loan payment_date s = do
  raise_if (date_lt clock.today payment_date) payment_in_future
  raise_if (predates payment_date loan.disbursed_at) payment_before_disbursement
  raise_if
      (precedes payment_date
        (latest_payment (filter (λ (p : Payment). p.loan_id == loan.id) s.payments)))
      payment_out_of_order

-- The loan with the balances that the allocation leaves.
unfoldable pub settled_loan : DateTime → PaymentAllocationResult → Loan → Loan
settled_loan now a loan =
    let rest = record loan {
      outstanding_principal = a.remaining_principal;
      accrued_interest = a.remaining_interest;
    } in
    if eq a.remaining_principal zero_money && eq a.remaining_interest zero_money
    then record rest { status = paid; paid_at = some now }
    else rest

abbrev pub payment_of :
    ℕ → DateTime → Loan → PaymentPostRequest → Text → Decimal → PaymentAllocationResult → Payment
payment_of id now loan payload key amount a = record {
  id = id;
  loan_id = loan.id;
  amount = amount;
  interest_paid = a.interest_paid;
  principal_paid = a.principal_paid;
  unapplied_credit = a.unapplied_credit;
  remaining_interest = a.remaining_interest;
  remaining_principal = a.remaining_principal;
  payment_date = payload.payment_date;
  posted_at = now;
  reference = payload.reference;
  note = payload.note;
  idempotency_key = key;
}

-- The CHECK constraints of the payments table.
abbrev pub payment_row_valid : Payment → Bool
payment_row_valid p =
    lt zero_money p.amount
    && le zero_money p.interest_paid
    && le zero_money p.principal_paid
    && le zero_money p.unapplied_credit
    && le zero_money p.remaining_interest
    && le zero_money p.remaining_principal

-- The flush of the new payment and of the changed loan.
abbrev pub flushed : Payment → Loan → Store → Store
flushed p loan s = record s {
  next_id = s.next_id + 1;
  payments = s.payments ++ (p ∷ []);
  loans = update (λ (x : Loan). x.id == loan.id) (λ x. loan) s.loans;
}

abbrev pub payment_notice : Payment → Loan → Notice
payment_notice p loan = record {
  event_type = payment_received;
  aggregate_type = payment_aggregate;
  aggregate_id = p.id;
  recipient_type = borrower;
  recipient_id = loan.borrower_id;
  template_key = payment_received;
  payload =
      (payment_id_field, id_string p.id)
      ∷ (loan_id_field, id_string loan.id)
      ∷ (amount_field, money_string p.amount)
      ∷ (payment_date_field, date_string p.payment_date)
      ∷ [];
  channel = in_app;
  max_attempts = 5;
}

-- The `try` block: the rows, the journal and the notification.
unfoldable pub record_payment : Clock → Payment → Loan → Store → Result Posted
unfolding post_payment_journal enqueue_notification
record_payment clock p loan s = do
  raise_if (not (payment_row_valid p)) integrity_error
  journal ← post_payment_journal clock p (flushed p loan s)
  notice ← enqueue_notification clock (payment_notice p loan) journal.1
  ok (p, false, notice.1)

-- The allocation over the accrued balances, and the rows it gives.
unfoldable pub allocate_request :
    Clock → Loan → PaymentPostRequest → Text → Store → (accrued : Loan) → Result (Payment × Loan)
unfolding settled_loan
allocate_request clock loan payload key s accrued = do
  allocation ←
      allocate_payment payload.amount accrued.accrued_interest accrued.outstanding_principal
  amount ← quantize_money payload.amount
  ok (
    payment_of s.next_id clock.now loan payload key amount allocation,
    settled_loan clock.now allocation accrued,
  )

-- The loan with the interest of the due dates up to the payment date.
unfoldable pub accrued_for : Loan → Date → Result Loan
unfolding accrue_until
accrued_for loan payment_date = do
  period_rate ← calculate_period_rate loan.monthly_rate loan.payment_frequency
  accrue_until period_rate payment_date loan

-- The payment and the loan of an accepted request, before they are stored.
unfoldable pub prepare_payment :
    Clock → Loan → PaymentPostRequest → Text → Store → Result (Payment × Loan)
unfolding check_date accrued_for allocate_request
prepare_payment clock loan payload key s = do
  raise_if (is_paid loan.status) loan_already_paid
  check_date clock loan payload.payment_date s
  accrued ← accrued_for loan payload.payment_date
  allocate_request clock loan payload key s accrued

-- `except IntegrityError`: the transaction is rolled back, and the key is looked up again.
abbrev pub is_integrity_error : Error → Bool
is_integrity_error integrity_error = true
is_integrity_error _ = false

abbrev pub recover : Result Posted → Result Posted → Result Posted
recover (ok r) again = ok r
recover (err e) again = if is_integrity_error e then again else err e

abbrev pub replay_or_raise : Option Payment → PaymentPostRequest → Store → Result Posted
replay_or_raise none payload s = err integrity_error
replay_or_raise (some existing) payload s = replay existing payload s

unfoldable pub post_new_payment : Clock → Loan → PaymentPostRequest → Text → Store → Result Posted
unfolding prepare_payment record_payment
post_new_payment clock loan payload key s = do
  prepared ← prepare_payment clock loan payload key s
  recover (record_payment clock prepared.0 prepared.1 s)
      (find_idempotent_payment loan.id key s >>= λ existing. replay_or_raise existing payload s)

abbrev pub replay_or_post :
    Option Payment → Clock → Loan → PaymentPostRequest → Text → Store → Result Posted
replay_or_post none clock loan payload key s = post_new_payment clock loan payload key s
replay_or_post (some existing) clock loan payload key s = replay existing payload s

unfoldable pub post_payment :
    Clock → ℕ → PaymentPostRequest → (idempotency_key : Text) → Store → Result Posted
unfolding strip
post_payment clock loan_id payload idempotency_key s = do
  row ← one_or_none (λ (l : Loan). l.id == loan_id) s.loans
  loan ← found_loan row
  raise_if (is_unpayable loan.status) loan_not_payable
  existing ← find_idempotent_payment loan_id (strip idempotency_key) s
  replay_or_post existing clock loan payload (strip idempotency_key) s
