-- ===== src/Payments/Examples.antt =====
-- A payment of 600.00 against a loan of 1,000.00 at 5%, sent twice.
use nelson_lending_v.Prelude.{ℕ, ◌≡◌, refl, List, [], ◌∷◌, none, some, true, false}
use nelson_lending_v.Prelude.Int.{pos}
use nelson_lending_v.Prelude.Result.{ok, value_or}
use nelson_lending_v.Decimal.{Decimal, decimal, cents, zero_money}
use nelson_lending_v.Calendar.{Date}
use nelson_lending_v.Calculator.DueDates.{monthly}
use nelson_lending_v.Store.{Store, Clock, empty_store}
use nelson_lending_v.Store.Rows.{Text, Loan, Payment, active}
use nelson_lending_v.Payments.{PaymentPostRequest, Posted, post_payment}
use nelson_lending_v.Payments.Later.{here, next, posted, post_payment_replayed}

abbrev day : (year month day : ℕ) → Date
day y m d = record { year = y; month = m; day = d }

abbrev clock : Clock
clock = record {
  today = day 2026 3 1;
  now = record { instant = 1000; date = day 2026 3 1 };
  digest = λ i. i.aggregate_id;
}

abbrev loan : Loan
loan = record {
  id = 1;
  loan_request_id = 2;
  borrower_id = 3;
  original_principal = cents (pos 100000);
  outstanding_principal = cents (pos 100000);
  accrued_interest = zero_money;
  monthly_rate = decimal (pos 500000000) 10;
  term_months = pos 6;
  payment_frequency = monthly;
  number_of_payments = pos 6;
  first_due_date = day 2026 2 28;
  final_due_date = day 2026 7 28;
  next_interest_due_date = day 2026 2 28;
  status = active;
  disbursed_at = none;
  cancelled_at = none;
  paid_at = none;
}

abbrev store : Store
store = record (empty_store 10) { loans = loan ∷ [] }

abbrev request : PaymentPostRequest
request = record {
  amount = cents (pos 60000);
  payment_date = day 2026 3 1;
  reference = none;
  note = none;
}

-- " k1 "
abbrev key : Text
key = 32 ∷ 107 ∷ 49 ∷ 32 ∷ []

abbrev no_payment : Payment
no_payment = record {
  id = 0;
  loan_id = 0;
  amount = zero_money;
  interest_paid = zero_money;
  principal_paid = zero_money;
  unapplied_credit = zero_money;
  remaining_interest = zero_money;
  remaining_principal = zero_money;
  payment_date = day 2026 3 1;
  posted_at = clock.now;
  reference = none;
  note = none;
  idempotency_key = [];
}

abbrev run : Posted
run = value_or (post_payment clock 1 request key store) (no_payment, true, store)

posted_run : post_payment clock 1 request key store ≡ ok (run.0, false, run.2)
unfolding post_payment nelson_lending_v.Decimal.round_half_even
    nelson_lending_v.Decimal.round_half_up nelson_lending_v.Decimal.context_round
    nelson_lending_v.Decimal.add nelson_lending_v.Decimal.sub nelson_lending_v.Decimal.mul
    nelson_lending_v.Decimal.lt nelson_lending_v.Decimal.le nelson_lending_v.Decimal.eq
    nelson_lending_v.Decimal.minimum nelson_lending_v.Decimal.quantize
    nelson_lending_v.Decimal.quantize_money nelson_lending_v.Calendar.is_leap
    nelson_lending_v.Calendar.days_in_month nelson_lending_v.Calendar.new_date
    nelson_lending_v.Calendar.date_lt nelson_lending_v.Calendar.date_le
    nelson_lending_v.Calendar.date_eq nelson_lending_v.Calculator.Allocation.allocate_payment
    nelson_lending_v.Calculator.DueDates.advance_due_date nelson_lending_v.Accrual.accrue_period
    nelson_lending_v.Accrual.accrue_rounds nelson_lending_v.Accrual.accrue_until
    nelson_lending_v.Accounting.add_missing nelson_lending_v.Accounting.ensure_system_accounts
    nelson_lending_v.Accounting.check_sides nelson_lending_v.Accounting.validate_line
    nelson_lending_v.Accounting.validate_lines nelson_lending_v.Accounting.sum_from
    nelson_lending_v.Accounting.post_validated nelson_lending_v.Accounting.post_journal
    nelson_lending_v.Accounting.Journals.payment_lines
    nelson_lending_v.Accounting.Journals.payment_accounts
    nelson_lending_v.Accounting.Journals.post_new_payment
    nelson_lending_v.Accounting.Journals.post_payment_journal
    nelson_lending_v.Notifications.template_eq nelson_lending_v.Notifications.payload_get
    nelson_lending_v.Notifications.has_strings nelson_lending_v.Notifications.validate_payload
    nelson_lending_v.Notifications.check_notice nelson_lending_v.Notifications.enqueue_notification
    nelson_lending_v.Store.Table.drop_spaces nelson_lending_v.Store.Table.strip
    nelson_lending_v.Payments.find_idempotent_payment
    nelson_lending_v.Payments.assert_idempotency_match nelson_lending_v.Payments.replay
    nelson_lending_v.Payments.latest_payment nelson_lending_v.Payments.check_date
    nelson_lending_v.Payments.settled_loan nelson_lending_v.Payments.record_payment
    nelson_lending_v.Payments.allocate_request nelson_lending_v.Payments.accrued_for
    nelson_lending_v.Payments.prepare_payment nelson_lending_v.Payments.post_new_payment
    nelson_lending_v.Calculator.Quote.calculate_period_rate nelson_lending_v.Prelude.Int.◌+ℤ◌
    nelson_lending_v.Prelude.Int.◌-ℤ◌ nelson_lending_v.Prelude.Int.◌*ℤ◌
posted_run = refl

-- Another payment of 100.00.
abbrev another : PaymentPostRequest
another = record request { amount = cents (pos 10000) }

abbrev second : Posted
second = value_or (post_payment clock 1 another (107 ∷ 50 ∷ []) run.2) (no_payment, true, run.2)

second_posted : post_payment clock 1 another (107 ∷ 50 ∷ []) run.2 ≡ ok (second.0, false, second.2)
unfolding post_payment nelson_lending_v.Decimal.round_half_even
    nelson_lending_v.Decimal.round_half_up nelson_lending_v.Decimal.context_round
    nelson_lending_v.Decimal.add nelson_lending_v.Decimal.sub nelson_lending_v.Decimal.mul
    nelson_lending_v.Decimal.lt nelson_lending_v.Decimal.le nelson_lending_v.Decimal.eq
    nelson_lending_v.Decimal.minimum nelson_lending_v.Decimal.quantize
    nelson_lending_v.Decimal.quantize_money nelson_lending_v.Calendar.is_leap
    nelson_lending_v.Calendar.days_in_month nelson_lending_v.Calendar.new_date
    nelson_lending_v.Calendar.date_lt nelson_lending_v.Calendar.date_le
    nelson_lending_v.Calendar.date_eq nelson_lending_v.Calculator.Allocation.allocate_payment
    nelson_lending_v.Calculator.DueDates.advance_due_date nelson_lending_v.Accrual.accrue_period
    nelson_lending_v.Accrual.accrue_rounds nelson_lending_v.Accrual.accrue_until
    nelson_lending_v.Accounting.add_missing nelson_lending_v.Accounting.ensure_system_accounts
    nelson_lending_v.Accounting.check_sides nelson_lending_v.Accounting.validate_line
    nelson_lending_v.Accounting.validate_lines nelson_lending_v.Accounting.sum_from
    nelson_lending_v.Accounting.post_validated nelson_lending_v.Accounting.post_journal
    nelson_lending_v.Accounting.Journals.payment_lines
    nelson_lending_v.Accounting.Journals.payment_accounts
    nelson_lending_v.Accounting.Journals.post_new_payment
    nelson_lending_v.Accounting.Journals.post_payment_journal
    nelson_lending_v.Notifications.template_eq nelson_lending_v.Notifications.payload_get
    nelson_lending_v.Notifications.has_strings nelson_lending_v.Notifications.validate_payload
    nelson_lending_v.Notifications.check_notice nelson_lending_v.Notifications.enqueue_notification
    nelson_lending_v.Store.Table.drop_spaces nelson_lending_v.Store.Table.strip
    nelson_lending_v.Payments.find_idempotent_payment
    nelson_lending_v.Payments.assert_idempotency_match nelson_lending_v.Payments.replay
    nelson_lending_v.Payments.latest_payment nelson_lending_v.Payments.check_date
    nelson_lending_v.Payments.settled_loan nelson_lending_v.Payments.record_payment
    nelson_lending_v.Payments.allocate_request nelson_lending_v.Payments.accrued_for
    nelson_lending_v.Payments.prepare_payment nelson_lending_v.Payments.post_new_payment
    nelson_lending_v.Calculator.Quote.calculate_period_rate nelson_lending_v.Prelude.Int.◌+ℤ◌
    nelson_lending_v.Prelude.Int.◌-ℤ◌ nelson_lending_v.Prelude.Int.◌*ℤ◌
second_posted = refl

post_payment_replayed_example :
    post_payment clock 1 request key second.2 ≡ ok (run.0, true, second.2)
post_payment_replayed_example =
    post_payment_replayed clock clock 1 request key store posted_run
      (next here (posted clock 1 another (107 ∷ 50 ∷ []) second_posted))
