-- ===== src/Payments/Prepared.antt =====
-- The rows that an accepted payment request is turned into, and what storing them leaves alone.
use nelson_lending_v.Prelude.{
  ℕ, zero, suc, ◌≡◌, ◌∙◌, refl, sym, ap, arith, Bool, true, false, not, ◌&&◌, ◌==◌, ==_refl,
  Bool-cases, Option-cases, inl, inr,
}
use nelson_lending_v.Prelude.Int.{ℤ, pos, negsuc, eqb_ℤ}
use nelson_lending_v.Prelude.Result.{
  ok, ◌>>=◌, >>=-eq-ok, raise_if-eq_ok, ok_injective, loan_already_paid, integrity_error,
}
use nelson_lending_v.Decimal.{Decimal, zero_money, eq, quantize_money}
use nelson_lending_v.Decimal.Cents.{eq-cents}
use nelson_lending_v.Decimal.Quantize.{quantize_money-is_cents}
use nelson_lending_v.Calendar.{Date, date_le, date_eq}
use nelson_lending_v.Calendar.Order.{day_key}
use nelson_lending_v.Calculator.Allocation.{PaymentAllocationResult, allocate_payment}
use nelson_lending_v.Calculator.Quote.{calculate_period_rate}
use nelson_lending_v.Accrual.{accrue_period, accrue_rounds, accrue_until}
use nelson_lending_v.Accounting.Journals.{post_payment_journal}
use nelson_lending_v.Accounting.Events.{SameLoans, SameLoans-trans, post_payment_journal-SameLoans}
use nelson_lending_v.Notifications.{
  Notice, check_notice, identity_of, outbox_of, unless_enqueued, enqueue_notification,
}
use nelson_lending_v.Store.{Store, Clock}
use nelson_lending_v.Store.Rows.{Text, DateTime, Loan, Payment, NotificationOutbox}
use nelson_lending_v.Store.Table.{one_or_none, option_text_eq_refl}
use nelson_lending_v.Payments.{
  PaymentPostRequest, assert_idempotency_match, is_unpayable, is_paid, check_date, settled_loan,
  payment_of, payment_row_valid, flushed, payment_notice, record_payment, prepare_payment,
  accrued_for, allocate_request,
}

enqueue_notification-SameLoans :
    (clock : Clock) (n : Notice) (s : Store) {o : NotificationOutbox} {s' : Store}
    → enqueue_notification clock n s ≡ ok (o, s')
    → SameLoans s s'
unfolding enqueue_notification
enqueue_notification-SameLoans clock n s h =
    let key = clock.digest (identity_of n) in
    let (checked, ec, h1) =
      >>=-eq-ok (check_notice n)
        (λ c. one_or_none (λ (o : NotificationOutbox). o.idempotency_key == key) s.outbox >>= λ e.
          ok (unless_enqueued e (outbox_of clock s.next_id n) s))
        h in
    let (existing, eo, h2) =
      >>=-eq-ok (one_or_none (λ (o : NotificationOutbox). o.idempotency_key == key) s.outbox)
        (λ e. ok (unless_enqueued e (outbox_of clock s.next_id n) s)) h1 in
    elim (Option-cases existing) [
      | inl fresh ↦
          let same = ok_injective (rw fresh at h2) in
          record {
            loans = ap (λ r. r.1.loans) (sym same);
            payments = ap (λ r. r.1.payments) (sym same);
          }
      | inr (old, e) ↦
          let same = ok_injective (rw e at h2) in
          record {
            loans = ap (λ r. r.1.loans) (sym same);
            payments = ap (λ r. r.1.payments) (sym same);
          }
    ]

-- The `try` block stores exactly the prepared rows among the loans and the payments.
pub record_payment-SameLoans :
    (clock : Clock) (p : Payment) (loan : Loan) (s : Store) {q : Payment} {b : Bool} {s' : Store}
    → record_payment clock p loan s ≡ ok (q, b, s')
    → (q ≡ p) × (b ≡ false) × SameLoans (flushed p loan s) s'
unfolding record_payment
record_payment-SameLoans clock p loan s h =
    let (valid, h1) = raise_if-eq_ok (not (payment_row_valid p)) integrity_error _ h in
    let (journal, ej, h2) =
      >>=-eq-ok (post_payment_journal clock p (flushed p loan s))
        (λ j. enqueue_notification clock (payment_notice p loan) j.1 >>= λ n. ok (p, false, n.1))
        h1 in
    let (notice, en, h3) =
      >>=-eq-ok (enqueue_notification clock (payment_notice p loan) journal.1)
        (λ n. ok (p, false, n.1)) h2 in
    let same = ok_injective h3 in
    (
      ap (λ r. r.0) (sym same),
      ap (λ r. r.1) (sym same),
      rw (← ap (λ r. r.2) same) (
          SameLoans-trans (post_payment_journal-SameLoans clock p (flushed p loan s) ej)
            (enqueue_notification-SameLoans clock (payment_notice p loan) journal.1 en)),
    )

period_keeps :
    (rate : Decimal) (loan : Loan) {next : Loan}
    → accrue_period rate loan ≡ ok next
    → (next.id ≡ loan.id) × (next.status ≡ loan.status)
unfolding accrue_period
period_keeps rate loan h = ground arith

rounds_keep :
    (fuel : ℕ) (rate : Decimal) (as_of : Date) (loan : Loan) {after : Loan}
    → accrue_rounds fuel rate as_of loan ≡ ok after
    → (after.id ≡ loan.id) × (after.status ≡ loan.status)
unfolding accrue_rounds
rounds_keep zero rate as_of loan h = ground arith
rounds_keep (suc fuel) rate as_of loan h =
    elim (Bool-cases (date_le loan.next_interest_due_date as_of)) [
      | inl reached ↦
          let (next, e, h') =
            >>=-eq-ok (accrue_period rate loan) (λ l. accrue_rounds fuel rate as_of l)
              (rw (reached, accrue_rounds) at h) in
          let now = period_keeps rate loan e in
          let rest = rounds_keep fuel rate as_of next h' in (rest.0 ∙ now.0, rest.1 ∙ now.1)
      | inr later ↦
          let same = ok_injective (rw (later, accrue_rounds) at h) in
          (ap (λ l. l.id) (sym same), ap (λ l. l.status) (sym same))
    ]

settled_loan_keeps :
    (now : DateTime) (a : PaymentAllocationResult) (loan : Loan)
    → is_unpayable loan.status ≡ false
    → ((settled_loan now a loan).id ≡ loan.id)
      × (is_unpayable (settled_loan now a loan).status ≡ false)
unfolding settled_loan
settled_loan_keeps now a loan payable =
    elim (Bool-cases (eq a.remaining_principal zero_money && eq a.remaining_interest zero_money)) [
      | inl settled ↦ rw (settled, settled_loan) (refl, refl)
      | inr open_balance ↦ rw (open_balance, settled_loan) (refl, payable)
    ]

-- What the prepared rows carry over from the request and the loan.
pub record IsPrepared (loan : Loan) (payload : PaymentPostRequest) (key : Text) (p : Payment)
    (after : Loan) : Type 0 where
  pub of_loan : p.loan_id ≡ loan.id
  pub with_key : p.idempotency_key ≡ key
  pub rounded : quantize_money payload.amount ≡ ok p.amount
  pub on_date : p.payment_date ≡ payload.payment_date
  pub with_reference : p.reference ≡ payload.reference
  pub with_note : p.note ≡ payload.note
  pub same_loan : after.id ≡ loan.id
  pub payable : is_unpayable after.status ≡ false

pub prepare_payment-IsPrepared :
    (clock : Clock) (loan : Loan) (payload : PaymentPostRequest) (key : Text) (s : Store)
    {p : Payment} {after : Loan}
    → is_unpayable loan.status ≡ false
    → prepare_payment clock loan payload key s ≡ ok (p, after)
    → IsPrepared loan payload key p after
unfolding prepare_payment allocate_request accrued_for accrue_until
prepare_payment-IsPrepared clock loan payload key s payable h =
    let allocate = allocate_request clock loan payload key s in
    let finish : Loan → PaymentAllocationResult → Decimal → Payment × Loan = λ accrued a amount. (
      payment_of s.next_id clock.now loan payload key amount a,
      settled_loan clock.now a accrued,
    ) in
    let (unpaid, h1) = raise_if-eq_ok (is_paid loan.status) loan_already_paid _ h in
    let (dated, e2, h2) =
      >>=-eq-ok (check_date clock loan payload.payment_date s)
        (λ c. accrued_for loan payload.payment_date >>= allocate) h1 in
    let (accrued, e3, h3) = >>=-eq-ok (accrued_for loan payload.payment_date) allocate h2 in
    let (rate, e4, h4) =
      >>=-eq-ok (calculate_period_rate loan.monthly_rate loan.payment_frequency)
        (λ r. accrue_until r payload.payment_date loan) e3 in
    let (a, e5, h5) =
      >>=-eq-ok
        (allocate_payment payload.amount accrued.accrued_interest accrued.outstanding_principal)
        (λ a. quantize_money payload.amount >>= λ q. ok (finish accrued a q)) h3 in
    let (amount, e6, h6) =
      >>=-eq-ok (quantize_money payload.amount) (λ q. ok (finish accrued a q)) h5 in
    let kept = rounds_keep (suc (day_key payload.payment_date)) rate payload.payment_date loan h4 in
    let settled = settled_loan_keeps clock.now a accrued (ap is_unpayable kept.1 ∙ payable) in
    let same = ok_injective h6 in
    record {
      of_loan = ap (λ r. r.0.loan_id) (sym same);
      with_key = ap (λ r. r.0.idempotency_key) (sym same);
      rounded = e6 ∙ ap (λ r. ok r.0.amount) same;
      on_date = ap (λ r. r.0.payment_date) (sym same);
      with_reference = ap (λ r. r.0.reference) (sym same);
      with_note = ap (λ r. r.0.note) (sym same);
      same_loan = ap (λ r. r.1.id) (sym same) ∙ settled.0 ∙ kept.0;
      payable = ap (λ r. is_unpayable r.1.status) (sym same) ∙ settled.1;
    }

eqb_ℤ_refl : (a : ℤ) → eqb_ℤ a a ≡ true
eqb_ℤ_refl (pos n) = ground arith
eqb_ℤ_refl (negsuc n) = ground arith

date_eq_refl : (d : Date) → date_eq d d ≡ true
unfolding date_eq
date_eq_refl d = rw (==_refl d.year, ==_refl d.month, ==_refl d.day) refl

-- The request that a payment was made from does not conflict with it.
pub IsPrepared-assert :
    (loan after : Loan) (payload : PaymentPostRequest) (key : Text) (p : Payment)
    → IsPrepared loan payload key p after
    → assert_idempotency_match p payload ≡ ok tt
unfolding assert_idempotency_match
IsPrepared-assert loan after payload key p v =
    let q = quantize_money-is_cents payload.amount v.rounded in
    let same : eq p.amount p.amount ≡ true =
      rw q (eq-cents p.amount.coefficient p.amount.coefficient ∙ eqb_ℤ_refl p.amount.coefficient) in
    rw
      (
        v.rounded,
        ← v.on_date,
        ← v.with_reference,
        ← v.with_note,
        same,
        date_eq_refl p.payment_date,
        option_text_eq_refl p.reference,
        option_text_eq_refl p.note,
      )
      refl
