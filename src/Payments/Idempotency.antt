-- ===== src/Payments/Idempotency.antt =====
-- What a request that posted a new payment found and stored:
-- backend/app/features/payments/service.py.
use nelson_lending_v.Prelude.{
  ℕ, ◌≡◌, ◌∙◌, refl, sym, ap, true, false, ◌==◌, ==_iff, Bool-cases, Option-cases, inl, inr, Option,
  none, some,
}
use mathlib.Core.Path.{subst}
use nelson_lending_v.Prelude.Result.{
  Error, Result, ok, err, ◌>>=◌, ◌>>◌, raise_if, >>=-eq-ok, raise_if-eq_ok, ok_injective,
  loan_not_payable, integrity_error,
}
use nelson_lending_v.Accounting.Events.{SameLoans}
use nelson_lending_v.Store.{Store, Clock}
use nelson_lending_v.Store.Rows.{Text, Loan, Payment}
use nelson_lending_v.Store.Table.{strip, one_or_none, one_or_none-found}
use nelson_lending_v.Payments.{
  PaymentPostRequest, Posted, find_idempotent_payment, assert_idempotency_match, replay, found_loan,
  is_unpayable, flushed, record_payment, prepare_payment, is_integrity_error, recover,
  replay_or_raise, post_new_payment, replay_or_post, post_payment,
}
use nelson_lending_v.Payments.Prepared.{
  IsPrepared, record_payment-SameLoans, prepare_payment-IsPrepared,
}

err-not-ok {ℓ} : {A : Type ℓ} {e : Error} {a : A} → ¬ (err e ≡ ok a)
err-not-ok h = cc

pub recover-eq_ok :
    (m again : Result Posted) {e : Error} {r : Posted}
    → again ≡ err e
    → recover m again ≡ ok r
    → m ≡ ok r
recover-eq_ok (ok r) again failed h = h
recover-eq_ok (err e) again failed h = elim (Bool-cases (is_integrity_error e)) [
  | inl conflict ↦ absurd (err-not-ok (sym failed ∙ rw conflict at h))
  | inr raised ↦ absurd (err-not-ok (rw raised at h))
]

-- A replay is never reported as new.
replay-not-new :
    (existing p : Payment) (payload : PaymentPostRequest) (s s' : Store)
    → ¬ (replay existing payload s ≡ ok (p, false, s'))
unfolding replay
replay-not-new existing p payload s s' h =
    let (checked, e, h') =
      >>=-eq-ok (assert_idempotency_match existing payload) (λ c. ok (existing, true, s)) h in
    let differ : true ≡ false = ap (λ r. r.1) (ok_injective h') in cc

pub found_loan-eq_ok :
    (row : Option Loan) {loan : Loan} → found_loan row ≡ ok loan → row ≡ some loan
found_loan-eq_ok none h = absurd (err-not-ok h)
found_loan-eq_ok (some l) h = ap some (ok_injective h)

-- What a call that posted a new payment found and stored.
pub record IsNewPayment (loan_id : ℕ) (payload : PaymentPostRequest) (key : Text) (s : Store)
    (p : Payment) (s' : Store) : Type 0 where
  pub loan : Loan
  pub after : Loan
  pub at_loan : one_or_none (λ (l : Loan). l.id == loan_id) s.loans ≡ ok (some loan)
  pub no_payment : find_idempotent_payment loan_id key s ≡ ok none
  pub prepared : IsPrepared loan payload key p after
  pub stored : SameLoans (flushed p after s) s'

pub post_payment-IsNewPayment :
    (clock : Clock) (loan_id : ℕ) (payload : PaymentPostRequest) (idempotency_key : Text)
    (s : Store) {p : Payment} {s' : Store}
    → post_payment clock loan_id payload idempotency_key s ≡ ok (p, false, s')
    → IsNewPayment loan_id payload (strip idempotency_key) s p s'
unfolding post_payment post_new_payment
post_payment-IsNewPayment clock loan_id payload idempotency_key s {p} {s'} h =
    let key = strip idempotency_key in
    let proceed : Loan → Result Posted = λ loan.
      raise_if (is_unpayable loan.status) loan_not_payable
      >> (find_idempotent_payment loan_id key s >>= λ e.
          replay_or_post e clock loan payload key s) in
    let (row, erow, h1) =
      >>=-eq-ok (one_or_none (λ (l : Loan). l.id == loan_id) s.loans)
        (λ r. found_loan r >>= proceed) h in
    let (loan, eloan, h2) = >>=-eq-ok (found_loan row) proceed h1 in
    let (payable, h3) = raise_if-eq_ok (is_unpayable loan.status) loan_not_payable _ h2 in
    let (existing, ee, h4) =
      >>=-eq-ok (find_idempotent_payment loan_id key s)
        (λ e. replay_or_post e clock loan payload key s) h3 in
    let found = found_loan-eq_ok row eloan in
    let at_row = erow ∙ ap ok found in
    let same_id = (==_iff loan.id loan_id).0 (one_or_none-found _ s.loans at_row) in
    elim (Option-cases existing) [
      | inl fresh ↦
          let (prepared, ep, h5) =
            >>=-eq-ok (prepare_payment clock loan payload key s)
              (λ r.
                recover (record_payment clock r.0 r.1 s)
                  (find_idempotent_payment loan.id key s >>= λ e. replay_or_raise e payload s))
              (rw (fresh, post_new_payment) at h4) in
          let nothing : (find_idempotent_payment loan.id key s >>= λ e. replay_or_raise e payload s)
              ≡ err integrity_error =
            rw (same_id, ee, fresh) refl in
          let recorded =
            recover-eq_ok (record_payment clock prepared.0 prepared.1 s) _ nothing h5 in
          let (same, new, stored) =
            record_payment-SameLoans clock prepared.0 prepared.1 s recorded in
          record {
            loan = loan;
            after = prepared.1;
            at_loan = at_row;
            no_payment = ee ∙ ap ok fresh;
            prepared =
                subst (λ q. IsPrepared loan payload key q prepared.1) (sym same)
                  (prepare_payment-IsPrepared clock loan payload key s payable ep);
            stored = subst (λ q. SameLoans (flushed q prepared.1 s) s') (sym same) stored;
          }
      | inr (old, e) ↦ absurd (replay-not-new old p payload s s' (rw e at h4))
    ]
