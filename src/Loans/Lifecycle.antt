-- ===== src/Loans/Lifecycle.antt =====
-- A request becomes at most one loan, and a cancelled loan stays cancelled.
use nelson_lending_v.Prelude.{
  ℕ, ◌+◌, ◌≡◌, ◌∙◌, refl, sym, ap, arith, false, not, ◌==◌, ==_iff, [], ◌∷◌, ◌++◌, Option, none,
  some,
}
use nelson_lending_v.Prelude.Result.{
  Result, ok, err, ◌>>=◌, ◌>>◌, raise_if, >>=-eq-ok, raise_if-eq_ok, ok_injective,
  invalid_loan_transition, loan_already_created, request_not_approved,
}
use nelson_lending_v.Calculator.Quote.{LoanQuote, calculate_quote}
use nelson_lending_v.Store.{Store, Clock}
use nelson_lending_v.Store.Rows.{Loan, LoanRequest}
use nelson_lending_v.Store.Table.{
  one_or_none, one_or_none-found, one_or_none-update, one_or_none-snoc, is_some, update,
}
use nelson_lending_v.Loans.{
  is_approved, found_request, loan_of, create_loan_from_request, found_loan_row,
  is_pending_disbursement, save_loan, disburse_loan, cancelled_loan, cancel_loan,
}

found_loan_row-eq_ok :
    (row : Option Loan) {loan : Loan} → found_loan_row row ≡ ok loan → row ≡ some loan
found_loan_row-eq_ok none h = ground (arith, h)
found_loan_row-eq_ok (some l) h = ap some (ok_injective h)

found_request-eq_ok :
    (row : Option LoanRequest) {r : LoanRequest} → found_request row ≡ ok r → row ≡ some r
found_request-eq_ok none h = ground (arith, h)
found_request-eq_ok (some l) h = ap some (ok_injective h)

is_some-false {ℓ} : {A : Type ℓ} (o : Option A) → is_some o ≡ false → o ≡ none
is_some-false none h = refl
is_some-false (some a) h = cc

-- The loan that a cancellation leaves under its id.
cancel_loan-eq_ok :
    (clock : Clock) (loan_id : ℕ) (s : Store) {done : Loan} {s' : Store}
    → cancel_loan clock loan_id s ≡ ok (done, s')
    → (loan : Loan) × (done ≡ cancelled_loan clock.now loan)
      × (one_or_none (λ (l : Loan). l.id == loan_id) s'.loans
          ≡ ok (some (cancelled_loan clock.now loan)))
unfolding cancel_loan
cancel_loan-eq_ok clock loan_id s h =
    let by_id = λ (l : Loan). l.id == loan_id in
    let finish : Loan → Result (Loan × Store) = λ loan.
      raise_if (not (is_pending_disbursement loan.status)) invalid_loan_transition
      >> ok (cancelled_loan clock.now loan, save_loan (cancelled_loan clock.now loan) s) in
    let (row, erow, h1) =
      >>=-eq-ok (one_or_none by_id s.loans) (λ r. found_loan_row r >>= finish) h in
    let (loan, eloan, h2) = >>=-eq-ok (found_loan_row row) finish h1 in
    let (waiting, h3) =
      raise_if-eq_ok (not (is_pending_disbursement loan.status)) invalid_loan_transition _ h2 in
    let at_loan = erow ∙ ap ok (found_loan_row-eq_ok row eloan) in
    let hit = one_or_none-found by_id s.loans at_loan in
    let same_id = (==_iff loan.id loan_id).0 hit in
    let done = cancelled_loan clock.now loan in
    let same = sym (ok_injective h3) in
    (
      loan,
      ap (λ r. r.0) same,
      ap (λ r. one_or_none by_id r.1.loans) same
          ∙ ap (λ i. one_or_none by_id (update (λ (x : Loan). x.id == i) (λ x. done) s.loans))
              same_id
          ∙ one_or_none-update by_id done s.loans at_loan hit,
    )

-- A loan that was cancelled can, at any later time, be neither disbursed nor cancelled again.
pub cancel_loan_final :
    (clock later : Clock) (loan_id : ℕ) (s : Store) {done : Loan} {s' : Store}
    → cancel_loan clock loan_id s ≡ ok (done, s')
    → (disburse_loan later loan_id s' ≡ err invalid_loan_transition)
      × (cancel_loan later loan_id s' ≡ err invalid_loan_transition)
unfolding cancel_loan disburse_loan
cancel_loan_final clock later loan_id s h =
    let (loan, _, found) = cancel_loan-eq_ok clock loan_id s h in (rw found refl, rw found refl)

-- A second call for a request that became a loan raises that the loan exists.
pub create_loan_from_request_once :
    (request_id : ℕ) (s : Store) {loan : Loan} {s' : Store}
    → create_loan_from_request request_id s ≡ ok (loan, s')
    → create_loan_from_request request_id s' ≡ err loan_already_created
unfolding create_loan_from_request
create_loan_from_request_once request_id s h =
    let by_request = λ (l : Loan). l.loan_request_id == request_id in
    let by_id = λ (r : LoanRequest). r.id == request_id in
    let quote_of : LoanRequest → Result LoanQuote = λ r.
      calculate_quote r.requested_principal r.requested_monthly_rate r.requested_term_months
        r.requested_payment_frequency r.requested_first_due_date in
    let finish : LoanRequest → Result (Loan × Store) = λ r. quote_of r >>= λ q. ok (
      loan_of s.next_id r q,
      record s { next_id = s.next_id + 1; loans = s.loans ++ (loan_of s.next_id r q ∷ []) },
    ) in
    let check : LoanRequest → Result (Loan × Store) = λ r. one_or_none by_request s.loans >>= λ e.
    raise_if (is_some e) loan_already_created >> finish r in
    let start : LoanRequest → Result (Loan × Store) =
      λ r. raise_if (not (is_approved r.status)) request_not_approved >> check r in
    let (row, erow, h1) =
      >>=-eq-ok (one_or_none by_id s.loan_requests) (λ r. found_request r >>= start) h in
    let (request, ereq, h2) = >>=-eq-ok (found_request row) start h1 in
    let (ready, h3) =
      raise_if-eq_ok (not (is_approved request.status)) request_not_approved (check request) h2 in
    let (existing, eex, h4) =
      >>=-eq-ok (one_or_none by_request s.loans)
        (λ e. raise_if (is_some e) loan_already_created >> finish request) h3 in
    let (fresh, h5) = raise_if-eq_ok (is_some existing) loan_already_created (finish request) h4 in
    let (quote, eq, h6) =
      >>=-eq-ok (quote_of request)
        (λ q. ok (
          loan_of s.next_id request q,
          record s {
            next_id = s.next_id + 1;
            loans = s.loans ++ (loan_of s.next_id request q ∷ []);
          },
        ))
        h5 in
    let loan = loan_of s.next_id request quote in
    let at_request = erow ∙ ap ok (found_request-eq_ok row ereq) in
    let hit = one_or_none-found by_id s.loan_requests at_request in
    let found =
      one_or_none-snoc by_request s.loans {x = loan} (eex ∙ ap ok (is_some-false existing fresh))
        hit in
    let same = sym (ok_injective h6) in
    let requests = ap (λ r. one_or_none by_id r.1.loan_requests) same ∙ at_request in
    let loans = ap (λ r. one_or_none by_request r.1.loans) same ∙ found in
    rw (requests, ready, loans) refl
