-- ===== src/Accrual/Batch.antt =====
-- The accrual batch over the loans: what is due once accrued is not due again.
use nelson_lending_v.Prelude.{
  ℕ, zero, suc, ◌+◌, ◌≡◌, refl, ap, arith, Bool, true, false, ◌&&◌, Bool-cases, inl, inr, List, [],
  ◌∷◌,
}
use nelson_lending_v.Prelude.Result.{ok, ◌>>=◌, >>=-eq-ok, ok_injective}
use nelson_lending_v.Decimal.{Decimal}
use nelson_lending_v.Calendar.{Date, date_le}
use nelson_lending_v.Calendar.Order.{day_key}
use nelson_lending_v.Calculator.Quote.{calculate_period_rate}
use nelson_lending_v.Store.{Store}
use nelson_lending_v.Store.Rows.{Loan}
use nelson_lending_v.Accrual.{
  accrue_period, accrue_rounds, accrue_until, accrue_loan, accrue_loans, accrue_due_interest,
  is_due, is_active,
}

rounds_stop :
    (fuel : ℕ) (rate : Decimal) (as_of : Date) (loan : Loan) {after : Loan}
    → accrue_rounds fuel rate as_of loan ≡ ok after
    → date_le after.next_interest_due_date as_of ≡ false
unfolding accrue_rounds
rounds_stop zero rate as_of loan h = ground arith
rounds_stop (suc fuel) rate as_of loan h =
    elim (Bool-cases (date_le loan.next_interest_due_date as_of)) [
      | inl reached ↦
          let (next, e, h') =
            >>=-eq-ok (accrue_period rate loan) (λ l. accrue_rounds fuel rate as_of l)
              (rw (reached, accrue_rounds) at h) in
          rounds_stop fuel rate as_of next h'
      | inr later ↦ let same = ok_injective (rw (later, accrue_rounds) at h) in rw (← same) later
    ]

&&-false : (a : Bool) → (a && false) ≡ false
&&-false true = refl
&&-false false = refl

accrue_loan_stops :
    (as_of : Date) (loan : Loan) {after : Loan}
    → accrue_loan as_of loan ≡ ok after
    → is_due as_of after ≡ false
unfolding accrue_loan accrue_until
accrue_loan_stops as_of loan {after} h =
    let (rate, e, h') =
      >>=-eq-ok (calculate_period_rate loan.monthly_rate loan.payment_frequency)
        (λ rate. accrue_until rate as_of loan) h in
    rw (rounds_stop (suc (day_key as_of)) rate as_of loan h') (&&-false (is_active after.status))

loans_again :
    (as_of : Date) (loans : List Loan) {after : List Loan} {n : ℕ}
    → accrue_loans as_of loans ≡ ok (after, n)
    → accrue_loans as_of after ≡ ok (after, 0)
unfolding accrue_loans
loans_again as_of [] {after} h = rw (← ap (λ r. r.0) (ok_injective h)) refl
loans_again as_of (loan ∷ loans) {after} h = elim (Bool-cases (is_due as_of loan)) [
  | inl due ↦
      let (changed, e, h') =
        >>=-eq-ok (accrue_loan as_of loan)
          (λ l. accrue_loans as_of loans >>= λ rest. ok (l ∷ rest.0, rest.1 + 1))
          (rw (due, accrue_loans) at h) in
      let (rest, e', h'') =
        >>=-eq-ok (accrue_loans as_of loans) (λ rest. ok (changed ∷ rest.0, rest.1 + 1)) h' in
      rw
        (
          ← ap (λ r. r.0) (ok_injective h''),
          accrue_loan_stops as_of loan e,
          loans_again as_of loans e',
          accrue_loans,
        )
        refl
  | inr not_due ↦
      let (rest, e', h'') =
        >>=-eq-ok (accrue_loans as_of loans) (λ rest. ok (loan ∷ rest.0, rest.1))
          (rw (not_due, accrue_loans) at h) in
      rw (← ap (λ r. r.0) (ok_injective h''), not_due, loans_again as_of loans e', accrue_loans)
        refl
]

-- Accruing a second time up to the same date changes nothing and reports no changed loan.
pub accrue_due_interest-idempotent :
    (as_of : Date) (s : Store) {n : ℕ} {s' : Store}
    → accrue_due_interest as_of s ≡ ok (n, s')
    → accrue_due_interest as_of s' ≡ ok (0, s')
unfolding accrue_due_interest
accrue_due_interest-idempotent as_of s {s' = s'} h =
    let (result, e, h') =
      >>=-eq-ok (accrue_loans as_of s.loans) (λ r. ok (r.1, record s { loans = r.0 })) h in
    let same = ap (λ r. r.1) (ok_injective h') in rw (← same, loans_again as_of s.loans e) refl
