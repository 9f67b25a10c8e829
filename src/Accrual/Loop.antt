-- ===== src/Accrual/Loop.antt =====
-- The accrual loop ends, stops at the first due date after the accrual date, and charges the same
-- rounded interest for each due date that it passes.
use nelson_lending_v.Prelude.{
  ℕ, zero, suc, ◌+◌, ◌<◌, ◌≡◌, ◌∙◌, refl, ap, arith, true, false, Bool-cases, ◌==◌, inl, inr,
}
use nelson_lending_v.Prelude.Int.{ℤ, pos, ◌+ℤ◌, int_laws}
use nelson_lending_v.Prelude.Result.{
  ok, err, ◌>>=◌, >>=-eq-ok, >>=-ends, Result-cases, fuel_exhausted,
}
use nelson_lending_v.Decimal.{Decimal, cents, add, mul, quantize_money, quantize}
use nelson_lending_v.Decimal.Overflow.{quantize_money-add}
use nelson_lending_v.Calendar.{Date, IsDate, date_le, new_date, days_in_month}
use nelson_lending_v.Calendar.Order.{day_key, date_le_iff, date_lt_iff}
use nelson_lending_v.Calculator.DueDates.{
  PaymentFrequency, monthly, twice_monthly, other, advance_due_date, next_year, next_month,
}
use nelson_lending_v.Calculator.DueDates.Advance.{
  advance_due_date_later, advance_due_date_later_twice,
}
use nelson_lending_v.Store.Rows.{Loan}
use nelson_lending_v.Accrual.{accrue_period, accrue_rounds, accrue_until}

-- From due date `d`, exactly `k` due dates are reached by the date `as_of`, and `e` is the next.
abbrev pub Passes : Date → PaymentFrequency → Date → ℕ → Date → Date → Type 0
Passes first f as_of zero d e = (d ≡ e) × (date_le d as_of ≡ false)
Passes first f as_of (suc k) d e =
    (date_le d as_of ≡ true)
    × ((m : Date) × (advance_due_date d f first ≡ ok m) × Passes first f as_of k m e)

-- `i` charged `k` times.
abbrev pub times : ℕ → ℤ → ℤ
times zero i = pos 0
times (suc k) i = i +ℤ times k i

-- The loan after `k` rounds of interest `i`.
abbrev pub accrued_loan : Loan → ℤ → Date → Loan
accrued_loan loan a e = record loan { accrued_interest = cents a; next_interest_due_date = e }

accrue_period-eq_ok :
    (rate : Decimal) (loan : Loan) (i : ℤ) {next : Loan}
    → quantize_money (mul loan.outstanding_principal rate) ≡ ok (cents i)
    → loan.accrued_interest ≡ cents loan.accrued_interest.coefficient
    → accrue_period rate loan ≡ ok next
    → (advance_due_date loan.next_interest_due_date loan.payment_frequency loan.first_due_date
        ≡ ok next.next_interest_due_date)
      × (next
          ≡ accrued_loan loan (loan.accrued_interest.coefficient +ℤ i) next.next_interest_due_date)
unfolding accrue_period
accrue_period-eq_ok rate loan i {next} hi ha h =
    let (accrued, e, h') =
      >>=-eq-ok (quantize_money (add loan.accrued_interest (cents i)))
        (λ accrued.
          advance_due_date loan.next_interest_due_date loan.payment_frequency loan.first_due_date
          >>= λ due. ok (record loan { accrued_interest = accrued; next_interest_due_date = due }))
        (rw hi at h) in
    let (due, e', h'') =
      >>=-eq-ok
        (advance_due_date loan.next_interest_due_date loan.payment_frequency loan.first_due_date)
        (λ due. ok (record loan { accrued_interest = accrued; next_interest_due_date = due })) h' in
    let total = (quantize_money-add loan.accrued_interest.coefficient i (rw ha at e)).1 in
    let same : record loan { accrued_interest = accrued; next_interest_due_date = due } ≡ next =
      ground arith in
    rw (← same) (e', rw total)

-- The rounds of a loan whose interest is in centavos: some number `k` of due dates is passed.
rounds-Passes :
    (fuel : ℕ) (rate : Decimal) (as_of : Date) (loan : Loan) (i : ℤ) {after : Loan}
    → quantize_money (mul loan.outstanding_principal rate) ≡ ok (cents i)
    → loan.accrued_interest ≡ cents loan.accrued_interest.coefficient
    → accrue_rounds fuel rate as_of loan ≡ ok after
    → (k : ℕ) × Passes loan.first_due_date loan.payment_frequency as_of k
        loan.next_interest_due_date after.next_interest_due_date
      × (after
          ≡ accrued_loan loan
              (loan.accrued_interest.coefficient +ℤ times k i)
              after.next_interest_due_date)
unfolding accrue_rounds
rounds-Passes zero rate as_of loan i hi ha h = ground arith
rounds-Passes (suc fuel) rate as_of loan i {after} hi ha h =
    elim (Bool-cases (date_le loan.next_interest_due_date as_of)) [
      | inl reached ↦
          let (next, e, h') =
            >>=-eq-ok (accrue_period rate loan) (λ l. accrue_rounds fuel rate as_of l)
              (rw (reached, accrue_rounds) at h) in
          let (due, same) = accrue_period-eq_ok rate loan i hi ha e in
          let a = loan.accrued_interest.coefficient in
          let step = accrued_loan loan (a +ℤ i) next.next_interest_due_date in
          let (k, passed, e') = rounds-Passes fuel rate as_of step i hi refl (rw same at h') in
          (
            suc k,
            (reached, (next.next_interest_due_date, due, passed)),
            e' ∙ ap (λ c. accrued_loan loan c after.next_interest_due_date) (omega int_laws),
          )
      | inr later ↦
          let same : loan ≡ after = ground (arith, rw (later, accrue_rounds) at h) in
          let zero_times =
            ap (λ c. record loan { accrued_interest = c }) (ha ∙ ap cents (omega int_laws)) in
          (0, rw (← same) (refl, later), rw (← same) zero_times)
    ]

-- For a loan whose accrued interest is in centavos, a run of the loop that returns charges the
-- rounded interest `i` of a period once for each due date up to the
-- accrual date and changes nothing else: there is a number of due dates that it passed, the
-- accrued interest grew by `i` that many times, and the next due date is the first later one.
pub accrue_until-Passes :
    (rate : Decimal) (as_of : Date) (loan : Loan) (i : ℤ) {after : Loan}
    → quantize_money (mul loan.outstanding_principal rate) ≡ ok (cents i)
    → loan.accrued_interest ≡ cents loan.accrued_interest.coefficient
    → accrue_until rate as_of loan ≡ ok after
    → (k : ℕ) × Passes loan.first_due_date loan.payment_frequency as_of k
        loan.next_interest_due_date after.next_interest_due_date
      × (after
          ≡ accrued_loan loan
              (loan.accrued_interest.coefficient +ℤ times k i)
              after.next_interest_due_date)
unfolding accrue_until
accrue_until-Passes rate as_of loan i hi ha h =
    rounds-Passes (suc (day_key as_of)) rate as_of loan i hi ha h

advance_due_date_forward :
    (f : PaymentFrequency) (first d : Date) {e : Date}
    → IsDate first
    → IsDate d
    → advance_due_date d f first ≡ ok e
    → IsDate e × (day_key d < day_key e)
unfolding advance_due_date
advance_due_date_forward monthly first d {e} vf vd h =
    let (v, m, later) = advance_due_date_later first d vf vd h in
    (v, (date_lt_iff d e vd v).0 later)
advance_due_date_forward twice_monthly first d {e} vf vd h =
    let (v, m, later) = advance_due_date_later_twice first d vd h in
    (v, (date_lt_iff d e vd v).0 later)
advance_due_date_forward other first d vf vd h = cc

accrue_period_forward :
    (rate : Decimal) (loan : Loan) {next : Loan}
    → accrue_period rate loan ≡ ok next
    → (advance_due_date loan.next_interest_due_date loan.payment_frequency loan.first_due_date
        ≡ ok next.next_interest_due_date)
      × (next.first_due_date ≡ loan.first_due_date)
unfolding accrue_period
accrue_period_forward rate loan h = ground arith

quantize_money_ends : (d : Decimal) → ¬ (quantize_money d ≡ err fuel_exhausted)
unfolding quantize_money quantize
quantize_money_ends d h = ground arith

new_date_ends : (y m d : ℕ) → ¬ (new_date y m d ≡ err fuel_exhausted)
unfolding new_date
new_date_ends y m d h = ground arith

advance_due_date_ends :
    (f : PaymentFrequency) (d first : Date) → ¬ (advance_due_date d f first ≡ err fuel_exhausted)
unfolding advance_due_date
advance_due_date_ends monthly d first h = new_date_ends _ _ _ h
advance_due_date_ends twice_monthly d first h = elim (Bool-cases (d.day == 15)) [
  | inl fifteenth ↦ new_date_ends d.year d.month (days_in_month d.year d.month) (rw fifteenth at h)
  | inr last ↦ new_date_ends (next_year d.year d.month) (next_month d.month) 15 (rw last at h)
]
advance_due_date_ends other d first h = ground arith

accrue_period_ends :
    (rate : Decimal) (loan : Loan) → ¬ (accrue_period rate loan ≡ err fuel_exhausted)
unfolding accrue_period
accrue_period_ends rate loan =
    >>=-ends (quantize_money (mul loan.outstanding_principal rate)) _ (quantize_money_ends _) (λ i.
      >>=-ends (quantize_money (add loan.accrued_interest i)) _ (quantize_money_ends _) (λ a.
        >>=-ends
          (advance_due_date loan.next_interest_due_date loan.payment_frequency loan.first_due_date)
          _
          (advance_due_date_ends loan.payment_frequency loan.next_interest_due_date
            loan.first_due_date)
          (λ d h. ground arith)))

rounds_end :
    (fuel : ℕ) (rate : Decimal) (as_of : Date) (loan : Loan)
    → IsDate as_of
    → IsDate loan.first_due_date
    → IsDate loan.next_interest_due_date
    → 0 < fuel
    → day_key as_of + 1 < fuel + day_key loan.next_interest_due_date
    → ¬ (accrue_rounds fuel rate as_of loan ≡ err fuel_exhausted)
unfolding accrue_rounds
rounds_end zero rate as_of loan va vf vn some_left enough h = omega arith
rounds_end (suc fuel) rate as_of loan va vf vn some_left enough h =
    elim (Bool-cases (date_le loan.next_interest_due_date as_of)) [
      | inl reached ↦
          let le = (date_le_iff loan.next_interest_due_date as_of vn va).0 reached in
          elim (Result-cases (accrue_period rate loan)) [
            | inl (next, e) ↦
                let (due, first) = accrue_period_forward rate loan e in
                let (v, later) =
                  advance_due_date_forward loan.payment_frequency loan.first_due_date
                    loan.next_interest_due_date vf vn due in
                rounds_end fuel rate as_of next va (rw first vf) v (omega arith) (omega arith)
                  (rw (reached, e, accrue_rounds) at h)
            | inr (raised, e) ↦
                accrue_period_ends rate loan (e ∙ rw (reached, e, accrue_rounds) at h)
          ]
      | inr later ↦ ground (arith, rw (later, accrue_rounds) at h)
    ]

-- Between valid dates the accrual loop ends: it never runs out of the fuel it is given.
pub accrue_until_ends :
    (rate : Decimal) (as_of : Date) (loan : Loan)
    → IsDate as_of
    → IsDate loan.first_due_date
    → IsDate loan.next_interest_due_date
    → ¬ (accrue_until rate as_of loan ≡ err fuel_exhausted)
unfolding accrue_until
accrue_until_ends rate as_of loan va vf vn =
    rounds_end (suc (day_key as_of)) rate as_of loan va vf vn (omega arith)
      (grind (arith, vn.year_pos))
