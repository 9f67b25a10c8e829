-- ===== src/Calculator/Quote/Rounds.antt =====
-- The rounds of the loop in `calculate_quote`, taken apart.
use nelson_lending_v.Prelude.{ℕ, ◌+◌, ◌-◌, ◌≡◌, arith, List, ◌∷◌, ◌==◌}
use nelson_lending_v.Prelude.Result.{ok, ◌>>=◌, >>=-eq-ok}
use nelson_lending_v.Decimal.{Decimal, add, mul, quantize_money}
use nelson_lending_v.Calendar.{Date}
use nelson_lending_v.Calculator.Quote.{
  Round, Projection, prepend, installment, schedule_round, schedule_from,
}

-- What a round of the loop has computed.
pub record IsRound (n : ℕ) (rate payment : Decimal) (i : ℕ)
    (opening total_interest total_repayment : Decimal) (due : Date) (r : Round) : Type 0 where
  pub number : r.item.installment_number ≡ i + 1
  pub on_date : r.item.due_date ≡ due
  pub from_opening : r.item.opening_principal ≡ opening
  pub interest : quantize_money (mul opening rate) ≡ ok r.item.interest_due
  pub split :
      installment (i == n - 1) payment opening r.item.interest_due
      ≡ ok (r.item.scheduled_principal, r.item.scheduled_payment, r.item.closing_principal)
  pub interest_total : quantize_money (add total_interest r.item.interest_due) ≡ ok r.total_interest
  pub repayment_total :
      quantize_money (add total_repayment r.item.scheduled_payment) ≡ ok r.total_repayment

pub schedule_round-IsRound :
    (n : ℕ) (rate payment : Decimal) (i : ℕ) (opening ti tr : Decimal) (due : Date) {r : Round}
    → schedule_round n rate payment i opening ti tr due ≡ ok r
    → IsRound n rate payment i opening ti tr due r
unfolding schedule_round
schedule_round-IsRound n rate payment i opening ti tr due h = ground arith

-- The loop's step, taken apart.
pub schedule_from-cons :
    (n : ℕ) (rate payment : Decimal) (i : ℕ) (opening ti tr : Decimal) (due : Date)
    (dues : List Date) {p : Projection}
    → schedule_from n rate payment i opening ti tr (due ∷ dues) ≡ ok p
    → (r : Round) × (rest : Projection) × IsRound n rate payment i opening ti tr due r
      × (schedule_from n rate payment
            (i + 1)
            r.item.closing_principal
            r.total_interest
            r.total_repayment
            dues
          ≡ ok rest)
      × (p ≡ prepend r.item rest)
unfolding schedule_from
schedule_from-cons n rate payment i opening ti tr due dues h =
    let (r, hr, rest_ok) =
      >>=-eq-ok (schedule_round n rate payment i opening ti tr due)
        (λ round. do
          rest ←
              schedule_from n rate payment (i + 1) round.item.closing_principal round.total_interest
                round.total_repayment dues
          ok (prepend round.item rest))
        h in
    let (rest, hrest, e) =
      >>=-eq-ok
        (schedule_from n rate payment (i + 1) r.item.closing_principal r.total_interest
          r.total_repayment dues)
        (λ rest. ok (prepend r.item rest)) rest_ok in
    (r, rest, schedule_round-IsRound n rate payment i opening ti tr due hr, hrest, ground arith)
