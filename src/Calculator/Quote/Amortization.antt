-- ===== src/Calculator/Quote/Amortization.antt =====
-- The schedule of a quote pays off the principal exactly, whatever was rounded on the way.
use nelson_lending_v.Prelude.{
  ℕ, suc, ◌+◌, ◌-◌, ◌<◌, ◌≡◌, ◌∙◌, ap, ap₂, sym, arith, true, false, List, [], ◌∷◌, length, ◌==◌,
}
use nelson_lending_v.Prelude.Int.{ℤ, pos, abs, ◌+ℤ◌, ◌-ℤ◌, int_laws}
use nelson_lending_v.Prelude.Result.{ok}
use nelson_lending_v.Decimal.{
  Decimal, decimal, cents, zero_money, precision_limit, add, sub, mul, quantize_money,
}
use nelson_lending_v.Decimal.Cents.{add-cents}
use nelson_lending_v.Decimal.Quantize.{quantize_money_fits, quantize_money-is_cents}
use nelson_lending_v.Decimal.Overflow.{quantize_money-add}
use nelson_lending_v.Decimal.Sign.{quantize_money-mul-SameSign}
use nelson_lending_v.Decimal.Closing.{quantize_money-closing}
use nelson_lending_v.Calendar.{Date}
use nelson_lending_v.Calculator.Quote.{ScheduleItem, Round, Projection, installment, schedule_from}
use nelson_lending_v.Calculator.Quote.Rounds.{IsRound, schedule_from-cons}

-- Installment `i + 1`, of a loan that stands at `o` centavos before it.
pub record IsInstallment (rate : Decimal) (o : ℤ) (i : ℕ) (due : Date) (it : ScheduleItem)
    : Type 0 where
  pub number : it.installment_number ≡ i + 1
  pub on_date : it.due_date ≡ due
  pub opening : it.opening_principal ≡ cents o
  pub interest : quantize_money (mul (cents o) rate) ≡ ok it.interest_due
  pub principal : it.scheduled_principal ≡ cents it.scheduled_principal.coefficient
  pub payment : it.scheduled_payment ≡ add it.scheduled_principal it.interest_due
  pub closing : it.closing_principal ≡ cents (o -ℤ it.scheduled_principal.coefficient)

-- A schedule from `o` centavos down to none, one installment for each due date.
abbrev pub Amortizes : Decimal → ℤ → ℕ → List Date → List ScheduleItem → Type 0
Amortizes rate o i [] [] = o ≡ pos 0
Amortizes rate o i (due ∷ dues) (it ∷ its) =
    IsInstallment rate o i due it
    × Amortizes rate (o -ℤ it.scheduled_principal.coefficient) (i + 1) dues its
Amortizes rate o i _ _ = ⊥

abbrev pub sum_interest : List ScheduleItem → ℤ
sum_interest [] = pos 0
sum_interest (it ∷ its) = it.interest_due.coefficient +ℤ sum_interest its

abbrev pub sum_principal : List ScheduleItem → ℤ
sum_principal [] = pos 0
sum_principal (it ∷ its) = it.scheduled_principal.coefficient +ℤ sum_principal its

-- The principal parts of such a schedule add up to the loan.
pub Amortizes-sum_principal :
    (rate : Decimal) (o : ℤ) (i : ℕ) (dues : List Date) (its : List ScheduleItem)
    → Amortizes rate o i dues its
    → sum_principal its ≡ o
Amortizes-sum_principal rate o i [] [] h = sym h
Amortizes-sum_principal rate o i [] (it ∷ its) h = absurd h
Amortizes-sum_principal rate o i (due ∷ dues) [] h = absurd h
Amortizes-sum_principal rate o i (due ∷ dues) (it ∷ its) (_, h) =
    rw (Amortizes-sum_principal rate (o -ℤ it.scheduled_principal.coefficient) (i + 1) dues its h)
      (omega int_laws)

installment-level :
    (payment opening interest : Decimal) {sp pay closing : Decimal}
    → installment false payment opening interest ≡ ok (sp, pay, closing)
    → (quantize_money (sub opening (sub payment interest)) ≡ ok closing)
      × (sp ≡ sub payment interest)
      × (pay ≡ payment)
unfolding installment
installment-level payment opening interest h = ground arith

installment-last :
    (payment opening interest : Decimal) {sp pay closing : Decimal}
    → installment true payment opening interest ≡ ok (sp, pay, closing)
    → (closing ≡ zero_money) × (sp ≡ opening) × (pay ≡ add opening interest)
unfolding installment
installment-last payment opening interest h = ground arith

schedule_from-nil :
    (n : ℕ) (rate payment : Decimal) (i : ℕ) (opening ti tr : Decimal) {p : Projection}
    → schedule_from n rate payment i opening ti tr [] ≡ ok p
    → (p.schedule ≡ []) × (p.total_interest ≡ ti)
unfolding schedule_from
schedule_from-nil n rate payment i opening ti tr h = ground arith

module _ (n r places : ℕ) (P : ℤ) (P_fits : abs P < precision_limit) where
  abbrev pub rate : Decimal
  rate = decimal (pos r) places

  -- A round before the last.
  level_round :
      (o : ℤ) (i : ℕ) (ti tr : Decimal) (due : Date) (k : Round)
      → (i == n - 1) ≡ false
      → IsRound n rate (cents P) i (cents o) ti tr due k
      → IsInstallment rate o i due k.item
  level_round o i ti tr due k more h =
      let same = quantize_money-mul-SameSign o r places h.interest in
      let e = quantize_money-is_cents (mul (cents o) rate) h.interest in
      let (_, fits) = quantize_money_fits (mul (cents o) rate) h.interest in
      let ic = k.item.interest_due.coefficient in
      let (closed, esp, epay) =
        installment-level (cents P) (cents o) (cents ic) (rw e at (rw more at h.split)) in
      let (ed, small, ecl) = quantize_money-closing P ic o P_fits fits same closed in
      let esp' : k.item.scheduled_principal ≡ cents (P -ℤ ic) = esp ∙ ed in
      let whole : P -ℤ ic +ℤ ic ≡ P = omega int_laws in
      let ec : k.item.scheduled_principal.coefficient ≡ P -ℤ ic = ap (λ d. d.coefficient) esp' in
      record {
        number = h.number;
        on_date = h.on_date;
        opening = h.from_opening;
        interest = h.interest;
        principal = esp' ∙ ap cents (sym ec);
        payment =
            epay ∙ sym (ap₂ add esp' e ∙ add-cents (P -ℤ ic) ic (rw whole P_fits) ∙ ap cents whole);
        closing = ecl ∙ ap (λ c. cents (o -ℤ c)) (sym ec);
      }

  -- The last round.
  last_round :
      (o : ℤ) (i : ℕ) (ti tr : Decimal) (due : Date) (k : Round)
      → (i == n - 1) ≡ true
      → IsRound n rate (cents P) i (cents o) ti tr due k
      → IsInstallment rate o i due k.item × (o -ℤ k.item.scheduled_principal.coefficient ≡ pos 0)
  last_round o i ti tr due k last h =
      let (ecl, esp, epay) =
        installment-last (cents P) (cents o) k.item.interest_due (rw last at h.split) in
      let ec : k.item.scheduled_principal.coefficient ≡ o = ap (λ d. d.coefficient) esp in
      let none_left : o -ℤ o ≡ pos 0 = omega int_laws in
      let done : o -ℤ k.item.scheduled_principal.coefficient ≡ pos 0 = rw ec none_left in
      (
        record {
          number = h.number;
          on_date = h.on_date;
          opening = h.from_opening;
          interest = h.interest;
          principal = esp ∙ ap cents (sym ec);
          payment = epay ∙ ap (λ d. add d k.item.interest_due) (sym esp);
          closing = ecl ∙ ap cents (sym done);
        },
        done,
      )

  interest_round :
      (o : ℤ) (i : ℕ) (t : ℤ) (tr : Decimal) (due : Date) (k : Round)
      → IsRound n rate (cents P) i (cents o) (cents t) tr due k
      → k.total_interest ≡ cents (t +ℤ k.item.interest_due.coefficient)
  interest_round o i t tr due k h =
      let e = quantize_money-is_cents (mul (cents o) rate) h.interest in
      (quantize_money-add t k.item.interest_due.coefficient
        (ap (λ d. quantize_money (add (cents t) d)) (sym e) ∙ h.interest_total)).1

  -- The loop from round `i` on, with at least one round to go.
  pub schedule_from-Amortizes :
      (o t : ℤ) (i : ℕ) (tr : Decimal) (due : Date) (dues : List Date) {p : Projection}
      → suc (length dues) + i ≡ n
      → schedule_from n rate (cents P) i (cents o) (cents t) tr (due ∷ dues) ≡ ok p
      → Amortizes rate o i (due ∷ dues) p.schedule
        × (p.total_interest ≡ cents (t +ℤ sum_interest p.schedule))
  schedule_from-Amortizes o t i tr due [] count h =
      let (k, rest, round, hrest, ep) =
        schedule_from-cons n rate (cents P) i (cents o) (cents t) tr due [] h in
      let (item, done) = last_round o i (cents t) tr due k (ground arith) round in
      let erest =
        schedule_from-nil n rate (cents P) (i + 1) k.item.closing_principal k.total_interest
          k.total_repayment hrest in
      let total = interest_round o i t tr due k round in
      rw (ep, erest.0, erest.1, total) ((item, done), ap cents (omega int_laws))
  schedule_from-Amortizes o t i tr due (next ∷ dues) count h =
      let (k, rest, round, hrest, ep) =
        schedule_from-cons n rate (cents P) i (cents o) (cents t) tr due (next ∷ dues) h in
      let item = level_round o i (cents t) tr due k (ground arith) round in
      let total = interest_round o i t tr due k round in
      let (later, sum) =
        schedule_from-Amortizes (o -ℤ k.item.scheduled_principal.coefficient)
          (t +ℤ k.item.interest_due.coefficient) (i + 1) k.total_repayment next dues (omega arith)
          (rw (item.closing, total) at hrest) in
      rw ep ((item, later), sum ∙ ap cents (omega int_laws))
