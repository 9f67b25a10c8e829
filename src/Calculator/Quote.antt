-- ===== src/Calculator/Quote.antt =====
-- `calculate_period_rate` and `calculate_quote` of backend/app/features/loans/calculator.py.
pub mod Rounds
pub mod Amortization
pub mod Correct
use nelson_lending_v.Prelude.{
  ℕ, ◌+◌, ◌-◌, Bool, true, false, not, List, [], ◌∷◌, ◌==◌, if◌then◌else◌,
}
use nelson_lending_v.Prelude.Int.{ℤ, pos, pos_part, ◌*ℤ◌, leb_ℤ}
use nelson_lending_v.Prelude.Result.{
  Result, ok, err, raise_if, ◌>>=◌, ◌>>◌, principal_not_positive, rate_negative, term_not_positive,
  unsupported_frequency, index_error,
}
use nelson_lending_v.Decimal.{
  Decimal, decimal, zero_money, add, sub, mul, div, negative_power, lt, le, eq, quantize_money,
  quantize_rate,
}
use nelson_lending_v.Calendar.{Date}
use nelson_lending_v.Calculator.DueDates.{
  PaymentFrequency, monthly, twice_monthly, other, build_due_dates,
}

pub record ScheduleItem : Type 0 where
  pub installment_number : ℕ
  pub due_date : Date
  pub opening_principal : Decimal
  pub interest_due : Decimal
  pub scheduled_principal : Decimal
  pub scheduled_payment : Decimal
  pub closing_principal : Decimal

pub record LoanQuote : Type 0 where
  pub principal : Decimal
  pub monthly_rate : Decimal
  pub term_months : ℤ
  pub payment_frequency : PaymentFrequency
  pub number_of_payments : ℤ
  pub period_rate : Decimal
  pub scheduled_payment : Decimal
  pub total_scheduled_interest : Decimal
  pub total_scheduled_repayment : Decimal
  pub first_due_date : Date
  pub final_due_date : Date
  pub schedule : List ScheduleItem

unfoldable pub calculate_period_rate : Decimal → PaymentFrequency → Result Decimal
calculate_period_rate monthly_rate monthly =
    raise_if (lt monthly_rate zero_money) rate_negative >> ok monthly_rate
calculate_period_rate monthly_rate twice_monthly =
    raise_if (lt monthly_rate zero_money) rate_negative >> ok monthly_rate
calculate_period_rate monthly_rate other =
    raise_if (lt monthly_rate zero_money) rate_negative >> err unsupported_frequency

-- `Decimal("1")`
abbrev pub one : Decimal
one = decimal (pos 1) 0

-- The level payment of `number_of_payments` installments, rounded to centavos.
unfoldable pub level_payment : Decimal → Decimal → ℕ → Result Decimal
level_payment principal_q period_rate number_of_payments =
    let flat = do
      raw_payment ← div principal_q (decimal (pos number_of_payments) 0)
      quantize_money raw_payment
    in let annuity = do
      let one_plus_r = add one period_rate
      let discount_factor = negative_power one_plus_r number_of_payments
      raw_payment ← div (mul principal_q period_rate) (sub one discount_factor)
      quantize_money raw_payment
      in if eq period_rate zero_money then flat else annuity

-- The principal, the payment and the closing principal of one installment; the last one pays
-- whatever is left.
unfoldable pub installment :
    (is_last : Bool) (scheduled_payment opening interest_due : Decimal)
    → Result (Decimal × Decimal × Decimal)
installment true scheduled_payment opening interest_due =
    ok (opening, add opening interest_due, zero_money)
installment false scheduled_payment opening interest_due = do
  let scheduled_principal = sub scheduled_payment interest_due
  closing ← quantize_money (sub opening scheduled_principal)
  ok (scheduled_principal, scheduled_payment, closing)

-- What the loop has built when it ends.
pub record Projection : Type 0 where
  pub schedule : List ScheduleItem
  pub total_interest : Decimal
  pub total_repayment : Decimal

abbrev pub prepend : ScheduleItem → Projection → Projection
prepend item p = record p { schedule = item ∷ p.schedule }

-- The loop's variables after a round, with the item that it appends.
pub record Round : Type 0 where
  pub item : ScheduleItem
  pub total_interest : Decimal
  pub total_repayment : Decimal

-- The body of the loop in round `i`.
unfoldable pub schedule_round :
    (number_of_payments : ℕ) (period_rate scheduled_payment : Decimal) (i : ℕ)
    (current_principal total_interest total_repayment : Decimal)
    → Date
    → Result Round
schedule_round n rate payment i opening total_interest total_repayment due = do
  interest_due ← quantize_money (mul opening rate)
  (scheduled_principal, installment_payment, closing) ←
      installment (i == n - 1) payment opening interest_due
  interest_so_far ← quantize_money (add total_interest interest_due)
  repayment_so_far ← quantize_money (add total_repayment installment_payment)
  ok (record {
    item = record {
      installment_number = i + 1;
      due_date = due;
      opening_principal = opening;
      interest_due = interest_due;
      scheduled_principal = scheduled_principal;
      scheduled_payment = installment_payment;
      closing_principal = closing;
    };
    total_interest = interest_so_far;
    total_repayment = repayment_so_far;
  })

-- The loop from round `i` on, over the due dates that are left; round `i` takes the date
-- `due_dates[i]`.
unfoldable pub schedule_from :
    (number_of_payments : ℕ) (period_rate scheduled_payment : Decimal) (i : ℕ)
    (current_principal total_interest total_repayment : Decimal)
    → List Date
    → Result Projection
schedule_from n rate payment i opening total_interest total_repayment [] =
    ok
      (record { schedule = []; total_interest = total_interest; total_repayment = total_repayment })
schedule_from n rate payment i opening total_interest total_repayment (due ∷ dues) = do
  round ← schedule_round n rate payment i opening total_interest total_repayment due
  rest ←
      schedule_from n rate payment (i + 1) round.item.closing_principal round.total_interest
        round.total_repayment dues
  ok (prepend round.item rest)

-- `due_dates[0]` and `due_dates[-1]`
unfoldable pub first_date : List Date → Result Date
first_date [] = err index_error
first_date (d ∷ ds) = ok d

unfoldable pub last_date : List Date → Result Date
last_date [] = err index_error
last_date (d ∷ []) = ok d
last_date (d ∷ e ∷ ds) = last_date (e ∷ ds)

abbrev pub payments_per_month : PaymentFrequency → ℕ
payments_per_month monthly = 1
payments_per_month _ = 2

abbrev pub is_supported : PaymentFrequency → Bool
is_supported other = false
is_supported _ = true

unfoldable pub calculate_quote :
    (principal monthly_rate : Decimal) (term_months : ℤ)
    → PaymentFrequency
    → (first_due_date : Date) → Result LoanQuote
calculate_quote principal monthly_rate term_months payment_frequency first_due_date = do
  raise_if (le principal zero_money) principal_not_positive
  raise_if (lt monthly_rate zero_money) rate_negative
  raise_if (leb_ℤ term_months (pos 0)) term_not_positive
  raise_if (not (is_supported payment_frequency)) unsupported_frequency
  let number_of_payments = term_months *ℤ pos (payments_per_month payment_frequency)
  let n = pos_part number_of_payments
  period_rate ← calculate_period_rate monthly_rate payment_frequency
  due_dates ← build_due_dates first_due_date payment_frequency number_of_payments
  principal_q ← quantize_money principal
  monthly_rate_q ← quantize_rate monthly_rate
  scheduled_payment ← level_payment principal_q period_rate n
  projection ←
      schedule_from n period_rate scheduled_payment 0 principal_q zero_money zero_money due_dates
  period_rate_q ← quantize_rate period_rate
  first ← first_date due_dates
  final ← last_date due_dates
  ok (record {
    principal = principal_q;
    monthly_rate = monthly_rate_q;
    term_months = term_months;
    payment_frequency = payment_frequency;
    number_of_payments = number_of_payments;
    period_rate = period_rate_q;
    scheduled_payment = scheduled_payment;
    total_scheduled_interest = projection.total_interest;
    total_scheduled_repayment = projection.total_repayment;
    first_due_date = first;
    final_due_date = final;
    schedule = projection.schedule;
  })
