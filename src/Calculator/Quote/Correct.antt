-- ===== src/Calculator/Quote/Correct.antt =====
-- What a successful call of `calculate_quote` has computed.
use nelson_lending_v.Prelude.{ℕ, ◌<◌, ◌≡◌, ◌∙◌, ap, arith, false, List, [], ◌∷◌, length}
use nelson_lending_v.Prelude.Int.{ℤ, pos, negsuc, pos_part, ◌*ℤ◌, leb_ℤ, abs, int_laws}
use nelson_lending_v.Prelude.Result.{ok, value_or}
use nelson_lending_v.Decimal.{
  Decimal, decimal, cents, zero_money, precision_limit, lt, le, quantize_money,
}
use nelson_lending_v.Decimal.Quantize.{quantize_money_fits, quantize_money-is_cents}
use nelson_lending_v.Decimal.Sign.{nonneg_of_not-lt}
use nelson_lending_v.Calendar.{Date}
use nelson_lending_v.Calculator.DueDates.{
  PaymentFrequency, monthly, twice_monthly, other, build_due_dates,
}
use nelson_lending_v.Calculator.DueDates.Monthly.{length-build_due_dates}
use nelson_lending_v.Calculator.DueDates.TwiceMonthly.{length-build_due_dates_twice}
use nelson_lending_v.Calculator.Quote.{
  Projection, LoanQuote, schedule_from, level_payment, calculate_quote, calculate_period_rate,
  payments_per_month, first_date, last_date,
}
use nelson_lending_v.Calculator.Quote.Amortization.{
  Amortizes, sum_interest, sum_principal, Amortizes-sum_principal, schedule_from-Amortizes,
}

-- The number of payments of a quote.
abbrev pub payment_count : ℤ → PaymentFrequency → ℤ
payment_count term frequency = term *ℤ pos (payments_per_month frequency)

pub record IsQuote (principal rate : Decimal) (term : ℤ) (frequency : PaymentFrequency)
    (first : Date) (q : LoanQuote) (dues : List Date) (p : Projection) : Type 0 where
  pub principal_pos : le principal zero_money ≡ false
  pub rate_nonneg : lt rate zero_money ≡ false
  pub term_pos : leb_ℤ term (pos 0) ≡ false
  pub dates : build_due_dates first frequency (payment_count term frequency) ≡ ok dues
  pub rounded : quantize_money principal ≡ ok q.principal
  pub level :
      level_payment q.principal rate (pos_part (payment_count term frequency))
      ≡ ok q.scheduled_payment
  pub projected :
      schedule_from
        (pos_part (payment_count term frequency))
        rate
        q.scheduled_payment
        0
        q.principal
        zero_money
        zero_money
        dues
      ≡ ok p
  pub interest : q.total_scheduled_interest ≡ p.total_interest
  pub repayment : q.total_scheduled_repayment ≡ p.total_repayment
  pub items : q.schedule ≡ p.schedule
  pub first_due : first_date dues ≡ ok q.first_due_date
  pub last_due : last_date dues ≡ ok q.final_due_date
  pub count : q.number_of_payments ≡ payment_count term frequency

-- The values that a successful call has bound on its way.
abbrev quote_dates : ℤ → PaymentFrequency → Date → List Date
quote_dates term frequency first =
    value_or (build_due_dates first frequency (payment_count term frequency)) []

abbrev quote_projection : Decimal → ℤ → PaymentFrequency → Date → LoanQuote → Projection
quote_projection rate term frequency first q =
    value_or
      (schedule_from (pos_part (payment_count term frequency)) rate q.scheduled_payment 0
        q.principal zero_money zero_money (quote_dates term frequency first))
      (record { schedule = []; total_interest = zero_money; total_repayment = zero_money })

pub calculate_quote-IsQuote :
    (principal rate : Decimal) (term : ℤ) (frequency : PaymentFrequency) (first : Date)
    {q : LoanQuote}
    → calculate_quote principal rate term frequency first ≡ ok q
    → IsQuote principal rate term frequency first q
        (quote_dates term frequency first)
        (quote_projection rate term frequency first q)
unfolding calculate_quote calculate_period_rate
calculate_quote-IsQuote principal rate term monthly first h = ground arith
calculate_quote-IsQuote principal rate term twice_monthly first h = ground arith
calculate_quote-IsQuote principal rate term other first h = ground arith

-- The level payment is an amount in centavos.
level_payment-is_cents :
    (principal rate : Decimal) (n : ℕ) {P : Decimal}
    → level_payment principal rate n ≡ ok P
    → (P ≡ cents P.coefficient) × (abs P.coefficient < precision_limit)
unfolding level_payment
level_payment-is_cents principal rate n h =
    grind (arith, quantize_money-is_cents, quantize_money_fits)

payment_count_pos :
    (term : ℤ) (f : PaymentFrequency)
    → leb_ℤ term (pos 0) ≡ false
    → (payment_count term f ≡ pos (pos_part (payment_count term f)))
      × (0 < pos_part (payment_count term f))
unfolding ◌*ℤ◌
payment_count_pos (pos t) monthly h = ground arith
payment_count_pos (pos t) twice_monthly h = ground arith
payment_count_pos (pos t) other h = ground arith
payment_count_pos (negsuc t) f h = ground arith

pub length-dues :
    (first : Date) (f : PaymentFrequency) (n : ℕ) {ds : List Date}
    → build_due_dates first f (pos n) ≡ ok ds
    → length ds ≡ n
unfolding build_due_dates
length-dues first monthly n h = length-build_due_dates first n h
length-dues first twice_monthly n h = length-build_due_dates_twice first n h
length-dues first other n h = ground arith

loop-Amortizes :
    (n r places : ℕ) (P o : ℤ) (dues : List Date) {p : Projection}
    → 0 < n
    → length dues ≡ n
    → abs P < precision_limit
    → schedule_from n (decimal (pos r) places) (cents P) 0 (cents o) zero_money zero_money dues
      ≡ ok p
    → Amortizes (decimal (pos r) places) o 0 dues p.schedule
      × (p.total_interest ≡ cents (sum_interest p.schedule))
loop-Amortizes n r places P o [] some_left len fits h = absurd (omega arith)
loop-Amortizes n r places P o (due ∷ dues) some_left len fits h =
    let (schedule, total) =
      schedule_from-Amortizes n r places P fits o (pos 0) 0 zero_money due dues (omega arith) h in
    (schedule, total ∙ ap cents (omega int_laws))

IsQuote-Amortizes :
    (principal rate : Decimal) (term : ℤ) (f : PaymentFrequency) (first : Date) (q : LoanQuote)
    (dues : List Date) (p : Projection)
    → IsQuote principal rate term f first q dues p
    → Amortizes rate q.principal.coefficient 0 dues p.schedule
      × (p.total_interest ≡ cents (sum_interest p.schedule))
IsQuote-Amortizes principal rate term f first q dues p h =
    let n = pos_part (payment_count term f) in
    let (count, some_left) = payment_count_pos term f h.term_pos in
    let len = length-dues first f n (rw count at h.dates) in
    let (eP, fits) = level_payment-is_cents q.principal rate n h.level in
    let eo = quantize_money-is_cents principal h.rounded in
    let er = nonneg_of_not-lt rate.coefficient rate.places h.rate_nonneg in
    let erate : rate ≡ decimal (pos (abs rate.coefficient)) rate.places =
      ap (λ c. decimal c rate.places) er in
    rw erate (
      loop-Amortizes n (abs rate.coefficient) rate.places q.scheduled_payment.coefficient
        q.principal.coefficient dues {p = p} some_left len fits
        (rw (← erate, ← eP, ← eo) h.projected))

-- A quote's schedule has an installment for each due date and brings the rounded principal to
-- zero: each installment's interest is the rounded product of what is still owed and the period
-- rate, each payment is its interest and its principal, each closing principal is the exact
-- difference and the next opening principal, and the total interest is the exact sum.
pub calculate_quote-Amortizes :
    (principal monthly_rate : Decimal) (term_months : ℤ) (frequency : PaymentFrequency)
    (first : Date) {q : LoanQuote}
    → calculate_quote principal monthly_rate term_months frequency first ≡ ok q
    → (dues : List Date) × (build_due_dates first frequency
          (term_months *ℤ pos (payments_per_month frequency))
        ≡ ok dues)
      × Amortizes monthly_rate q.principal.coefficient 0 dues q.schedule
      × (q.total_scheduled_interest ≡ cents (sum_interest q.schedule))
calculate_quote-Amortizes principal monthly_rate term_months frequency first {q} h =
    let dues = quote_dates term_months frequency first in
    let p = quote_projection monthly_rate term_months frequency first q in
    let f = calculate_quote-IsQuote principal monthly_rate term_months frequency first h in
    let (schedule, total) =
      IsQuote-Amortizes principal monthly_rate term_months frequency first q dues p f in
    (dues, f.dates, rw f.items schedule, rw (f.interest, f.items) total)

-- The principal parts of a quote's installments add up to the rounded principal, to the centavo.
pub calculate_quote-sum_principal :
    (principal monthly_rate : Decimal) (term_months : ℤ) (frequency : PaymentFrequency)
    (first : Date) {q : LoanQuote}
    → calculate_quote principal monthly_rate term_months frequency first ≡ ok q
    → sum_principal q.schedule ≡ q.principal.coefficient
calculate_quote-sum_principal principal monthly_rate term_months frequency first {q} h =
    let (dues, _, schedule, _) =
      calculate_quote-Amortizes principal monthly_rate term_months frequency first h in
    Amortizes-sum_principal monthly_rate q.principal.coefficient 0 dues q.schedule schedule
