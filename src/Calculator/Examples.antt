-- ===== src/Calculator/Examples.antt =====
-- Runs of the calculator on the inputs of the repository's own tests, and its theorems at work.
use nelson_lending_v.Prelude.{
  ℕ, ◌≡◌, ◌+◌, ◌*◌, ◌-◌, ◌^◌, ◌≤◌, ◌<◌, ◌⊎◌, refl, arith, map, List, [], ◌∷◌, length, get_elem?,
  some, true,
}
use nelson_lending_v.Prelude.Int.{ℤ, pos, negsuc, ◌*ℤ◌, abs, sign_as}
use nelson_lending_v.Prelude.Result.{Result, ok, err, value_or, division_by_zero}
use nelson_lending_v.Decimal.{
  quantize_money, quantize_rate, Decimal, decimal, cents, zero_money, quantize,
}
use nelson_lending_v.Calendar.{Date, IsDate, date_lt}
use nelson_lending_v.Calculator.Allocation.{PaymentAllocationResult, allocate_payment}
use nelson_lending_v.Calculator.Allocation.Conservation.{
  IsAllocation, allocate_payment-IsAllocation,
}
use nelson_lending_v.Calculator.DueDates.{monthly, twice_monthly, build_due_dates, advance_due_date}
use nelson_lending_v.Calculator.DueDates.Monthly.{
  IsMonthlyDue, build_due_dates-IsMonthlyDue, build_due_dates_total,
}
use nelson_lending_v.Calculator.DueDates.TwiceMonthly.{
  half_index, IsHalfMonthDue, build_due_dates-IsHalfMonthDue, build_due_dates_total_twice,
}
use nelson_lending_v.Calculator.DueDates.Advance.{
  advance_due_date-monthly, advance_due_date-twice_monthly,
}
use nelson_lending_v.Calculator.Quote.{LoanQuote, ScheduleItem, payments_per_month, calculate_quote}
use nelson_lending_v.Calculator.Quote.Amortization.{Amortizes, sum_interest, sum_principal}
use nelson_lending_v.Calculator.Quote.Correct.{
  calculate_quote-Amortizes, calculate_quote-sum_principal,
}

abbrev day : (year month day : ℕ) → Date
day y m d = record { year = y; month = m; day = d }

abbrev january_31 : Date
january_31 = day 2026 1 31

abbrev february_28 : Date
february_28 = day 2026 2 28

abbrev march_15 : Date
march_15 = day 2026 3 15

abbrev march_31 : Date
march_31 = day 2026 3 31

january_31-IsDate : IsDate january_31
unfolding nelson_lending_v.Calendar.days_in_month
january_31-IsDate = record {
  year_pos = omega arith;
  year_le = omega arith;
  month_pos = omega arith;
  month_le = omega arith;
  day_pos = omega arith;
  day_le = omega arith;
}

march_15-IsDate : IsDate march_15
unfolding nelson_lending_v.Calendar.days_in_month
march_15-IsDate = record {
  year_pos = omega arith;
  year_le = omega arith;
  month_pos = omega arith;
  month_le = omega arith;
  day_pos = omega arith;
  day_le = omega arith;
}

-- A twice-monthly loan of 15,000.00 at 7.5%, over two months.
abbrev run : Result LoanQuote
run = calculate_quote (decimal (pos 1500000) 2) (decimal (pos 75) 3) (pos 2) twice_monthly march_15

abbrev empty_quote : LoanQuote
empty_quote = record {
  principal = zero_money;
  monthly_rate = zero_money;
  term_months = pos 0;
  payment_frequency = monthly;
  number_of_payments = pos 0;
  period_rate = zero_money;
  scheduled_payment = zero_money;
  total_scheduled_interest = zero_money;
  total_scheduled_repayment = zero_money;
  first_due_date = march_15;
  final_due_date = march_15;
  schedule = [];
}

abbrev quoted : LoanQuote
quoted = value_or run empty_quote

run_returns : run ≡ ok quoted
unfolding calculate_quote nelson_lending_v.Decimal.le nelson_lending_v.Decimal.lt
    nelson_lending_v.Decimal.eq nelson_lending_v.Decimal.div nelson_lending_v.Decimal.add
    nelson_lending_v.Decimal.sub nelson_lending_v.Decimal.mul
    nelson_lending_v.Decimal.negative_power nelson_lending_v.Decimal.ratio
    nelson_lending_v.Decimal.context_round nelson_lending_v.Decimal.quantize_money
    nelson_lending_v.Decimal.quantize_rate nelson_lending_v.Decimal.round_half_even
    nelson_lending_v.Decimal.round_half_up quantize nelson_lending_v.Calendar.is_leap
    nelson_lending_v.Calendar.days_in_month nelson_lending_v.Calendar.new_date
    nelson_lending_v.Calculator.Quote.calculate_period_rate
    nelson_lending_v.Calculator.Quote.level_payment nelson_lending_v.Calculator.Quote.installment
    nelson_lending_v.Calculator.Quote.schedule_round nelson_lending_v.Calculator.Quote.schedule_from
    nelson_lending_v.Calculator.Quote.first_date nelson_lending_v.Calculator.Quote.last_date
    build_due_dates nelson_lending_v.Calculator.DueDates.monthly_due_date
    nelson_lending_v.Calculator.DueDates.monthly_due_dates
    nelson_lending_v.Calculator.DueDates.twice_monthly_due_dates nelson_lending_v.Prelude.Int.◌+ℤ◌
    nelson_lending_v.Prelude.Int.◌-ℤ◌ ◌*ℤ◌
run_returns = refl

-- A loan of 0.05 at no interest in ten payments: the level payment of 0.005 is rounded up to 0.01,
-- and from the sixth installment on the closing principal is below zero.
closings_below_zero :
    map
      (λ (it : ScheduleItem). it.closing_principal.coefficient)
      (value_or
        (calculate_quote (cents (pos 5)) zero_money (pos 10) monthly january_31)
        empty_quote).schedule
    ≡ pos 4 ∷ pos 3 ∷ pos 2 ∷ pos 1 ∷ pos 0 ∷ negsuc 0 ∷ negsuc 1 ∷ negsuc 2 ∷ negsuc 3 ∷ pos 0 ∷ []
unfolding calculate_quote nelson_lending_v.Decimal.le nelson_lending_v.Decimal.lt
    nelson_lending_v.Decimal.eq nelson_lending_v.Decimal.div nelson_lending_v.Decimal.add
    nelson_lending_v.Decimal.sub nelson_lending_v.Decimal.mul
    nelson_lending_v.Decimal.negative_power nelson_lending_v.Decimal.ratio
    nelson_lending_v.Decimal.context_round nelson_lending_v.Decimal.quantize_money
    nelson_lending_v.Decimal.quantize_rate nelson_lending_v.Decimal.round_half_even
    nelson_lending_v.Decimal.round_half_up quantize nelson_lending_v.Calendar.is_leap
    nelson_lending_v.Calendar.days_in_month nelson_lending_v.Calendar.new_date
    nelson_lending_v.Calculator.Quote.calculate_period_rate
    nelson_lending_v.Calculator.Quote.level_payment nelson_lending_v.Calculator.Quote.installment
    nelson_lending_v.Calculator.Quote.schedule_round nelson_lending_v.Calculator.Quote.schedule_from
    nelson_lending_v.Calculator.Quote.first_date nelson_lending_v.Calculator.Quote.last_date
    build_due_dates nelson_lending_v.Calculator.DueDates.monthly_due_date
    nelson_lending_v.Calculator.DueDates.monthly_due_dates
    nelson_lending_v.Calculator.DueDates.twice_monthly_due_dates nelson_lending_v.Prelude.Int.◌+ℤ◌
    nelson_lending_v.Prelude.Int.◌-ℤ◌ ◌*ℤ◌
closings_below_zero = refl

-- A rate that 1 + rate rounds away: the discount factor is 1, and the division raises.
tiny_rate_raises :
    calculate_quote (decimal (pos 100000) 2) (decimal (pos 1) 30) (pos 10) monthly january_31
    ≡ err division_by_zero
unfolding calculate_quote nelson_lending_v.Decimal.le nelson_lending_v.Decimal.lt
    nelson_lending_v.Decimal.eq nelson_lending_v.Decimal.div nelson_lending_v.Decimal.add
    nelson_lending_v.Decimal.sub nelson_lending_v.Decimal.mul
    nelson_lending_v.Decimal.negative_power nelson_lending_v.Decimal.ratio
    nelson_lending_v.Decimal.context_round nelson_lending_v.Decimal.quantize_money
    nelson_lending_v.Decimal.quantize_rate nelson_lending_v.Decimal.round_half_even
    nelson_lending_v.Decimal.round_half_up quantize nelson_lending_v.Calendar.is_leap
    nelson_lending_v.Calendar.days_in_month nelson_lending_v.Calendar.new_date
    nelson_lending_v.Calculator.Quote.calculate_period_rate
    nelson_lending_v.Calculator.Quote.level_payment nelson_lending_v.Calculator.Quote.installment
    nelson_lending_v.Calculator.Quote.schedule_round nelson_lending_v.Calculator.Quote.schedule_from
    nelson_lending_v.Calculator.Quote.first_date nelson_lending_v.Calculator.Quote.last_date
    build_due_dates nelson_lending_v.Calculator.DueDates.monthly_due_date
    nelson_lending_v.Calculator.DueDates.monthly_due_dates
    nelson_lending_v.Calculator.DueDates.twice_monthly_due_dates nelson_lending_v.Prelude.Int.◌+ℤ◌
    nelson_lending_v.Prelude.Int.◌-ℤ◌ ◌*ℤ◌
tiny_rate_raises = refl

calculate_quote-Amortizes_example :
    (dues : List Date) × (build_due_dates march_15 twice_monthly
        (pos 2 *ℤ pos (payments_per_month twice_monthly))
      ≡ ok dues)
    × Amortizes (decimal (pos 75) 3) quoted.principal.coefficient 0 dues quoted.schedule
    × (quoted.total_scheduled_interest ≡ cents (sum_interest quoted.schedule))
calculate_quote-Amortizes_example =
    calculate_quote-Amortizes (decimal (pos 1500000) 2) (decimal (pos 75) 3) (pos 2) twice_monthly
      march_15 run_returns

calculate_quote-sum_principal_example : sum_principal quoted.schedule ≡ quoted.principal.coefficient
calculate_quote-sum_principal_example =
    calculate_quote-sum_principal (decimal (pos 1500000) 2) (decimal (pos 75) 3) (pos 2)
      twice_monthly march_15 run_returns

-- 1,000.00 over 250.00 of interest and 600.00 of principal leaves a credit.
allocate_payment-IsAllocation_example :
    (r : PaymentAllocationResult) × (allocate_payment
        (cents (pos 100000))
        (cents (pos 25000))
        (cents (pos 60000))
      ≡ ok r)
    × IsAllocation 100000 25000 60000 r
allocate_payment-IsAllocation_example =
    allocate_payment-IsAllocation 100000 25000 60000 (omega arith) (omega arith) (omega arith)
      (omega arith)

abbrev month_ends : List Date
month_ends = january_31 ∷ february_28 ∷ march_31 ∷ []

month_ends-dues : build_due_dates january_31 monthly (pos 3) ≡ ok month_ends
unfolding build_due_dates nelson_lending_v.Calendar.is_leap nelson_lending_v.Calendar.days_in_month
    nelson_lending_v.Calendar.new_date nelson_lending_v.Calculator.DueDates.monthly_due_date
    nelson_lending_v.Calculator.DueDates.monthly_due_dates
    nelson_lending_v.Calculator.DueDates.twice_monthly_due_dates
month_ends-dues = refl

build_due_dates-IsMonthlyDue_example : IsMonthlyDue january_31 1 february_28
build_due_dates-IsMonthlyDue_example =
    build_due_dates-IsMonthlyDue january_31 3 1 january_31-IsDate month_ends-dues refl

build_due_dates_total_example :
    (ds : List Date) × (build_due_dates january_31 monthly (pos 3) ≡ ok ds)
build_due_dates_total_example =
    build_due_dates_total january_31 3 january_31-IsDate (omega arith) (omega arith)

advance_due_date-monthly_example : advance_due_date february_28 monthly january_31 ≡ ok march_31
advance_due_date-monthly_example =
    advance_due_date-monthly january_31 3 1 january_31-IsDate month_ends-dues refl refl

abbrev halves : List Date
halves = march_15 ∷ march_31 ∷ day 2026 4 15 ∷ []

halves-dues : build_due_dates march_15 twice_monthly (pos 3) ≡ ok halves
unfolding build_due_dates nelson_lending_v.Calendar.is_leap nelson_lending_v.Calendar.days_in_month
    nelson_lending_v.Calendar.new_date nelson_lending_v.Calculator.DueDates.monthly_due_date
    nelson_lending_v.Calculator.DueDates.monthly_due_dates
    nelson_lending_v.Calculator.DueDates.twice_monthly_due_dates
halves-dues = refl

build_due_dates-IsHalfMonthDue_example :
    (length halves ≡ 3) × IsHalfMonthDue (half_index march_15 + 2) (day 2026 4 15)
build_due_dates-IsHalfMonthDue_example =
    build_due_dates-IsHalfMonthDue march_15 3 2 march_15-IsDate halves-dues refl

build_due_dates_total_twice_example :
    (ds : List Date) × (build_due_dates march_15 twice_monthly (pos 3) ≡ ok ds)
build_due_dates_total_twice_example =
    build_due_dates_total_twice march_15 3 march_15-IsDate refl (omega arith) (omega arith)

advance_due_date-twice_monthly_example :
    advance_due_date march_31 twice_monthly march_15 ≡ ok (day 2026 4 15)
advance_due_date-twice_monthly_example =
    advance_due_date-twice_monthly march_15 3 1 march_15-IsDate halves-dues refl refl
