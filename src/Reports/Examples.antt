-- ===== src/Reports/Examples.antt =====
-- A small book: one overdue loan, one payment and one journal.
use nelson_lending_v.Prelude.{
  ℕ, ◌+◌, ◌≡◌, ◌<◌, refl, arith, List, [], ◌∷◌, none, some, true, false, All, inl, inr, length, ◌≤◌,
}
use nelson_lending_v.Prelude.Int.{ℤ, pos, ◌+ℤ◌}
use nelson_lending_v.Prelude.Result.{ok, value_or}
use nelson_lending_v.Decimal.{Decimal, decimal, cents, zero_money}
use nelson_lending_v.Calculator.Allocation.Conservation.{centavos}
use nelson_lending_v.Calendar.{Date}
use nelson_lending_v.Calculator.DueDates.{monthly}
use nelson_lending_v.Store.{Store, empty_store}
use nelson_lending_v.Store.Rows.{
  Loan, Payment, active, Account, AccountCode, AccountType, cash, loans_receivable, customer_credit,
  interest_income, asset, liability, income, NormalBalance, debit_balance, credit_balance,
  JournalTransaction, payment_event, payment_for,
}
use nelson_lending_v.Reports.{
  CollectionsSummary, AccountBalance, all_entries, get_collections_summary, get_accounting_balances,
}
use nelson_lending_v.Reports.Collections.{get_collections_summary-conserves}
use nelson_lending_v.Reports.TrialBalance.{Chart, IsChart, IsBooked, get_accounting_balances-trial}
use nelson_lending_v.Reports.Portfolio.{
  PortfolioSnapshot, MoneyTotals, get_portfolio_snapshot, snapshot_of,
}
use nelson_lending_v.Reports.Portfolio.Buckets.{get_portfolio_snapshot-buckets}

abbrev day : (year month day : ℕ) → Date
day y m d = record { year = y; month = m; day = d }

abbrev loan : Loan
loan = record {
  id = 1;
  loan_request_id = 2;
  borrower_id = 3;
  original_principal = cents (pos 1500000);
  outstanding_principal = cents (pos 1500000);
  accrued_interest = zero_money;
  monthly_rate = decimal (pos 75) 3;
  term_months = pos 1;
  payment_frequency = monthly;
  number_of_payments = pos 1;
  first_due_date = day 2026 2 20;
  final_due_date = day 2026 2 20;
  next_interest_due_date = day 2026 2 20;
  status = active;
  disbursed_at = none;
  cancelled_at = none;
  paid_at = none;
}

abbrev payment : Payment
payment = record {
  id = 5;
  loan_id = 1;
  amount = cents (pos 60000);
  interest_paid = cents (pos 5000);
  principal_paid = cents (pos 55000);
  unapplied_credit = zero_money;
  remaining_interest = zero_money;
  remaining_principal = cents (pos 45000);
  payment_date = day 2026 3 1;
  posted_at = record { instant = 1000; date = day 2026 3 1 };
  reference = none;
  note = none;
  idempotency_key = [];
}

abbrev account : ℕ → AccountCode → AccountType → NormalBalance → Account
account id code kind side = record {
  id = id;
  code = code;
  account_type = kind;
  normal_balance = side;
  is_active = true;
}

abbrev chart : Chart
chart = record {
  cash_row = account 1 cash asset debit_balance;
  receivable_row = account 2 loans_receivable asset debit_balance;
  credit_row = account 3 customer_credit liability credit_balance;
  income_row = account 4 interest_income income credit_balance;
}

abbrev journal : JournalTransaction
journal = record {
  id = 6;
  event_type = payment_event;
  source_id = 5;
  description = payment_for 5 none;
  effective_date = day 2026 3 1;
  posted_at = record { instant = 1000; date = day 2026 3 1 };
  reversal_of_id = none;
  entries =
      record { account_id = 1; debit = cents (pos 60000); credit = zero_money }
      ∷ record { account_id = 2; debit = zero_money; credit = cents (pos 55000) }
      ∷ record { account_id = 4; debit = zero_money; credit = cents (pos 5000) }
      ∷ [];
}

abbrev store : Store
store = record (empty_store 10) {
  loans = loan ∷ [];
  payments = payment ∷ [];
  journals = journal ∷ [];
  accounts = chart.cash_row ∷ chart.receivable_row ∷ chart.credit_row ∷ chart.income_row ∷ [];
}

abbrev no_summary : CollectionsSummary
no_summary = record {
  from_date = day 2026 1 1;
  to_date = day 2026 1 1;
  total_payment_amount = zero_money;
  principal_allocation = zero_money;
  interest_allocation = zero_money;
  unapplied_credit_allocation = zero_money;
}

abbrev march : CollectionsSummary
march = value_or (get_collections_summary (day 2026 3 1) (day 2026 3 31) store) no_summary

march_run : get_collections_summary (day 2026 3 1) (day 2026 3 31) store ≡ ok march
unfolding get_collections_summary
march_run = refl

get_collections_summary-conserves_example :
    centavos march.total_payment_amount
    ≡ centavos march.principal_allocation
      + centavos march.interest_allocation
      + centavos march.unapplied_credit_allocation
get_collections_summary-conserves_example =
    get_collections_summary-conserves (day 2026 3 1) (day 2026 3 31) store
      (
        record {
          amount_cents = refl;
          principal_cents = refl;
          interest_cents = refl;
          credit_cents = refl;
          spent = refl;
        },
        tt,
      )
      march_run

chart_valid : IsChart chart store
chart_valid = record {
  cash_found = refl;
  receivable_found = refl;
  credit_found = refl;
  income_found = refl;
  cash_normal = refl;
  receivable_normal = refl;
  credit_normal = refl;
  income_normal = refl;
  cash_receivable = omega arith;
  cash_credit = omega arith;
  cash_income = omega arith;
  receivable_credit = omega arith;
  receivable_income = omega arith;
  credit_income = omega arith;
}

journal_balanced : IsBooked journal
journal_balanced = record {
  enough = omega arith;
  lines = (
    record { debit_cents = refl; credit_cents = refl; one_side = inl (omega arith, refl) },
    (
      record { debit_cents = refl; credit_cents = refl; one_side = inr (refl, omega arith) },
      (record { debit_cents = refl; credit_cents = refl; one_side = inr (refl, omega arith) }, tt),
    ),
  );
  balanced = refl;
}

get_accounting_balances-trial_example :
    (a b l i : ℤ) × (get_accounting_balances store
      ≡ ok (
          record { code = cash; normal_balance = debit_balance; balance = cents a }
          ∷ record { code = loans_receivable; normal_balance = debit_balance; balance = cents b }
          ∷ record { code = customer_credit; normal_balance = credit_balance; balance = cents l }
          ∷ record { code = interest_income; normal_balance = credit_balance; balance = cents i }
          ∷ []))
    × (a +ℤ b ≡ l +ℤ i)
get_accounting_balances-trial_example =
    get_accounting_balances-trial chart store chart_valid (journal_balanced, tt)
      (inl refl, (inr (inl refl), (inr (inr (inr refl)), tt))) (omega arith)

abbrev no_money : MoneyTotals
no_money = record {
  total_original_principal = zero_money;
  total_scheduled_interest = zero_money;
  total_scheduled_repayment = zero_money;
  next_interest_due = zero_money;
  outstanding_principal = zero_money;
  accrued_interest = zero_money;
  overdue_outstanding_principal = zero_money;
  due_next_7_days_outstanding_principal = zero_money;
}

abbrev today : Date
today = day 2026 3 1

abbrev snapshot : PortfolioSnapshot
snapshot =
    value_or (get_portfolio_snapshot today store)
      (snapshot_of today today today today (empty_store 0) no_money)

snapshot_run : get_portfolio_snapshot today store ≡ ok snapshot
unfolding get_portfolio_snapshot nelson_lending_v.Calculator.Quote.calculate_quote
    nelson_lending_v.Decimal.round_half_even nelson_lending_v.Decimal.le nelson_lending_v.Decimal.lt
    nelson_lending_v.Calculator.Quote.calculate_period_rate
    nelson_lending_v.Calculator.DueDates.build_due_dates nelson_lending_v.Prelude.Int.◌*ℤ◌
    nelson_lending_v.Calendar.new_date nelson_lending_v.Decimal.quantize_rate
    nelson_lending_v.Calculator.Quote.level_payment nelson_lending_v.Decimal.eq
    nelson_lending_v.Decimal.div nelson_lending_v.Decimal.sub nelson_lending_v.Prelude.Int.◌-ℤ◌
    nelson_lending_v.Decimal.negative_power nelson_lending_v.Decimal.mul
    nelson_lending_v.Calculator.Quote.schedule_from nelson_lending_v.Calculator.Quote.schedule_round
    nelson_lending_v.Calculator.Quote.installment
    nelson_lending_v.Calculator.DueDates.monthly_due_date
    nelson_lending_v.Calculator.DueDates.monthly_due_dates
    nelson_lending_v.Calculator.DueDates.twice_monthly_due_dates
    nelson_lending_v.Calculator.Quote.first_date nelson_lending_v.Calculator.Quote.last_date
    nelson_lending_v.Calendar.Days.minus_days nelson_lending_v.Calendar.Days.next_day
    nelson_lending_v.Calendar.Days.plus_days nelson_lending_v.Calendar.Days.previous_day
    nelson_lending_v.Calendar.date_eq nelson_lending_v.Calendar.date_le
    nelson_lending_v.Calendar.date_lt nelson_lending_v.Calendar.days_in_month
    nelson_lending_v.Calendar.is_leap nelson_lending_v.Decimal.add
    nelson_lending_v.Decimal.context_round nelson_lending_v.Decimal.quantize
    nelson_lending_v.Decimal.quantize_money nelson_lending_v.Decimal.ratio
    nelson_lending_v.Decimal.round_half_up ◌+ℤ◌ nelson_lending_v.Reports.Portfolio.money_totals
    nelson_lending_v.Reports.Portfolio.project_active
    nelson_lending_v.Reports.Portfolio.project_loans snapshot_of
    nelson_lending_v.Reports.count_status nelson_lending_v.Reports.counts_of
    nelson_lending_v.Reports.sql_sum
snapshot_run = refl

get_portfolio_snapshot-buckets_example :
    snapshot.overdue_1_7_days_count + snapshot.overdue_8_30_days_count
      + snapshot.overdue_30_plus_days_count
    ≡ snapshot.overdue_loan_count
get_portfolio_snapshot-buckets_example = get_portfolio_snapshot-buckets today store snapshot_run
