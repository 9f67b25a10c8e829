-- ===== src/Reports/Portfolio.antt =====
-- `get_portfolio_snapshot` and `get_owner_dashboard` of backend/app/features/reports/service.py.
pub mod Buckets
use nelson_lending_v.Prelude.{
  ℕ, ◌+◌, Bool, true, false, not, ◌&&◌, ◌||◌, ◌==◌, if◌then◌else◌, List, [], ◌∷◌, map, length,
  Option, none, some,
}
use nelson_lending_v.Prelude.Result.{Result, ok, err, ◌>>=◌}
use nelson_lending_v.Decimal.{Decimal, zero_money, add, quantize_money}
use nelson_lending_v.Calendar.{Date, date_lt, date_le, date_eq}
use nelson_lending_v.Calendar.Days.{plus_days, minus_days}
use nelson_lending_v.Calculator.Quote.{ScheduleItem, calculate_quote}
use nelson_lending_v.Store.{Store}
use nelson_lending_v.Store.Query.{first_row}
use nelson_lending_v.Store.Rows.{
  Loan, LoanStatus, pending_disbursement, active, paid, cancelled, defaulted,
}
use nelson_lending_v.Store.Table.{filter}
use nelson_lending_v.Reports.{
  CollectionsSummary, AccountBalance, sql_sum, count_status, counts_of, collection_exclusive_end,
  get_collections_summary, get_accounting_balances, get_loan_request_snapshot,
}

abbrev pub loan_status_index : LoanStatus → ℕ
loan_status_index pending_disbursement = 0
loan_status_index active = 1
loan_status_index paid = 2
loan_status_index cancelled = 3
loan_status_index defaulted = 4

abbrev pub is_active : Loan → Bool
is_active l = loan_status_index l.status == 1

abbrev pub is_projected : Loan → Bool
is_projected l = (loan_status_index l.status == 1) || (loan_status_index l.status == 2)

-- The conditions on the next due date, of active loans.
abbrev pub count_active : (Date → Bool) → List Loan → ℕ
count_active test loans = length (filter (λ l. is_active l && test l.next_interest_due_date) loans)

abbrev pub owed_active : (Date → Bool) → List Loan → Decimal
owed_active test loans = sql_sum (
    map (λ l. l.outstanding_principal)
      (filter (λ l. is_active l && test l.next_interest_due_date) loans))

-- The four totals of the loop over the loans.
pub record Projection : Type 0 where
  pub total_scheduled_interest : Decimal
  pub total_scheduled_repayment : Decimal
  pub next_interest_due : Decimal
  pub calculated_accrued_interest : Decimal

-- The part of a round for an active loan.
unfoldable pub project_active : (today : Date) → Loan → List ScheduleItem → Projection → Projection
unfolding date_eq date_le add
project_active today loan schedule p =
    elim (first_row (λ (item : ScheduleItem). date_eq item.due_date loan.next_interest_due_date)
      schedule) [
        | none ↦ p
        | some item ↦ record p {
          next_interest_due = add p.next_interest_due item.interest_due;
          calculated_accrued_interest =
              if date_le loan.next_interest_due_date today
              then add p.calculated_accrued_interest item.interest_due
              else p.calculated_accrued_interest;
        }
      ]

unfoldable pub project_loans : (today : Date) → List Loan → Projection → Result Projection
unfolding project_active add calculate_quote
project_loans today [] p = ok p
project_loans today (loan ∷ rest) p = do
  quote ←
      calculate_quote loan.original_principal loan.monthly_rate loan.term_months
        loan.payment_frequency loan.first_due_date
  let totals = record p {
    total_scheduled_interest = add p.total_scheduled_interest quote.total_scheduled_interest;
    total_scheduled_repayment = add p.total_scheduled_repayment quote.total_scheduled_repayment;
  }
  project_loans today rest
      (if is_active loan then project_active today loan quote.schedule totals else totals)

pub record PortfolioSnapshot : Type 0 where
  pub status_counts : List ℕ
  pub total_original_principal : Decimal
  pub total_scheduled_interest : Decimal
  pub total_scheduled_repayment : Decimal
  pub next_interest_due : Decimal
  pub outstanding_principal : Decimal
  pub accrued_interest : Decimal
  pub active_loan_count : ℕ
  pub paid_loan_count : ℕ
  pub borrower_count : ℕ
  pub due_today_count : ℕ
  pub overdue_loan_count : ℕ
  pub overdue_outstanding_principal : Decimal
  pub due_next_7_days_count : ℕ
  pub due_next_7_days_outstanding_principal : Decimal
  pub overdue_1_7_days_count : ℕ
  pub overdue_8_30_days_count : ℕ
  pub overdue_30_plus_days_count : ℕ

abbrev pub is_overdue : Date → Date → Bool
is_overdue today due = date_lt due today

abbrev pub is_due_in : (today due_7_end : Date) → Date → Bool
is_due_in today due_7_end due = date_lt today due && date_le due due_7_end

abbrev pub is_overdue_between : (oldest newest : Date) → Date → Bool
is_overdue_between oldest newest due = date_le oldest due && date_lt due newest

-- The amounts of the snapshot, quantized.
pub record MoneyTotals : Type 0 where
  pub total_original_principal : Decimal
  pub total_scheduled_interest : Decimal
  pub total_scheduled_repayment : Decimal
  pub next_interest_due : Decimal
  pub outstanding_principal : Decimal
  pub accrued_interest : Decimal
  pub overdue_outstanding_principal : Decimal
  pub due_next_7_days_outstanding_principal : Decimal

unfoldable pub money_totals : (today due_7_end : Date) → Projection → List Loan → Result MoneyTotals
unfolding sql_sum quantize_money date_lt date_le
money_totals today due_7_end p loans = do
  original ← quantize_money (sql_sum (map (λ l. l.original_principal) (filter is_projected loans)))
  interest ← quantize_money p.total_scheduled_interest
  repayment ← quantize_money p.total_scheduled_repayment
  next_due ← quantize_money p.next_interest_due
  outstanding ←
      quantize_money (sql_sum (map (λ l. l.outstanding_principal) (filter is_active loans)))
  accrued ← quantize_money p.calculated_accrued_interest
  overdue ← quantize_money (owed_active (is_overdue today) loans)
  due_next ← quantize_money (owed_active (is_due_in today due_7_end) loans)
  ok (record {
    total_original_principal = original;
    total_scheduled_interest = interest;
    total_scheduled_repayment = repayment;
    next_interest_due = next_due;
    outstanding_principal = outstanding;
    accrued_interest = accrued;
    overdue_outstanding_principal = overdue;
    due_next_7_days_outstanding_principal = due_next;
  })

abbrev pub initial_projection : List Loan → Projection
initial_projection loans = record {
  total_scheduled_interest = zero_money;
  total_scheduled_repayment = zero_money;
  next_interest_due = zero_money;
  calculated_accrued_interest = sql_sum (map (λ l. l.accrued_interest) (filter is_active loans));
}

-- The response, of the amounts and the dates of the buckets.
unfoldable pub snapshot_of :
    (today due_7_end week_ago month_ago : Date) → Store → MoneyTotals → PortfolioSnapshot
unfolding counts_of count_status date_lt date_le date_eq
snapshot_of today due_7_end week_ago month_ago s money =
    let counts = map (λ l. loan_status_index l.status) s.loans in
    record {
      status_counts = counts_of (0 ∷ 1 ∷ 2 ∷ 3 ∷ 4 ∷ []) counts;
      total_original_principal = money.total_original_principal;
      total_scheduled_interest = money.total_scheduled_interest;
      total_scheduled_repayment = money.total_scheduled_repayment;
      next_interest_due = money.next_interest_due;
      outstanding_principal = money.outstanding_principal;
      accrued_interest = money.accrued_interest;
      active_loan_count = count_status 1 counts;
      paid_loan_count = count_status 2 counts;
      borrower_count = length s.people.borrowers;
      due_today_count = count_active (λ due. date_eq due today) s.loans;
      overdue_loan_count = count_active (is_overdue today) s.loans;
      overdue_outstanding_principal = money.overdue_outstanding_principal;
      due_next_7_days_count = count_active (is_due_in today due_7_end) s.loans;
      due_next_7_days_outstanding_principal = money.due_next_7_days_outstanding_principal;
      overdue_1_7_days_count = count_active (is_overdue_between week_ago today) s.loans;
      overdue_8_30_days_count = count_active (is_overdue_between month_ago week_ago) s.loans;
      overdue_30_plus_days_count = count_active (is_overdue month_ago) s.loans;
    }

-- `today` plus or minus a `timedelta` is computed in Python, where it may be an `OverflowError`.
unfoldable pub get_portfolio_snapshot : (today : Date) → Store → Result PortfolioSnapshot
unfolding project_loans plus_days minus_days money_totals snapshot_of sql_sum
get_portfolio_snapshot today s = do
  p ← project_loans today (filter is_projected s.loans) (initial_projection s.loans)
  due_7_end ← plus_days 7 today
  week_ago ← minus_days 7 today
  month_ago ← minus_days 30 today
  money ← money_totals today due_7_end p s.loans
  ok (snapshot_of today due_7_end week_ago month_ago s money)

pub record OwnerDashboardResponse : Type 0 where
  pub portfolio : PortfolioSnapshot
  pub collections : CollectionsSummary
  pub accounting_balances : List AccountBalance
  pub loan_requests : List ℕ

unfoldable pub get_owner_dashboard :
    (today from_date to_date : Date) → Store → Result OwnerDashboardResponse
unfolding collection_exclusive_end get_portfolio_snapshot get_collections_summary
    get_loan_request_snapshot
get_owner_dashboard today from_date to_date s = do
  exclusive_end ← collection_exclusive_end from_date to_date
  portfolio ← get_portfolio_snapshot today s
  collections ← get_collections_summary from_date to_date s
  accounting_balances ← get_accounting_balances s
  ok (record {
    portfolio = portfolio;
    collections = collections;
    accounting_balances = accounting_balances;
    loan_requests = get_loan_request_snapshot s;
  })
