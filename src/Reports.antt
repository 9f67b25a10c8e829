-- ===== src/Reports.antt =====
-- backend/app/features/reports/service.py: the owner's summaries. `func.sum` of PostgreSQL is exact;
-- the names of the accounts are left out.
pub mod Portfolio
pub mod Collections
pub mod TrialBalance
mod Examples
use nelson_lending_v.Prelude.{
  ℕ, ◌+◌, Bool, true, false, ◌&&◌, ◌==◌, if◌then◌else◌, List, [], ◌∷◌, ◌++◌, map, length, Option,
  none, some,
}
use nelson_lending_v.Prelude.Int.{◌+ℤ◌}
use nelson_lending_v.Prelude.Result.{Result, ok, err, raise_if, ◌>>=◌, ◌>>◌, invalid_date_range}
use nelson_lending_v.Decimal.{
  Decimal, decimal, zero_money, aligned, common_places, sub, quantize_money,
}
use nelson_lending_v.Calendar.{Date, date_lt, date_le, date_eq}
use nelson_lending_v.Calendar.Days.{on, next_day}
use nelson_lending_v.Accounting.{SystemAccount, code_eq, system_accounts}
use nelson_lending_v.Store.{Store}
use nelson_lending_v.Store.Query.{first_row}
use nelson_lending_v.Store.Rows.{
  Account, AccountCode, NormalBalance, debit_balance, credit_balance, JournalEntry,
  JournalTransaction, Payment, LoanRequest, RequestStatus, pending, approved, rejected,
  request_cancelled,
}
use nelson_lending_v.Store.Table.{filter}

abbrev pub exact_add : Decimal → Decimal → Decimal
exact_add a b = decimal (aligned a b +ℤ aligned b a) (common_places a b)

-- `func.coalesce(func.sum(column), ZERO)`
unfoldable pub sql_sum : List Decimal → Decimal
unfolding ◌+ℤ◌
sql_sum [] = zero_money
sql_sum (d ∷ rest) = exact_add d (sql_sum rest)

abbrev pub last_date : Date
last_date = on 9999 12 31

unfoldable pub collection_exclusive_end : (from_date to_date : Date) → Result Date
unfolding date_lt date_eq next_day
collection_exclusive_end from_date to_date = do
  raise_if (date_lt to_date from_date) invalid_date_range
  raise_if (date_eq to_date last_date) invalid_date_range
  next_day to_date

pub record CollectionsSummary : Type 0 where
  pub from_date : Date
  pub to_date : Date
  pub total_payment_amount : Decimal
  pub principal_allocation : Decimal
  pub interest_allocation : Decimal
  pub unapplied_credit_allocation : Decimal

abbrev pub is_collected : Date → Date → Payment → Bool
is_collected from_date exclusive_end p =
    date_le from_date p.payment_date && date_lt p.payment_date exclusive_end

unfoldable pub get_collections_summary :
    (from_date to_date : Date) → Store → Result CollectionsSummary
unfolding collection_exclusive_end date_le date_lt sql_sum quantize_money
get_collections_summary from_date to_date s = do
  exclusive_end ← collection_exclusive_end from_date to_date
  let rows = filter (is_collected from_date exclusive_end) s.payments
  amount ← quantize_money (sql_sum (map (λ p. p.amount) rows))
  principal ← quantize_money (sql_sum (map (λ p. p.principal_paid) rows))
  interest ← quantize_money (sql_sum (map (λ p. p.interest_paid) rows))
  credit ← quantize_money (sql_sum (map (λ p. p.unapplied_credit) rows))
  ok (record {
    from_date = from_date;
    to_date = to_date;
    total_payment_amount = amount;
    principal_allocation = principal;
    interest_allocation = interest;
    unapplied_credit_allocation = credit;
  })

pub record AccountBalance : Type 0 where
  pub code : AccountCode
  pub normal_balance : NormalBalance
  pub balance : Decimal

abbrev pub all_entries : List JournalTransaction → List JournalEntry
all_entries [] = []
all_entries (j ∷ rest) = j.entries ++ all_entries rest

-- The entries that the outer join gives an account.
abbrev pub entries_of : ℕ → List JournalEntry → List JournalEntry
entries_of account_id es = filter (λ (e : JournalEntry). e.account_id == account_id) es

-- On the side of the account's normal balance.
abbrev pub balance_of : NormalBalance → (debit credit : Decimal) → Decimal
balance_of debit_balance debit credit = sub debit credit
balance_of credit_balance debit credit = sub credit debit

-- The balance of one definition of `SYSTEM_ACCOUNTS`: of its row, or of none.
abbrev pub account_balance :
    SystemAccount → Option Account → List JournalEntry → Result AccountBalance
account_balance definition none es = do
  balance ← quantize_money (balance_of definition.normal_balance zero_money zero_money)
  ok (record {
    code = definition.code;
    normal_balance = definition.normal_balance;
    balance = balance;
  })
account_balance definition (some row) es = do
  let joined = entries_of row.id es
  let debit = sql_sum (map (λ e. e.debit) joined)
  let credit = sql_sum (map (λ e. e.credit) joined)
  balance ← quantize_money (balance_of row.normal_balance debit credit)
  ok (record { code = definition.code; normal_balance = row.normal_balance; balance = balance })

unfoldable pub account_balances : List SystemAccount → Store → Result (List AccountBalance)
unfolding sql_sum quantize_money sub
account_balances [] s = ok []
account_balances (definition ∷ rest) s = do
  let row = first_row (λ (a : Account). code_eq definition.code a.code) s.accounts
  balance ← account_balance definition row (all_entries s.journals)
  balances ← account_balances rest s
  ok (balance ∷ balances)

abbrev pub get_accounting_balances : Store → Result (List AccountBalance)
get_accounting_balances = account_balances system_accounts

-- `counts.get(status, 0)` for each status, of the rows' statuses; `index` numbers the strings.
unfoldable pub count_status : ℕ → List ℕ → ℕ
count_status status [] = 0
count_status status (x ∷ xs) = (if x == status then 1 else 0) + count_status status xs

abbrev pub request_status_index : RequestStatus → ℕ
request_status_index pending = 0
request_status_index approved = 1
request_status_index rejected = 2
request_status_index request_cancelled = 3

unfoldable pub counts_of : List ℕ → List ℕ → List ℕ
unfolding count_status
counts_of [] rows = []
counts_of (status ∷ rest) rows = count_status status rows ∷ counts_of rest rows

-- The counts in the order of `LOAN_REQUEST_STATUSES`.
unfoldable pub get_loan_request_snapshot : Store → List ℕ
unfolding counts_of
get_loan_request_snapshot s =
    counts_of (0 ∷ 1 ∷ 2 ∷ 3 ∷ [])
      (map (λ (r : LoanRequest). request_status_index r.status) s.loan_requests)
