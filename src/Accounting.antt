-- ===== src/Accounting.antt =====
-- backend/app/features/accounting/{constants,service}.py: the chart of accounts and the
-- double-entry journals. The store's tables stand for the session.
pub mod Journals
pub mod Balance
pub mod Events
mod Examples
use nelson_lending_v.Prelude.{
  ℕ, ◌+◌, Bool, true, false, not, ◌&&◌, ◌||◌, ◌==◌, ltb, if◌then◌else◌, List, [], ◌∷◌, ◌++◌, map,
  length, Option, none, some,
}
use nelson_lending_v.Prelude.Int.{pos}
use nelson_lending_v.Prelude.Result.{
  Result, ok, err, raise_if, ◌>>=◌, ◌>>◌, key_error, too_few_entries, entry_negative,
  entry_not_one_sided, unbalanced_journal, journal_not_found, business_journal, reversal_journal,
  already_reversed,
}
use nelson_lending_v.Decimal.{Decimal, decimal, zero_money, add, lt, eq, quantize_money}
use nelson_lending_v.Calendar.{Date}
use nelson_lending_v.Store.{Store, Clock, take_id}
use nelson_lending_v.Store.Rows.{
  Text, DateTime, AccountCode, cash, loans_receivable, customer_credit, interest_income, other_code,
  AccountType, asset, liability, income, NormalBalance, debit_balance, credit_balance, Account,
  JournalEvent, loan_disbursement, payment_event, reversal, Description, disbursement_for,
  payment_for, reversal_for, JournalEntry, JournalTransaction, Loan, Payment,
}
use nelson_lending_v.Store.Table.{one_or_none, is_some}

abbrev pub code_eq : AccountCode → AccountCode → Bool
code_eq cash cash = true
code_eq loans_receivable loans_receivable = true
code_eq customer_credit customer_credit = true
code_eq interest_income interest_income = true
code_eq (other_code n) (other_code m) = n == m
code_eq _ _ = false

abbrev pub event_eq : JournalEvent → JournalEvent → Bool
event_eq loan_disbursement loan_disbursement = true
event_eq payment_event payment_event = true
event_eq reversal reversal = true
event_eq _ _ = false

-- An element of `SYSTEM_ACCOUNTS`.
pub record SystemAccount : Type 0 where
  pub code : AccountCode
  pub account_type : AccountType
  pub normal_balance : NormalBalance

abbrev pub system_accounts : List SystemAccount
system_accounts =
    record { code = cash; account_type = asset; normal_balance = debit_balance }
    ∷ record { code = loans_receivable; account_type = asset; normal_balance = debit_balance }
    ∷ record { code = customer_credit; account_type = liability; normal_balance = credit_balance }
    ∷ record { code = interest_income; account_type = income; normal_balance = credit_balance }
    ∷ []

-- `accounts[code]`: the code is unique in the table, and a missing key raises.
abbrev pub account_of : AccountCode → List Account → Result Account
account_of code [] = err key_error
account_of code (a ∷ rest) = if code_eq code a.code then ok a else account_of code rest

abbrev pub has_code : AccountCode → List Account → Bool
has_code code [] = false
has_code code (a ∷ rest) = code_eq code a.code || has_code code rest

-- The loop over the system accounts: each code that the table misses gets a row.
unfoldable pub add_missing : List SystemAccount → Store → Store
add_missing [] s = s
add_missing (a ∷ rest) s =
    let row : Account = record {
      id = s.next_id;
      code = a.code;
      account_type = a.account_type;
      normal_balance = a.normal_balance;
      is_active = true;
    } in
    let added : Store = record s { next_id = s.next_id + 1; accounts = s.accounts ++ (row ∷ []) } in
    add_missing rest (if has_code a.code s.accounts then s else added)

-- The mapping by code that the function returns is the table of the new store.
unfoldable pub ensure_system_accounts : Store → Store
unfolding add_missing
ensure_system_accounts = add_missing system_accounts

-- The tuples of `entries`.
pub record Line : Type 0 where
  pub account : ℕ
  pub debit : Decimal
  pub credit : Decimal

abbrev pub line : ℕ → Decimal → Decimal → Line
line a d c = record { account = a; debit = d; credit = c }

-- The two guards on a line's quantized amounts.
unfoldable pub check_sides : ℕ → Decimal → Decimal → Result Line
check_sides account debit_q credit_q = do
  raise_if (lt debit_q zero_money || lt credit_q zero_money) entry_negative
  raise_if
      ((lt zero_money debit_q && lt zero_money credit_q)
        || (eq debit_q zero_money && eq credit_q zero_money))
      entry_not_one_sided
  ok (line account debit_q credit_q)

-- One round of the validation loop.
unfoldable pub validate_line : Line → Result Line
unfolding check_sides
validate_line l = do
  debit_q ← quantize_money l.debit
  credit_q ← quantize_money l.credit
  check_sides l.account debit_q credit_q

unfoldable pub validate_lines : List Line → Result (List Line)
unfolding validate_line
validate_lines [] = ok []
validate_lines (l ∷ rest) = do
  valid ← validate_line l
  others ← validate_lines rest
  ok (valid ∷ others)

-- `sum(...)` from a running total; Python starts at the integer 0.
unfoldable pub sum_from : Decimal → List Decimal → Decimal
sum_from total [] = total
sum_from total (d ∷ rest) = sum_from (add total d) rest

abbrev pub integer_zero : Decimal
integer_zero = decimal (pos 0) 0

abbrev pub entry_of : Line → JournalEntry
entry_of l = record { account_id = l.account; debit = l.debit; credit = l.credit }

-- The keyword arguments of `post_journal`.
pub record Posting : Type 0 where
  pub event_type : JournalEvent
  pub source_id : ℕ
  pub description : Description
  pub effective_date : Date
  pub posted_at : Option DateTime
  pub reversal_of_id : Option ℕ

-- `posted_at or datetime.now(UTC)`
abbrev pub or_now : Option DateTime → DateTime → DateTime
or_now none now = now
or_now (some t) now = t

abbrev pub journal_of : ℕ → DateTime → Posting → List Line → JournalTransaction
journal_of id now p lines = record {
  id = id;
  event_type = p.event_type;
  source_id = p.source_id;
  description = p.description;
  effective_date = p.effective_date;
  posted_at = or_now p.posted_at now;
  reversal_of_id = p.reversal_of_id;
  entries = map entry_of lines;
}

-- The balance check over the validated lines, and the rows.
unfoldable pub post_validated :
    Clock → Posting → List Line → Store → Result (JournalTransaction × Store)
unfolding sum_from
post_validated clock p validated s = do
  let total_debit = sum_from integer_zero (map (λ l. l.debit) validated)
  let total_credit = sum_from integer_zero (map (λ l. l.credit) validated)
  raise_if (not (eq total_debit total_credit)) unbalanced_journal
  let tx = journal_of s.next_id clock.now p validated
  ok (tx, record s { next_id = s.next_id + 1; journals = s.journals ++ (tx ∷ []) })

unfoldable pub post_journal :
    Clock → Posting → List Line → Store → Result (JournalTransaction × Store)
unfolding validate_lines post_validated
post_journal clock p entries s = do
  raise_if (ltb (length entries) 2) too_few_entries
  validated ← validate_lines entries
  post_validated clock p validated s
