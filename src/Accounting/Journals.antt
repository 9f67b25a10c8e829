-- ===== src/Accounting/Journals.antt =====
-- The journals of the business events and the reversal, of
-- backend/app/features/accounting/service.py.
use nelson_lending_v.Prelude.{
  ℕ, Bool, ◌&&◌, ◌||◌, ◌==◌, if◌then◌else◌, List, [], ◌∷◌, ◌++◌, map, Option, none, some,
}
use nelson_lending_v.Prelude.Result.{
  Result, ok, err, raise_if, ◌>>=◌, ◌>>◌, journal_not_found, business_journal, reversal_journal,
  already_reversed,
}
use nelson_lending_v.Decimal.{Decimal, zero_money, lt, quantize_money}
use nelson_lending_v.Calendar.{Date}
use nelson_lending_v.Store.{Store, Clock}
use nelson_lending_v.Store.Rows.{
  Text, DateTime, Account, cash, loans_receivable, customer_credit, interest_income, JournalEvent,
  loan_disbursement, payment_event, reversal, disbursement_for, payment_for, reversal_for,
  JournalEntry, JournalTransaction, Loan, Payment,
}
use nelson_lending_v.Store.Table.{strip, one_or_none, is_some}
use nelson_lending_v.Accounting.{
  event_eq, account_of, ensure_system_accounts, Line, line, Posting, post_journal,
}

-- The `where` of the source check.
abbrev pub has_source : JournalEvent → ℕ → JournalTransaction → Bool
has_source event source tx = event_eq tx.event_type event && (tx.source_id == source)

-- `loan.disbursed_at.date() if loan.disbursed_at else date.today()`
abbrev pub date_or_today : Option DateTime → Date → Date
date_or_today none today = today
date_or_today (some t) today = t.date

unfoldable pub post_new_disbursement : Clock → Loan → Store → Result (JournalTransaction × Store)
unfolding ensure_system_accounts post_journal
post_new_disbursement clock loan s = do
  let s' = ensure_system_accounts s
  receivable_acc ← account_of loans_receivable s'.accounts
  cash_acc ← account_of cash s'.accounts
  amount ← quantize_money loan.original_principal
  post_journal clock
      (record {
        event_type = loan_disbursement;
        source_id = loan.id;
        description = disbursement_for loan.id;
        effective_date = date_or_today loan.disbursed_at clock.today;
        posted_at = loan.disbursed_at;
        reversal_of_id = none;
      })
      (line receivable_acc.id amount zero_money ∷ line cash_acc.id zero_money amount ∷ []) s'

-- An existing journal of the same source is returned as it is.
abbrev pub unless_posted :
    Option JournalTransaction
    → Store
    → Result (JournalTransaction × Store)
    → Result (JournalTransaction × Store)
unless_posted none s post = post
unless_posted (some tx) s post = ok (tx, s)

unfoldable pub post_disbursement_journal :
    Clock → Loan → Store → Result (JournalTransaction × Store)
unfolding post_new_disbursement
post_disbursement_journal clock loan s = do
  existing ← one_or_none (has_source loan_disbursement loan.id) s.journals
  unless_posted existing s (post_new_disbursement clock loan s)

-- `if amount > 0: entries.append(...)`
abbrev pub credit_line : ℕ → Decimal → List Line
credit_line account amount =
    if lt zero_money amount then line account zero_money amount ∷ [] else []

unfoldable pub payment_lines :
    (cash_acc interest_acc receivable_acc credit_acc : Account) → Payment → List Line
payment_lines cash_acc interest_acc receivable_acc credit_acc payment =
    line cash_acc.id payment.amount zero_money ∷ credit_line interest_acc.id payment.interest_paid
    ++ credit_line receivable_acc.id payment.principal_paid
    ++ credit_line credit_acc.id payment.unapplied_credit

-- The four accounts that the function takes from the mapping.
unfoldable pub payment_accounts : List Account → Result (Account × Account × Account × Account)
payment_accounts accounts = do
  cash_acc ← account_of cash accounts
  interest_acc ← account_of interest_income accounts
  receivable_acc ← account_of loans_receivable accounts
  credit_acc ← account_of customer_credit accounts
  ok (cash_acc, interest_acc, receivable_acc, credit_acc)

abbrev pub payment_posting : Payment → Posting
payment_posting payment = record {
  event_type = payment_event;
  source_id = payment.id;
  description = payment_for payment.loan_id payment.reference;
  effective_date = payment.payment_date;
  posted_at = some payment.posted_at;
  reversal_of_id = none;
}

unfoldable pub post_new_payment : Clock → Payment → Store → Result (JournalTransaction × Store)
unfolding ensure_system_accounts payment_accounts post_journal payment_lines
post_new_payment clock payment s = do
  let s' = ensure_system_accounts s
  accounts ← payment_accounts s'.accounts
  post_journal clock (payment_posting payment)
      (payment_lines accounts.0 accounts.1 accounts.2 accounts.3 payment) s'

unfoldable pub post_payment_journal : Clock → Payment → Store → Result (JournalTransaction × Store)
unfolding post_new_payment
post_payment_journal clock payment s = do
  existing ← one_or_none (has_source payment_event payment.id) s.journals
  unless_posted existing s (post_new_payment clock payment s)

abbrev pub is_business_event : JournalEvent → Bool
is_business_event e = event_eq e loan_disbursement || event_eq e payment_event

abbrev pub reverses : ℕ → JournalTransaction → Bool
reverses id tx = elim tx.reversal_of_id [ none ↦ Bool.false | some r ↦ r == id ]

-- `raise JournalNotFoundError` unless there is a row.
abbrev pub found : Option JournalTransaction → Result JournalTransaction
found none = err journal_not_found
found (some tx) = ok tx

-- Debit and credit swapped.
abbrev pub swapped : JournalEntry → Line
swapped e = line e.account_id e.credit e.debit

unfoldable pub reverse_journal :
    Clock → ℕ → (reason : Text) → Store → Result (JournalTransaction × Store)
unfolding post_journal strip
reverse_journal clock journal_id reason s = do
  row ← one_or_none (λ tx. tx.id == journal_id) s.journals
  journal ← found row
  raise_if (is_business_event journal.event_type) business_journal
  raise_if (is_some journal.reversal_of_id) reversal_journal
  existing ← one_or_none (reverses journal_id) s.journals
  raise_if (is_some existing) already_reversed
  post_journal clock
      (record {
        event_type = reversal;
        source_id = journal.id;
        description = reversal_for journal.id (strip reason);
        effective_date = clock.today;
        posted_at = none;
        reversal_of_id = some journal.id;
      })
      (map swapped journal.entries) s
