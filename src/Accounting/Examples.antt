-- ===== src/Accounting/Examples.antt =====
-- The journal theorems on a disbursement of 1,000.00.
use nelson_lending_v.Prelude.{ℕ, ◌+◌, ◌≡◌, refl, arith, List, [], ◌∷◌, ◌++◌, none, some}
use nelson_lending_v.Prelude.Int.{pos}
use nelson_lending_v.Prelude.Result.{ok}
use nelson_lending_v.Decimal.{cents, zero_money}
use nelson_lending_v.Calendar.{Date}
use nelson_lending_v.Store.{Store, Clock, empty_store}
use nelson_lending_v.Store.Rows.{loan_disbursement, disbursement_for, JournalTransaction}
use nelson_lending_v.Accounting.{Line, line, Posting, journal_of, post_journal}
use nelson_lending_v.Accounting.Balance.{IsBalanced, post_journal-IsBalanced}

abbrev march : Date
march = record { year = 2026; month = 3; day = 1 }

abbrev clock : Clock
clock = record { today = march; now = record { instant = 0; date = march }; digest = λ i. 0 }

abbrev store : Store
store = empty_store 10

abbrev posting : Posting
posting = record {
  event_type = loan_disbursement;
  source_id = 7;
  description = disbursement_for 7;
  effective_date = march;
  posted_at = none;
  reversal_of_id = none;
}

abbrev lines : List Line
lines = line 1 (cents (pos 100000)) zero_money ∷ line 2 zero_money (cents (pos 100000)) ∷ []

abbrev journal : JournalTransaction
journal = journal_of 10 clock.now posting lines

posted :
    post_journal clock posting lines store
    ≡ ok (journal, record store { next_id = 11; journals = journal ∷ [] })
unfolding post_journal nelson_lending_v.Accounting.validate_lines
    nelson_lending_v.Accounting.validate_line nelson_lending_v.Accounting.check_sides
    nelson_lending_v.Accounting.post_validated nelson_lending_v.Accounting.sum_from
    nelson_lending_v.Decimal.add nelson_lending_v.Decimal.lt nelson_lending_v.Decimal.eq
    nelson_lending_v.Decimal.quantize_money nelson_lending_v.Prelude.Int.◌+ℤ◌
posted = refl

post_journal-IsBalanced_example :
    IsBalanced journal.entries
    × (record store { next_id = 11; journals = journal ∷ [] }
        ≡ record store { next_id = 10 + 1; journals = [] ++ (journal ∷ []) })
post_journal-IsBalanced_example =
    post_journal-IsBalanced clock posting lines store posted (omega arith) (omega arith)
