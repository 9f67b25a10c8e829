-- ===== src/Accounting/Events.antt =====
-- What posting the journals leaves as it was: the loans, the payments and the outbox.
use nelson_lending_v.Prelude.{
  ◌≡◌, refl, sym, ap, ◌∙◌, Bool-cases, Option-cases, inl, inr, List, [], ◌∷◌, ltb, length,
}
use nelson_lending_v.Prelude.Result.{ok, >>=-eq-ok, raise_if-eq_ok, ok_injective, too_few_entries}
use nelson_lending_v.Store.{Store, Clock}
use nelson_lending_v.Store.Rows.{JournalTransaction, Payment, payment_event}
use nelson_lending_v.Store.Table.{one_or_none}
use nelson_lending_v.Accounting.{
  SystemAccount, system_accounts, has_code, add_missing, ensure_system_accounts, Line, Posting,
  validate_lines, post_validated, post_journal,
}
use nelson_lending_v.Accounting.Balance.{post_validated-eq_ok}
use nelson_lending_v.Accounting.Journals.{
  has_source, unless_posted, payment_lines, payment_accounts, payment_posting, post_new_payment,
  post_payment_journal,
}

-- The tables of the loans and the payments are the same.
pub record SameLoans (s s' : Store) : Type 0 where
  pub loans : s'.loans ≡ s.loans
  pub payments : s'.payments ≡ s.payments

pub SameLoans-trans : {s t u : Store} → SameLoans s t → SameLoans t u → SameLoans s u
SameLoans-trans a b = record { loans = b.loans ∙ a.loans; payments = b.payments ∙ a.payments }

add_missing-SameLoans :
    (missing : List SystemAccount) (s : Store) → SameLoans s (add_missing missing s)
unfolding add_missing
add_missing-SameLoans [] s = record { loans = refl; payments = refl }
add_missing-SameLoans (a ∷ rest) s = elim (Bool-cases (has_code a.code s.accounts)) [
  | inl present ↦ rw (present, add_missing) (add_missing-SameLoans rest s)
  | inr absent ↦
      rw (absent, add_missing)
        (SameLoans-trans (record { loans = refl; payments = refl }) (add_missing-SameLoans rest _))
]

post_journal-SameLoans :
    (clock : Clock) (p : Posting) (entries : List Line) (s : Store) {tx : JournalTransaction}
    {s' : Store}
    → post_journal clock p entries s ≡ ok (tx, s')
    → SameLoans s s'
unfolding post_journal
post_journal-SameLoans clock p entries s h =
    let (enough, h1) = raise_if-eq_ok (ltb (length entries) 2) too_few_entries _ h in
    let (vs, valid, h2) =
      >>=-eq-ok (validate_lines entries) (λ vs. post_validated clock p vs s) h1 in
    let (equal, same) = post_validated-eq_ok clock p vs s h2 in
    record { loans = ap (λ r. r.1.loans) (sym same); payments = ap (λ r. r.1.payments) (sym same) }

post_new_payment-SameLoans :
    (clock : Clock) (p : Payment) (s : Store) {tx : JournalTransaction} {s' : Store}
    → post_new_payment clock p s ≡ ok (tx, s')
    → SameLoans s s'
unfolding post_new_payment ensure_system_accounts
post_new_payment-SameLoans clock p s h =
    let t = ensure_system_accounts s in
    let (accounts, e, h1) =
      >>=-eq-ok (payment_accounts t.accounts)
        (λ a. post_journal clock (payment_posting p) (payment_lines a.0 a.1 a.2 a.3 p) t) h in
    SameLoans-trans (add_missing-SameLoans system_accounts s) (
      post_journal-SameLoans clock (payment_posting p)
        (payment_lines accounts.0 accounts.1 accounts.2 accounts.3 p) t h1)

pub post_payment_journal-SameLoans :
    (clock : Clock) (p : Payment) (s : Store) {tx : JournalTransaction} {s' : Store}
    → post_payment_journal clock p s ≡ ok (tx, s')
    → SameLoans s s'
unfolding post_payment_journal
post_payment_journal-SameLoans clock p s h =
    let (existing, e, h1) =
      >>=-eq-ok (one_or_none (has_source payment_event p.id) s.journals)
        (λ x. unless_posted x s (post_new_payment clock p s)) h in
    elim (Option-cases existing) [
      | inl fresh ↦ post_new_payment-SameLoans clock p s (rw fresh at h1)
      | inr (tx, found) ↦
          let same = ok_injective (rw found at h1) in
          record {
            loans = ap (λ r. r.1.loans) (sym same);
            payments = ap (λ r. r.1.payments) (sym same);
          }
    ]
