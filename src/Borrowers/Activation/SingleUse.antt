-- ===== src/Borrowers/Activation/SingleUse.antt =====
-- An account is activated once: `activate_borrower` of
-- backend/app/features/borrowers/auth_service.py.
use mathlib.Core.Path.{subst}
use nelson_lending_v.Prelude.{
  ℕ, ◌≡◌, refl, ap, sym, Bool, true, false, Bool-cases, inl, inr, ==_refl, Option, none, some,
  arith, ◌==◌,
}
use nelson_lending_v.Prelude.Result.{
  Error, Result, ok, err, >>=-eq-ok, raise_if-eq_ok, ok_injective, activation_failed,
}
use nelson_lending_v.Crypto.{Crypto, hash_pin}
use nelson_lending_v.Store.{Store}
use nelson_lending_v.Store.Persons.{BorrowerAccount}
use nelson_lending_v.Store.Query.{first_row, first_row-found, first_row-update}
use nelson_lending_v.Store.Rows.{Text}
use nelson_lending_v.Store.Table.{text_eq}
use nelson_lending_v.Borrowers.Activation.{
  consumed, activated, save_code, save_account, has_phone, try_code, activate_borrower,
}
use nelson_lending_v.Borrowers.Activation.Attempts.{IsAttempt, activate_borrower-IsAttempt}

-- What an activation that succeeded wrote.
pub record IsActivation (crypto : Crypto) (phone code pin : Text) (salt now : ℕ) (s s' : Store)
    : Type 0 where
  pub attempt : IsAttempt crypto phone code pin salt now s (none, s')
  pub code_matches :
      text_eq (crypto.activation_hash attempt.account.id code) attempt.row.code_hash ≡ true
  pub stored :
      save_code
        (consumed now attempt.row)
        (save_account (activated now (crypto.secret_hash salt pin) attempt.account) s)
      ≡ s'

is_failure : Option Error × Store → Bool
is_failure (none, s) = false
is_failure (some e, s) = true

pub activate_borrower-IsActivation :
    (crypto : Crypto) (phone code pin : Text) (salt now : ℕ) (s : Store) {s' : Store}
    → activate_borrower crypto phone code pin salt now s ≡ ok (none, s')
    → IsActivation crypto phone code pin salt now s s'
unfolding try_code hash_pin is_failure
activate_borrower-IsActivation crypto phone code pin salt now s {s' = s'} h =
    let a = activate_borrower-IsAttempt crypto phone code pin salt now s h in
    elim (Bool-cases (text_eq (crypto.activation_hash a.account.id code) a.row.code_hash)) [
      | inl right ↦
          let finish : Text → Result (Option Error × Store) = λ p.
            ok
              (none, save_code (consumed now a.row) (save_account (activated now p a.account) s)) in
          let (pin_hash, ep, h1) =
            >>=-eq-ok (hash_pin crypto salt pin) finish (rw (right, try_code) at a.ran) in
          let (valid, eh) = raise_if-eq_ok _ _ _ ep in
          record {
            attempt = a;
            code_matches = right;
            stored =
                subst
                  (λ p.
                    save_code (consumed now a.row) (save_account (activated now p a.account) s)
                    ≡ s')
                  (sym (ok_injective eh)) (ap (λ r. r.1) (ok_injective h1));
          }
      | inr wrong ↦ ground (arith, ap is_failure (ok_injective (rw (wrong, try_code) at a.ran)))
    ]

-- The account of the phone number after an activation.
pub activate_borrower-account :
    (crypto : Crypto) (phone code pin : Text) (salt now : ℕ) (s : Store) {s' : Store}
    → (a : IsActivation crypto phone code pin salt now s s')
    → first_row (has_phone phone) s'.people.borrower_accounts
      ≡ some (activated now (crypto.secret_hash salt pin) a.attempt.account)
activate_borrower-account crypto phone code pin salt now s a =
    let account = a.attempt.account in
    let found = a.attempt.found_account in
    let new = activated now (crypto.secret_hash salt pin) account in
    subst (λ q. first_row (has_phone phone) q.people.borrower_accounts ≡ some new) a.stored
      (first_row-update (has_phone phone) (λ (x : BorrowerAccount). x.id == account.id) new
        s.people.borrower_accounts found (==_refl account.id)
        (first_row-found (has_phone phone) s.people.borrower_accounts found))

-- Once an activation succeeded, every later attempt for the same phone number fails, with whatever
-- code, PIN and time, and writes nothing.
pub activate_borrower-once :
    (crypto : Crypto) (phone code pin : Text) (salt now : ℕ) (s : Store) {s' : Store}
    (code' pin' : Text) (salt' now' : ℕ)
    → activate_borrower crypto phone code pin salt now s ≡ ok (none, s')
    → activate_borrower crypto phone code' pin' salt' now' s' ≡ err activation_failed
unfolding activate_borrower
activate_borrower-once crypto phone code pin salt now s code' pin' salt' now' h =
    let a = activate_borrower-IsActivation crypto phone code pin salt now s h in
    rw (activate_borrower-account crypto phone code pin salt now s a) refl
