-- ===== src/Borrowers/Activation/Delivery.antt =====
-- A code that was issued activates its account: backend/app/features/borrowers/auth_service.py.
use mathlib.Core.Path.{subst}
use nelson_lending_v.Prelude.{
  ℕ, ◌+◌, ◌<◌, ◌≡◌, refl, sym, ap, ◌∙◌, true, ==_refl, lt→leb, List, [], ◌∷◌, ◌++◌, none, some,
}
use nelson_lending_v.Prelude.Result.{ok, ok_injective}
use nelson_lending_v.Crypto.{Crypto, Settings, minutes, activation_code, validate_pin, hash_pin}
use nelson_lending_v.Store.{Store}
use nelson_lending_v.Store.Persons.{account_activated, BorrowerAccount, BorrowerActivationCode}
use nelson_lending_v.Store.Query.{first_row, some_injective}
use nelson_lending_v.Store.Rows.{Text}
use nelson_lending_v.Store.Table.{text_eq_refl, update}
use nelson_lending_v.Borrowers.Activation.Attempts.{issue_activation_code-IsIssue}
use nelson_lending_v.Borrowers.Activation.SingleUse.{
  activate_borrower-IsActivation, activate_borrower-account,
}
use nelson_lending_v.Borrowers.Activation.{
  ActivationCodeGrant, is_usable, last_usable, revoke_code, code_of, account_row, issued,
  issue_activation_code, consumed, activated, save_code, save_account, has_phone, try_code,
  activate_borrower,
}

last_usable-snoc :
    (account_id : ℕ) (cs : List BorrowerActivationCode) (c : BorrowerActivationCode)
    → is_usable account_id c ≡ true
    → last_usable account_id (cs ++ (c ∷ [])) ≡ some c
last_usable-snoc account_id [] c h = rw h refl
last_usable-snoc account_id (x ∷ cs) c h = rw (last_usable-snoc account_id cs c h) refl

-- The code that was issued last is accepted.
issued-activate_borrower :
    (crypto : Crypto) (config : Settings) (borrower_id random now : ℕ) (s : Store)
    {grant : ActivationCodeGrant} {s' : Store} (account : BorrowerAccount) (phone pin : Text)
    (salt at : ℕ)
    → issue_activation_code crypto config borrower_id random now s ≡ ok (grant, s')
    → account_row borrower_id s ≡ ok account
    → first_row (has_phone phone) s.people.borrower_accounts ≡ some account
    → 0 < config.borrower_activation_code_max_attempts
    → at < grant.expires_at
    → validate_pin pin ≡ ok tt
    → (s'' : Store) × (activate_borrower crypto phone grant.code pin salt at s' ≡ ok (none, s''))
unfolding activate_borrower try_code hash_pin
issued-activate_borrower crypto config borrower_id random now s {grant = grant} {s' = s'} account
      phone pin salt at h found by_phone limit early valid =
    let i = issue_activation_code-IsIssue crypto config borrower_id random now s h in
    let same : account ≡ i.account = ok_injective (sym found ∙ i.found) in
    let owner : first_row (has_phone phone) s.people.borrower_accounts ≡ some i.account =
      by_phone ∙ ap some same in
    let expires_at = now + minutes config.borrower_activation_code_minutes in
    let code =
      code_of s.next_id i.account.id (crypto.activation_hash i.account.id (activation_code random))
        expires_at config.borrower_activation_code_max_attempts in
    let usable =
      last_usable-snoc i.account.id
        (update (is_usable i.account.id) (revoke_code now) s.people.activation_codes) code
        (rw (==_refl i.account.id) refl) in
    let live = lt→leb expires_at at (rw (← i.expires) at early) in
    let left = lt→leb config.borrower_activation_code_max_attempts 0 limit in
    (
      save_code (consumed at code)
          (save_account (activated at (crypto.secret_hash salt pin) i.account) (issued now code s)),
      rw
          (
            ← i.stored,
            ← i.code,
            owner,
            i.approved,
            usable,
            live,
            left,
            text_eq_refl (crypto.activation_hash i.account.id (activation_code random)),
            valid,
          )
          refl,
    )

-- The code that was issued last, entered with an acceptable PIN before it expires, activates the
-- account that it was issued for, when that account is the one of the phone number: afterwards that
-- account, with its identifier and its borrower, is activated, carries the hash of the PIN and the
-- time of the activation.
pub issue_activation_code-activate_borrower :
    (crypto : Crypto) (config : Settings) (borrower_id random now : ℕ) (s : Store)
    {grant : ActivationCodeGrant} {s' : Store} (account : BorrowerAccount) (phone pin : Text)
    (salt at : ℕ)
    → issue_activation_code crypto config borrower_id random now s ≡ ok (grant, s')
    → account_row borrower_id s ≡ ok account
    → first_row (has_phone phone) s.people.borrower_accounts ≡ some account
    → 0 < config.borrower_activation_code_max_attempts
    → at < grant.expires_at
    → validate_pin pin ≡ ok tt
    → (s'' : Store) × (after : BorrowerAccount) × (activate_borrower crypto phone grant.code pin
          salt at s'
        ≡ ok (none, s''))
      × (first_row (has_phone phone) s''.people.borrower_accounts ≡ some after)
      × (after.id ≡ account.id)
      × (after.borrower_id ≡ account.borrower_id)
      × (after.account_status ≡ account_activated)
      × (after.pin_hash ≡ some (crypto.secret_hash salt pin))
      × (after.phone_verified_at ≡ some at)
issue_activation_code-activate_borrower crypto config borrower_id random now s {grant = grant}
      {s' = s'} account phone pin salt at h found by_phone limit early valid =
    let i = issue_activation_code-IsIssue crypto config borrower_id random now s h in
    let (s'', activation) =
      issued-activate_borrower crypto config borrower_id random now s account phone pin salt at h
        found by_phone limit early valid in
    let a = activate_borrower-IsActivation crypto phone grant.code pin salt at s' activation in
    let kept : first_row (has_phone phone) s'.people.borrower_accounts ≡ some account =
      subst (λ q. first_row (has_phone phone) q.people.borrower_accounts ≡ some account) i.stored
        by_phone in
    let same : a.attempt.account ≡ account = some_injective (sym a.attempt.found_account ∙ kept) in
    (
      s'',
      activated at (crypto.secret_hash salt pin) a.attempt.account,
      activation,
      activate_borrower-account crypto phone grant.code pin salt at s' a,
      ap (λ x. x.id) same,
      ap (λ x. x.borrower_id) same,
      refl,
      refl,
      refl,
    )
