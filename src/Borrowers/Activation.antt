-- ===== src/Borrowers/Activation.antt =====
-- `issue_activation_code` and `activate_borrower` of
-- backend/app/features/borrowers/auth_service.py. The random values are arguments.
pub mod Attempts
pub mod SingleUse
pub mod Delivery
use nelson_lending_v.Prelude.{
  ℕ, ◌+◌, Bool, true, false, not, ◌&&◌, ◌||◌, leb, ◌==◌, if◌then◌else◌, List, [], ◌∷◌, ◌++◌, Option,
  none, some,
}
use nelson_lending_v.Prelude.Result.{
  Error, Result, ok, err, raise_if, ◌>>=◌, ◌>>◌, activation_failed, activation_unavailable,
  borrower_not_found,
}
use nelson_lending_v.Crypto.{Crypto, Settings, minutes, activation_code, hash_pin}
use nelson_lending_v.Store.{Store}
use nelson_lending_v.Store.Persons.{
  AccountStatus, account_pending, account_approved, account_activated, account_suspended,
  account_disabled, Borrower, BorrowerAccount, BorrowerActivationCode,
}
use nelson_lending_v.Store.Query.{expect, first_row, exists}
use nelson_lending_v.Store.Rows.{Text}
use nelson_lending_v.Store.Table.{is_some, text_eq, update}

pub record ActivationCodeGrant : Type 0 where
  pub borrower_id : ℕ
  pub code : Text
  pub expires_at : ℕ

abbrev pub is_account_approved : AccountStatus → Bool
is_account_approved account_approved = true
is_account_approved _ = false

-- Neither used nor revoked.
abbrev pub is_usable : ℕ → BorrowerActivationCode → Bool
is_usable account_id c =
    (c.borrower_account_id == account_id) && not (is_some c.used_at) && not (is_some c.revoked_at)

-- The usable code that was created last.
abbrev pub last_usable : ℕ → List BorrowerActivationCode → Option BorrowerActivationCode
last_usable account_id [] = none
last_usable account_id (c ∷ rest) = elim (last_usable account_id rest) [
  | none ↦ if is_usable account_id c then some c else none
  | some later ↦ some later
]

abbrev pub with_codes : List BorrowerActivationCode → Store → Store
with_codes codes s = record s { people = record s.people { activation_codes = codes } }

abbrev pub revoke_code : ℕ → BorrowerActivationCode → BorrowerActivationCode
revoke_code now c = record c { revoked_at = some now }

-- The row of a new code.
abbrev pub code_of :
    ℕ → ℕ → (code_hash : Text) → (expires_at max_attempts : ℕ) → BorrowerActivationCode
code_of id account_id code_hash expires_at max_attempts = record {
  id = id;
  borrower_account_id = account_id;
  code_hash = code_hash;
  expires_at = expires_at;
  used_at = none;
  revoked_at = none;
  failed_attempts = 0;
  max_attempts = max_attempts;
  last_attempt_at = none;
}

abbrev pub account_row : ℕ → Store → Result BorrowerAccount
account_row borrower_id s =
    expect
      (if exists (λ (b : Borrower). b.id == borrower_id) s.people.borrowers
        then activation_unavailable
        else borrower_not_found)
      (first_row (λ (a : BorrowerAccount). a.borrower_id == borrower_id) s.people.borrower_accounts)

-- Prior usable codes are revoked, and the new one is added.
abbrev pub issued : ℕ → BorrowerActivationCode → Store → Store
issued now code s = record s {
  next_id = s.next_id + 1;
  people = record s.people {
    activation_codes =
        update (is_usable code.borrower_account_id) (revoke_code now) s.people.activation_codes
        ++ (code ∷ []);
  };
}

module _ (crypto : Crypto) (config : Settings) where
  unfoldable pub issue_activation_code :
      ℕ → (random now : ℕ) → Store → Result (ActivationCodeGrant × Store)
  unfolding activation_code
  issue_activation_code borrower_id random now s = do
    account ← account_row borrower_id s
    raise_if (not (is_account_approved account.account_status)) activation_unavailable
    let raw_code = activation_code random
    let expires_at = now + minutes config.borrower_activation_code_minutes
    let code =
        code_of s.next_id account.id (crypto.activation_hash account.id raw_code) expires_at
          config.borrower_activation_code_max_attempts
    ok (
      record { borrower_id = borrower_id; code = raw_code; expires_at = expires_at },
      issued now code s,
    )

-- A failed attempt, of which the last one revokes the code.
abbrev pub missed : ℕ → BorrowerActivationCode → BorrowerActivationCode
missed now c = record c {
  last_attempt_at = some now;
  failed_attempts = c.failed_attempts + 1;
  revoked_at = if leb c.max_attempts (c.failed_attempts + 1) then some now else c.revoked_at;
}

abbrev pub consumed : ℕ → BorrowerActivationCode → BorrowerActivationCode
consumed now c = record c { last_attempt_at = some now; used_at = some now }

abbrev pub activated : ℕ → Text → BorrowerAccount → BorrowerAccount
activated now pin_hash a = record a {
  pin_hash = some pin_hash;
  account_status = account_activated;
  phone_verified_at = some now;
}

abbrev pub save_code : BorrowerActivationCode → Store → Store
save_code c s =
    with_codes
      (update (λ (x : BorrowerActivationCode). x.id == c.id) (λ x. c) s.people.activation_codes) s

abbrev pub save_account : BorrowerAccount → Store → Store
save_account a s = record s {
  people = record s.people {
    borrower_accounts =
        update (λ (x : BorrowerAccount). x.id == a.id) (λ x. a) s.people.borrower_accounts;
  };
}

abbrev pub has_phone : Text → BorrowerAccount → Bool
has_phone phone a = text_eq a.phone_number_normalized phone

module _ (crypto : Crypto) where
  -- The outcome and the committed store: a wrong code is counted and then raises.
  unfoldable pub try_code :
      BorrowerAccount
      → BorrowerActivationCode
      → (code pin : Text) → (salt now : ℕ) → Store
      → Result (Option Error × Store)
  unfolding hash_pin
  try_code account row code pin salt now s =
      if text_eq (crypto.activation_hash account.id code) row.code_hash
      then (do
        pin_hash ← hash_pin crypto salt pin
        ok (none, save_code (consumed now row) (save_account (activated now pin_hash account) s)))
      else ok (some activation_failed, save_code (missed now row) s)

  unfoldable pub activate_borrower :
      (normalized_phone code pin : Text) → (salt now : ℕ) → Store → Result (Option Error × Store)
  unfolding try_code
  activate_borrower normalized_phone code pin salt now s = do
    account ←
        expect activation_failed (first_row (has_phone normalized_phone) s.people.borrower_accounts)
    raise_if (not (is_account_approved account.account_status)) activation_failed
    row ← expect activation_failed (last_usable account.id s.people.activation_codes)
    raise_if (leb row.expires_at now || leb row.max_attempts row.failed_attempts) activation_failed
    try_code account row code pin salt now s
