-- ===== src/Borrowers/Sessions.antt =====
-- `login_borrower`, `refresh_borrower_session` and `logout_borrower` of
-- backend/app/features/borrowers/auth_service.py. The random values are arguments.
pub mod Rotation
pub mod Later
pub mod Login
use nelson_lending_v.Prelude.{
  ℕ, ◌+◌, Bool, true, false, not, ◌&&◌, ◌||◌, leb, ◌==◌, if◌then◌else◌, List, [], ◌∷◌, ◌++◌, Option,
  none, some,
}
use nelson_lending_v.Prelude.Result.{
  Result, ok, err, raise_if, ◌>>=◌, ◌>>◌, auth_failed, integrity_error,
}
use nelson_lending_v.Crypto.{Crypto, Settings, AccessToken, days, create_borrower_access_token}
use nelson_lending_v.Store.{Store}
use nelson_lending_v.Store.Persons.{
  AccountStatus, account_pending, account_approved, account_activated, account_suspended,
  account_disabled, BorrowerStatus, borrower_active, borrower_inactive, borrower_deleted, Borrower,
  BorrowerAccount, BorrowerDevice, BorrowerRefreshToken, People,
}
use nelson_lending_v.Store.Query.{expect, first_row, exists}
use nelson_lending_v.Store.Rows.{Text}
use nelson_lending_v.Store.Table.{is_some, text_eq, update}
use nelson_lending_v.Borrowers.Activation.{has_phone}

pub record BorrowerTokenPair : Type 0 where
  pub access_token : AccessToken
  pub refresh_token : Text

abbrev pub is_activated : AccountStatus → Bool
is_activated account_activated = true
is_activated _ = false

abbrev pub is_active_borrower : BorrowerStatus → Bool
is_active_borrower borrower_active = true
is_active_borrower _ = false

abbrev pub pin_accepted : Crypto → Text → Option Text → Bool
pin_accepted crypto pin none = false
pin_accepted crypto pin (some hash) = crypto.verify hash pin

abbrev pub may_log_in : Option Borrower → BorrowerAccount → Bool
may_log_in none account = false
may_log_in (some borrower) account =
    is_activated account.account_status && is_active_borrower borrower.status

abbrev pub has_device : ℕ → Text → BorrowerDevice → Bool
has_device account_id hash d =
    (d.borrower_account_id == account_id) && text_eq d.device_identifier_hash hash

abbrev pub new_device : ℕ → ℕ → (hash platform : Text) → (now : ℕ) → BorrowerDevice
new_device id account_id hash platform now = record {
  id = id;
  borrower_account_id = account_id;
  device_identifier_hash = hash;
  platform = platform;
  is_active = true;
  is_trusted = false;
  first_seen_at = now;
  last_seen_at = now;
  revoked_at = none;
}

abbrev pub seen_device : (platform : Text) → (now : ℕ) → BorrowerDevice → BorrowerDevice
seen_device platform now d = record d {
  platform = platform;
  last_seen_at = now;
  is_active = true;
  revoked_at = none;
}

abbrev pub with_people : People → Store → Store
with_people people s = record s { people = people }

abbrev pub save_device : BorrowerDevice → Store → Store
save_device d s =
    with_people
      (record s.people {
        devices = update (λ (x : BorrowerDevice). x.id == d.id) (λ x. d) s.people.devices;
      })
      s

abbrev pub add_device : BorrowerDevice → Store → Store
add_device d s = record s {
  next_id = s.next_id + 1;
  people = record s.people { devices = s.people.devices ++ (d ∷ []) };
}

-- The device row of a login, found or new, and the store with it.
abbrev pub device_for :
    Option BorrowerDevice → ℕ → (hash platform : Text) → (now : ℕ) → Store → BorrowerDevice × Store
device_for none account_id hash platform now s =
    let d = new_device s.next_id account_id hash platform now in (d, add_device d s)
device_for (some old) account_id hash platform now s =
    let d = seen_device platform now old in (d, save_device d s)

abbrev pub has_token : Text → BorrowerRefreshToken → Bool
has_token hash t = text_eq t.token_hash hash

-- The new row of `_new_refresh_session`.
abbrev pub token_row :
    ℕ → (account_id device_id : ℕ) → (hash : Text) → (expires_at : ℕ) → BorrowerRefreshToken
token_row id account_id device_id hash expires_at = record {
  id = id;
  borrower_account_id = account_id;
  device_id = device_id;
  token_hash = hash;
  expires_at = expires_at;
  revoked_at = none;
  rotated_to_token_id = none;
}

-- The insertion, under the unique constraint on the hash.
unfoldable pub add_token : BorrowerRefreshToken → Store → Result Store
add_token t s = do
  raise_if (exists (has_token t.token_hash) s.people.borrower_tokens) integrity_error
  ok (record s {
    next_id = s.next_id + 1;
    people = record s.people { borrower_tokens = s.people.borrower_tokens ++ (t ∷ []) };
  })

abbrev pub save_token : BorrowerRefreshToken → Store → Store
save_token t s =
    with_people
      (record s.people {
        borrower_tokens =
            update (λ (x : BorrowerRefreshToken). x.id == t.id) (λ x. t) s.people.borrower_tokens;
      })
      s

-- `current.revoked_at is not None or current.expires_at <= now`
abbrev pub is_spent : ℕ → BorrowerRefreshToken → Bool
is_spent now t = is_some t.revoked_at || leb t.expires_at now

abbrev pub rotated : ℕ → ℕ → BorrowerRefreshToken → BorrowerRefreshToken
rotated now replacement_id t = record t {
  revoked_at = some now;
  rotated_to_token_id = some replacement_id;
}

abbrev pub revoked : ℕ → BorrowerRefreshToken → BorrowerRefreshToken
revoked now t = record t { revoked_at = some now }

abbrev pub device_accepted : Text → BorrowerDevice → Bool
device_accepted hash d =
    d.is_active && not (is_some d.revoked_at) && text_eq hash d.device_identifier_hash

module _ (crypto : Crypto) (config : Settings) where
  unfoldable pub login_borrower :
      (normalized_phone pin device_identifier platform raw_refresh : Text)
      → (jti now : ℕ) → Store
      → Result (BorrowerTokenPair × Store)
  unfolding create_borrower_access_token add_token
  login_borrower normalized_phone pin device_identifier platform raw_refresh jti now s = do
    account ← expect auth_failed (first_row (has_phone normalized_phone) s.people.borrower_accounts)
    let borrower = first_row (λ (b : Borrower). b.id == account.borrower_id) s.people.borrowers
    raise_if (not (may_log_in borrower account && pin_accepted crypto pin account.pin_hash))
        auth_failed
    let hash = crypto.device_hash device_identifier
    let known = first_row (has_device account.id hash) s.people.devices
    let device = device_for known account.id hash platform now s
    s' ←
        add_token
          (token_row device.1.next_id account.id device.0.id (crypto.token_hash raw_refresh)
            (now + days config.borrower_refresh_token_days))
          device.1
    ok (
      record {
        access_token =
            create_borrower_access_token crypto config account.id account.borrower_id jti now;
        refresh_token = raw_refresh;
      },
      s',
    )

  -- The token that a call presents, which must be neither revoked nor expired.
  unfoldable pub current_token :
      (refresh_token : Text) → (now : ℕ) → Store → Result BorrowerRefreshToken
  current_token refresh_token now s = do
    current ←
        expect auth_failed
          (first_row (has_token (crypto.token_hash refresh_token)) s.people.borrower_tokens)
    raise_if (is_spent now current) auth_failed
    ok current

  -- The account and the device of the token.
  unfoldable pub token_owner :
      BorrowerRefreshToken
      → (device_identifier : Text) → Store
      → Result (BorrowerAccount × BorrowerDevice)
  token_owner current device_identifier s = do
    account ← expect auth_failed (
        first_row (λ (a : BorrowerAccount). a.id == current.borrower_account_id)
          s.people.borrower_accounts)
    let borrower = first_row (λ (b : Borrower). b.id == account.borrower_id) s.people.borrowers
    device ←
        expect auth_failed
          (first_row (λ (d : BorrowerDevice). d.id == current.device_id) s.people.devices)
    raise_if
        (not (
          may_log_in borrower account
          && device_accepted (crypto.device_hash device_identifier) device))
        auth_failed
    ok (account, device)

  unfoldable pub refresh_borrower_session :
      (refresh_token device_identifier raw_replacement : Text)
      → (jti now : ℕ) → Store
      → Result (BorrowerTokenPair × Store)
  unfolding current_token token_owner add_token create_borrower_access_token
  refresh_borrower_session refresh_token device_identifier raw_replacement jti now s = do
    current ← current_token refresh_token now s
    holder ← token_owner current device_identifier s
    s' ←
        add_token
          (token_row s.next_id holder.0.id holder.1.id (crypto.token_hash raw_replacement)
            (now + days config.borrower_refresh_token_days))
          s
    ok (
      record {
        access_token =
            create_borrower_access_token crypto config holder.0.id holder.0.borrower_id jti now;
        refresh_token = raw_replacement;
      },
      save_device (record holder.1 { last_seen_at = now })
          (save_token (rotated now s.next_id current) s'),
    )

  unfoldable pub logout_borrower : (refresh_token : Text) → (now : ℕ) → Store → Result Store
  unfolding current_token
  logout_borrower refresh_token now s = do
    current ← current_token refresh_token now s
    ok (save_token (revoked now current) s)
