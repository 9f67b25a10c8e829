-- ===== src/Borrowers/Sessions/Login.antt =====
-- Activation, login and the access token together: backend/app/features/borrowers/auth_service.py.
use mathlib.Core.Path.{subst}
use nelson_lending_v.Prelude.{
  ℕ, ◌+◌, ◌≤◌, ◌<◌, ◌≡◌, refl, sym, ◌∙◌, true, false, ◌&&◌, ◌==◌, Option, none, some, ◌++◌, [], ◌∷◌,
}
use nelson_lending_v.Prelude.Result.{ok}
use nelson_lending_v.Crypto.{
  Crypto, Settings, Claims, borrower_access, decode_borrower_access_token,
  create_borrower_access_token, minutes, days,
}
use nelson_lending_v.Store.{Store}
use nelson_lending_v.Store.Persons.{Borrower, BorrowerAccount, BorrowerDevice, BorrowerRefreshToken}
use nelson_lending_v.Store.Query.{first_row, exists, first_row-snoc, some_injective}
use nelson_lending_v.Store.Rows.{Text}
use nelson_lending_v.Store.Table.{text_eq_refl}
use nelson_lending_v.Borrowers.Activation.{activated, has_phone, activate_borrower}
use nelson_lending_v.Borrowers.Activation.SingleUse.{
  activate_borrower-IsActivation, activate_borrower-account,
}
use nelson_lending_v.Borrowers.Sessions.{
  BorrowerTokenPair, is_active_borrower, is_activated, may_log_in, pin_accepted, has_device,
  device_for, has_token, token_row, add_token, login_borrower,
}

-- A token whose hash no row has is added, and its row is then the one of that hash.
pub add_token-fresh :
    (t : BorrowerRefreshToken) (s : Store)
    → exists (has_token t.token_hash) s.people.borrower_tokens ≡ false
    → (s' : Store) × (add_token t s ≡ ok s')
      × (first_row (has_token t.token_hash) s'.people.borrower_tokens ≡ some t)
unfolding add_token
add_token-fresh t s fresh = (
  record s {
    next_id = s.next_id + 1;
    people = record s.people { borrower_tokens = s.people.borrower_tokens ++ (t ∷ []) };
  },
  rw fresh refl,
  first_row-snoc (has_token t.token_hash) s.people.borrower_tokens t fresh
      (text_eq_refl t.token_hash),
)

device_for-tokens :
    (known : Option BorrowerDevice) (account_id : ℕ) (hash platform : Text) (now : ℕ) (s : Store)
    → s.people.borrower_tokens
      ≡ (device_for known account_id hash platform now s).1.people.borrower_tokens
device_for-tokens none account_id hash platform now s = refl
device_for-tokens (some d) account_id hash platform now s = refl

-- A login of an activated account of an active borrower with a PIN that its hash verifies.
login_borrower-accepted :
    (crypto : Crypto) (config : Settings) (phone pin device platform raw : Text) (jti now : ℕ)
    (s : Store) (account : BorrowerAccount)
    → first_row (has_phone phone) s.people.borrower_accounts ≡ some account
    → (may_log_in
          (first_row (λ (b : Borrower). b.id == account.borrower_id) s.people.borrowers)
          account
        && pin_accepted crypto pin account.pin_hash)
      ≡ true
    → exists (has_token (crypto.token_hash raw)) s.people.borrower_tokens ≡ false
    → (s' : Store) × (login_borrower crypto config phone pin device platform raw jti now s
        ≡ ok (
          record {
            access_token =
                create_borrower_access_token crypto config account.id account.borrower_id jti now;
            refresh_token = raw;
          },
          s',
        ))
unfolding login_borrower
login_borrower-accepted crypto config phone pin device platform raw jti now s account found accepted
      fresh =
    let hash = crypto.device_hash device in
    let known = first_row (has_device account.id hash) s.people.devices in
    let stored = device_for known account.id hash platform now s in
    let row =
      token_row stored.1.next_id account.id stored.0.id (crypto.token_hash raw)
        (now + days config.borrower_refresh_token_days) in
    let (s', added, here) = add_token-fresh row stored.1 (
      subst (λ ts. exists (has_token (crypto.token_hash raw)) ts ≡ false)
        (device_for-tokens known account.id hash platform now s) fresh) in
    (s', rw (found, accepted, added) refl)

-- After an activation that succeeded, a login with the same phone number and PIN succeeds for an
-- active borrower, whatever the device, when the refresh token's hash is new; and from the login
-- until it expires the access token that it gives decodes to the account and the borrower that the
-- phone number belongs to.
pub activate_borrower-login_borrower :
    (crypto : Crypto) (config : Settings) (phone code pin : Text) (salt now : ℕ) (s : Store)
    {s' : Store} (account : BorrowerAccount) (borrower : Borrower) (device platform raw : Text)
    (jti at later : ℕ)
    → activate_borrower crypto phone code pin salt now s ≡ ok (none, s')
    → first_row (has_phone phone) s'.people.borrower_accounts ≡ some account
    → first_row (λ (b : Borrower). b.id == account.borrower_id) s'.people.borrowers ≡ some borrower
    → is_active_borrower borrower.status ≡ true
    → exists (has_token (crypto.token_hash raw)) s'.people.borrower_tokens ≡ false
    → at ≤ later
    → later < at + minutes config.borrower_access_token_minutes
    → (pair : BorrowerTokenPair) × (s'' : Store) × (login_borrower crypto config phone pin device
          platform raw jti at s'
        ≡ ok (pair, s''))
      × (decode_borrower_access_token crypto later pair.access_token.value
          ≡ ok (record {
            subject = account.id;
            borrower_id = some account.borrower_id;
            token_type = borrower_access;
            issued_at = at;
            expires_at = at + minutes config.borrower_access_token_minutes;
            jti = jti;
          }))
unfolding decode_borrower_access_token create_borrower_access_token
activate_borrower-login_borrower crypto config phone code pin salt now s {s' = s'} account borrower
      device platform raw jti at later h found active_row active fresh issued valid =
    let a = activate_borrower-IsActivation crypto phone code pin salt now s h in
    let new = activated now (crypto.secret_hash salt pin) a.attempt.account in
    let same : new ≡ account =
      some_injective (sym (activate_borrower-account crypto phone code pin salt now s a) ∙ found) in
    let is_ready : is_activated account.account_status ≡ true =
      subst (λ x. is_activated x.account_status ≡ true) same refl in
    let pin_ok : pin_accepted crypto pin account.pin_hash ≡ true =
      subst (λ x. pin_accepted crypto pin x.pin_hash ≡ true) same (crypto.verifies salt pin) in
    let (s'', logged_in) =
      login_borrower-accepted crypto config phone pin device platform raw jti at s' account found
        (rw (active_row, is_ready, active, pin_ok) refl) fresh in
    let claims : Claims = record {
      subject = account.id;
      borrower_id = some account.borrower_id;
      token_type = borrower_access;
      issued_at = at;
      expires_at = at + minutes config.borrower_access_token_minutes;
      jti = jti;
    } in
    (
      record {
        access_token =
            create_borrower_access_token crypto config account.id account.borrower_id jti at;
        refresh_token = raw;
      },
      s'',
      logged_in,
      rw (crypto.decodes later claims issued valid) refl,
    )
