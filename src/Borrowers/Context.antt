-- ===== src/Borrowers/Context.antt =====
-- `get_current_borrower_account` of backend/app/features/borrowers/auth_dependencies.py: the account
-- that a request's bearer token stands for.
use mathlib.Core.Path.{subst}
use nelson_lending_v.Prelude.{
  ℕ, ◌+◌, ◌≤◌, ◌<◌, ◌≡◌, refl, sym, ap, ◌∙◌, Bool, true, not, not-false, ◌&&◌, ◌==◌, ==_refl,
  Option, none, some, [], ◌∷◌,
}
use nelson_lending_v.Prelude.Result.{
  Result, ok, raise_if, ◌>>=◌, ◌>>◌, >>=-eq-ok, raise_if-eq_ok, ok_injective, auth_failed,
  integrity_error,
}
use nelson_lending_v.Crypto.{
  Crypto, Settings, Claims, borrower_access, create_borrower_access_token,
  decode_borrower_access_token, minutes, days,
}
use nelson_lending_v.Store.{Store}
use nelson_lending_v.Store.Persons.{Borrower, BorrowerAccount, BorrowerDevice, BorrowerRefreshToken}
use nelson_lending_v.Store.Query.{
  and_left, and_right, expect, expect-eq_ok, first_row, exists, some_injective,
}
use nelson_lending_v.Store.Rows.{Text}
use nelson_lending_v.Store.Table.{text_eq}
use nelson_lending_v.Borrowers.Activation.{has_phone}
use nelson_lending_v.Borrowers.Sessions.{
  BorrowerTokenPair, is_activated, is_active_borrower, may_log_in, pin_accepted, has_device,
  device_for, has_token, token_row, add_token, login_borrower,
}

pub record HttpAuthorizationCredentials : Type 0 where
  pub scheme : Text
  pub credentials : Text

-- "bearer"
abbrev pub bearer : Text
bearer = 98 ∷ 101 ∷ 97 ∷ 114 ∷ 101 ∷ 114 ∷ []

-- Every failure is the same 401; `str.lower` is a parameter.
unfoldable pub get_current_borrower_account :
    Crypto
    → (lower : Text → Text) → (now : ℕ) → Option HttpAuthorizationCredentials
    → Store
    → Result (BorrowerAccount × Borrower)
unfolding decode_borrower_access_token
get_current_borrower_account crypto lower now credentials s = do
  given ← expect auth_failed credentials
  raise_if (not (text_eq (lower given.scheme) bearer)) auth_failed
  payload ← decode_borrower_access_token crypto now given.credentials
  borrower_id ← expect auth_failed payload.borrower_id
  account ←
      expect auth_failed
        (first_row (λ (a : BorrowerAccount). a.id == payload.subject) s.people.borrower_accounts)
  borrower ←
      expect auth_failed (first_row (λ (b : Borrower). b.id == borrower_id) s.people.borrowers)
  raise_if
      (not (
        is_activated account.account_status
        && (account.borrower_id == borrower_id)
        && is_active_borrower borrower.status))
      auth_failed
  ok (account, borrower)

device_for-people :
    (known : Option BorrowerDevice) (account_id : ℕ) (hash platform : Text) (now : ℕ) (s : Store)
    → (s.people.borrower_accounts
        ≡ (device_for known account_id hash platform now s).1.people.borrower_accounts)
      × (s.people.borrowers ≡ (device_for known account_id hash platform now s).1.people.borrowers)
device_for-people none account_id hash platform now s = (refl, refl)
device_for-people (some d) account_id hash platform now s = (refl, refl)

add_token-people :
    (t : BorrowerRefreshToken) (s : Store) {s' : Store}
    → add_token t s ≡ ok s'
    → (s.people.borrower_accounts ≡ s'.people.borrower_accounts)
      × (s.people.borrowers ≡ s'.people.borrowers)
unfolding add_token
add_token-people t s h =
    let (fresh, added) =
      raise_if-eq_ok (exists (has_token t.token_hash) s.people.borrower_tokens) integrity_error _
        h in
    let same = ok_injective added in
    (ap (λ q. q.people.borrower_accounts) same, ap (λ q. q.people.borrowers) same)

-- What a login that succeeded tells.
pub record IsLogin (crypto : Crypto) (config : Settings) (phone : Text) (jti now : ℕ) (s : Store)
    (pair : BorrowerTokenPair) (s' : Store) : Type 0 where
  pub account : BorrowerAccount
  pub found : first_row (has_phone phone) s.people.borrower_accounts ≡ some account
  pub accepted :
      may_log_in
        (first_row (λ (b : Borrower). b.id == account.borrower_id) s.people.borrowers)
        account
      ≡ true
  pub token :
      create_borrower_access_token crypto config account.id account.borrower_id jti now
      ≡ pair.access_token
  pub accounts : s.people.borrower_accounts ≡ s'.people.borrower_accounts
  pub borrowers : s.people.borrowers ≡ s'.people.borrowers

pub login_borrower-IsLogin :
    (crypto : Crypto) (config : Settings) (phone pin device platform raw : Text) (jti now : ℕ)
    (s : Store) {pair : BorrowerTokenPair} {s' : Store}
    → login_borrower crypto config phone pin device platform raw jti now s ≡ ok (pair, s')
    → IsLogin crypto config phone jti now s pair s'
unfolding login_borrower
login_borrower-IsLogin crypto config phone pin device platform raw jti now s {s' = s'} h =
    let hash = crypto.device_hash device in
    let owner : BorrowerAccount → Option Borrower =
      λ a. first_row (λ (b : Borrower). b.id == a.borrower_id) s.people.borrowers in
    let allowed : BorrowerAccount → Bool =
      λ a. may_log_in (owner a) a && pin_accepted crypto pin a.pin_hash in
    let stored : BorrowerAccount → BorrowerDevice × Store = λ a.
      device_for (first_row (has_device a.id hash) s.people.devices) a.id hash platform now s in
    let row : BorrowerAccount → BorrowerRefreshToken = λ a.
      token_row (stored a).1.next_id a.id (stored a).0.id (crypto.token_hash raw)
        (now + days config.borrower_refresh_token_days) in
    let finish : BorrowerAccount → Store → Result (BorrowerTokenPair × Store) = λ a q. ok (
      record {
        access_token = create_borrower_access_token crypto config a.id a.borrower_id jti now;
        refresh_token = raw;
      },
      q,
    ) in
    let insert : BorrowerAccount → Result (BorrowerTokenPair × Store) =
      λ a. add_token (row a) (stored a).1 >>= finish a in
    let (a, ea, h1) =
      >>=-eq-ok (expect auth_failed (first_row (has_phone phone) s.people.borrower_accounts))
        (λ a. raise_if (not (allowed a)) auth_failed >> insert a) h in
    let (passed, h2) = raise_if-eq_ok (not (allowed a)) auth_failed (insert a) h1 in
    let (q, eq, h3) = >>=-eq-ok (add_token (row a) (stored a).1) (finish a) h2 in
    let same = ok_injective h3 in
    let before =
      device_for-people (first_row (has_device a.id hash) s.people.devices) a.id hash platform now
        s in
    let after = add_token-people (row a) (stored a).1 eq in
    record {
      account = a;
      found = expect-eq_ok auth_failed _ ea;
      accepted = and_left (may_log_in (owner a) a) _ (not-false (allowed a) passed);
      token = ap (λ r. r.0.access_token) same;
      accounts = before.0 ∙ after.0 ∙ ap (λ r. r.1.people.borrower_accounts) same;
      borrowers = before.1 ∙ after.1 ∙ ap (λ r. r.1.people.borrowers) same;
    }

-- A request with the access token of a login, sent as a bearer token from the login until the token
-- expires, stands for the account and the borrower of the phone number that logged in, when the
-- account is the one of its identifier.
pub login_borrower-get_current_borrower_account :
    (crypto : Crypto) (config : Settings) (lower : Text → Text)
    (phone pin device platform raw : Text) (jti at later : ℕ) (s : Store) {pair : BorrowerTokenPair}
    {s' : Store} (account : BorrowerAccount) (borrower : Borrower) (scheme : Text)
    → login_borrower crypto config phone pin device platform raw jti at s ≡ ok (pair, s')
    → first_row (has_phone phone) s.people.borrower_accounts ≡ some account
    → first_row (λ (a : BorrowerAccount). a.id == account.id) s.people.borrower_accounts
      ≡ some account
    → first_row (λ (b : Borrower). b.id == account.borrower_id) s.people.borrowers ≡ some borrower
    → text_eq (lower scheme) bearer ≡ true
    → at ≤ later
    → later < at + minutes config.borrower_access_token_minutes
    → get_current_borrower_account crypto lower later
        (some (record { scheme = scheme; credentials = pair.access_token.value }))
        s'
      ≡ ok (account, borrower)
unfolding get_current_borrower_account decode_borrower_access_token create_borrower_access_token
login_borrower-get_current_borrower_account crypto config lower phone pin device platform raw jti at
      later s {pair = pair} {s' = s'} account borrower scheme h by_phone by_id owner is_bearer
      issued live =
    let l = login_borrower-IsLogin crypto config phone pin device platform raw jti at s h in
    let same : l.account ≡ account = some_injective (sym l.found ∙ by_phone) in
    let accepted : (is_activated account.account_status && is_active_borrower borrower.status)
        ≡ true =
      subst (λ o. may_log_in o account ≡ true) owner
        (subst
          (λ a.
            may_log_in (first_row (λ (b : Borrower). b.id == a.borrower_id) s.people.borrowers) a
            ≡ true)
          same l.accepted) in
    let claims : Claims = record {
      subject = account.id;
      borrower_id = some account.borrower_id;
      token_type = borrower_access;
      issued_at = at;
      expires_at = at + minutes config.borrower_access_token_minutes;
      jti = jti;
    } in
    let value : crypto.encode claims ≡ pair.access_token.value =
      subst
        (λ a.
          (create_borrower_access_token crypto config a.id a.borrower_id jti at).value
          ≡ pair.access_token.value)
        same (ap (λ t. t.value) l.token) in
    let account_here =
      subst (λ rows. first_row (λ (a : BorrowerAccount). a.id == account.id) rows ≡ some account)
        l.accounts by_id in
    let borrower_here =
      subst (λ rows. first_row (λ (b : Borrower). b.id == account.borrower_id) rows ≡ some borrower)
        l.borrowers owner in
    subst
      (λ t.
        get_current_borrower_account crypto lower later
          (some (record { scheme = scheme; credentials = t })) s'
        ≡ ok (account, borrower))
      value
      (rw
        (
          is_bearer,
          crypto.decodes later claims issued live,
          account_here,
          borrower_here,
          and_left (is_activated account.account_status) _ accepted,
          ==_refl account.borrower_id,
          and_right (is_activated account.account_status) _ accepted,
        )
        refl)
