-- ===== src/Borrowers/Sessions/Rotation.antt =====
-- What the calls on refresh tokens write: backend/app/features/borrowers/auth_service.py.
use mathlib.Core.Path.{subst}
use nelson_lending_v.Prelude.{
  ℕ, ◌+◌, ◌≤◌, ◌<◌, ◌≡◌, refl, sym, ap, ◌∙◌, arith, Bool, not, ◌&&◌, ◌==◌, Option, none, some, ◌++◌,
  [], ◌∷◌,
}
use nelson_lending_v.Prelude.Result.{
  Result, ok, raise_if, ◌>>=◌, ◌>>◌, >>=-eq-ok, raise_if-eq_ok, ok_injective, integrity_error,
  auth_failed,
}
use nelson_lending_v.Crypto.{Crypto, Settings, create_borrower_access_token, days}
use nelson_lending_v.Store.{Store}
use nelson_lending_v.Store.Persons.{Borrower, BorrowerAccount, BorrowerDevice, BorrowerRefreshToken}
use nelson_lending_v.Store.Query.{expect, expect-eq_ok, first_row, exists}
use nelson_lending_v.Store.Rows.{Text}
use nelson_lending_v.Store.Table.{update}
use nelson_lending_v.Borrowers.Activation.{has_phone}
use nelson_lending_v.Borrowers.Sessions.{
  BorrowerTokenPair, may_log_in, pin_accepted, has_device, device_for, login_borrower, has_token,
  token_row, add_token, save_device, save_token, is_spent, rotated, revoked, current_token,
  token_owner, refresh_borrower_session, logout_borrower,
}

module _ (crypto : Crypto) (config : Settings) where
  -- The row that `current_token` returns.
  current_token-found :
      (token : Text) (now : ℕ) (s : Store) {c : BorrowerRefreshToken}
      → current_token crypto config token now s ≡ ok c
      → first_row (has_token (crypto.token_hash token)) s.people.borrower_tokens ≡ some c
  unfolding current_token
  current_token-found token now s h =
      let (row, found, h1) =
        >>=-eq-ok
          (expect auth_failed
            (first_row (has_token (crypto.token_hash token)) s.people.borrower_tokens))
          (λ t. raise_if (is_spent now t) auth_failed >> ok t) h in
      subst (λ t. first_row (has_token (crypto.token_hash token)) s.people.borrower_tokens ≡ some t)
        (ok_injective (raise_if-eq_ok (is_spent now row) auth_failed (ok row) h1).1)
        (expect-eq_ok auth_failed _ found)

  -- The insertion takes the next identifiers.
  add_token-tokens :
      (t : BorrowerRefreshToken) (s : Store) {s' : Store}
      → add_token t s ≡ ok s'
      → (s.people.borrower_tokens ++ (t ∷ []) ≡ s'.people.borrower_tokens)
        × (s.next_id + 1 ≡ s'.next_id)
  unfolding add_token
  add_token-tokens t s h =
      let (fresh, added) =
        raise_if-eq_ok (exists (has_token t.token_hash) s.people.borrower_tokens) integrity_error _
          h in
      let same = ok_injective added in
      (ap (λ r. r.people.borrower_tokens) same, ap (λ r. r.next_id) same)

  -- What a login that succeeded wrote among the tokens.
  pub record IsNewSession (s s' : Store) : Type 0 where
    pub row : BorrowerRefreshToken
    pub fresh_id : s.next_id ≤ row.id
    pub tokens : s.people.borrower_tokens ++ (row ∷ []) ≡ s'.people.borrower_tokens
    pub next : row.id < s'.next_id

  device_for-next :
      (known : Option BorrowerDevice) (account_id : ℕ) (hash platform : Text) (now : ℕ) (s : Store)
      → (s.next_id ≤ (device_for known account_id hash platform now s).1.next_id)
        × ((device_for known account_id hash platform now s).1.people.borrower_tokens
            ≡ s.people.borrower_tokens)
  device_for-next none account_id hash platform now s = (omega arith, refl)
  device_for-next (some d) account_id hash platform now s = (omega arith, refl)

  pub login_borrower-IsNewSession :
      (phone pin device platform raw : Text) (jti now : ℕ) (s : Store) {pair : BorrowerTokenPair}
      {s' : Store}
      → login_borrower crypto config phone pin device platform raw jti now s ≡ ok (pair, s')
      → IsNewSession s s'
  unfolding login_borrower
  login_borrower-IsNewSession phone pin device platform raw jti now s {s' = s'} h =
      let hash = crypto.device_hash device in
      let allowed : BorrowerAccount → Bool = λ a.
        may_log_in (first_row (λ (b : Borrower). b.id == a.borrower_id) s.people.borrowers) a
        && pin_accepted crypto pin a.pin_hash in
      let known : BorrowerAccount → Option BorrowerDevice =
        λ a. first_row (has_device a.id hash) s.people.devices in
      let stored : BorrowerAccount → BorrowerDevice × Store =
        λ a. device_for (known a) a.id hash platform now s in
      let row : BorrowerAccount → BorrowerRefreshToken = λ a.
        token_row (stored a).1.next_id a.id (stored a).0.id (crypto.token_hash raw)
          (now + days config.borrower_refresh_token_days) in
      let finish : BorrowerAccount → Store → Result (BorrowerTokenPair × Store) = λ a q. ok (
        record {
          access_token = create_borrower_access_token crypto config a.id a.borrower_id jti now;
          refresh_token = raw;
        },
        q,
      ) in
      let insert : BorrowerAccount → Result (BorrowerTokenPair × Store) =
        λ a. add_token (row a) (stored a).1 >>= finish a in
      let (a, ea, h1) =
        >>=-eq-ok (expect auth_failed (first_row (has_phone phone) s.people.borrower_accounts))
          (λ a. raise_if (not (allowed a)) auth_failed >> insert a) h in
      let (passed, h2) = raise_if-eq_ok (not (allowed a)) auth_failed (insert a) h1 in
      let (q, eq, h3) = >>=-eq-ok (add_token (row a) (stored a).1) (finish a) h2 in
      let (tokens, next) = add_token-tokens (row a) (stored a).1 eq in
      let (grown, kept) = device_for-next (known a) a.id hash platform now s in
      let same = ap (λ r. r.1) (ok_injective h3) in
      record {
        row = row a;
        fresh_id = grown;
        tokens =
            ap (λ ts. ts ++ (row a ∷ [])) (sym kept)
            ∙ tokens
            ∙ ap (λ r. r.people.borrower_tokens) same;
        next = subst (λ r. (row a).id < r.next_id) same (omega (arith, next));
      }

  -- What a refresh that succeeded wrote among the tokens.
  pub record IsRefresh (token : Text) (now : ℕ) (s s' : Store) : Type 0 where
    pub current : BorrowerRefreshToken
    pub found :
        first_row (has_token (crypto.token_hash token)) s.people.borrower_tokens ≡ some current
    pub row : BorrowerRefreshToken
    pub fresh_id : row.id ≡ s.next_id
    pub tokens :
        update
          (λ (x : BorrowerRefreshToken). x.id == current.id)
          (λ x. rotated now s.next_id current)
          (s.people.borrower_tokens ++ (row ∷ []))
        ≡ s'.people.borrower_tokens
    pub next : s.next_id + 1 ≡ s'.next_id

  pub refresh_borrower_session-IsRefresh :
      (token device raw : Text) (jti now : ℕ) (s : Store) {pair : BorrowerTokenPair} {s' : Store}
      → refresh_borrower_session crypto config token device raw jti now s ≡ ok (pair, s')
      → IsRefresh token now s s'
  unfolding refresh_borrower_session
  refresh_borrower_session-IsRefresh token device raw jti now s {s' = s'} h =
      let row : BorrowerAccount × BorrowerDevice → BorrowerRefreshToken = λ holder.
        token_row s.next_id holder.0.id holder.1.id (crypto.token_hash raw)
          (now + days config.borrower_refresh_token_days) in
      let finish : BorrowerRefreshToken
          → BorrowerAccount × BorrowerDevice
          → Store
          → Result (BorrowerTokenPair × Store) =
        λ c holder q. ok (
          record {
            access_token =
                create_borrower_access_token crypto config holder.0.id holder.0.borrower_id jti now;
            refresh_token = raw;
          },
          save_device (record holder.1 { last_seen_at = now })
              (save_token (rotated now s.next_id c) q),
        ) in
      let with_holder : BorrowerRefreshToken
          → BorrowerAccount × BorrowerDevice
          → Result (BorrowerTokenPair × Store) =
        λ c holder. add_token (row holder) s >>= finish c holder in
      let (current, ec, h1) =
        >>=-eq-ok (current_token crypto config token now s)
          (λ c. token_owner crypto config c device s >>= with_holder c) h in
      let (holder, eh, h2) =
        >>=-eq-ok (token_owner crypto config current device s) (with_holder current) h1 in
      let (q, eq, h3) = >>=-eq-ok (add_token (row holder) s) (finish current holder) h2 in
      let (tokens, next) = add_token-tokens (row holder) s eq in
      let same = ap (λ r. r.1) (ok_injective h3) in
      record {
        current = current;
        found = current_token-found token now s ec;
        row = row holder;
        fresh_id = refl;
        tokens =
            ap
              (λ ts.
                update (λ (x : BorrowerRefreshToken). x.id == current.id)
                  (λ x. rotated now s.next_id current) ts)
              tokens
            ∙ ap (λ r. r.people.borrower_tokens) same;
        next = next ∙ ap (λ r. r.next_id) same;
      }

  -- What a logout that succeeded wrote.
  pub record IsLogout (token : Text) (now : ℕ) (s s' : Store) : Type 0 where
    pub current : BorrowerRefreshToken
    pub found :
        first_row (has_token (crypto.token_hash token)) s.people.borrower_tokens ≡ some current
    pub stored : save_token (revoked now current) s ≡ s'

  pub logout_borrower-IsLogout :
      (token : Text) (now : ℕ) (s : Store) {s' : Store}
      → logout_borrower crypto config token now s ≡ ok s'
      → IsLogout token now s s'
  unfolding logout_borrower
  logout_borrower-IsLogout token now s h =
      let (current, ec, h1) =
        >>=-eq-ok (current_token crypto config token now s) (λ c. ok (save_token (revoked now c) s))
          h in
      record {
        current = current;
        found = current_token-found token now s ec;
        stored = ok_injective h1;
      }
