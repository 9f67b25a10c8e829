-- ===== src/Owner/Rotation.antt =====
-- What the calls on the owner's refresh tokens write: backend/app/features/owner_identity/service.py.
use mathlib.Core.Path.{subst}
use nelson_lending_v.Prelude.{ℕ, ◌+◌, ◌≡◌, refl, ap, sym, ◌∙◌, Bool, not, ◌||◌, some}
use nelson_lending_v.Prelude.Result.{
  Result, ok, raise_if, ◌>>=◌, ◌>>◌, >>=-eq-ok, raise_if-eq_ok, ok_injective, integrity_error,
  auth_failed,
}
use nelson_lending_v.Crypto.{Crypto, Settings, create_owner_access_token, days}
use nelson_lending_v.Store.{Store}
use nelson_lending_v.Store.Persons.{OwnerUser, OwnerRefreshToken}
use nelson_lending_v.Store.Query.{expect, expect-eq_ok, first_row, exists}
use nelson_lending_v.Store.Rows.{Text}
use nelson_lending_v.Owner.{
  TokenPair, has_username, normalize_username, save_owner, logged_in, login_owner, has_token,
  token_row, with_token, add_token, save_token, is_spent, rotated, revoked, current_token,
  token_owner, refresh_owner_session, logout_owner,
}

module _ (crypto : Crypto) (config : Settings) where
  -- The row that `current_token` returns.
  current_token-found :
      (token : Text) (now : ℕ) (s : Store) {c : OwnerRefreshToken}
      → current_token crypto config token now s ≡ ok c
      → first_row (has_token (crypto.token_hash token)) s.people.owner_tokens ≡ some c
  unfolding current_token
  current_token-found token now s h =
      let row = first_row (has_token (crypto.token_hash token)) s.people.owner_tokens in
      let (t, found, h1) =
        >>=-eq-ok (expect auth_failed row) (λ t. raise_if (is_spent now t) auth_failed >> ok t) h in
      subst (λ x. row ≡ some x)
        (ok_injective (raise_if-eq_ok (is_spent now t) auth_failed (ok t) h1).1)
        (expect-eq_ok auth_failed _ found)

  -- What a login that succeeded wrote.
  pub record IsNewSession (now : ℕ) (s s' : Store) : Type 0 where
    pub owner : OwnerUser
    pub row : OwnerRefreshToken
    pub fresh_id : row.id ≡ s.next_id
    pub stored : with_token row (save_owner (logged_in now owner) s) ≡ s'

  pub login_owner-IsNewSession :
      (lower : Text → Text) (username password raw : Text) (jti now : ℕ) (s : Store)
      {pair : TokenPair} {s' : Store}
      → login_owner crypto config lower username password raw jti now s ≡ ok (pair, s')
      → IsNewSession now s s'
  unfolding login_owner add_token
  login_owner-IsNewSession lower username password raw jti now s h =
      let row : OwnerUser → OwnerRefreshToken = λ o.
        token_row s.next_id o.id (crypto.token_hash raw)
          (now + days config.owner_refresh_token_days) in
      let finish : OwnerUser → Store → Result (TokenPair × Store) = λ o q. ok (
        record {
          access_token = create_owner_access_token crypto config o.id jti now;
          refresh_token = raw;
        },
        q,
      ) in
      let insert : OwnerUser → Result (TokenPair × Store) =
        λ o. add_token (row o) (save_owner (logged_in now o) s) >>= finish o in
      let check : OwnerUser → Bool =
        λ o. not o.is_active || not (crypto.verify o.password_hash password) in
      let (o, eo, h1) =
        >>=-eq-ok
          (expect auth_failed
            (first_row (has_username (normalize_username lower username)) s.people.owners))
          (λ o. raise_if (check o) auth_failed >> insert o) h in
      let (accepted, h2) = raise_if-eq_ok (check o) auth_failed (insert o) h1 in
      let (q, eq, h3) =
        >>=-eq-ok (add_token (row o) (save_owner (logged_in now o) s)) (finish o) h2 in
      let (fresh, added) =
        raise_if-eq_ok (exists (has_token (crypto.token_hash raw)) s.people.owner_tokens)
          integrity_error (ok (with_token (row o) (save_owner (logged_in now o) s))) eq in
      record {
        owner = o;
        row = row o;
        fresh_id = refl;
        stored = ok_injective added ∙ ap (λ r. r.1) (ok_injective h3);
      }

  -- What a refresh that succeeded wrote.
  pub record IsRefresh (token raw : Text) (now : ℕ) (s s' : Store) : Type 0 where
    pub current : OwnerRefreshToken
    pub found : first_row (has_token (crypto.token_hash token)) s.people.owner_tokens ≡ some current
    pub owner_id : ℕ
    pub stored :
        save_token (rotated now s.next_id current) (
          with_token
            (token_row s.next_id owner_id
              (crypto.token_hash raw)
              (now + days config.owner_refresh_token_days))
            s)
        ≡ s'

  pub refresh_owner_session-IsRefresh :
      (token raw : Text) (jti now : ℕ) (s : Store) {pair : TokenPair} {s' : Store}
      → refresh_owner_session crypto config token raw jti now s ≡ ok (pair, s')
      → IsRefresh token raw now s s'
  unfolding refresh_owner_session add_token
  refresh_owner_session-IsRefresh token raw jti now s {s' = s'} h =
      let row : OwnerUser → OwnerRefreshToken = λ o.
        token_row s.next_id o.id (crypto.token_hash raw)
          (now + days config.owner_refresh_token_days) in
      let finish : OwnerRefreshToken → OwnerUser → Store → Result (TokenPair × Store) = λ c o q.
        ok (
          record {
            access_token = create_owner_access_token crypto config o.id jti now;
            refresh_token = raw;
          },
          save_token (rotated now s.next_id c) q,
        ) in
      let with_owner : OwnerRefreshToken → OwnerUser → Result (TokenPair × Store) =
        λ c o. add_token (row o) s >>= finish c o in
      let (current, ec, h1) =
        >>=-eq-ok (current_token crypto config token now s)
          (λ c. token_owner crypto config c s >>= with_owner c) h in
      let (owner, eo, h2) =
        >>=-eq-ok (token_owner crypto config current s) (with_owner current) h1 in
      let (q, eq, h3) = >>=-eq-ok (add_token (row owner) s) (finish current owner) h2 in
      let (fresh, added) =
        raise_if-eq_ok (exists (has_token (crypto.token_hash raw)) s.people.owner_tokens)
          integrity_error (ok (with_token (row owner) s)) eq in
      record {
        current = current;
        found = current_token-found token now s ec;
        owner_id = owner.id;
        stored =
            subst (λ p. save_token (rotated now s.next_id current) p ≡ s')
              (sym (ok_injective added)) (ap (λ r. r.1) (ok_injective h3));
      }

  -- What a logout that succeeded wrote.
  pub record IsLogout (token : Text) (now : ℕ) (s s' : Store) : Type 0 where
    pub current : OwnerRefreshToken
    pub found : first_row (has_token (crypto.token_hash token)) s.people.owner_tokens ≡ some current
    pub stored : save_token (revoked now current) s ≡ s'

  pub logout_owner-IsLogout :
      (token : Text) (now : ℕ) (s : Store) {s' : Store}
      → logout_owner crypto config token now s ≡ ok s'
      → IsLogout token now s s'
  unfolding logout_owner
  logout_owner-IsLogout token now s h =
      let (current, ec, h1) =
        >>=-eq-ok (current_token crypto config token now s) (λ c. ok (save_token (revoked now c) s))
          h in
      record {
        current = current;
        found = current_token-found token now s ec;
        stored = ok_injective h1;
      }
