-- ===== src/Owner/Later.antt =====
-- A refresh token of the owner is used once, whatever happens later:
-- backend/app/features/owner_identity/service.py.
use mathlib.Core.Path.{subst}
use nelson_lending_v.Prelude.{ℕ, ◌+◌, ◌≤◌, ◌≡◌, refl, ap, arith, Bool, ◌==◌, some, ◌++◌, [], ◌∷◌}
use nelson_lending_v.Prelude.Result.{ok, err, auth_failed}
use nelson_lending_v.Crypto.{Crypto, Settings, days}
use nelson_lending_v.Store.{Store}
use nelson_lending_v.Store.Keys.{
  IsTable, IsTable-snoc, IsTable-save, IsTable-mono, IsSpent, IsSpent-snoc, IsSpent-save,
  IsSpent-start,
}
use nelson_lending_v.Store.Persons.{OwnerRefreshToken}
use nelson_lending_v.Store.Query.{first_row, first_row-append}
use nelson_lending_v.Store.Rows.{Text}
use nelson_lending_v.Store.Table.{is_some, update}
use nelson_lending_v.Owner.{
  TokenPair, has_token, token_row, rotated, revoked, current_token, refresh_owner_session,
  logout_owner,
}
use nelson_lending_v.Owner.Bootstrap.{bootstrap_owner-IsBootstrap}
use nelson_lending_v.Owner.Reachable.{Call, bootstrapped, logged, refreshed, left}
use nelson_lending_v.Owner.Rotation.{
  IsNewSession, login_owner-IsNewSession, refresh_owner_session-IsRefresh, IsLogout,
  logout_owner-IsLogout,
}

abbrev token_id : OwnerRefreshToken → ℕ
token_id t = t.id

abbrev hash_of : OwnerRefreshToken → Text
hash_of t = t.token_hash

abbrev is_revoked : OwnerRefreshToken → Bool
is_revoked t = is_some t.revoked_at

-- The primary keys of the tokens are distinct, and the next identifier is new.
abbrev pub IsTokenTable : Store → Type 0
IsTokenTable s = IsTable token_id hash_of is_revoked s.next_id s.people.owner_tokens

abbrev IsRevoked : Text → Store → Type 0
IsRevoked hash s = IsSpent token_id hash_of is_revoked hash s.people.owner_tokens

-- Any number of calls of this service, with whatever arguments, and of others, which leave the
-- owner's refresh tokens alone.
pub data Later (crypto : Crypto) (config : Settings) (lower : Text → Text) (s : Store)
    : Store → Type 0 where
  here : Later crypto config lower s s
  next :
      {t u : Store}
      → Later crypto config lower s t
      → Call crypto config lower t u
      → Later crypto config lower s u
  elsewhere :
      {t u : Store}
      → Later crypto config lower s t
      → t.people.owner_tokens ≡ u.people.owner_tokens
      → t.next_id ≤ u.next_id
      → Later crypto config lower s u

-- Both facts of a database.
abbrev IsClosed : Text → Store → Type 0
IsClosed hash s = IsTokenTable s × IsRevoked hash s

module _ (crypto : Crypto) (config : Settings) where
  -- The tokens after a refresh.
  record IsRotation (token : Text) (now : ℕ) (s s' : Store) : Type 0 where
    current : OwnerRefreshToken
    found : first_row (has_token (crypto.token_hash token)) s.people.owner_tokens ≡ some current
    row : OwnerRefreshToken
    fresh_id : row.id ≡ s.next_id
    tokens :
        update
          (λ (x : OwnerRefreshToken). x.id == current.id)
          (λ x. rotated now s.next_id current)
          (s.people.owner_tokens ++ (row ∷ []))
        ≡ s'.people.owner_tokens
    next : s.next_id + 1 ≡ s'.next_id

  refresh_owner_session-IsRotation :
      (token raw : Text) (jti now : ℕ) (s : Store) {pair : TokenPair} {s' : Store}
      → refresh_owner_session crypto config token raw jti now s ≡ ok (pair, s')
      → IsRotation token now s s'
  refresh_owner_session-IsRotation token raw jti now s h =
      let r = refresh_owner_session-IsRefresh crypto config token raw jti now s h in
      record {
        current = r.current;
        found = r.found;
        row =
            token_row s.next_id r.owner_id (crypto.token_hash raw)
              (now + days config.owner_refresh_token_days);
        fresh_id = refl;
        tokens = ap (λ q. q.people.owner_tokens) r.stored;
        next = ap (λ q. q.next_id) r.stored;
      }

  refresh_appended :
      (token : Text) (now : ℕ) (s s' : Store) (r : IsRotation token now s s')
      → IsTokenTable s
      → IsTable token_id hash_of is_revoked s'.next_id (s.people.owner_tokens ++ (r.row ∷ []))
  refresh_appended token now s s' r t =
      IsTable-snoc token_id hash_of is_revoked s.next_id s'.next_id s.people.owner_tokens r.row t
        (omega (arith, r.fresh_id)) (omega (arith, r.fresh_id, r.next))

  refresh-IsTokenTable :
      (token : Text) (now : ℕ) (s s' : Store)
      → IsRotation token now s s'
      → IsTokenTable s
      → IsTokenTable s'
  refresh-IsTokenTable token now s s' r t =
      subst (IsTable token_id hash_of is_revoked s'.next_id) r.tokens (
        IsTable-save token_id hash_of is_revoked s'.next_id (rotated now s.next_id r.current)
          (s.people.owner_tokens ++ (r.row ∷ [])) (refresh_appended token now s s' r t))

  refresh-IsRevoked :
      (hash token : Text) (now : ℕ) (s s' : Store)
      → IsRotation token now s s'
      → IsClosed hash s
      → IsRevoked hash s'
  refresh-IsRevoked hash token now s s' r v =
      subst (IsSpent token_id hash_of is_revoked hash) r.tokens (
        IsSpent-save token_id hash_of is_revoked s'.next_id hash
          (has_token (crypto.token_hash token)) (rotated now s.next_id r.current)
          (s.people.owner_tokens ++ (r.row ∷ [])) (refresh_appended token now s s' r v.0)
          (first_row-append (has_token (crypto.token_hash token)) s.people.owner_tokens (r.row ∷ [])
            r.found)
          refl refl refl
          (IsSpent-snoc token_id hash_of is_revoked hash s.people.owner_tokens r.row v.1))

  -- The refreshed token itself is revoked.
  refresh-IsClosed :
      (token : Text) (now : ℕ) (s s' : Store)
      → IsRotation token now s s'
      → IsTokenTable s
      → IsClosed (crypto.token_hash token) s'
  refresh-IsClosed token now s s' r t = (
    refresh-IsTokenTable token now s s' r t,
    subst (IsSpent token_id hash_of is_revoked (crypto.token_hash token)) r.tokens (
        IsSpent-start token_id hash_of is_revoked (crypto.token_hash token)
          (rotated now s.next_id r.current) (s.people.owner_tokens ++ (r.row ∷ []))
          (first_row-append (has_token (crypto.token_hash token)) s.people.owner_tokens (r.row ∷ [])
            r.found)
          refl refl refl),
  )

  login-IsClosed :
      (hash : Text) (now : ℕ) (s s' : Store)
      → IsNewSession crypto config now s s'
      → IsClosed hash s
      → IsClosed hash s'
  login-IsClosed hash now s s' r v =
      let tokens = ap (λ q. q.people.owner_tokens) r.stored in
      let grown = ap (λ q. q.next_id) r.stored in
      (
        subst (IsTable token_id hash_of is_revoked s'.next_id) tokens (
            IsTable-snoc token_id hash_of is_revoked s.next_id s'.next_id s.people.owner_tokens
              r.row v.0 (omega (arith, r.fresh_id)) (omega (arith, r.fresh_id, grown))),
        subst (IsSpent token_id hash_of is_revoked hash) tokens
            (IsSpent-snoc token_id hash_of is_revoked hash s.people.owner_tokens r.row v.1),
      )

  logout-IsTokenTable :
      (token : Text) (now : ℕ) (s s' : Store)
      → IsLogout crypto config token now s s'
      → IsTokenTable s
      → IsTokenTable s'
  logout-IsTokenTable token now s s' r t = subst IsTokenTable r.stored (
      IsTable-save token_id hash_of is_revoked s.next_id (revoked now r.current)
        s.people.owner_tokens t)

  logout-IsClosed :
      (hash token : Text) (now : ℕ) (s s' : Store)
      → IsLogout crypto config token now s s'
      → IsClosed hash s
      → IsClosed hash s'
  logout-IsClosed hash token now s s' r v = (
    logout-IsTokenTable token now s s' r v.0,
    subst (IsRevoked hash) r.stored (
        IsSpent-save token_id hash_of is_revoked s.next_id hash
          (has_token (crypto.token_hash token)) (revoked now r.current) s.people.owner_tokens v.0
          r.found refl refl refl v.1),
  )

  logout_start :
      (token : Text) (now : ℕ) (s s' : Store)
      → IsLogout crypto config token now s s'
      → IsTokenTable s
      → IsClosed (crypto.token_hash token) s'
  logout_start token now s s' r t = (
    logout-IsTokenTable token now s s' r t,
    subst (IsRevoked (crypto.token_hash token)) r.stored (
        IsSpent-start token_id hash_of is_revoked (crypto.token_hash token) (revoked now r.current)
          s.people.owner_tokens r.found refl refl refl),
  )

  same-IsClosed :
      (hash : Text) (s s' : Store)
      → s.people.owner_tokens ≡ s'.people.owner_tokens
      → s.next_id ≤ s'.next_id
      → IsClosed hash s
      → IsClosed hash s'
  same-IsClosed hash s s' same grown v = (
    subst (IsTable token_id hash_of is_revoked s'.next_id) same (
        IsTable-mono token_id hash_of is_revoked s.next_id s'.next_id s.people.owner_tokens grown
          v.0),
    subst (IsSpent token_id hash_of is_revoked hash) same v.1,
  )

  Call-IsClosed :
      (lower : Text → Text) (hash : Text) {s s' : Store}
      → Call crypto config lower s s'
      → IsClosed hash s
      → IsClosed hash s'
  Call-IsClosed lower hash {s = s} {s' = s'} (bootstrapped username password salt h) v =
      let b = bootstrap_owner-IsBootstrap crypto lower username password salt s h in
      same-IsClosed hash s s' (ap (λ q. q.people.owner_tokens) b.stored)
        (omega (arith, ap (λ (q : Store). q.next_id) b.stored)) v
  Call-IsClosed lower hash {s = s} {s' = s'} (logged username password raw jti now h) v =
      login-IsClosed hash now s s'
        (login_owner-IsNewSession crypto config lower username password raw jti now s h) v
  Call-IsClosed lower hash {s = s} {s' = s'} (refreshed token raw jti now h) v =
      let r = refresh_owner_session-IsRotation token raw jti now s h in
      (refresh-IsTokenTable token now s s' r v.0, refresh-IsRevoked hash token now s s' r v)
  Call-IsClosed lower hash {s = s} {s' = s'} (left token now h) v =
      logout-IsClosed hash token now s s' (logout_owner-IsLogout crypto config token now s h) v

  Later-IsClosed :
      (lower : Text → Text) (hash : Text) {s s' : Store}
      → IsClosed hash s
      → Later crypto config lower s s'
      → IsClosed hash s'
  Later-IsClosed lower hash v here = v
  Later-IsClosed lower hash v (next earlier call) =
      Call-IsClosed lower hash call (Later-IsClosed lower hash v earlier)
  Later-IsClosed lower hash {s' = s'} v (elsewhere {t = t} earlier same grown) =
      same-IsClosed hash t s' same grown (Later-IsClosed lower hash v earlier)

  -- The service refuses a revoked token.
  IsRevoked-refused :
      (token : Text) (s : Store)
      → IsRevoked (crypto.token_hash token) s
      → (raw : Text) (jti now : ℕ)
      → (refresh_owner_session crypto config token raw jti now s ≡ err auth_failed)
        × (logout_owner crypto config token now s ≡ err auth_failed)
  unfolding current_token refresh_owner_session logout_owner
  IsRevoked-refused token s (c, found, spent) raw jti now =
      (rw (found, spent) refl, rw (found, spent) refl)

  -- Once a refresh of a token of the owner has succeeded on a database whose token rows have
  -- distinct keys below the next one, a refresh and a logout with the same token fail to
  -- authenticate in every database that later bootstraps, logins, refreshes, logouts and calls that
  -- do not touch the tokens lead to, at whatever time.
  pub refresh_owner_session-rotates :
      (lower : Text → Text) (token raw : Text) (jti now : ℕ) (s : Store) {pair : TokenPair}
      {s' s'' : Store}
      → IsTokenTable s
      → refresh_owner_session crypto config token raw jti now s ≡ ok (pair, s')
      → Later crypto config lower s' s''
      → (raw' : Text) (jti' now' : ℕ)
      → (refresh_owner_session crypto config token raw' jti' now' s'' ≡ err auth_failed)
        × (logout_owner crypto config token now' s'' ≡ err auth_failed)
  refresh_owner_session-rotates lower token raw jti now s {s' = s'} {s'' = s''} t h later =
      let r = refresh_owner_session-IsRotation token raw jti now s h in
      IsRevoked-refused token s''
        (Later-IsClosed lower (crypto.token_hash token) (refresh-IsClosed token now s s' r t)
          later).1

  -- So does a logout.
  logout_owner-final :
      (lower : Text → Text) (token : Text) (now : ℕ) (s : Store) {s' s'' : Store}
      → IsTokenTable s
      → logout_owner crypto config token now s ≡ ok s'
      → Later crypto config lower s' s''
      → (raw' : Text) (jti' now' : ℕ)
      → (refresh_owner_session crypto config token raw' jti' now' s'' ≡ err auth_failed)
        × (logout_owner crypto config token now' s'' ≡ err auth_failed)
  logout_owner-final lower token now s {s' = s'} {s'' = s''} t h later =
      let r = logout_owner-IsLogout crypto config token now s h in
      IsRevoked-refused token s''
        (Later-IsClosed lower (crypto.token_hash token) (logout_start token now s s' r t) later).1
