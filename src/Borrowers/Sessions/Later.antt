-- ===== src/Borrowers/Sessions/Later.antt =====
-- A refresh token is used once, whatever happens later: backend/app/features/borrowers/auth_service.py.
use mathlib.Core.Path.{subst}
use nelson_lending_v.Prelude.{ℕ, ◌≤◌, ◌≡◌, refl, arith, Bool, ◌++◌, [], ◌∷◌}
use nelson_lending_v.Prelude.Result.{ok, err, auth_failed}
use nelson_lending_v.Crypto.{Crypto, Settings}
use nelson_lending_v.Store.{Store}
use nelson_lending_v.Store.Keys.{
  IsTable, IsTable-snoc, IsTable-save, IsTable-mono, IsSpent, IsSpent-snoc, IsSpent-save,
  IsSpent-start,
}
use nelson_lending_v.Store.Persons.{BorrowerRefreshToken}
use nelson_lending_v.Store.Query.{first_row-append}
use nelson_lending_v.Store.Rows.{Text}
use nelson_lending_v.Store.Table.{is_some}
use nelson_lending_v.Borrowers.Sessions.{
  BorrowerTokenPair, has_token, rotated, revoked, current_token, login_borrower,
  refresh_borrower_session, logout_borrower,
}
use nelson_lending_v.Borrowers.Sessions.Rotation.{
  IsNewSession, login_borrower-IsNewSession, IsRefresh, refresh_borrower_session-IsRefresh,
  IsLogout, logout_borrower-IsLogout,
}

abbrev token_id : BorrowerRefreshToken → ℕ
token_id t = t.id

abbrev hash_of : BorrowerRefreshToken → Text
hash_of t = t.token_hash

abbrev is_revoked : BorrowerRefreshToken → Bool
is_revoked t = is_some t.revoked_at

-- The primary keys of the tokens are distinct, and the next identifier is new.
abbrev pub IsTokenTable : Store → Type 0
IsTokenTable s = IsTable token_id hash_of is_revoked s.next_id s.people.borrower_tokens

abbrev IsRevoked : Text → Store → Type 0
IsRevoked hash s = IsSpent token_id hash_of is_revoked hash s.people.borrower_tokens

-- One call on the database: of this service, with whatever arguments, or of another one, which
-- leaves the refresh tokens alone.
pub data Call (crypto : Crypto) (config : Settings) : Store → Store → Type 0 where
  logged :
      {s s' : Store} (phone pin device platform raw : Text) (jti now : ℕ) {pair : BorrowerTokenPair}
      → login_borrower crypto config phone pin device platform raw jti now s ≡ ok (pair, s')
      → Call crypto config s s'
  refreshed :
      {s s' : Store} (token device raw : Text) (jti now : ℕ) {pair : BorrowerTokenPair}
      → refresh_borrower_session crypto config token device raw jti now s ≡ ok (pair, s')
      → Call crypto config s s'
  left :
      {s s' : Store} (token : Text) (now : ℕ)
      → logout_borrower crypto config token now s ≡ ok s'
      → Call crypto config s s'
  elsewhere :
      {s s' : Store}
      → s.people.borrower_tokens ≡ s'.people.borrower_tokens
      → s.next_id ≤ s'.next_id
      → Call crypto config s s'

-- Any number of calls.
pub data Later (crypto : Crypto) (config : Settings) (s : Store) : Store → Type 0 where
  here : Later crypto config s s
  next : {t u : Store} → Later crypto config s t → Call crypto config t u → Later crypto config s u

-- Both facts of a database.
abbrev IsClosed : Text → Store → Type 0
IsClosed hash s = IsTokenTable s × IsRevoked hash s

module _ (crypto : Crypto) (config : Settings) where
  refresh_appended :
      (token : Text) (now : ℕ) (s s' : Store) (r : IsRefresh crypto config token now s s')
      → IsTokenTable s
      → IsTable token_id hash_of is_revoked s'.next_id (s.people.borrower_tokens ++ (r.row ∷ []))
  refresh_appended token now s s' r t =
      IsTable-snoc token_id hash_of is_revoked s.next_id s'.next_id s.people.borrower_tokens r.row t
        (omega (arith, r.fresh_id)) (omega (arith, r.fresh_id, r.next))

  refresh-IsTokenTable :
      (token : Text) (now : ℕ) (s s' : Store)
      → IsRefresh crypto config token now s s'
      → IsTokenTable s
      → IsTokenTable s'
  refresh-IsTokenTable token now s s' r t =
      subst (IsTable token_id hash_of is_revoked s'.next_id) r.tokens (
        IsTable-save token_id hash_of is_revoked s'.next_id (rotated now s.next_id r.current)
          (s.people.borrower_tokens ++ (r.row ∷ [])) (refresh_appended token now s s' r t))

  refresh-IsRevoked :
      (hash token : Text) (now : ℕ) (s s' : Store)
      → IsRefresh crypto config token now s s'
      → IsClosed hash s
      → IsRevoked hash s'
  refresh-IsRevoked hash token now s s' r v =
      subst (IsSpent token_id hash_of is_revoked hash) r.tokens (
        IsSpent-save token_id hash_of is_revoked s'.next_id hash
          (has_token (crypto.token_hash token)) (rotated now s.next_id r.current)
          (s.people.borrower_tokens ++ (r.row ∷ [])) (refresh_appended token now s s' r v.0)
          (first_row-append (has_token (crypto.token_hash token)) s.people.borrower_tokens
            (r.row ∷ []) r.found)
          refl refl refl
          (IsSpent-snoc token_id hash_of is_revoked hash s.people.borrower_tokens r.row v.1))

  -- The refreshed token itself is revoked.
  refresh-IsClosed :
      (token : Text) (now : ℕ) (s s' : Store)
      → IsRefresh crypto config token now s s'
      → IsTokenTable s
      → IsClosed (crypto.token_hash token) s'
  refresh-IsClosed token now s s' r t = (
    refresh-IsTokenTable token now s s' r t,
    subst (IsSpent token_id hash_of is_revoked (crypto.token_hash token)) r.tokens (
        IsSpent-start token_id hash_of is_revoked (crypto.token_hash token)
          (rotated now s.next_id r.current) (s.people.borrower_tokens ++ (r.row ∷ []))
          (first_row-append (has_token (crypto.token_hash token)) s.people.borrower_tokens
            (r.row ∷ []) r.found)
          refl refl refl),
  )

  login-IsClosed :
      (hash : Text) (s s' : Store)
      → IsNewSession crypto config s s'
      → IsClosed hash s
      → IsClosed hash s'
  login-IsClosed hash s s' r v = (
    subst (IsTable token_id hash_of is_revoked s'.next_id) r.tokens (
        IsTable-snoc token_id hash_of is_revoked s.next_id s'.next_id s.people.borrower_tokens r.row
          v.0 r.fresh_id r.next),
    subst (IsSpent token_id hash_of is_revoked hash) r.tokens
        (IsSpent-snoc token_id hash_of is_revoked hash s.people.borrower_tokens r.row v.1),
  )

  logout-IsTokenTable :
      (token : Text) (now : ℕ) (s s' : Store)
      → IsLogout crypto config token now s s'
      → IsTokenTable s
      → IsTokenTable s'
  logout-IsTokenTable token now s s' r t = subst IsTokenTable r.stored (
      IsTable-save token_id hash_of is_revoked s.next_id (revoked now r.current)
        s.people.borrower_tokens t)

  logout-IsClosed :
      (hash token : Text) (now : ℕ) (s s' : Store)
      → IsLogout crypto config token now s s'
      → IsClosed hash s
      → IsClosed hash s'
  logout-IsClosed hash token now s s' r v = (
    logout-IsTokenTable token now s s' r v.0,
    subst (IsRevoked hash) r.stored (
        IsSpent-save token_id hash_of is_revoked s.next_id hash
          (has_token (crypto.token_hash token)) (revoked now r.current) s.people.borrower_tokens v.0
          r.found refl refl refl v.1),
  )

  logout_start :
      (token : Text) (now : ℕ) (s s' : Store)
      → IsLogout crypto config token now s s'
      → IsTokenTable s
      → IsClosed (crypto.token_hash token) s'
  logout_start token now s s' r t = (
    logout-IsTokenTable token now s s' r t,
    subst (IsRevoked (crypto.token_hash token)) r.stored (
        IsSpent-start token_id hash_of is_revoked (crypto.token_hash token) (revoked now r.current)
          s.people.borrower_tokens r.found refl refl refl),
  )

  Call-IsClosed :
      (hash : Text) {s s' : Store} → Call crypto config s s' → IsClosed hash s → IsClosed hash s'
  Call-IsClosed hash {s = s} {s' = s'} (logged phone pin device platform raw jti now h) v =
      login-IsClosed hash s s'
        (login_borrower-IsNewSession crypto config phone pin device platform raw jti now s h) v
  Call-IsClosed hash {s = s} {s' = s'} (refreshed token device raw jti now h) v =
      let r = refresh_borrower_session-IsRefresh crypto config token device raw jti now s h in
      (refresh-IsTokenTable token now s s' r v.0, refresh-IsRevoked hash token now s s' r v)
  Call-IsClosed hash {s = s} {s' = s'} (left token now h) v =
      logout-IsClosed hash token now s s' (logout_borrower-IsLogout crypto config token now s h) v
  Call-IsClosed hash {s = s} {s' = s'} (elsewhere same grown) v = (
    subst (IsTable token_id hash_of is_revoked s'.next_id) same (
        IsTable-mono token_id hash_of is_revoked s.next_id s'.next_id s.people.borrower_tokens grown
          v.0),
    subst (IsSpent token_id hash_of is_revoked hash) same v.1,
  )

  Later-IsClosed :
      (hash : Text) {s s' : Store} → IsClosed hash s → Later crypto config s s' → IsClosed hash s'
  Later-IsClosed hash v here = v
  Later-IsClosed hash v (next earlier call) =
      Call-IsClosed hash call (Later-IsClosed hash v earlier)

  -- The service refuses a revoked token.
  IsRevoked-refused :
      (token : Text) (s : Store)
      → IsRevoked (crypto.token_hash token) s
      → (device raw : Text) (jti now : ℕ)
      → (refresh_borrower_session crypto config token device raw jti now s ≡ err auth_failed)
        × (logout_borrower crypto config token now s ≡ err auth_failed)
  unfolding current_token refresh_borrower_session logout_borrower
  IsRevoked-refused token s (c, found, spent) device raw jti now =
      (rw (found, spent) refl, rw (found, spent) refl)

  -- Once a refresh of a token has succeeded on a database whose token rows have distinct keys below
  -- the next one, a refresh and a logout with the same token fail to authenticate in every database
  -- that later logins, refreshes, logouts and calls that do not touch the tokens lead to, from
  -- whatever device and at whatever time.
  pub refresh_borrower_session-rotates :
      (token device raw : Text) (jti now : ℕ) (s : Store) {pair : BorrowerTokenPair}
      {s' s'' : Store}
      → IsTokenTable s
      → refresh_borrower_session crypto config token device raw jti now s ≡ ok (pair, s')
      → Later crypto config s' s''
      → (device' raw' : Text) (jti' now' : ℕ)
      → (refresh_borrower_session crypto config token device' raw' jti' now' s'' ≡ err auth_failed)
        × (logout_borrower crypto config token now' s'' ≡ err auth_failed)
  refresh_borrower_session-rotates token device raw jti now s {s' = s'} {s'' = s''} t h later =
      let r = refresh_borrower_session-IsRefresh crypto config token device raw jti now s h in
      IsRevoked-refused token s''
        (Later-IsClosed (crypto.token_hash token) (refresh-IsClosed token now s s' r t) later).1

  -- So does a logout.
  logout_borrower-final :
      (token : Text) (now : ℕ) (s : Store) {s' s'' : Store}
      → IsTokenTable s
      → logout_borrower crypto config token now s ≡ ok s'
      → Later crypto config s' s''
      → (device' raw' : Text) (jti' now' : ℕ)
      → (refresh_borrower_session crypto config token device' raw' jti' now' s'' ≡ err auth_failed)
        × (logout_borrower crypto config token now' s'' ≡ err auth_failed)
  logout_borrower-final token now s {s' = s'} {s'' = s''} t h later =
      let r = logout_borrower-IsLogout crypto config token now s h in
      IsRevoked-refused token s''
        (Later-IsClosed (crypto.token_hash token) (logout_start token now s s' r t) later).1
