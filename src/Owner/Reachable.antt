-- ===== src/Owner/Reachable.antt =====
-- The databases that the owner's service leads to: backend/app/features/owner_identity/service.py.
use nelson_lending_v.Prelude.{
  ℕ, ◌≤◌, ◌≡◌, refl, sym, ap, Bool, ◌==◌, List, [], ◌∷◌, length, length-append, arith,
}
use nelson_lending_v.Prelude.Result.{ok}
use nelson_lending_v.Crypto.{Crypto, Settings}
use nelson_lending_v.Store.{Store, empty_store}
use nelson_lending_v.Store.Persons.{OwnerUser}
use nelson_lending_v.Store.Rows.{Text}
use nelson_lending_v.Store.Table.{update}
use nelson_lending_v.Owner.{
  TokenPair, owner_of, logged_in, normalize_username, bootstrap_owner, login_owner,
  refresh_owner_session, logout_owner,
}
use nelson_lending_v.Owner.Bootstrap.{bootstrap_owner-IsBootstrap}
use nelson_lending_v.Owner.Rotation.{
  login_owner-IsNewSession, refresh_owner_session-IsRefresh, logout_owner-IsLogout,
}

length-update :
    {A : Type 0} (p : A → Bool) (f : A → A) (xs : List A) → length (update p f xs) ≡ length xs
length-update p f [] = refl
length-update p f (x ∷ xs) = omega (arith, length-update p f xs)

-- The calls of the service on one database, each of which returned.
pub data Call (crypto : Crypto) (config : Settings) (lower : Text → Text)
    : Store → Store → Type 0 where
  bootstrapped :
      {s s' : Store} (username password : Text) (salt : ℕ) {o : OwnerUser}
      → bootstrap_owner crypto lower username password salt s ≡ ok (o, s')
      → Call crypto config lower s s'
  logged :
      {s s' : Store} (username password raw : Text) (jti now : ℕ) {pair : TokenPair}
      → login_owner crypto config lower username password raw jti now s ≡ ok (pair, s')
      → Call crypto config lower s s'
  refreshed :
      {s s' : Store} (token raw : Text) (jti now : ℕ) {pair : TokenPair}
      → refresh_owner_session crypto config token raw jti now s ≡ ok (pair, s')
      → Call crypto config lower s s'
  left :
      {s s' : Store} (token : Text) (now : ℕ)
      → logout_owner crypto config token now s ≡ ok s'
      → Call crypto config lower s s'

-- The databases that calls lead to from one without rows.
pub data Reachable (crypto : Crypto) (config : Settings) (lower : Text → Text)
    : Store → Type 0 where
  start : (n : ℕ) → Reachable crypto config lower (empty_store n)
  call :
      {s s' : Store}
      → Reachable crypto config lower s
      → Call crypto config lower s s'
      → Reachable crypto config lower s'

module _ (crypto : Crypto) (config : Settings) (lower : Text → Text) where
  Call-length :
      {s s' : Store}
      → Call crypto config lower s s'
      → length s.people.owners ≤ 1
      → length s'.people.owners ≤ 1
  Call-length {s = s} (bootstrapped username password salt h) v =
      let b = bootstrap_owner-IsBootstrap crypto lower username password salt s h in
      let owner =
        owner_of s.next_id (normalize_username lower username) (crypto.secret_hash salt password) in
      omega (
        arith,
        b.nobody,
        sym (ap (λ q. length q.people.owners) b.stored),
        length-append s.people.owners (owner ∷ []),
      )
  Call-length {s = s} (logged username password raw jti now h) v =
      let n = login_owner-IsNewSession crypto config lower username password raw jti now s h in
      omega (
        arith,
        ap (λ q. length q.people.owners) n.stored,
        length-update (λ (x : OwnerUser). x.id == n.owner.id) (λ x. logged_in now n.owner)
            s.people.owners,
      )
  Call-length {s = s} (refreshed token raw jti now h) v = omega (
    arith,
    ap (λ q. length q.people.owners)
        (refresh_owner_session-IsRefresh crypto config token raw jti now s h).stored,
  )
  Call-length {s = s} (left token now h) v = omega (
    arith,
    ap (λ q. length q.people.owners) (logout_owner-IsLogout crypto config token now s h).stored,
  )

  -- A database that the calls of the service lead to from one without rows has at most one owner.
  pub Reachable-length : (s : Store) → Reachable crypto config lower s → length s.people.owners ≤ 1
  Reachable-length s (start n) = omega arith
  Reachable-length s (call {s = earlier} before step) =
      Call-length step (Reachable-length earlier before)
