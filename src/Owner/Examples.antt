-- ===== src/Owner/Examples.antt =====
-- The owner's bootstrap, login and refresh.
use nelson_lending_v.Prelude.{arith, ◌≤◌, ◌≡◌, refl, [], ◌∷◌, length}
use nelson_lending_v.Prelude.Result.{ok, err, value_or, auth_failed}
use nelson_lending_v.Crypto.Plain.{plain, settings}
use nelson_lending_v.Store.{Store, empty_store}
use nelson_lending_v.Store.Persons.{OwnerUser}
use nelson_lending_v.Store.Rows.{Text}
use nelson_lending_v.Owner.{
  TokenPair, normalize_username, owner_of, bootstrap_owner, login_owner, refresh_owner_session,
  logout_owner,
}
use nelson_lending_v.Owner.Bootstrap.{bootstrap_owner-login_owner}
use nelson_lending_v.Owner.Later.{IsTokenTable, here, next, refresh_owner_session-rotates}
use nelson_lending_v.Owner.Reachable.{
  Reachable, start, call, bootstrapped, logged, refreshed, Reachable-length,
}

abbrev lower : Text → Text
lower t = t

abbrev name : Text
name = 110 ∷ []

-- The name with a space before it.
abbrev spaced : Text
spaced = 32 ∷ name

abbrev password : Text
password = 97 ∷ 98 ∷ 99 ∷ 100 ∷ 101 ∷ 102 ∷ 103 ∷ 104 ∷ 105 ∷ 106 ∷ 107 ∷ 108 ∷ []

abbrev first : OwnerUser × Store
first =
    value_or (bootstrap_owner plain lower name password 5 (empty_store 1))
      (owner_of 0 [] [], empty_store 0)

first_run : bootstrap_owner plain lower name password 5 (empty_store 1) ≡ ok (first.0, first.1)
unfolding bootstrap_owner
first_run = refl

bootstrap_owner-login_owner_example :
    (pair : TokenPair) × (s'' : Store) × (login_owner plain settings lower spaced password
        (1 ∷ [])
        1
        100
        first.1
      ≡ ok (pair, s''))
unfolding bootstrap_owner normalize_username
bootstrap_owner-login_owner_example =
    bootstrap_owner-login_owner plain settings lower name spaced password 5 (empty_store 1) (1 ∷ [])
      1 100 first_run refl refl

abbrev no_pair : TokenPair
no_pair = record { access_token = record { value = []; expires_at = 0 }; refresh_token = [] }

abbrev session : TokenPair × Store
session =
    value_or (login_owner plain settings lower name password (1 ∷ []) 1 100 first.1)
      (no_pair, first.1)

session_run :
    login_owner plain settings lower name password (1 ∷ []) 1 100 first.1
    ≡ ok (session.0, session.1)
unfolding login_owner bootstrap_owner
session_run = refl

abbrev renewed : TokenPair × Store
renewed =
    value_or (refresh_owner_session plain settings (1 ∷ []) (2 ∷ []) 2 200 session.1)
      (no_pair, session.1)

renewed_run :
    refresh_owner_session plain settings (1 ∷ []) (2 ∷ []) 2 200 session.1
    ≡ ok (renewed.0, renewed.1)
unfolding refresh_owner_session login_owner bootstrap_owner
renewed_run = refl

session-IsTokenTable : IsTokenTable session.1
unfolding login_owner bootstrap_owner
session-IsTokenTable = record { below = (omega arith, tt); distinct = (tt, tt) }

-- The replacement is refreshed in turn.
abbrev again : TokenPair × Store
again =
    value_or (refresh_owner_session plain settings (2 ∷ []) (4 ∷ []) 3 250 renewed.1)
      (no_pair, renewed.1)

again_run :
    refresh_owner_session plain settings (2 ∷ []) (4 ∷ []) 3 250 renewed.1 ≡ ok (again.0, again.1)
unfolding refresh_owner_session login_owner bootstrap_owner
again_run = refl

refresh_owner_session-rotates_example :
    (refresh_owner_session plain settings (1 ∷ []) (3 ∷ []) 4 300 again.1 ≡ err auth_failed)
    × (logout_owner plain settings (1 ∷ []) 300 again.1 ≡ err auth_failed)
refresh_owner_session-rotates_example =
    refresh_owner_session-rotates plain settings lower (1 ∷ []) (2 ∷ []) 2 200 session.1
      session-IsTokenTable renewed_run (next here (refreshed (2 ∷ []) (4 ∷ []) 3 250 again_run))
      (3 ∷ []) 4 300

reached : Reachable plain settings lower session.1
reached =
    call (call (start 1) (bootstrapped name password 5 first_run))
      (logged name password (1 ∷ []) 1 100 session_run)

Reachable-length_example : length session.1.people.owners ≤ 1
Reachable-length_example = Reachable-length plain settings lower session.1 reached
