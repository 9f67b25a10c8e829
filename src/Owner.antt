-- ===== src/Owner.antt =====
-- backend/app/features/owner_identity/service.py and `normalize_username` of
-- backend/app/core/security.py: the owner's bootstrap and sessions. The random values are arguments.
pub mod Bootstrap
pub mod Rotation
pub mod Reachable
pub mod Later
pub mod Context
mod Examples
use nelson_lending_v.Prelude.{
  ℕ, ◌+◌, Bool, true, false, not, ◌&&◌, ◌||◌, leb, ◌==◌, if◌then◌else◌, List, [], ◌∷◌, ◌++◌, length,
  Option, none, some,
}
use nelson_lending_v.Prelude.Result.{
  Result, ok, err, raise_if, ◌>>=◌, ◌>>◌, auth_failed, integrity_error, owner_exists,
  username_blank,
}
use nelson_lending_v.Crypto.{
  Crypto, Settings, AccessToken, days, create_owner_access_token, hash_password,
}
use nelson_lending_v.Store.{Store}
use nelson_lending_v.Store.Persons.{OwnerUser, OwnerRefreshToken}
use nelson_lending_v.Store.Query.{expect, first_row, exists}
use nelson_lending_v.Store.Rows.{Text}
use nelson_lending_v.Store.Table.{is_some, text_eq, strip, update}

pub record TokenPair : Type 0 where
  pub access_token : AccessToken
  pub refresh_token : Text

abbrev pub has_username : Text → OwnerUser → Bool
has_username username o = text_eq o.username username

abbrev pub has_token : Text → OwnerRefreshToken → Bool
has_token hash t = text_eq t.token_hash hash

abbrev pub owner_of : ℕ → (username password_hash : Text) → OwnerUser
owner_of id username password_hash = record {
  id = id;
  username = username;
  password_hash = password_hash;
  is_active = true;
  last_login_at = none;
}

-- The new row of `_new_refresh_session`.
abbrev pub token_row : ℕ → (owner_id : ℕ) → (hash : Text) → (expires_at : ℕ) → OwnerRefreshToken
token_row id owner_id hash expires_at = record {
  id = id;
  owner_user_id = owner_id;
  token_hash = hash;
  expires_at = expires_at;
  revoked_at = none;
  rotated_to_token_id = none;
}

abbrev pub with_token : OwnerRefreshToken → Store → Store
with_token t s = record s {
  next_id = s.next_id + 1;
  people = record s.people { owner_tokens = s.people.owner_tokens ++ (t ∷ []) };
}

-- The insertion, under the unique constraint on the hash.
unfoldable pub add_token : OwnerRefreshToken → Store → Result Store
add_token t s = do
  raise_if (exists (has_token t.token_hash) s.people.owner_tokens) integrity_error
  ok (with_token t s)

abbrev pub save_token : OwnerRefreshToken → Store → Store
save_token t s = record s {
  people = record s.people {
    owner_tokens = update (λ (x : OwnerRefreshToken). x.id == t.id) (λ x. t) s.people.owner_tokens;
  };
}

abbrev pub save_owner : OwnerUser → Store → Store
save_owner o s = record s {
  people = record s.people {
    owners = update (λ (x : OwnerUser). x.id == o.id) (λ x. o) s.people.owners;
  };
}

-- `current.revoked_at is not None or current.expires_at <= now`
abbrev pub is_spent : ℕ → OwnerRefreshToken → Bool
is_spent now t = is_some t.revoked_at || leb t.expires_at now

abbrev pub rotated : ℕ → ℕ → OwnerRefreshToken → OwnerRefreshToken
rotated now replacement_id t = record t {
  revoked_at = some now;
  rotated_to_token_id = some replacement_id;
}

abbrev pub revoked : ℕ → OwnerRefreshToken → OwnerRefreshToken
revoked now t = record t { revoked_at = some now }

abbrev pub logged_in : ℕ → OwnerUser → OwnerUser
logged_in now o = record o { last_login_at = some now }

-- `str.lower` is a parameter.
unfoldable pub normalize_username : (lower : Text → Text) → Text → Text
unfolding strip
normalize_username lower username = lower (strip username)

module _ (crypto : Crypto) (lower : Text → Text) where
  unfoldable pub bootstrap_owner :
      (username password : Text) → (salt : ℕ) → Store → Result (OwnerUser × Store)
  unfolding normalize_username hash_password
  bootstrap_owner username password salt s = do
    let normalized_username = normalize_username lower username
    raise_if (length normalized_username == 0) username_blank
    password_hash ← hash_password crypto salt password
    raise_if (not (length s.people.owners == 0)) owner_exists
    let owner = owner_of s.next_id normalized_username password_hash
    ok (
      owner,
      record s {
        next_id = s.next_id + 1;
        people = record s.people { owners = s.people.owners ++ (owner ∷ []) };
      },
    )

module _ (crypto : Crypto) (config : Settings) where
  unfoldable pub login_owner :
      (lower : Text → Text)
      → (username password raw_refresh : Text) → (jti now : ℕ) → Store
      → Result (TokenPair × Store)
  unfolding normalize_username add_token create_owner_access_token
  login_owner lower username password raw_refresh jti now s = do
    owner ←
        expect auth_failed
          (first_row (has_username (normalize_username lower username)) s.people.owners)
    raise_if (not owner.is_active || not (crypto.verify owner.password_hash password)) auth_failed
    s' ←
        add_token
          (token_row s.next_id owner.id (crypto.token_hash raw_refresh)
            (now + days config.owner_refresh_token_days))
          (save_owner (logged_in now owner) s)
    ok (
      record {
        access_token = create_owner_access_token crypto config owner.id jti now;
        refresh_token = raw_refresh;
      },
      s',
    )

  -- The token that a call presents, which must be neither revoked nor expired.
  unfoldable pub current_token :
      (refresh_token : Text) → (now : ℕ) → Store → Result OwnerRefreshToken
  current_token refresh_token now s = do
    current ←
        expect auth_failed
          (first_row (has_token (crypto.token_hash refresh_token)) s.people.owner_tokens)
    raise_if (is_spent now current) auth_failed
    ok current

  unfoldable pub token_owner : OwnerRefreshToken → Store → Result OwnerUser
  token_owner current s = do
    owner ←
        expect auth_failed
          (first_row (λ (o : OwnerUser). o.id == current.owner_user_id) s.people.owners)
    raise_if (not owner.is_active) auth_failed
    ok owner

  unfoldable pub refresh_owner_session :
      (refresh_token raw_replacement : Text) → (jti now : ℕ) → Store → Result (TokenPair × Store)
  unfolding current_token token_owner add_token create_owner_access_token
  refresh_owner_session refresh_token raw_replacement jti now s = do
    current ← current_token refresh_token now s
    owner ← token_owner current s
    s' ←
        add_token
          (token_row s.next_id owner.id (crypto.token_hash raw_replacement)
            (now + days config.owner_refresh_token_days))
          s
    ok (
      record {
        access_token = create_owner_access_token crypto config owner.id jti now;
        refresh_token = raw_replacement;
      },
      save_token (rotated now s.next_id current) s',
    )

  unfoldable pub logout_owner : (refresh_token : Text) → (now : ℕ) → Store → Result Store
  unfolding current_token
  logout_owner refresh_token now s = do
    current ← current_token refresh_token now s
    ok (save_token (revoked now current) s)
