-- ===== src/Owner/Context.antt =====
-- `get_current_owner` of backend/app/features/owner_identity/dependencies.py: the owner that a
-- request's bearer token stands for.
use nelson_lending_v.Prelude.{ℕ, ◌+◌, ◌≤◌, ◌<◌, ◌≡◌, refl, true, not, ◌==◌, Option, none, some}
use nelson_lending_v.Prelude.Result.{Result, ok, err, raise_if, ◌>>=◌, ◌>>◌, auth_failed}
use nelson_lending_v.Crypto.{
  Crypto, Settings, Claims, owner_access, borrower_access, create_owner_access_token,
  decode_owner_access_token, create_borrower_access_token, decode_borrower_access_token, minutes,
}
use nelson_lending_v.Store.{Store}
use nelson_lending_v.Store.Persons.{OwnerUser}
use nelson_lending_v.Store.Query.{expect, first_row}
use nelson_lending_v.Store.Rows.{Text}
use nelson_lending_v.Store.Table.{text_eq}
use nelson_lending_v.Borrowers.Context.{
  HttpAuthorizationCredentials, bearer, get_current_borrower_account,
}

-- Every failure is the same 401; `str.lower` is a parameter.
unfoldable pub get_current_owner :
    Crypto
    → (lower : Text → Text) → (now : ℕ) → Option HttpAuthorizationCredentials
    → Store
    → Result OwnerUser
unfolding decode_owner_access_token
get_current_owner crypto lower now credentials s = do
  given ← expect auth_failed credentials
  raise_if (not (text_eq (lower given.scheme) bearer)) auth_failed
  payload ← decode_owner_access_token crypto now given.credentials
  owner ←
      expect auth_failed (first_row (λ (o : OwnerUser). o.id == payload.subject) s.people.owners)
  raise_if (not owner.is_active) auth_failed
  ok owner

module _ (crypto : Crypto) (config : Settings) (lower : Text → Text) (scheme : Text) (s : Store)
    (jti at later : ℕ) where
  -- The two domains are apart: a live access token of a borrower is not accepted for the owner, and
  -- one of the owner is not accepted for a borrower.
  pub get_current_owner-get_current_borrower_account :
      (account_id borrower_id owner_id : ℕ)
      → text_eq (lower scheme) bearer ≡ true
      → at ≤ later
      → later < at + minutes config.borrower_access_token_minutes
      → later < at + minutes config.owner_access_token_minutes
      → (get_current_owner crypto lower later
            (some (record {
              scheme = scheme;
              credentials =
                  (create_borrower_access_token crypto config account_id borrower_id jti at).value;
            }))
            s
          ≡ err auth_failed)
        × (get_current_borrower_account crypto lower later
              (some (record {
                scheme = scheme;
                credentials = (create_owner_access_token crypto config owner_id jti at).value;
              }))
              s
            ≡ err auth_failed)
  unfolding get_current_owner get_current_borrower_account decode_owner_access_token
      decode_borrower_access_token create_borrower_access_token create_owner_access_token
  get_current_owner-get_current_borrower_account account_id borrower_id owner_id is_bearer issued
        live live_owner =
      let of_borrower : Claims = record {
        subject = account_id;
        borrower_id = some borrower_id;
        token_type = borrower_access;
        issued_at = at;
        expires_at = at + minutes config.borrower_access_token_minutes;
        jti = jti;
      } in
      let of_owner : Claims = record {
        subject = owner_id;
        borrower_id = none;
        token_type = owner_access;
        issued_at = at;
        expires_at = at + minutes config.owner_access_token_minutes;
        jti = jti;
      } in
      (
        rw (is_bearer, crypto.decodes later of_borrower issued live) refl,
        rw (is_bearer, crypto.decodes later of_owner issued live_owner) refl,
      )
