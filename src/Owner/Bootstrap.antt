-- ===== src/Owner/Bootstrap.antt =====
-- There is one owner: backend/app/features/owner_identity/service.py.
use mathlib.Core.Path.{subst}
use nelson_lending_v.Prelude.{
  ℕ, ◌+◌, ◌≡◌, refl, sym, ap, false, not, not-false, ◌==◌, ==_iff, List, [], ◌∷◌, ◌++◌, length,
  some, arith,
}
use nelson_lending_v.Prelude.Result.{
  Result, ok, raise_if, ◌>>◌, >>=-eq-ok, raise_if-eq_ok, ok_injective, username_blank, owner_exists,
}
use nelson_lending_v.Crypto.{
  Crypto, Settings, create_owner_access_token, hash_password, validate_password, days,
}
use nelson_lending_v.Store.{Store}
use nelson_lending_v.Store.Persons.{OwnerUser}
use nelson_lending_v.Store.Query.{first_row, exists}
use nelson_lending_v.Store.Rows.{Text}
use nelson_lending_v.Store.Table.{text_eq_refl}
use nelson_lending_v.Owner.{
  TokenPair, has_username, has_token, owner_of, token_row, with_token, add_token, save_owner,
  logged_in, normalize_username, bootstrap_owner, login_owner,
}

-- What a bootstrap that succeeded wrote.
pub record IsBootstrap (crypto : Crypto) (lower : Text → Text) (username password : Text) (salt : ℕ)
    (s : Store) (o : OwnerUser) (s' : Store) : Type 0 where
  pub nobody : length s.people.owners ≡ 0
  pub named :
      owner_of s.next_id (normalize_username lower username) (crypto.secret_hash salt password) ≡ o
  pub stored :
      record s {
        next_id = s.next_id + 1;
        people = record s.people {
          owners =
              s.people.owners
              ++ (owner_of s.next_id
                    (normalize_username lower username)
                    (crypto.secret_hash salt password)
                  ∷ []);
        };
      }
      ≡ s'

module _ (crypto : Crypto) (lower : Text → Text) where
  pub bootstrap_owner-IsBootstrap :
      (username password : Text) (salt : ℕ) (s : Store) {o : OwnerUser} {s' : Store}
      → bootstrap_owner crypto lower username password salt s ≡ ok (o, s')
      → IsBootstrap crypto lower username password salt s o s'
  unfolding bootstrap_owner hash_password
  bootstrap_owner-IsBootstrap username password salt s {o = o} {s' = s'} h =
      let name = normalize_username lower username in
      let written : Text → Store = λ hash. record s {
        next_id = s.next_id + 1;
        people = record s.people {
          owners = s.people.owners ++ (owner_of s.next_id name hash ∷ []);
        };
      } in
      let finish : Text → Result (OwnerUser × Store) =
        λ hash. ok (owner_of s.next_id name hash, written hash) in
      let (nonblank, h1) = raise_if-eq_ok (length name == 0) username_blank _ h in
      let (hash, eh, h2) =
        >>=-eq-ok (hash_password crypto salt password)
          (λ p. raise_if (not (length s.people.owners == 0)) owner_exists >> finish p) h1 in
      let (first, h3) =
        raise_if-eq_ok (not (length s.people.owners == 0)) owner_exists (finish hash) h2 in
      let (valid, hashed, same_hash) =
        >>=-eq-ok (validate_password password) (λ u. ok (crypto.secret_hash salt password)) eh in
      let back = sym (ok_injective same_hash) in
      record {
        nobody =
            (==_iff (length s.people.owners) 0).0 (not-false (length s.people.owners == 0) first);
        named = subst (λ p. owner_of s.next_id name p ≡ o) back (ap (λ r. r.0) (ok_injective h3));
        stored = subst (λ p. written p ≡ s') back (ap (λ r. r.1) (ok_injective h3));
      }

nil_of_length : (os : List OwnerUser) → length os ≡ 0 → os ≡ []
nil_of_length [] h = refl
nil_of_length (o ∷ os) h = ground (arith, h)

-- After a bootstrap the owner can log in with the same username, up to its normalization, and the
-- same password, when the refresh token's hash is new.
pub bootstrap_owner-login_owner :
    (crypto : Crypto) (config : Settings) (lower : Text → Text) (username typed password : Text)
    (salt : ℕ) (s : Store) {o : OwnerUser} {s' : Store} (raw : Text) (jti now : ℕ)
    → bootstrap_owner crypto lower username password salt s ≡ ok (o, s')
    → normalize_username lower typed ≡ normalize_username lower username
    → exists (has_token (crypto.token_hash raw)) s'.people.owner_tokens ≡ false
    → (pair : TokenPair) × (s'' : Store) × (login_owner crypto config lower typed password raw jti
          now s'
        ≡ ok (pair, s''))
unfolding login_owner add_token
bootstrap_owner-login_owner crypto config lower username typed password salt s {s' = s'} raw jti now
      h same fresh =
    let b = bootstrap_owner-IsBootstrap crypto lower username password salt s h in
    let name = normalize_username lower username in
    let owner = owner_of s.next_id name (crypto.secret_hash salt password) in
    let only : (owner ∷ []) ≡ s'.people.owners =
      subst (λ os. os ++ (owner ∷ []) ≡ s'.people.owners) (nil_of_length s.people.owners b.nobody)
        (ap (λ q. q.people.owners) b.stored) in
    let found : first_row (has_username name) s'.people.owners ≡ some owner =
      subst (λ os. first_row (has_username name) os ≡ some owner) only
        (rw (text_eq_refl name) refl) in
    (
      record {
        access_token = create_owner_access_token crypto config owner.id jti now;
        refresh_token = raw;
      },
      with_token
          (token_row s'.next_id owner.id (crypto.token_hash raw)
            (now + days config.owner_refresh_token_days))
          (save_owner (logged_in now owner) s'),
      rw (same, found, crypto.verifies salt password, fresh) refl,
    )
