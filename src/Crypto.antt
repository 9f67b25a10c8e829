-- ===== src/Crypto.antt =====
-- The third-party primitives behind backend/app/core/security.py and
-- backend/app/features/borrowers/auth_security.py as an interface, and what those files add.
pub mod Plain
use nelson_lending_v.Prelude.{
  ℕ, ◌+◌, ◌*◌, ◌≤◌, ◌<◌, ◌/◌, ◌%◌, ◌≡◌, refl, Bool, true, false, not, ◌&&◌, ◌||◌, ltb, leb, ◌==◌,
  List, [], ◌∷◌, length, Option, none, some,
}
use nelson_lending_v.Prelude.Result.{
  Result, ok, err, raise_if, ◌>>=◌, ◌>>◌, invalid_pin, auth_failed, password_too_short,
  password_blank,
}
use nelson_lending_v.Store.Query.{expect}
use nelson_lending_v.Store.Rows.{Text}
use nelson_lending_v.Store.Table.{strip}

pub data TokenType : Type 0 where
  owner_access borrower_access : TokenType

-- The payload of an access token.
pub record Claims : Type 0 where
  pub subject : ℕ
  pub borrower_id : Option ℕ
  pub token_type : TokenType
  pub issued_at : ℕ
  pub expires_at : ℕ
  pub jti : ℕ

-- Argon2 (a salt and a secret give a hash, and the hash verifies its secret), the digests, and JWT
-- with the process's key (from its issue until it expires, a token decodes to its payload).
pub record Crypto : Type 0 where
  pub secret_hash : ℕ → Text → Text
  pub verify : Text → Text → Bool
  pub verifies : (salt : ℕ) (secret : Text) → verify (secret_hash salt secret) secret ≡ true
  pub token_hash : Text → Text
  pub activation_hash : ℕ → Text → Text
  pub device_hash : Text → Text
  pub encode : Claims → Text
  pub decode : (now : ℕ) → Text → Option Claims
  pub decodes :
      (now : ℕ) (c : Claims)
      → c.issued_at ≤ now
      → now < c.expires_at
      → decode now (encode c) ≡ some c

-- The numbers of backend/app/core/config.py.
pub record Settings : Type 0 where
  pub owner_access_token_minutes : ℕ
  pub owner_refresh_token_days : ℕ
  pub borrower_activation_code_minutes : ℕ
  pub borrower_activation_code_max_attempts : ℕ
  pub borrower_access_token_minutes : ℕ
  pub borrower_refresh_token_days : ℕ

abbrev pub minutes : ℕ → ℕ
minutes n = 60 * n

abbrev pub days : ℕ → ℕ
days n = 86400 * n

abbrev pub is_digit : ℕ → Bool
is_digit c = leb 48 c && leb c 57

abbrev pub all_digits : Text → Bool
all_digits [] = true
all_digits (c ∷ rest) = is_digit c && all_digits rest

-- `isascii` and `isdigit` together accept the ten digits.
unfoldable pub validate_pin : Text → Result (Unit {0})
validate_pin pin = raise_if (not (length pin == 6) || not (all_digits pin)) invalid_pin

unfoldable pub hash_pin : Crypto → ℕ → Text → Result Text
unfolding validate_pin
hash_pin crypto salt pin = validate_pin pin >> ok (crypto.secret_hash salt pin)

unfoldable pub validate_password : Text → Result (Unit {0})
unfolding strip
validate_password password = do
  raise_if (ltb (length password) 12) password_too_short
  raise_if (length (strip password) == 0) password_blank

unfoldable pub hash_password : Crypto → ℕ → Text → Result Text
unfolding validate_password
hash_password crypto salt password =
    validate_password password >> ok (crypto.secret_hash salt password)

-- The digit of `n` at the place of `unit`, as a code point.
abbrev pub digit_at : ℕ → ℕ → ℕ
digit_at unit n = 48 + (n / unit) % 10

-- `f"{n:06d}"` of a number below a million.
unfoldable pub activation_code : ℕ → Text
activation_code n =
    digit_at 100000 n
    ∷ digit_at 10000 n
    ∷ digit_at 1000 n
    ∷ digit_at 100 n
    ∷ digit_at 10 n
    ∷ digit_at 1 n
    ∷ []

pub record AccessToken : Type 0 where
  pub value : Text
  pub expires_at : ℕ

module _ (crypto : Crypto) where
  abbrev token_of : Claims → AccessToken
  token_of c = record { value = crypto.encode c; expires_at = c.expires_at }

  unfoldable pub create_borrower_access_token : Settings → ℕ → ℕ → (jti now : ℕ) → AccessToken
  create_borrower_access_token config account_id borrower_id jti now = token_of (record {
    subject = account_id;
    borrower_id = some borrower_id;
    token_type = borrower_access;
    issued_at = now;
    expires_at = now + minutes config.borrower_access_token_minutes;
    jti = jti;
  })

  unfoldable pub create_owner_access_token : Settings → ℕ → (jti now : ℕ) → AccessToken
  create_owner_access_token config owner_id jti now = token_of (record {
    subject = owner_id;
    borrower_id = none;
    token_type = owner_access;
    issued_at = now;
    expires_at = now + minutes config.owner_access_token_minutes;
    jti = jti;
  })

  abbrev is_owner_access : TokenType → Bool
  is_owner_access owner_access = true
  is_owner_access borrower_access = false

  unfoldable pub decode_owner_access_token : (now : ℕ) → Text → Result Claims
  decode_owner_access_token now token = do
    payload ← expect auth_failed (crypto.decode now token)
    raise_if (not (is_owner_access payload.token_type)) auth_failed
    ok payload

  -- A borrower's token names the borrower as well.
  unfoldable pub decode_borrower_access_token : (now : ℕ) → Text → Result Claims
  decode_borrower_access_token now token = do
    payload ← expect auth_failed (crypto.decode now token)
    raise_if (is_owner_access payload.token_type) auth_failed
    borrower_id ← expect auth_failed payload.borrower_id
    ok payload
