-- ===== src/Crypto/Plain.antt =====
-- A concrete `Crypto` to run the services with: hashes that hide nothing and tokens in the clear.
use nelson_lending_v.Prelude.{
  zero, suc, ℕ, ◌<◌, ◌≡◌, refl, Bool, false, ltb, lt→ltb, if◌then◌else◌, [], ◌∷◌, Option, none,
  some,
}
use nelson_lending_v.Store.Rows.{Text}
use nelson_lending_v.Store.Table.{text_eq, text_eq_refl}
use nelson_lending_v.Crypto.{Crypto, Settings, Claims, TokenType, owner_access, borrower_access}

abbrev pub verify_plain : Text → Text → Bool
verify_plain [] secret = false
verify_plain (salt ∷ hash) secret = text_eq hash secret

abbrev pub tag : TokenType → ℕ
tag owner_access = 0
tag borrower_access = 1

abbrev pub type_of : ℕ → TokenType
type_of zero = owner_access
type_of (suc n) = borrower_access

abbrev pub encode_plain : Claims → Text
encode_plain c = elim c.borrower_id [
  | none ↦ c.subject ∷ tag c.token_type ∷ c.issued_at ∷ c.expires_at ∷ c.jti ∷ []
  | some b ↦ c.subject ∷ tag c.token_type ∷ c.issued_at ∷ c.expires_at ∷ c.jti ∷ b ∷ []
]

abbrev pub claims : (subject : ℕ) → Option ℕ → TokenType → (issued_at expires_at jti : ℕ) → Claims
claims subject borrower_id token_type issued_at expires_at jti = record {
  subject = subject;
  borrower_id = borrower_id;
  token_type = token_type;
  issued_at = issued_at;
  expires_at = expires_at;
  jti = jti;
}

abbrev pub decode_plain : ℕ → Text → Option Claims
decode_plain now (subject ∷ kind ∷ issued_at ∷ expires_at ∷ jti ∷ []) =
    if ltb now expires_at
    then some (claims subject none (type_of kind) issued_at expires_at jti)
    else none
decode_plain now (subject ∷ kind ∷ issued_at ∷ expires_at ∷ jti ∷ b ∷ []) =
    if ltb now expires_at
    then some (claims subject (some b) (type_of kind) issued_at expires_at jti)
    else none
decode_plain now _ = none

type_of-tag : (t : TokenType) → type_of (tag t) ≡ t
type_of-tag owner_access = refl
type_of-tag borrower_access = refl

pub decode_plain-claims :
    (subject : ℕ) (b : Option ℕ) (t : TokenType) (issued_at expires_at jti now : ℕ)
    → now < expires_at
    → decode_plain now (encode_plain (claims subject b t issued_at expires_at jti))
      ≡ some (claims subject b t issued_at expires_at jti)
decode_plain-claims subject none t issued_at expires_at jti now h =
    rw (lt→ltb now expires_at h, type_of-tag t) refl
decode_plain-claims subject (some b) t issued_at expires_at jti now h =
    rw (lt→ltb now expires_at h, type_of-tag t) refl

abbrev pub plain : Crypto
plain = record {
  secret_hash = λ salt secret. salt ∷ secret;
  verify = verify_plain;
  verifies = λ salt secret. text_eq_refl secret;
  token_hash = λ t. t;
  activation_hash = λ id code. id ∷ code;
  device_hash = λ d. d;
  encode = encode_plain;
  decode = decode_plain;
  decodes = λ now c issued h.
      decode_plain-claims c.subject c.borrower_id c.token_type c.issued_at c.expires_at c.jti now h;
}

-- The defaults of backend/app/core/config.py.
abbrev pub settings : Settings
settings = record {
  owner_access_token_minutes = 15;
  owner_refresh_token_days = 30;
  borrower_activation_code_minutes = 15;
  borrower_activation_code_max_attempts = 5;
  borrower_access_token_minutes = 15;
  borrower_refresh_token_days = 30;
}
