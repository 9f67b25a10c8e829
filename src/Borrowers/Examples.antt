-- ===== src/Borrowers/Examples.antt =====
-- One applicant from the registration to a refreshed session.
use nelson_lending_v.Store.Persons.{no_people, account_activated}
use nelson_lending_v.Prelude.{
  ℕ, ◌≡◌, refl, ◌&&◌, ◌==◌, Bool, true, false, Option, none, some, [], ◌∷◌, leb, All, arith, inl,
}
use nelson_lending_v.Prelude.Result.{
  Error, ok, err, value_or, activation_failed, auth_failed, registration_state,
  registration_conflict,
}
use nelson_lending_v.Calendar.{Date}
use nelson_lending_v.Crypto.{borrower_access, decode_borrower_access_token, validate_pin}
use nelson_lending_v.Crypto.Plain.{plain, settings, claims}
use nelson_lending_v.Store.{Store, Clock, empty_store}
use nelson_lending_v.Store.Persons.{
  Borrower, BorrowerAccount, BorrowerRegistration, borrower_active, account_approved,
}
use nelson_lending_v.Store.Query.{first_row}
use nelson_lending_v.Store.Rows.{Text}
use nelson_lending_v.Borrowers.Phone.{is_separator, normalize_philippine_mobile}
use nelson_lending_v.Borrowers.Phone.Canonical.{normalize_philippine_mobile-idempotent}
use nelson_lending_v.Borrowers.Activation.{
  ActivationCodeGrant, account_row, has_phone, issue_activation_code, activate_borrower, activated,
}
use nelson_lending_v.Borrowers.Activation.Attempts.{IsCode, activate_borrower-IsCode}
use nelson_lending_v.Borrowers.Activation.SingleUse.{activate_borrower-once}
use nelson_lending_v.Borrowers.Activation.Delivery.{issue_activation_code-activate_borrower}
use nelson_lending_v.Borrowers.Sessions.{
  BorrowerTokenPair, new_device, token_row, login_borrower, refresh_borrower_session,
  logout_borrower,
}
use nelson_lending_v.Borrowers.Sessions.Login.{activate_borrower-login_borrower}
use nelson_lending_v.Borrowers.Sessions.Later.{
  IsTokenTable, here, next, refreshed, refresh_borrower_session-rotates,
}
use nelson_lending_v.Borrowers.Registration.{
  BorrowerRegistrationCreate, has_identity, new_registration, account_of, borrower_of,
  create_registration, approve_registration, reject_registration,
}
use nelson_lending_v.Borrowers.Registration.Waiting
use nelson_lending_v.Borrowers.Registration.Waiting.{create_registration_once}
use nelson_lending_v.Borrowers.Registration.Review.{
  approve_registration-final, reject_registration-final, approve_registration-account,
}
use nelson_lending_v.Borrowers.Context.{
  bearer, get_current_borrower_account, login_borrower-get_current_borrower_account,
}
use nelson_lending_v.Borrowers.Onboarding.{approve_registration-login_borrower}

abbrev march : Date
march = record { year = 2026; month = 3; day = 1 }

abbrev clock : Clock
clock = record {
  today = march;
  now = record { instant = 1000; date = march };
  digest = λ i. i.aggregate_id;
}

-- The ten digits of ASCII alone.
abbrev ascii_decimal : ℕ → Bool
ascii_decimal c = leb 48 c && leb c 57

-- "0917 123-4567" and "+639171234567".
abbrev typed : Text
typed = 48 ∷ 57 ∷ 49 ∷ 55 ∷ 32 ∷ 49 ∷ 50 ∷ 51 ∷ 45 ∷ 52 ∷ 53 ∷ 54 ∷ 55 ∷ []

abbrev phone : Text
phone = 43 ∷ 54 ∷ 51 ∷ 57 ∷ 49 ∷ 55 ∷ 49 ∷ 50 ∷ 51 ∷ 52 ∷ 53 ∷ 54 ∷ 55 ∷ []

abbrev payload : BorrowerRegistrationCreate
payload = record {
  first_name = 65 ∷ [];
  last_name = 66 ∷ [];
  national_id = 67 ∷ 68 ∷ 69 ∷ [];
  phone_number = typed;
  address = 70 ∷ [];
  date_of_birth = march;
}

normalized_run : normalize_philippine_mobile ascii_decimal typed ≡ ok phone
unfolding normalize_philippine_mobile
normalized_run = refl

ascii_decimal-plain : (c : ℕ) → ascii_decimal c ≡ true → is_separator c ≡ false
ascii_decimal-plain c h = ground arith

normalize_philippine_mobile-idempotent_example :
    normalize_philippine_mobile ascii_decimal phone ≡ ok phone
normalize_philippine_mobile-idempotent_example =
    normalize_philippine_mobile-idempotent ascii_decimal ascii_decimal-plain typed normalized_run

abbrev taken : BorrowerRegistration × Store
taken =
    value_or (create_registration ascii_decimal payload 900 (empty_store 10))
      (new_registration 0 payload [] 0, empty_store 0)

taken_run : create_registration ascii_decimal payload 900 (empty_store 10) ≡ ok (taken.0, taken.1)
unfolding create_registration normalize_philippine_mobile
taken_run = refl

-- Another applicant, who is turned down.
abbrev stranger : BorrowerRegistrationCreate
stranger = record payload {
  national_id = 71 ∷ 72 ∷ 73 ∷ [];
  phone_number = 43 ∷ 54 ∷ 51 ∷ 57 ∷ 49 ∷ 56 ∷ 49 ∷ 50 ∷ 51 ∷ 52 ∷ 53 ∷ 54 ∷ 55 ∷ [];
}

abbrev both : BorrowerRegistration × Store
both = value_or (create_registration ascii_decimal stranger 910 taken.1) taken

both_run : create_registration ascii_decimal stranger 910 taken.1 ≡ ok (both.0, both.1)
unfolding create_registration normalize_philippine_mobile
both_run = refl

abbrev without : BorrowerRegistration × Store
without = value_or (reject_registration 11 7 [] 920 both.1) both

without_run : reject_registration 11 7 [] 920 both.1 ≡ ok (without.0, without.1)
unfolding reject_registration create_registration normalize_philippine_mobile
without_run = refl

create_registration_once_example :
    create_registration ascii_decimal payload 950 without.1 ≡ err registration_conflict
unfolding create_registration
create_registration_once_example =
    create_registration_once ascii_decimal payload payload 900 950 (empty_store 10) taken_run
      (Waiting.next (Waiting.next Waiting.here (Waiting.submitted stranger 910 both_run))
        (Waiting.rejected 11 7 [] 920 refl without_run))
      normalized_run refl

abbrev approved : BorrowerRegistration × Store
approved = value_or (approve_registration clock 10 7 taken.1) taken

approved_run : approve_registration clock 10 7 taken.1 ≡ ok (approved.0, approved.1)
unfolding approve_registration create_registration
approved_run = refl

approve_registration-final_example :
    (approve_registration clock 10 8 approved.1 ≡ err registration_state)
    × (reject_registration 10 8 [] 1001 approved.1 ≡ err registration_state)
approve_registration-final_example =
    approve_registration-final clock 10 7 taken.1 approved_run clock 8 [] 1001

abbrev turned_down : BorrowerRegistration × Store
turned_down = value_or (reject_registration 10 7 [] 1000 taken.1) taken

turned_down_run : reject_registration 10 7 [] 1000 taken.1 ≡ ok (turned_down.0, turned_down.1)
unfolding reject_registration create_registration
turned_down_run = refl

reject_registration-final_example :
    (approve_registration clock 10 8 turned_down.1 ≡ err registration_state)
    × (reject_registration 10 8 [] 1001 turned_down.1 ≡ err registration_state)
    × (turned_down.1.people.borrowers ≡ taken.1.people.borrowers)
    × (turned_down.1.people.borrower_accounts ≡ taken.1.people.borrower_accounts)
reject_registration-final_example =
    reject_registration-final 10 7 [] 1000 taken.1 turned_down_run clock 8 [] 1001

approve_registration-account_example :
    (b : Borrower) × (account : BorrowerAccount) × (approved.0.borrower_id ≡ some b.id)
    × (first_row (has_identity approved.0.national_id) approved.1.people.borrowers ≡ some b)
    × (first_row (has_phone approved.0.phone_number_normalized) approved.1.people.borrower_accounts
        ≡ some account)
    × (account_row b.id approved.1 ≡ ok account)
    × (first_row (λ (x : Borrower). x.id == account.borrower_id) approved.1.people.borrowers
        ≡ some b)
    × (account.account_status ≡ account_approved)
    × (b.status ≡ borrower_active)
unfolding create_registration
approve_registration-account_example =
    approve_registration-account clock 10 7 taken.1 approved_run refl refl

abbrev pin : Text
pin = 49 ∷ 50 ∷ 51 ∷ 52 ∷ 53 ∷ 54 ∷ []

abbrev granted : ActivationCodeGrant × Store
granted =
    value_or (issue_activation_code plain settings 11 123456 1000 approved.1)
      (record { borrower_id = 0; code = []; expires_at = 0 }, approved.1)

granted_run :
    issue_activation_code plain settings 11 123456 1000 approved.1 ≡ ok (granted.0, granted.1)
unfolding issue_activation_code approve_registration create_registration
granted_run = refl

pin_run : validate_pin pin ≡ ok tt
unfolding validate_pin
pin_run = refl

abbrev account : BorrowerAccount
account = account_of 12 11 (new_registration 10 payload phone 900)

found_run :
    (account_row 11 approved.1 ≡ ok account)
    × (first_row (has_phone phone) approved.1.people.borrower_accounts ≡ some account)
unfolding approve_registration create_registration normalize_philippine_mobile
found_run = (refl, refl)

issue_activation_code-activate_borrower_example :
    (s'' : Store) × (after : BorrowerAccount) × (activate_borrower plain phone granted.0.code pin 5
        1100 granted.1
      ≡ ok (none, s''))
    × (first_row (has_phone phone) s''.people.borrower_accounts ≡ some after)
    × (after.id ≡ account.id)
    × (after.borrower_id ≡ account.borrower_id)
    × (after.account_status ≡ account_activated)
    × (after.pin_hash ≡ some (plain.secret_hash 5 pin))
    × (after.phone_verified_at ≡ some 1100)
unfolding issue_activation_code approve_registration create_registration
issue_activation_code-activate_borrower_example =
    issue_activation_code-activate_borrower plain settings 11 123456 1000 approved.1 account phone
      pin 5 1100 granted_run found_run.0 found_run.1 (omega arith) (omega arith) pin_run

abbrev active : Option Error × Store
active =
    value_or (activate_borrower plain phone granted.0.code pin 5 1100 granted.1) (none, granted.1)

active_run : activate_borrower plain phone granted.0.code pin 5 1100 granted.1 ≡ ok (none, active.1)
unfolding activate_borrower issue_activation_code approve_registration create_registration
active_run = refl

activate_borrower-once_example :
    activate_borrower plain phone [] pin 6 1200 active.1 ≡ err activation_failed
activate_borrower-once_example =
    activate_borrower-once plain phone granted.0.code pin 5 1100 granted.1 [] pin 6 1200 active_run

activate_borrower-IsCode_example : All IsCode active.1.people.activation_codes
unfolding issue_activation_code approve_registration create_registration
activate_borrower-IsCode_example =
    activate_borrower-IsCode plain phone granted.0.code pin 5 1100 granted.1
      (record { within = omega arith; spent = inl (omega arith) }, tt) active_run

abbrev raw : Text
raw = 1 ∷ []

activate_borrower-login_borrower_example :
    (pair : BorrowerTokenPair) × (s'' : Store) × (login_borrower plain settings phone pin
        (7 ∷ [])
        (8 ∷ [])
        raw
        1
        1200
        active.1
      ≡ ok (pair, s''))
    × (decode_borrower_access_token plain 1300 pair.access_token.value
        ≡ ok (claims 12 (some 11) borrower_access 1200 2100 1))
unfolding activate_borrower issue_activation_code approve_registration create_registration
activate_borrower-login_borrower_example =
    activate_borrower-login_borrower plain settings phone granted.0.code pin 5 1100 granted.1
      (activated 1100 (plain.secret_hash 5 pin) account)
      (borrower_of 11 (new_registration 10 payload phone 900)) (7 ∷ []) (8 ∷ []) raw 1 1200 1300
      active_run refl refl refl refl (omega arith) (omega arith)

approve_registration-login_borrower_example :
    (borrower_id : ℕ) × (grant : ActivationCodeGrant) × (s2 : Store) × (s3 : Store)
    × (pair : BorrowerTokenPair) × (s4 : Store) × (approved.0.borrower_id ≡ some borrower_id)
    × (issue_activation_code plain settings borrower_id 123456 1000 approved.1 ≡ ok (grant, s2))
    × (activate_borrower plain approved.0.phone_number_normalized grant.code pin 5 1100 s2
        ≡ ok (none, s3))
    × (login_borrower plain settings approved.0.phone_number_normalized pin
          (7 ∷ [])
          (8 ∷ [])
          raw
          1
          1200
          s3
        ≡ ok (pair, s4))
unfolding create_registration
approve_registration-login_borrower_example =
    approve_registration-login_borrower plain settings clock 10 7 taken.1 123456 1000 5 1100 pin
      (7 ∷ []) (8 ∷ []) raw 1 1200 approved_run refl refl (omega arith) (omega arith) (omega arith)
      pin_run refl

abbrev no_pair : BorrowerTokenPair
no_pair = record { access_token = record { value = []; expires_at = 0 }; refresh_token = [] }

abbrev session : BorrowerTokenPair × Store
session =
    value_or (login_borrower plain settings phone pin (7 ∷ []) (8 ∷ []) raw 1 1200 active.1)
      (no_pair, active.1)

-- The activated account with one session.
abbrev held : Store
held = record (empty_store 20) {
  people = record no_people {
    borrowers = borrower_of 11 (new_registration 10 payload phone 900) ∷ [];
    borrower_accounts = activated 1100 (plain.secret_hash 5 pin) account ∷ [];
    devices = new_device 15 12 (plain.device_hash (7 ∷ [])) (8 ∷ []) 1200 ∷ [];
    borrower_tokens = token_row 16 12 15 (plain.token_hash raw) 9000 ∷ [];
  };
}

held-IsTokenTable : IsTokenTable held
held-IsTokenTable = record { below = (omega arith, tt); distinct = (tt, tt) }

abbrev renewed : BorrowerTokenPair × Store
renewed =
    value_or (refresh_borrower_session plain settings raw (7 ∷ []) (2 ∷ []) 2 1300 held)
      (no_pair, held)

renewed_run :
    refresh_borrower_session plain settings raw (7 ∷ []) (2 ∷ []) 2 1300 held
    ≡ ok (renewed.0, renewed.1)
unfolding refresh_borrower_session
renewed_run = refl

-- The replacement is refreshed in turn.
abbrev again : BorrowerTokenPair × Store
again =
    value_or (refresh_borrower_session plain settings (2 ∷ []) (7 ∷ []) (4 ∷ []) 3 1350 renewed.1)
      (no_pair, renewed.1)

again_run :
    refresh_borrower_session plain settings (2 ∷ []) (7 ∷ []) (4 ∷ []) 3 1350 renewed.1
    ≡ ok (again.0, again.1)
unfolding refresh_borrower_session
again_run = refl

refresh_borrower_session-rotates_example :
    (refresh_borrower_session plain settings raw (7 ∷ []) (3 ∷ []) 4 1400 again.1 ≡ err auth_failed)
    × (logout_borrower plain settings raw 1400 again.1 ≡ err auth_failed)
refresh_borrower_session-rotates_example =
    refresh_borrower_session-rotates plain settings raw (7 ∷ []) (2 ∷ []) 2 1300 held
      held-IsTokenTable renewed_run
      (next here (refreshed (2 ∷ []) (7 ∷ []) (4 ∷ []) 3 1350 again_run)) (7 ∷ []) (3 ∷ []) 4 1400

abbrev lower : Text → Text
lower t = t

session_run :
    login_borrower plain settings phone pin (7 ∷ []) (8 ∷ []) raw 1 1200 active.1
    ≡ ok (session.0, session.1)
unfolding login_borrower activate_borrower issue_activation_code approve_registration
    create_registration
session_run = refl

login_borrower-get_current_borrower_account_example :
    get_current_borrower_account plain lower 1300
      (some (record { scheme = bearer; credentials = session.0.access_token.value }))
      session.1
    ≡ ok (
      activated 1100 (plain.secret_hash 5 pin) account,
      borrower_of 11 (new_registration 10 payload phone 900),
    )
unfolding activate_borrower issue_activation_code approve_registration create_registration
login_borrower-get_current_borrower_account_example =
    login_borrower-get_current_borrower_account plain settings lower phone pin (7 ∷ []) (8 ∷ []) raw
      1 1200 1300 active.1 (activated 1100 (plain.secret_hash 5 pin) account)
      (borrower_of 11 (new_registration 10 payload phone 900)) bearer session_run refl refl refl
      refl (omega arith) (omega arith)
