-- ===== src/Store/Persons.antt =====
-- The rows behind logins: backend/app/features/borrowers/{models,registration_models,
-- activation_models}.py and backend/app/features/owner_identity/models.py. Times are instants in
-- seconds; times of creation and update are left out.
use nelson_lending_v.Prelude.{ℕ, Bool, List, [], Option}
use nelson_lending_v.Calendar.{Date}
use nelson_lending_v.Store.Rows.{Text}

pub data BorrowerStatus : Type 0 where
  borrower_active borrower_inactive borrower_deleted : BorrowerStatus

pub record Borrower : Type 0 where
  pub id : ℕ
  pub first_name : Text
  pub last_name : Text
  pub national_id : Text
  pub address : Text
  pub phone_number : Text
  pub phone_number_normalized : Text
  pub date_of_birth : Date
  pub status : BorrowerStatus

pub data AccountStatus : Type 0 where
  account_pending account_approved account_activated account_suspended account_disabled :
      AccountStatus

pub record BorrowerAccount : Type 0 where
  pub id : ℕ
  pub borrower_id : ℕ
  pub phone_number : Text
  pub phone_number_normalized : Text
  pub pin_hash : Option Text
  pub account_status : AccountStatus
  pub phone_verified_at : Option ℕ

pub record BorrowerDevice : Type 0 where
  pub id : ℕ
  pub borrower_account_id : ℕ
  pub device_identifier_hash : Text
  pub platform : Text
  pub is_active : Bool
  pub is_trusted : Bool
  pub first_seen_at : ℕ
  pub last_seen_at : ℕ
  pub revoked_at : Option ℕ

pub record BorrowerRefreshToken : Type 0 where
  pub id : ℕ
  pub borrower_account_id : ℕ
  pub device_id : ℕ
  pub token_hash : Text
  pub expires_at : ℕ
  pub revoked_at : Option ℕ
  pub rotated_to_token_id : Option ℕ

pub record BorrowerActivationCode : Type 0 where
  pub id : ℕ
  pub borrower_account_id : ℕ
  pub code_hash : Text
  pub expires_at : ℕ
  pub used_at : Option ℕ
  pub revoked_at : Option ℕ
  pub failed_attempts : ℕ
  pub max_attempts : ℕ
  pub last_attempt_at : Option ℕ

pub data RegistrationStatus : Type 0 where
  registration_pending registration_accepted registration_rejected : RegistrationStatus

pub record BorrowerRegistration : Type 0 where
  pub id : ℕ
  pub first_name : Text
  pub last_name : Text
  pub national_id : Text
  pub phone_number : Text
  pub phone_number_normalized : Text
  pub address : Text
  pub date_of_birth : Date
  pub status : RegistrationStatus
  pub submitted_at : ℕ
  pub reviewed_at : Option ℕ
  pub reviewed_by_owner_user_id : Option ℕ
  pub borrower_id : Option ℕ
  pub rejection_reason : Option Text

pub record OwnerUser : Type 0 where
  pub id : ℕ
  pub username : Text
  pub password_hash : Text
  pub is_active : Bool
  pub last_login_at : Option ℕ

pub record OwnerRefreshToken : Type 0 where
  pub id : ℕ
  pub owner_user_id : ℕ
  pub token_hash : Text
  pub expires_at : ℕ
  pub revoked_at : Option ℕ
  pub rotated_to_token_id : Option ℕ

pub record People : Type 0 where
  pub borrowers : List Borrower
  pub borrower_accounts : List BorrowerAccount
  pub devices : List BorrowerDevice
  pub borrower_tokens : List BorrowerRefreshToken
  pub activation_codes : List BorrowerActivationCode
  pub registrations : List BorrowerRegistration
  pub owners : List OwnerUser
  pub owner_tokens : List OwnerRefreshToken

abbrev pub no_people : People
no_people = record {
  borrowers = [];
  borrower_accounts = [];
  devices = [];
  borrower_tokens = [];
  activation_codes = [];
  registrations = [];
  owners = [];
  owner_tokens = [];
}
