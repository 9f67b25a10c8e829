-- ===== src/Borrowers/Registration.antt =====
-- backend/app/features/borrowers/registration_service.py and the validators of
-- registration_schemas.py: an applicant's registration and its review by the owner.
pub mod Review
pub mod Intake
pub mod Waiting
use nelson_lending_v.Prelude.{
  ℕ, ◌+◌, Bool, true, false, not, ◌&&◌, ◌||◌, leb, ◌==◌, if◌then◌else◌, List, [], ◌∷◌, ◌++◌, length,
  Option, none, some,
}
use nelson_lending_v.Prelude.Result.{
  Result, ok, err, raise_if, ◌>>=◌, ◌>>◌, validation_error, registration_conflict,
  registration_not_found, registration_state,
}
use nelson_lending_v.Calendar.{Date, date_lt}
use nelson_lending_v.Notifications.{Notice, enqueue_notification}
use nelson_lending_v.Store.{Store, Clock}
use nelson_lending_v.Store.Persons.{
  Borrower, borrower_active, BorrowerAccount, account_approved, BorrowerRegistration,
  RegistrationStatus, registration_pending, registration_accepted, registration_rejected,
}
use nelson_lending_v.Store.Query.{expect, first_row, exists}
use nelson_lending_v.Store.Rows.{
  Text, registration_approved, borrower_aggregate, borrower, in_app, borrower_id_field, first_name,
  last_name, id_string, text_string,
}
use nelson_lending_v.Store.Table.{text_eq, update, strip, filter}
use nelson_lending_v.Borrowers.Phone.{normalize_philippine_mobile, normalize_national_id}

pub record BorrowerRegistrationCreate : Type 0 where
  pub first_name : Text
  pub last_name : Text
  pub national_id : Text
  pub phone_number : Text
  pub address : Text
  pub date_of_birth : Date

-- A validator's exception: pydantic reports all of them in one `ValidationError`.
abbrev pub as_validation {ℓ} : {A : Type ℓ} → Result A → Result A
as_validation (err e) = err validation_error
as_validation (ok a) = ok a

-- `Field(min_length=lo, max_length=hi)`
abbrev pub check_length : ℕ → ℕ → Text → Result (Unit {0})
check_length lo hi value =
    raise_if (not (leb lo (length value) && leb (length value) hi)) validation_error

unfoldable pub strip_nonblank_text : Text → Result Text
unfolding strip
strip_nonblank_text value = do
  raise_if (length (strip value) == 0) validation_error
  ok (strip value)

unfoldable pub validate_reason : Text → Result Text
unfolding strip
validate_reason value = do
  check_length 10 500 value
  raise_if (not (leb 10 (length (strip value)))) validation_error
  ok (strip value)

module _ (is_decimal : ℕ → Bool) (upper : Text → Text) where
  -- The model's constraints and its field validators.
  unfoldable pub validate_create :
      (today : Date) → BorrowerRegistrationCreate → Result BorrowerRegistrationCreate
  unfolding strip_nonblank_text normalize_national_id normalize_philippine_mobile strip date_lt
  validate_create today raw = do
    check_length 1 100 raw.first_name
    check_length 1 100 raw.last_name
    check_length 3 100 raw.national_id
    check_length 1 32 raw.phone_number
    check_length 1 1000 raw.address
    given ← strip_nonblank_text raw.first_name
    family ← strip_nonblank_text raw.last_name
    national_id ← as_validation (normalize_national_id upper raw.national_id)
    canonical ← as_validation (normalize_philippine_mobile is_decimal raw.phone_number)
    address ← strip_nonblank_text raw.address
    raise_if (not (date_lt raw.date_of_birth today)) validation_error
    ok (record {
      first_name = given;
      last_name = family;
      national_id = national_id;
      phone_number = strip raw.phone_number;
      address = address;
      date_of_birth = raw.date_of_birth;
    })

abbrev pub is_pending : BorrowerRegistration → Bool
is_pending r = elim r.status [
  | registration_pending ↦ true
  | registration_accepted ↦ false
  | registration_rejected ↦ false
]

abbrev pub has_identity : Text → Borrower → Bool
has_identity national_id b = text_eq b.national_id national_id

abbrev pub has_login : Text → BorrowerAccount → Bool
has_login phone a = text_eq a.phone_number_normalized phone

abbrev pub claims_identity : Text → Text → BorrowerRegistration → Bool
claims_identity national_id phone r =
    is_pending r && (text_eq r.national_id national_id || text_eq r.phone_number_normalized phone)

abbrev pub new_registration :
    ℕ → BorrowerRegistrationCreate → Text → (now : ℕ) → BorrowerRegistration
new_registration id payload normalized_phone now = record {
  id = id;
  first_name = payload.first_name;
  last_name = payload.last_name;
  national_id = payload.national_id;
  phone_number = payload.phone_number;
  phone_number_normalized = normalized_phone;
  address = payload.address;
  date_of_birth = payload.date_of_birth;
  status = registration_pending;
  submitted_at = now;
  reviewed_at = none;
  reviewed_by_owner_user_id = none;
  borrower_id = none;
  rejection_reason = none;
}

-- The two partial unique indexes say what the third query asks, so the flush of a call that runs
-- alone cannot violate them.
unfoldable pub create_registration :
    (is_decimal : ℕ → Bool)
    → BorrowerRegistrationCreate
    → (now : ℕ) → Store
    → Result (BorrowerRegistration × Store)
unfolding normalize_philippine_mobile
create_registration is_decimal payload now s = do
  normalized_phone ← normalize_philippine_mobile is_decimal payload.phone_number
  raise_if
      (exists (has_identity payload.national_id) s.people.borrowers
        || exists (has_login normalized_phone) s.people.borrower_accounts
        || exists (claims_identity payload.national_id normalized_phone) s.people.registrations)
      registration_conflict
  let registration = new_registration s.next_id payload normalized_phone now
  ok (
    registration,
    record s {
      next_id = s.next_id + 1;
      people = record s.people { registrations = s.people.registrations ++ (registration ∷ []) };
    },
  )

unfoldable pub get_registration : ℕ → Store → Result BorrowerRegistration
get_registration registration_id s =
    expect registration_not_found
      (first_row (λ (r : BorrowerRegistration). r.id == registration_id) s.people.registrations)

unfoldable pub locked_pending_registration : ℕ → Store → Result BorrowerRegistration
locked_pending_registration registration_id s = do
  registration ←
      expect registration_not_found
        (first_row (λ (r : BorrowerRegistration). r.id == registration_id) s.people.registrations)
  raise_if (not (is_pending registration)) registration_state
  ok registration

-- The rows that an approval adds, and the registration that it rewrites.
abbrev pub borrower_of : ℕ → BorrowerRegistration → Borrower
borrower_of id r = record {
  id = id;
  first_name = r.first_name;
  last_name = r.last_name;
  national_id = r.national_id;
  address = r.address;
  phone_number = r.phone_number;
  phone_number_normalized = r.phone_number_normalized;
  date_of_birth = r.date_of_birth;
  status = borrower_active;
}

abbrev pub account_of : ℕ → ℕ → BorrowerRegistration → BorrowerAccount
account_of id borrower_id r = record {
  id = id;
  borrower_id = borrower_id;
  phone_number = r.phone_number;
  phone_number_normalized = r.phone_number_normalized;
  pin_hash = none;
  account_status = account_approved;
  phone_verified_at = none;
}

abbrev pub accepted : (now owner_id borrower_id : ℕ) → BorrowerRegistration → BorrowerRegistration
accepted now owner_id borrower_id r = record r {
  status = registration_accepted;
  reviewed_at = some now;
  reviewed_by_owner_user_id = some owner_id;
  borrower_id = some borrower_id;
  rejection_reason = none;
}

abbrev pub refused : (now owner_id : ℕ) → Text → BorrowerRegistration → BorrowerRegistration
refused now owner_id reason r = record r {
  status = registration_rejected;
  reviewed_at = some now;
  reviewed_by_owner_user_id = some owner_id;
  rejection_reason = some reason;
}

abbrev pub save_registration : BorrowerRegistration → Store → Store
save_registration r s = record s {
  people = record s.people {
    registrations =
        update (λ (x : BorrowerRegistration). x.id == r.id) (λ x. r) s.people.registrations;
  };
}

abbrev pub approval_notice : Borrower → Notice
approval_notice b = record {
  event_type = registration_approved;
  aggregate_type = borrower_aggregate;
  aggregate_id = b.id;
  recipient_type = borrower;
  recipient_id = b.id;
  template_key = registration_approved;
  payload =
      (borrower_id_field, id_string b.id)
      ∷ (first_name, text_string b.first_name)
      ∷ (last_name, text_string b.last_name)
      ∷ [];
  channel = in_app;
  max_attempts = 5;
}

-- The two insertions take their identifiers in turn.
abbrev pub add_identity : Borrower → BorrowerAccount → Store → Store
add_identity b a s = record s {
  next_id = s.next_id + 2;
  people = record s.people {
    borrowers = s.people.borrowers ++ (b ∷ []);
    borrower_accounts = s.people.borrower_accounts ++ (a ∷ []);
  };
}

-- The unique constraints repeat the two checks, so the flushes of a call that runs alone cannot
-- violate them.
unfoldable pub approve_registration :
    Clock → (registration_id owner_id : ℕ) → Store → Result (BorrowerRegistration × Store)
unfolding locked_pending_registration enqueue_notification
approve_registration clock registration_id owner_id s = do
  registration ← locked_pending_registration registration_id s
  raise_if
      (exists (has_identity registration.national_id) s.people.borrowers
        || exists (has_login registration.phone_number_normalized) s.people.borrower_accounts)
      registration_conflict
  let new_borrower = borrower_of s.next_id registration
  let account = account_of (s.next_id + 1) s.next_id registration
  let done = accepted clock.now.instant owner_id s.next_id registration
  notice ←
      enqueue_notification clock (approval_notice new_borrower)
        (save_registration done (add_identity new_borrower account s))
  ok (done, notice.1)

unfoldable pub reject_registration :
    (registration_id owner_id : ℕ)
    → (reason : Text) → (now : ℕ) → Store
    → Result (BorrowerRegistration × Store)
unfolding locked_pending_registration
reject_registration registration_id owner_id reason now s = do
  registration ← locked_pending_registration registration_id s
  let done = refused now owner_id reason registration
  ok (done, save_registration done s)
