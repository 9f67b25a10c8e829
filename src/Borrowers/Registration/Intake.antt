-- ===== src/Borrowers/Registration/Intake.antt =====
-- Submitting a registration: backend/app/features/borrowers/registration_service.py.
use nelson_lending_v.Prelude.{ℕ, ◌+◌, ◌≡◌, ap, Bool, ◌||◌, [], ◌∷◌, ◌++◌}
use nelson_lending_v.Prelude.Result.{
  Result, ok, raise_if, ◌>>◌, >>=-eq-ok, raise_if-eq_ok, ok_injective, registration_conflict,
}
use nelson_lending_v.Store.{Store}
use nelson_lending_v.Store.Persons.{BorrowerRegistration}
use nelson_lending_v.Store.Query.{exists}
use nelson_lending_v.Store.Rows.{Text}
use nelson_lending_v.Borrowers.Phone.{normalize_philippine_mobile}
use nelson_lending_v.Borrowers.Registration.{
  BorrowerRegistrationCreate, has_identity, has_login, claims_identity, new_registration,
  create_registration,
}

-- What a submission that was taken wrote.
pub record IsIntake (is_decimal : ℕ → Bool) (payload : BorrowerRegistrationCreate) (now : ℕ)
    (s : Store) (r : BorrowerRegistration) (s' : Store) : Type 0 where
  pub phone : Text
  pub canonical : normalize_philippine_mobile is_decimal payload.phone_number ≡ ok phone
  pub row : new_registration s.next_id payload phone now ≡ r
  pub stored :
      record s {
        next_id = s.next_id + 1;
        people = record s.people {
          registrations =
              s.people.registrations ++ (new_registration s.next_id payload phone now ∷ []);
        };
      }
      ≡ s'

pub create_registration-IsIntake :
    (is_decimal : ℕ → Bool) (payload : BorrowerRegistrationCreate) (now : ℕ) (s : Store)
    {r : BorrowerRegistration} {s' : Store}
    → create_registration is_decimal payload now s ≡ ok (r, s')
    → IsIntake is_decimal payload now s r s'
unfolding create_registration
create_registration-IsIntake is_decimal payload now s h =
    let taken : Text → Bool = λ p.
      exists (has_identity payload.national_id) s.people.borrowers
      || exists (has_login p) s.people.borrower_accounts
      || exists (claims_identity payload.national_id p) s.people.registrations in
    let finish : Text → Result (BorrowerRegistration × Store) = λ p.
      let r = new_registration s.next_id payload p now in
      ok (
        r,
        record s {
          next_id = s.next_id + 1;
          people = record s.people { registrations = s.people.registrations ++ (r ∷ []) };
        },
      ) in
    let (phone, canonical, h1) =
      >>=-eq-ok (normalize_philippine_mobile is_decimal payload.phone_number)
        (λ p. raise_if (taken p) registration_conflict >> finish p) h in
    let (free, h2) = raise_if-eq_ok (taken phone) registration_conflict (finish phone) h1 in
    let same = ok_injective h2 in
    record {
      phone = phone;
      canonical = canonical;
      row = ap (λ p. p.0) same;
      stored = ap (λ p. p.1) same;
    }
