-- ===== src/Borrowers/Registration/Waiting.antt =====
-- A registration that waits for its review keeps its identity:
-- backend/app/features/borrowers/registration_service.py.
use mathlib.Core.Path.{subst}
use nelson_lending_v.Prelude.{
  ℕ, ◌≡◌, ◌∙◌, refl, sym, ap, Bool, true, false, ◌&&◌, ◌||◌, ◌==◌, ==_refl, ==_iff, Bool-cases, inl,
  inr, [], ◌∷◌, some,
}
use nelson_lending_v.Prelude.Result.{
  Result, ok, err, >>=-eq-ok, ok_injective, registration_conflict,
}
use nelson_lending_v.Store.{Store, Clock}
use nelson_lending_v.Store.Persons.{BorrowerRegistration}
use nelson_lending_v.Store.Query.{
  first_row, first_row-found, exists, exists-snoc, exists-append, exists-update, exists_mono,
  or_true, and_left, and_right,
}
use nelson_lending_v.Store.Rows.{Text}
use nelson_lending_v.Store.Table.{text_eq, update}
use nelson_lending_v.Borrowers.Phone.{normalize_philippine_mobile}
use nelson_lending_v.Borrowers.Registration.{
  BorrowerRegistrationCreate, has_identity, has_login, claims_identity, new_registration, refused,
  accepted, save_registration, locked_pending_registration, create_registration,
  approve_registration, reject_registration,
}
use nelson_lending_v.Borrowers.Registration.Intake.{create_registration-IsIntake}
use nelson_lending_v.Borrowers.Registration.Review.{
  locked_pending_registration-found, approve_registration-IsApproval,
}

-- One call while the registration with this key waits: a further submission, the review of another
-- registration, or a call elsewhere, which leaves the registrations alone.
pub data Call (is_decimal : ℕ → Bool) (waiting : ℕ) : Store → Store → Type 0 where
  submitted :
      {s s' : Store} (payload : BorrowerRegistrationCreate) (now : ℕ) {r : BorrowerRegistration}
      → create_registration is_decimal payload now s ≡ ok (r, s')
      → Call is_decimal waiting s s'
  approved :
      {s s' : Store} (clock : Clock) (registration_id owner_id : ℕ) {r : BorrowerRegistration}
      → (registration_id == waiting) ≡ false
      → approve_registration clock registration_id owner_id s ≡ ok (r, s')
      → Call is_decimal waiting s s'
  rejected :
      {s s' : Store} (registration_id owner_id : ℕ) (reason : Text) (now : ℕ)
      {r : BorrowerRegistration}
      → (registration_id == waiting) ≡ false
      → reject_registration registration_id owner_id reason now s ≡ ok (r, s')
      → Call is_decimal waiting s s'
  elsewhere :
      {s s' : Store}
      → s.people.registrations ≡ s'.people.registrations
      → Call is_decimal waiting s s'

-- Any number of calls.
pub data Later (is_decimal : ℕ → Bool) (waiting : ℕ) (s : Store) : Store → Type 0 where
  here : Later is_decimal waiting s s
  next :
      {t u : Store}
      → Later is_decimal waiting s t
      → Call is_decimal waiting t u
      → Later is_decimal waiting s u

-- The pending row with this key and identity.
abbrev holds : ℕ → (national_id phone : Text) → BorrowerRegistration → Bool
holds waiting national_id phone r = (r.id == waiting) && claims_identity national_id phone r

module _ (waiting : ℕ) (national_id phone : Text) where
  abbrev IsHeld : Store → Type 0
  IsHeld s = exists (holds waiting national_id phone) s.people.registrations ≡ true

  other-holds :
      (id : ℕ) (x : BorrowerRegistration)
      → (id == waiting) ≡ false
      → holds waiting national_id phone x ≡ true
      → (x.id == id) ≡ false
  other-holds id x other held = elim (Bool-cases (x.id == id)) [
    | inl same ↦
        let differ : (x.id == waiting) ≡ false = rw ((==_iff x.id id).0 same) other in
        let clash : true ≡ false = sym (and_left (x.id == waiting) _ held) ∙ differ in absurd cc
    | inr differ ↦ differ
  ]

  -- The review of another registration leaves the row.
  reviewed-IsHeld :
      (registration_id : ℕ) (s s' : Store) (r done : BorrowerRegistration)
      → (registration_id == waiting) ≡ false
      → first_row (λ (x : BorrowerRegistration). x.id == registration_id) s.people.registrations
        ≡ some r
      → done.id ≡ r.id
      → update (λ (x : BorrowerRegistration). x.id == done.id) (λ x. done) s.people.registrations
        ≡ s'.people.registrations
      → IsHeld s
      → IsHeld s'
  reviewed-IsHeld registration_id s s' r done other found same stored held =
      let id : done.id ≡ registration_id =
        same ∙ (==_iff r.id registration_id).0 (first_row-found _ s.people.registrations found) in
      subst (λ rows. exists (holds waiting national_id phone) rows ≡ true) stored
        (exists-update (holds waiting national_id phone)
          (λ (x : BorrowerRegistration). x.id == done.id) done s.people.registrations
          (λ x e. rw id (other-holds registration_id x other e)) held)

  rejected-IsHeld :
      (registration_id owner_id : ℕ) (reason : Text) (now : ℕ) (s : Store)
      {r : BorrowerRegistration} {s' : Store}
      → (registration_id == waiting) ≡ false
      → reject_registration registration_id owner_id reason now s ≡ ok (r, s')
      → IsHeld s
      → IsHeld s'
  unfolding reject_registration
  rejected-IsHeld registration_id owner_id reason now s {s' = s'} other h held =
      let finish : BorrowerRegistration → Result (BorrowerRegistration × Store) =
        λ r. let done = refused now owner_id reason r in ok (done, save_registration done s) in
      let (r, locked, h1) = >>=-eq-ok (locked_pending_registration registration_id s) finish h in
      reviewed-IsHeld registration_id s s' r (refused now owner_id reason r) other
        (locked_pending_registration-found registration_id s locked) refl
        (ap (λ p. p.1.people.registrations) (ok_injective h1)) held

  Call-IsHeld :
      (is_decimal : ℕ → Bool) {s s' : Store} → Call is_decimal waiting s s' → IsHeld s → IsHeld s'
  Call-IsHeld is_decimal {s = s} (submitted payload now h) held =
      let i = create_registration-IsIntake is_decimal payload now s h in
      subst IsHeld i.stored (
        exists-append (holds waiting national_id phone) s.people.registrations
          (new_registration s.next_id payload i.phone now ∷ []) held)
  Call-IsHeld is_decimal {s = s} {s' = s'} (approved clock registration_id owner_id other h) held =
      let a = approve_registration-IsApproval clock registration_id owner_id s h in
      reviewed-IsHeld registration_id s s' a.registration
        (accepted clock.now.instant owner_id s.next_id a.registration) other a.found refl
        (ap (λ p. p.registrations) a.stored) held
  Call-IsHeld is_decimal {s = s} (rejected registration_id owner_id reason now other h) held =
      rejected-IsHeld registration_id owner_id reason now s other h held
  Call-IsHeld is_decimal (elsewhere same) held =
      subst (λ rows. exists (holds waiting national_id phone) rows ≡ true) same held

  Later-IsHeld :
      (is_decimal : ℕ → Bool) {s s' : Store} → IsHeld s → Later is_decimal waiting s s' → IsHeld s'
  Later-IsHeld is_decimal held here = held
  Later-IsHeld is_decimal held (next earlier call) =
      Call-IsHeld is_decimal call (Later-IsHeld is_decimal held earlier)

-- After a registration was taken, and whatever submissions, reviews of other registrations and calls
-- that leave the registrations alone come next, a further one with the same national identifier or
-- the same mobile number, in whatever form it is written, is a conflict.
pub create_registration_once :
    (is_decimal : ℕ → Bool) (payload again : BorrowerRegistrationCreate) (now later : ℕ) (s : Store)
    {r : BorrowerRegistration} {s' s'' : Store} {phone : Text}
    → create_registration is_decimal payload now s ≡ ok (r, s')
    → Later is_decimal r.id s' s''
    → normalize_philippine_mobile is_decimal again.phone_number ≡ ok phone
    → (text_eq payload.national_id again.national_id || text_eq r.phone_number_normalized phone)
      ≡ true
    → create_registration is_decimal again later s'' ≡ err registration_conflict
unfolding create_registration
create_registration_once is_decimal payload again now later s {r = r} {s' = s'} {s'' = s''}
      {phone = phone} h between canonical same =
    let i = create_registration-IsIntake is_decimal payload now s h in
    let row = new_registration s.next_id payload i.phone now in
    let held = holds r.id again.national_id phone in
    let claim = claims_identity again.national_id phone in
    let start : exists held s'.people.registrations ≡ true =
      subst (λ q. exists held q.people.registrations ≡ true) i.stored
        (exists-snoc held s.people.registrations row
          (rw (← ap (λ x. x.id) i.row, ==_refl s.next_id) (rw (← i.row) at same))) in
    let waiting : exists claim s''.people.registrations ≡ true =
      exists_mono held claim s''.people.registrations (λ x e. and_right (x.id == r.id) _ e)
        (Later-IsHeld r.id again.national_id phone is_decimal start between) in
    rw
      (
        canonical,
        waiting,
        or_true (
            exists (has_identity again.national_id) s''.people.borrowers
            || exists (has_login phone) s''.people.borrower_accounts),
      )
      refl
