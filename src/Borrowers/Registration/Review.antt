-- ===== src/Borrowers/Registration/Review.antt =====
-- The review of a registration: backend/app/features/borrowers/registration_service.py.
use mathlib.Core.Path.{subst}
use nelson_lending_v.Prelude.{
  ℕ, ◌+◌, ◌≡◌, refl, sym, ap, ◌∙◌, Bool, true, false, not, ◌||◌, ◌==◌, ==_refl, or_false,
  or_false_left, List, [], ◌∷◌, ◌++◌, some,
}
use nelson_lending_v.Prelude.Result.{
  Result, ok, err, raise_if, ◌>>=◌, ◌>>◌, >>=-eq-ok, raise_if-eq_ok, ok_injective,
  registration_not_found, registration_state, registration_conflict,
}
use nelson_lending_v.Notifications.{enqueue_notification}
use nelson_lending_v.Notifications.Outbox.{enqueue_notification-people}
use nelson_lending_v.Store.{Store, Clock}
use nelson_lending_v.Store.Persons.{
  Borrower, BorrowerAccount, BorrowerRegistration, account_approved, borrower_active,
}
use nelson_lending_v.Store.Query.{
  expect, expect-eq_ok, first_row, exists, first_row-found, first_row-update, first_row-snoc,
}
use nelson_lending_v.Store.Rows.{Text, NotificationOutbox}
use nelson_lending_v.Store.Table.{text_eq_refl, update}
use nelson_lending_v.Borrowers.Activation.{account_row, has_phone}
use nelson_lending_v.Borrowers.Registration.{
  is_pending, has_identity, has_login, locked_pending_registration, borrower_of, account_of,
  accepted, refused, save_registration, approval_notice, add_identity, approve_registration,
  reject_registration,
}

has_id : ℕ → BorrowerRegistration → Bool
has_id registration_id r = r.id == registration_id

-- The pending row that a review locks.
pub locked_pending_registration-found :
    (registration_id : ℕ) (s : Store) {r : BorrowerRegistration}
    → locked_pending_registration registration_id s ≡ ok r
    → first_row (λ (x : BorrowerRegistration). x.id == registration_id) s.people.registrations
      ≡ some r
unfolding locked_pending_registration
locked_pending_registration-found registration_id s h =
    let row =
      first_row (λ (x : BorrowerRegistration). x.id == registration_id) s.people.registrations in
    let (r, found, h1) =
      >>=-eq-ok (expect registration_not_found row)
        (λ x. raise_if (not (is_pending x)) registration_state >> ok x) h in
    subst (λ x. row ≡ some x)
      (ok_injective (raise_if-eq_ok (not (is_pending r)) registration_state (ok r) h1).1)
      (expect-eq_ok registration_not_found _ found)

-- Neither review is open any more.
abbrev pub IsReviewed : ℕ → Store → Type 0
IsReviewed registration_id s =
    (clock : Clock) (owner_id : ℕ) (reason : Text) (now : ℕ)
    → (approve_registration clock registration_id owner_id s ≡ err registration_state)
      × (reject_registration registration_id owner_id reason now s ≡ err registration_state)

saved-IsReviewed :
    (registration_id : ℕ) (s s' : Store) {r : BorrowerRegistration} (done : BorrowerRegistration)
    → first_row (λ (x : BorrowerRegistration). x.id == registration_id) s.people.registrations
      ≡ some r
    → done.id ≡ r.id
    → is_pending done ≡ false
    → update (λ (x : BorrowerRegistration). x.id == done.id) (λ x. done) s.people.registrations
      ≡ s'.people.registrations
    → IsReviewed registration_id s'
unfolding approve_registration reject_registration locked_pending_registration
saved-IsReviewed registration_id s s' {r = r} done found same closed stored clock owner_id reason
      now =
    let picks : BorrowerRegistration → Bool = λ x. x.id == registration_id in
    let found_id : (r.id == registration_id) ≡ true =
      first_row-found picks s.people.registrations found in
    let gone : first_row picks s'.people.registrations ≡ some done =
      subst (λ rows. first_row picks rows ≡ some done) stored
        (first_row-update picks (λ (x : BorrowerRegistration). x.id == done.id) done
          s.people.registrations found (rw same (==_refl r.id)) (rw same found_id)) in
    (rw (gone, closed) refl, rw (gone, closed) refl)

-- What an approval did.
pub record IsApproval (clock : Clock) (registration_id owner_id : ℕ) (s : Store)
    (done : BorrowerRegistration) (s' : Store) : Type 0 where
  pub registration : BorrowerRegistration
  pub found :
      first_row (λ (x : BorrowerRegistration). x.id == registration_id) s.people.registrations
      ≡ some registration
  pub new_identity : exists (has_identity registration.national_id) s.people.borrowers ≡ false
  pub new_login :
      exists (has_login registration.phone_number_normalized) s.people.borrower_accounts ≡ false
  pub decided : accepted clock.now.instant owner_id s.next_id registration ≡ done
  pub stored :
      (save_registration (accepted clock.now.instant owner_id s.next_id registration) (
        add_identity
          (borrower_of s.next_id registration)
          (account_of (s.next_id + 1) s.next_id registration)
          s)).people
      ≡ s'.people

pub approve_registration-IsApproval :
    (clock : Clock) (registration_id owner_id : ℕ) (s : Store) {done : BorrowerRegistration}
    {s' : Store}
    → approve_registration clock registration_id owner_id s ≡ ok (done, s')
    → IsApproval clock registration_id owner_id s done s'
unfolding approve_registration
approve_registration-IsApproval clock registration_id owner_id s {s' = s'} h =
    let taken : BorrowerRegistration → Bool = λ r.
      exists (has_identity r.national_id) s.people.borrowers
      || exists (has_login r.phone_number_normalized) s.people.borrower_accounts in
    let decision : BorrowerRegistration → BorrowerRegistration =
      λ r. accepted clock.now.instant owner_id s.next_id r in
    let written : BorrowerRegistration → Store = λ r.
      save_registration (decision r)
        (add_identity (borrower_of s.next_id r) (account_of (s.next_id + 1) s.next_id r) s) in
    let finish : BorrowerRegistration
        → NotificationOutbox × Store
        → Result (BorrowerRegistration × Store) =
      λ r notice. ok (decision r, notice.1) in
    let call : BorrowerRegistration → Result (NotificationOutbox × Store) =
      λ r. enqueue_notification clock (approval_notice (borrower_of s.next_id r)) (written r) in
    let (r, locked, h1) =
      >>=-eq-ok (locked_pending_registration registration_id s)
        (λ r. raise_if (taken r) registration_conflict >> (call r >>= finish r)) h in
    let (free, h2) = raise_if-eq_ok (taken r) registration_conflict (call r >>= finish r) h1 in
    let (notice, en, h3) = >>=-eq-ok (call r) (finish r) h2 in
    let same = ok_injective h3 in
    record {
      registration = r;
      found = locked_pending_registration-found registration_id s locked;
      new_identity = or_false_left (exists (has_identity r.national_id) s.people.borrowers) _ free;
      new_login = or_false (exists (has_identity r.national_id) s.people.borrowers) _ free;
      decided = ap (λ p. p.0) same;
      stored =
          enqueue_notification-people clock (approval_notice (borrower_of s.next_id r)) (written r)
            en
          ∙ ap (λ p. p.1.people) same;
    }

-- A registration that was approved can be neither approved nor rejected again.
pub approve_registration-final :
    (clock : Clock) (registration_id owner_id : ℕ) (s : Store) {done : BorrowerRegistration}
    {s' : Store}
    → approve_registration clock registration_id owner_id s ≡ ok (done, s')
    → (later : Clock) (reviewer : ℕ) (reason' : Text) (now' : ℕ)
    → (approve_registration later registration_id reviewer s' ≡ err registration_state)
      × (reject_registration registration_id reviewer reason' now' s' ≡ err registration_state)
approve_registration-final clock registration_id owner_id s {s' = s'} h =
    let a = approve_registration-IsApproval clock registration_id owner_id s h in
    saved-IsReviewed registration_id s s'
      (accepted clock.now.instant owner_id s.next_id a.registration) a.found refl refl
      (ap (λ p. p.registrations) a.stored)

-- Nor can one that was rejected, and a rejection adds no borrower and no account.
pub reject_registration-final :
    (registration_id owner_id : ℕ) (reason : Text) (now : ℕ) (s : Store)
    {done : BorrowerRegistration} {s' : Store}
    → reject_registration registration_id owner_id reason now s ≡ ok (done, s')
    → (later : Clock) (reviewer : ℕ) (reason' : Text) (now' : ℕ)
    → (approve_registration later registration_id reviewer s' ≡ err registration_state)
      × (reject_registration registration_id reviewer reason' now' s' ≡ err registration_state)
      × (s'.people.borrowers ≡ s.people.borrowers)
      × (s'.people.borrower_accounts ≡ s.people.borrower_accounts)
unfolding reject_registration
reject_registration-final registration_id owner_id reason now s {s' = s'} h later reviewer reason'
      now' =
    let finish : BorrowerRegistration → Result (BorrowerRegistration × Store) =
      λ r. let done = refused now owner_id reason r in ok (done, save_registration done s) in
    let (r, locked, h1) = >>=-eq-ok (locked_pending_registration registration_id s) finish h in
    let same = ok_injective h1 in
    let (again, over) =
      saved-IsReviewed registration_id s s' (refused now owner_id reason r)
        (locked_pending_registration-found registration_id s locked) refl refl
        (ap (λ p. p.1.people.registrations) same) later reviewer reason' now' in
    (
      again,
      over,
      ap (λ p. p.1.people.borrowers) (sym same),
      ap (λ p. p.1.people.borrower_accounts) (sym same),
    )

-- An approval gives the applicant an active borrower and an approved account, which the applicant's
-- national identifier and phone number, and the borrower's identifier, then lead to, when no borrower
-- and no account had the new borrower's identifier before.
pub approve_registration-account :
    (clock : Clock) (registration_id owner_id : ℕ) (s : Store) {done : BorrowerRegistration}
    {s' : Store}
    → approve_registration clock registration_id owner_id s ≡ ok (done, s')
    → exists (λ (a : BorrowerAccount). a.borrower_id == s.next_id) s.people.borrower_accounts
      ≡ false
    → exists (λ (b : Borrower). b.id == s.next_id) s.people.borrowers ≡ false
    → (b : Borrower) × (account : BorrowerAccount) × (done.borrower_id ≡ some b.id)
      × (first_row (has_identity done.national_id) s'.people.borrowers ≡ some b)
      × (first_row (has_phone done.phone_number_normalized) s'.people.borrower_accounts
          ≡ some account)
      × (account_row b.id s' ≡ ok account)
      × (first_row (λ (x : Borrower). x.id == account.borrower_id) s'.people.borrowers ≡ some b)
      × (account.account_status ≡ account_approved)
      × (b.status ≡ borrower_active)
approve_registration-account clock registration_id owner_id s {s' = s'} h fresh unused =
    let a = approve_registration-IsApproval clock registration_id owner_id s h in
    let r = a.registration in
    let b = borrower_of s.next_id r in
    let account = account_of (s.next_id + 1) s.next_id r in
    let moved : (P : List BorrowerAccount → Type 0)
        → P (s.people.borrower_accounts ++ (account ∷ []))
        → P s'.people.borrower_accounts =
      λ P. subst P (ap (λ p. p.borrower_accounts) a.stored) in
    (
      b,
      account,
      rw (← a.decided) refl,
      rw (← a.decided) (
          subst (λ rows. first_row (has_identity r.national_id) rows ≡ some b)
            (ap (λ p. p.borrowers) a.stored)
            (first_row-snoc (has_identity r.national_id) s.people.borrowers b a.new_identity
              (text_eq_refl r.national_id))),
      rw (← a.decided) (
          moved (λ rows. first_row (has_phone r.phone_number_normalized) rows ≡ some account)
            (first_row-snoc (has_phone r.phone_number_normalized) s.people.borrower_accounts account
              a.new_login (text_eq_refl r.phone_number_normalized))),
      rw
          (moved
            (λ rows. first_row (λ (x : BorrowerAccount). x.borrower_id == b.id) rows ≡ some account)
            (first_row-snoc (λ (x : BorrowerAccount). x.borrower_id == b.id)
              s.people.borrower_accounts account fresh (==_refl b.id)))
          refl,
      subst (λ rows. first_row (λ (x : Borrower). x.id == s.next_id) rows ≡ some b)
          (ap (λ p. p.borrowers) a.stored)
          (first_row-snoc (λ (x : Borrower). x.id == s.next_id) s.people.borrowers b unused
            (==_refl s.next_id)),
      refl,
      refl,
    )
