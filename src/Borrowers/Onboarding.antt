-- ===== src/Borrowers/Onboarding.antt =====
-- From the approval of a registration to the first session:
-- backend/app/features/borrowers/{registration_service,auth_service}.py together.
use mathlib.Core.Path.{subst}
use nelson_lending_v.Prelude.{
  ℕ, ◌+◌, ◌<◌, ◌≡◌, refl, sym, ap, ◌∙◌, true, false, ◌==◌, none, some, arith,
}
use nelson_lending_v.Prelude.Result.{ok}
use nelson_lending_v.Crypto.{Crypto, Settings, minutes, activation_code, validate_pin}
use nelson_lending_v.Store.{Store, Clock}
use nelson_lending_v.Store.Persons.{Borrower, BorrowerAccount, BorrowerRegistration}
use nelson_lending_v.Store.Query.{first_row, exists, some_injective}
use nelson_lending_v.Store.Rows.{Text}
use nelson_lending_v.Borrowers.Activation.{
  ActivationCodeGrant, is_account_approved, code_of, activated, account_row, issued,
  issue_activation_code, has_phone, activate_borrower,
}
use nelson_lending_v.Borrowers.Activation.Attempts.{issue_activation_code-IsIssue}
use nelson_lending_v.Borrowers.Activation.SingleUse.{
  activate_borrower-IsActivation, activate_borrower-account,
}
use nelson_lending_v.Borrowers.Activation.Delivery.{issue_activation_code-activate_borrower}
use nelson_lending_v.Borrowers.Sessions.{
  BorrowerTokenPair, has_token, is_active_borrower, login_borrower,
}
use nelson_lending_v.Borrowers.Sessions.Login.{activate_borrower-login_borrower}
use nelson_lending_v.Borrowers.Registration.{approve_registration}
use nelson_lending_v.Borrowers.Registration.Review.{
  approve_registration-IsApproval, approve_registration-account,
}

module _ (crypto : Crypto) (config : Settings) where
  issue_activation_code-ok :
      (borrower_id random now : ℕ) (s : Store) {account : BorrowerAccount}
      → account_row borrower_id s ≡ ok account
      → is_account_approved account.account_status ≡ true
      → (grant : ActivationCodeGrant) × (s' : Store) × (issue_activation_code crypto config
            borrower_id random now s
          ≡ ok (grant, s'))
  unfolding issue_activation_code
  issue_activation_code-ok borrower_id random now s {account = account} found approved =
      let expires_at = now + minutes config.borrower_activation_code_minutes in
      (
        record {
          borrower_id = borrower_id;
          code = activation_code random;
          expires_at = expires_at;
        },
        issued now
            (code_of s.next_id account.id
              (crypto.activation_hash account.id (activation_code random)) expires_at
              config.borrower_activation_code_max_attempts)
            s,
        rw (found, approved) refl,
      )

  issued-login_borrower :
      (borrower_id random now : ℕ) (s1 s2 s3 : Store) {grant : ActivationCodeGrant}
      {account : BorrowerAccount} (phone code pin : Text) (salt at : ℕ) (b : Borrower)
      (device platform raw : Text) (jti later : ℕ)
      → issue_activation_code crypto config borrower_id random now s1 ≡ ok (grant, s2)
      → activate_borrower crypto phone code pin salt at s2 ≡ ok (none, s3)
      → first_row (has_phone phone) s1.people.borrower_accounts ≡ some account
      → first_row (λ (x : Borrower). x.id == account.borrower_id) s1.people.borrowers ≡ some b
      → is_active_borrower b.status ≡ true
      → 0 < config.borrower_access_token_minutes
      → exists (has_token (crypto.token_hash raw)) s1.people.borrower_tokens ≡ false
      → (pair : BorrowerTokenPair) × (s4 : Store) × (login_borrower crypto config phone pin device
            platform raw jti later s3
          ≡ ok (pair, s4))
  issued-login_borrower borrower_id random now s1 s2 s3 {account = account} phone code pin salt at b
        device platform raw jti later issue activation by_phone owner active lifetime new_token =
      let i = issue_activation_code-IsIssue crypto config borrower_id random now s1 issue in
      let a = activate_borrower-IsActivation crypto phone code pin salt at s2 activation in
      let same : account ≡ a.attempt.account = some_injective (
        sym (
          subst (λ q. first_row (has_phone phone) q.people.borrower_accounts ≡ some account)
            i.stored by_phone)
        ∙ a.attempt.found_account) in
      let owner2 =
        subst
          (λ x. first_row (λ (y : Borrower). y.id == x.borrower_id) s1.people.borrowers ≡ some b)
          same owner in
      let owner3 =
        subst
          (λ rows.
            first_row (λ (y : Borrower). y.id == a.attempt.account.borrower_id) rows ≡ some b)
          (ap (λ q. q.people.borrowers) i.stored ∙ ap (λ q. q.people.borrowers) a.stored) owner2 in
      let tokens =
        subst (λ rows. exists (has_token (crypto.token_hash raw)) rows ≡ false)
          (ap (λ q. q.people.borrower_tokens) i.stored
            ∙ ap (λ q. q.people.borrower_tokens) a.stored)
          new_token in
      let (pair, s4, login, decoded) =
        activate_borrower-login_borrower crypto config phone code pin salt at s2
          (activated at (crypto.secret_hash salt pin) a.attempt.account) b device platform raw jti
          later later activation (activate_borrower-account crypto phone code pin salt at s2 a)
          owner3 active tokens (omega arith) (omega (arith, lifetime)) in
      (pair, s4, login)

  -- After an approval, with identifiers that no borrower and no account had: a code can be issued to the new borrower; entered
  -- within its lifetime with an acceptable PIN, it activates the account; and a login with that phone number and
  -- PIN then succeeds, from any device, with a refresh token that is new.
  pub approve_registration-login_borrower :
      (clock : Clock) (registration_id owner_id : ℕ) (s : Store) {done : BorrowerRegistration}
      {s1 : Store} (random now salt at : ℕ) (pin device platform raw : Text) (jti later : ℕ)
      → approve_registration clock registration_id owner_id s ≡ ok (done, s1)
      → exists (λ (a : BorrowerAccount). a.borrower_id == s.next_id) s.people.borrower_accounts
        ≡ false
      → exists (λ (b : Borrower). b.id == s.next_id) s.people.borrowers ≡ false
      → 0 < config.borrower_activation_code_max_attempts
      → 0 < config.borrower_access_token_minutes
      → at < now + minutes config.borrower_activation_code_minutes
      → validate_pin pin ≡ ok tt
      → exists (has_token (crypto.token_hash raw)) s.people.borrower_tokens ≡ false
      → (borrower_id : ℕ) × (grant : ActivationCodeGrant) × (s2 : Store) × (s3 : Store)
        × (pair : BorrowerTokenPair) × (s4 : Store) × (done.borrower_id ≡ some borrower_id)
        × (issue_activation_code crypto config borrower_id random now s1 ≡ ok (grant, s2))
        × (activate_borrower crypto done.phone_number_normalized grant.code pin salt at s2
            ≡ ok (none, s3))
        × (login_borrower crypto config done.phone_number_normalized pin device platform raw jti
              later s3
            ≡ ok (pair, s4))
  approve_registration-login_borrower clock registration_id owner_id s {done = done} {s1 = s1}
        random now salt at pin device platform raw jti later h fresh unused limit lifetime early
        valid new_token =
      let phone = done.phone_number_normalized in
      let (b, account, known, identity, by_phone, by_borrower, owner, approved, active) =
        approve_registration-account clock registration_id owner_id s h fresh unused in
      let (grant, s2, issue) =
        issue_activation_code-ok b.id random now s1 by_borrower (rw approved refl) in
      let i = issue_activation_code-IsIssue crypto config b.id random now s1 issue in
      let (
        s3, after, activation, by_phone3, same_account, same_borrower, status, pin_hash, verified,
      ) =
        issue_activation_code-activate_borrower crypto config b.id random now s1 account phone pin
          salt at issue by_borrower by_phone limit (rw i.expires at early) valid in
      let tokens =
        subst (λ rows. exists (has_token (crypto.token_hash raw)) rows ≡ false)
          (ap (λ p. p.borrower_tokens)
            (approve_registration-IsApproval clock registration_id owner_id s h).stored)
          new_token in
      let (pair, s4, login) =
        issued-login_borrower b.id random now s1 s2 s3 phone grant.code pin salt at b device
          platform raw jti later issue activation by_phone owner (rw active refl) lifetime tokens in
      (b.id, grant, s2, s3, pair, s4, known, issue, activation, login)
