-- ===== src/Borrowers/Activation/Attempts.antt =====
-- What an activation attempt found, and the limit on failed attempts.
use mathlib.Core.Path.{subst}
use nelson_lending_v.Prelude.{
  not-false, ℕ, ◌+◌, ◌≤◌, ◌<◌, ◌≡◌, ◌⊎◌, inl, inr, refl, ap, arith, true, false, not, ◌||◌, leb,
  leb_false→lt, Bool-cases, or_false, Option-cases, List, [], ◌∷◌, Option, none, some, All,
  All-append,
}
use nelson_lending_v.Prelude.Result.{
  Error, Result, ok, raise_if, ◌>>=◌, ◌>>◌, >>=-eq-ok, raise_if-eq_ok, ok_injective,
  activation_failed, activation_unavailable,
}
use nelson_lending_v.Crypto.{Crypto, Settings, minutes, activation_code, hash_pin}
use nelson_lending_v.Store.{Store}
use nelson_lending_v.Store.Persons.{BorrowerAccount, BorrowerActivationCode}
use nelson_lending_v.Store.Query.{expect, expect-eq_ok, first_row, some_injective}
use nelson_lending_v.Store.Rows.{Text}
use nelson_lending_v.Store.Table.{is_some, text_eq, All-update, All-update_each, update}
use nelson_lending_v.Borrowers.Activation.{
  ActivationCodeGrant, is_account_approved, is_usable, last_usable, revoke_code, code_of,
  account_row, issued, issue_activation_code, missed, consumed, activated, save_code, save_account,
  has_phone, try_code, activate_borrower,
}

-- The account and the code that an attempt runs on.
pub record IsAttempt (crypto : Crypto) (phone code pin : Text) (salt now : ℕ) (s : Store)
    (r : Option Error × Store) : Type 0 where
  pub account : BorrowerAccount
  pub row : BorrowerActivationCode
  pub found_account : first_row (has_phone phone) s.people.borrower_accounts ≡ some account
  pub found_row : last_usable account.id s.people.activation_codes ≡ some row
  pub live : (leb row.expires_at now || leb row.max_attempts row.failed_attempts) ≡ false
  pub ran : try_code crypto account row code pin salt now s ≡ ok r

pub activate_borrower-IsAttempt :
    (crypto : Crypto) (phone code pin : Text) (salt now : ℕ) (s : Store) {r : Option Error × Store}
    → activate_borrower crypto phone code pin salt now s ≡ ok r
    → IsAttempt crypto phone code pin salt now s r
unfolding activate_borrower
activate_borrower-IsAttempt crypto phone code pin salt now s h =
    let attempt : BorrowerAccount → BorrowerActivationCode → Result (Option Error × Store) = λ a c.
      raise_if (leb c.expires_at now || leb c.max_attempts c.failed_attempts) activation_failed
      >> try_code crypto a c code pin salt now s in
    let on_account : BorrowerAccount → Result (Option Error × Store) = λ a.
      raise_if (not (is_account_approved a.account_status)) activation_failed
      >> (expect activation_failed (last_usable a.id s.people.activation_codes) >>= attempt a) in
    let (account, ea, h1) =
      >>=-eq-ok (expect activation_failed (first_row (has_phone phone) s.people.borrower_accounts))
        on_account h in
    let (approved, h2) =
      raise_if-eq_ok (not (is_account_approved account.account_status)) activation_failed _ h1 in
    let (row, er, h3) =
      >>=-eq-ok (expect activation_failed (last_usable account.id s.people.activation_codes))
        (attempt account) h2 in
    let (live, h4) =
      raise_if-eq_ok (leb row.expires_at now || leb row.max_attempts row.failed_attempts)
        activation_failed _ h3 in
    record {
      account = account;
      row = row;
      found_account = expect-eq_ok activation_failed _ ea;
      found_row = expect-eq_ok activation_failed _ er;
      live = live;
      ran = h4;
    }

-- A code's failed attempts are within its limit, and a code at the limit is revoked.
pub record IsCode (c : BorrowerActivationCode) : Type 0 where
  pub within : c.failed_attempts ≤ c.max_attempts
  pub spent : (c.failed_attempts < c.max_attempts) ⊎ (is_some c.revoked_at ≡ true)

All-last_usable :
    (account_id : ℕ) (cs : List BorrowerActivationCode) {c : BorrowerActivationCode}
    → All IsCode cs
    → last_usable account_id cs ≡ some c
    → IsCode c
All-last_usable account_id [] v h = ground (arith, h)
All-last_usable account_id (x ∷ cs) v h = elim (Option-cases (last_usable account_id cs)) [
  | inl nothing ↦ elim (Bool-cases (is_usable account_id x)) [
    | inl usable ↦ rw (← some_injective (rw (nothing, usable) at h)) v.0
    | inr left ↦ ground (arith, rw (nothing, left) at h)
  ]
  | inr (later, e) ↦ rw (← some_injective (rw e at h)) (All-last_usable account_id cs v.1 e)
]

missed-IsCode :
    (now : ℕ) (c : BorrowerActivationCode)
    → c.failed_attempts < c.max_attempts
    → IsCode (missed now c)
missed-IsCode now c h = elim (Bool-cases (leb c.max_attempts (c.failed_attempts + 1))) [
  | inl last ↦ rw last (record { within = omega arith; spent = inr refl })
  | inr more ↦ rw more (record {
    within = omega arith;
    spent = inl (leb_false→lt c.max_attempts (c.failed_attempts + 1) more);
  })
]

-- An attempt to activate, with whatever code, keeps every code's failed attempts within its limit
-- and every code at the limit revoked.
pub activate_borrower-IsCode :
    (crypto : Crypto) (phone code pin : Text) (salt now : ℕ) (s : Store) {outcome : Option Error}
    {s' : Store}
    → All IsCode s.people.activation_codes
    → activate_borrower crypto phone code pin salt now s ≡ ok (outcome, s')
    → All IsCode s'.people.activation_codes
unfolding try_code
activate_borrower-IsCode crypto phone code pin salt now s v h =
    let a = activate_borrower-IsAttempt crypto phone code pin salt now s h in
    let valid = All-last_usable a.account.id s.people.activation_codes v a.found_row in
    let left : a.row.failed_attempts < a.row.max_attempts =
      leb_false→lt a.row.max_attempts a.row.failed_attempts
        (or_false (leb a.row.expires_at now) _ a.live) in
    elim (Bool-cases (text_eq (crypto.activation_hash a.account.id code) a.row.code_hash)) [
      | inl right ↦
          let (pin_hash, ep, h1) =
            >>=-eq-ok (hash_pin crypto salt pin)
              (λ p.
                ok (
                  none,
                  save_code (consumed now a.row) (save_account (activated now p a.account) s),
                ))
              (rw (right, try_code) at a.ran) in
          rw (← ap (λ r. r.1.people.activation_codes) (ok_injective h1)) (
            All-update IsCode _ (consumed now a.row) s.people.activation_codes v
              (record { within = valid.within; spent = valid.spent }))
      | inr wrong ↦
          rw
            (← ap (λ r. r.1.people.activation_codes) (ok_injective (rw (wrong, try_code) at a.ran)))
            (All-update IsCode _ (missed now a.row) s.people.activation_codes v
              (missed-IsCode now a.row left))
    ]

-- What issuing a code wrote, and for which account.
pub record IsIssue (crypto : Crypto) (config : Settings) (borrower_id random now : ℕ) (s : Store)
    (grant : ActivationCodeGrant) (s' : Store) : Type 0 where
  pub account : BorrowerAccount
  pub found : account_row borrower_id s ≡ ok account
  pub approved : is_account_approved account.account_status ≡ true
  pub code : activation_code random ≡ grant.code
  pub expires : now + minutes config.borrower_activation_code_minutes ≡ grant.expires_at
  pub stored :
      issued now
        (code_of s.next_id account.id
          (crypto.activation_hash account.id (activation_code random))
          (now + minutes config.borrower_activation_code_minutes)
          config.borrower_activation_code_max_attempts)
        s
      ≡ s'

pub issue_activation_code-IsIssue :
    (crypto : Crypto) (config : Settings) (borrower_id random now : ℕ) (s : Store)
    {grant : ActivationCodeGrant} {s' : Store}
    → issue_activation_code crypto config borrower_id random now s ≡ ok (grant, s')
    → IsIssue crypto config borrower_id random now s grant s'
unfolding issue_activation_code
issue_activation_code-IsIssue crypto config borrower_id random now s h =
    let expires_at = now + minutes config.borrower_activation_code_minutes in
    let code : BorrowerAccount → BorrowerActivationCode = λ a.
      code_of s.next_id a.id (crypto.activation_hash a.id (activation_code random)) expires_at
        config.borrower_activation_code_max_attempts in
    let finish : BorrowerAccount → Result (ActivationCodeGrant × Store) = λ a. ok (
      record { borrower_id = borrower_id; code = activation_code random; expires_at = expires_at },
      issued now (code a) s,
    ) in
    let (account, ea, h1) =
      >>=-eq-ok (account_row borrower_id s)
        (λ a.
          raise_if (not (is_account_approved a.account_status)) activation_unavailable >> finish a)
        h in
    let (approved, h2) =
      raise_if-eq_ok (not (is_account_approved account.account_status)) activation_unavailable
        (finish account) h1 in
    let same = ok_injective h2 in
    record {
      account = account;
      found = ea;
      approved = not-false (is_account_approved account.account_status) approved;
      code = ap (λ r. r.0.code) same;
      expires = ap (λ r. r.0.expires_at) same;
      stored = ap (λ r. r.1) same;
    }

-- Issuing a code, with a limit of at least one attempt, keeps the same of every code.
pub issue_activation_code-IsCode :
    (crypto : Crypto) (config : Settings) (borrower_id random now : ℕ) (s : Store)
    {grant : ActivationCodeGrant} {s' : Store}
    → 0 < config.borrower_activation_code_max_attempts
    → All IsCode s.people.activation_codes
    → issue_activation_code crypto config borrower_id random now s ≡ ok (grant, s')
    → All IsCode s'.people.activation_codes
issue_activation_code-IsCode crypto config borrower_id random now s limit v h =
    let i = issue_activation_code-IsIssue crypto config borrower_id random now s h in
    subst (λ q. All IsCode q.people.activation_codes) i.stored
      (All-append IsCode
        (update (is_usable i.account.id) (revoke_code now) s.people.activation_codes) _
        (All-update_each IsCode (is_usable i.account.id) (revoke_code now) s.people.activation_codes
          (λ c w. record { within = w.within; spent = inr refl }) v)
        (record { within = omega arith; spent = inl limit }, tt))
