-- ===== src/Prelude/Result.antt =====
-- The exceptions of the backend as values, and the chain of fallible steps.
use mathlib.Core.Path.{◌≡◌, refl, ap}
use mathlib.Core.Logic.{◌⊎◌, inl, inr}
use mathlib.Core.Bool.{Bool, true, false}
use mathlib.Core.List.{List, ◌∷◌}
use native.Mathlib.Omega.{arith}

-- One constructor for each exception that a modelled function raises: the `ValueError`s of the
-- calculator and of `datetime.date`, the signals of `decimal`, and the HTTP and domain errors of
-- the services.
pub data Error : Type 0 where
  amount_not_positive interest_negative principal_negative : Error
  payments_not_positive first_due_date_not_allowed unsupported_frequency : Error
  rate_negative principal_not_positive term_not_positive : Error
  date_out_of_range invalid_operation division_by_zero : Error
  index_error fuel_exhausted : Error
  multiple_results integrity_error key_error : Error
  too_few_entries entry_negative entry_not_one_sided unbalanced_journal : Error
  journal_not_found business_journal reversal_journal already_reversed : Error
  loan_not_found loan_not_payable loan_already_paid : Error
  payment_in_future payment_before_disbursement payment_out_of_order idempotency_conflict : Error
  invalid_loan_transition request_not_found request_not_approved loan_already_created : Error
  request_conflict request_state rate_unconfigured : Error
  invalid_template invalid_channel invalid_recipient invalid_payload invalid_max_attempts : Error
  auth_failed activation_failed borrower_not_found activation_unavailable invalid_pin : Error
  registration_conflict registration_not_found registration_state : Error
  invalid_phone invalid_national_id validation_error : Error
  owner_exists username_blank password_too_short password_blank invalid_date_range : Error
  notification_not_found cannot_retry batch_not_positive provider_failure : Error

-- What a call does: it raises, or it returns.
pub data Result {ℓ} (A : Type ℓ) : Type ℓ where
  err : (raised : Error) → Result A
  ok : (returned : A) → Result A

infixl 5 ◌>>◌
module _ {ℓ κ} {A : Type ℓ} {B : Type κ} where
  infixl 5 ◌>>=◌
  -- An exception passes the rest of the block by.
  abbrev pub ◌>>=◌ : (call : Result A) (rest : A → Result B) → Result B
  err raised >>= rest = err raised
  ok returned >>= rest = rest returned

  pub >>=-eq-ok :
      (call : Result A) (rest : A → Result B) {b : B}
      → (call >>= rest) ≡ ok b
      → (returned : A) × (call ≡ ok returned) × (rest returned ≡ ok b)
  >>=-eq-ok (err raised) rest h = cc
  >>=-eq-ok (ok returned) rest h = (returned, refl, h)

-- `if c: raise e`
abbrev pub raise_if : Bool → Error → Result (Unit {0})
raise_if true e = err e
raise_if false e = ok tt

abbrev pub ◌>>◌ {ℓ} : {B : Type ℓ} → Result (Unit {0}) → (rest : Result B) → Result B
check >> rest = check >>= λ passed. rest

pub Result-cases {ℓ} :
    {A : Type ℓ} (r : Result A) → ((a : A) × (r ≡ ok a)) ⊎ ((e : Error) × (r ≡ err e))
Result-cases (ok a) = inl (a, refl)
Result-cases (err e) = inr (e, refl)

-- Inversion of the loop step `xs.append(m)` before the rest of the loop.
pub cons-eq_ok {ℓ} :
    {A : Type ℓ} (m : Result A) (n : Result (List A)) {xs : List A}
    → (m >>= λ a. n >>= λ r. ok (a ∷ r)) ≡ ok xs
    → (a : A) × (r : List A) × (m ≡ ok a) × (n ≡ ok r) × (xs ≡ a ∷ r)
cons-eq_ok (ok a) (ok r) h = (a, r, refl, refl, ground arith)
cons-eq_ok (ok a) (err e) h = cc
cons-eq_ok (err e) n h = cc

-- What a guard that let the call pass tells.
pub raise_if-eq_ok {ℓ} :
    {A : Type ℓ} (c : Bool) (e : Error) (m : Result A) {a : A}
    → (raise_if c e >> m) ≡ ok a
    → (c ≡ false) × (m ≡ ok a)
raise_if-eq_ok true e m h = cc
raise_if-eq_ok false e m h = (refl, h)

-- The value of a call that did not raise.
abbrev pub value_or {ℓ} : {A : Type ℓ} → Result A → A → A
value_or (ok a) d = a
value_or (err e) d = d

-- A chain raises only what one of its steps raises.
pub >>=-ends {ℓ κ} :
    {A : Type ℓ} {B : Type κ} (m : Result A) (f : A → Result B) {e : Error}
    → ¬ (m ≡ err e)
    → ((a : A) → ¬ (f a ≡ err e))
    → ¬ ((m >>= f) ≡ err e)
>>=-ends (ok a) f hm hf h = hf a h
>>=-ends (err e') f hm hf h = hm (ground (arith, h))

pub ok_injective {ℓ} : {A : Type ℓ} {a b : A} → ok a ≡ ok b → a ≡ b
ok_injective {a = a} h = ap (λ r. value_or r a) h
