-- ===== src/Calculator/Allocation.antt =====
-- `allocate_payment` of backend/app/features/loans/calculator.py: interest first, then principal,
-- then unapplied credit.
pub mod Waterfall
pub mod Conservation
use nelson_lending_v.Prelude.Result.{
  Result, ok, raise_if, ◌>>=◌, ◌>>◌, amount_not_positive, interest_negative, principal_negative,
}
use nelson_lending_v.Decimal.{Decimal, zero_money, sub, lt, le, minimum, quantize_money}

pub record PaymentAllocationResult : Type 0 where
  pub interest_paid : Decimal
  pub principal_paid : Decimal
  pub unapplied_credit : Decimal
  pub remaining_interest : Decimal
  pub remaining_principal : Decimal

unfoldable pub allocate_payment : Decimal → Decimal → Decimal → Result PaymentAllocationResult
allocate_payment amount interest_due outstanding_principal = do
  raise_if (le amount zero_money) amount_not_positive
  raise_if (lt interest_due zero_money) interest_negative
  raise_if (lt outstanding_principal zero_money) principal_negative
  amount_q ← quantize_money amount
  interest_due_q ← quantize_money interest_due
  principal_q ← quantize_money outstanding_principal
  let interest_paid = minimum amount_q interest_due_q
  let remaining_after_interest = sub amount_q interest_paid
  let principal_paid = minimum remaining_after_interest principal_q
  let unapplied_credit = sub remaining_after_interest principal_paid
  let remaining_interest = sub interest_due_q interest_paid
  let remaining_principal = sub principal_q principal_paid
  interest_paid_q ← quantize_money interest_paid
  principal_paid_q ← quantize_money principal_paid
  unapplied_credit_q ← quantize_money unapplied_credit
  remaining_interest_q ← quantize_money remaining_interest
  remaining_principal_q ← quantize_money remaining_principal
  ok (record {
    interest_paid = interest_paid_q;
    principal_paid = principal_paid_q;
    unapplied_credit = unapplied_credit_q;
    remaining_interest = remaining_interest_q;
    remaining_principal = remaining_principal_q;
  })
