-- ===== src/Calculator/Allocation/Waterfall.antt =====
-- The allocation in whole centavos.
use nelson_lending_v.Prelude.{ℕ, ◌-◌, ◌≡◌, arith, min, false}
use nelson_lending_v.Prelude.Int.{pos}
use nelson_lending_v.Prelude.Result.{ok}
use nelson_lending_v.Decimal.{Decimal, cents, zero_money, lt, le, quantize_money}
use nelson_lending_v.Decimal.Cents.{minimum-pos, sub-pos, quantize_money-cents}
use nelson_lending_v.Decimal.Quantize.{quantize_money_fits}
use nelson_lending_v.Calculator.Allocation.{PaymentAllocationResult, allocate_payment}

-- The five amounts of a payment of `a` against interest `i` and principal `p`, in centavos.
abbrev pub waterfall : ℕ → ℕ → ℕ → PaymentAllocationResult
waterfall a i p =
    let interest = min a i in
    let principal = min (a - interest) p in
    record {
      interest_paid = cents (pos interest);
      principal_paid = cents (pos principal);
      unapplied_credit = cents (pos (a - interest - principal));
      remaining_interest = cents (pos (i - interest));
      remaining_principal = cents (pos (p - principal));
    }

-- Once the arguments have passed the guards and are rounded to centavos, the result is the
-- waterfall, and no step raises.
pub allocate_payment-eq-waterfall :
    (amount interest principal : Decimal) {a i p : ℕ}
    → le amount zero_money ≡ false
    → lt interest zero_money ≡ false
    → lt principal zero_money ≡ false
    → quantize_money amount ≡ ok (cents (pos a))
    → quantize_money interest ≡ ok (cents (pos i))
    → quantize_money principal ≡ ok (cents (pos p))
    → allocate_payment amount interest principal ≡ ok (waterfall a i p)
unfolding allocate_payment
allocate_payment-eq-waterfall amount interest principal {a} {i} {p} ga gi gp qa qi qp =
    let (_, ha) = quantize_money_fits amount qa in
    let (_, hi) = quantize_money_fits interest qi in
    let (_, hp) = quantize_money_fits principal qp in
    let interest_paid = min a i in
    let principal_paid = min (a - interest_paid) p in
    rw (
      ga,
      gi,
      gp,
      qa,
      qi,
      qp,
      minimum-pos a i,
      sub-pos a interest_paid (omega arith) ha,
      minimum-pos (a - interest_paid) p,
      sub-pos (a - interest_paid) principal_paid (omega arith) (omega arith),
      sub-pos i interest_paid (omega arith) hi,
      sub-pos p principal_paid (omega arith) hp,
      quantize_money-cents (pos interest_paid) (omega arith),
      quantize_money-cents (pos principal_paid) (omega arith),
      quantize_money-cents (pos (a - interest_paid - principal_paid)) (omega arith),
      quantize_money-cents (pos (i - interest_paid)) (omega arith),
      quantize_money-cents (pos (p - principal_paid)) (omega arith),
    )
