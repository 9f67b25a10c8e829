-- ===== src/Calculator/Allocation/Conservation.antt =====
-- No centavo of a payment is lost, interest is served first, and what the guards reject.
use nelson_lending_v.Prelude.{ℕ, ◌+◌, ◌-◌, ◌*◌, ◌^◌, ◌<◌, ◌≡◌, refl, ◌∙◌, ◌⊎◌, arith}
use nelson_lending_v.Prelude.Int.{pos, pos_part}
use nelson_lending_v.Prelude.Result.{ok}
use nelson_lending_v.Decimal.{Decimal, decimal, cents, zero_money, precision_limit}
use nelson_lending_v.Decimal.Cents.{le-zero_money, lt-zero_money, quantize_money-cents}
use nelson_lending_v.Decimal.Quantize.{quantize_money_vanishing}
use nelson_lending_v.Calculator.Allocation.{PaymentAllocationResult, allocate_payment}
use nelson_lending_v.Calculator.Allocation.Waterfall.{waterfall, allocate_payment-eq-waterfall}

-- The centavos of a money value that is not negative.
abbrev pub centavos : Decimal → ℕ
centavos d = pos_part d.coefficient

-- What an allocation of `a` over interest `i` and principal `p` must satisfy: its five amounts are
-- whole centavos and not negative, and add up.
pub record IsAllocation (a i p : ℕ) (r : PaymentAllocationResult) : Type 0 where
  pub in_interest : r.interest_paid ≡ cents (pos (centavos r.interest_paid))
  pub in_principal : r.principal_paid ≡ cents (pos (centavos r.principal_paid))
  pub in_credit : r.unapplied_credit ≡ cents (pos (centavos r.unapplied_credit))
  pub interest_left : r.remaining_interest ≡ cents (pos (centavos r.remaining_interest))
  pub principal_left : r.remaining_principal ≡ cents (pos (centavos r.remaining_principal))
  pub spent : centavos r.interest_paid + centavos r.principal_paid + centavos r.unapplied_credit ≡ a
  pub interest : centavos r.interest_paid + centavos r.remaining_interest ≡ i
  pub principal : centavos r.principal_paid + centavos r.remaining_principal ≡ p
  pub interest_first :
      (centavos r.principal_paid + centavos r.unapplied_credit ≡ 0)
      ⊎ (centavos r.remaining_interest ≡ 0)
  pub credit_last : (centavos r.unapplied_credit ≡ 0) ⊎ (centavos r.remaining_principal ≡ 0)

allocate_payment-cents :
    (a i p : ℕ)
    → 0 < a
    → a < precision_limit
    → i < precision_limit
    → p < precision_limit
    → allocate_payment (cents (pos a)) (cents (pos i)) (cents (pos p)) ≡ ok (waterfall a i p)
allocate_payment-cents a i p h fa fi fp =
    allocate_payment-eq-waterfall (cents (pos a)) (cents (pos i)) (cents (pos p))
      (le-zero_money a 2 h) (lt-zero_money i 2) (lt-zero_money p 2)
      (quantize_money-cents (pos a) fa) (quantize_money-cents (pos i) fi)
      (quantize_money-cents (pos p) fp)

-- A payment of a positive whole number of centavos over balances of whole centavos, all of at most 28
-- digits, is allocated: the five amounts of the result are whole centavos and none is negative, the
-- parts add up to it, each balance is its paid and its remaining part, no principal is paid before
-- the interest is, and no credit is left before the principal is paid.
pub allocate_payment-IsAllocation :
    (a i p : ℕ)
    → 0 < a
    → a < precision_limit
    → i < precision_limit
    → p < precision_limit
    → (r : PaymentAllocationResult) × (allocate_payment
          (cents (pos a))
          (cents (pos i))
          (cents (pos p))
        ≡ ok r)
      × IsAllocation a i p r
allocate_payment-IsAllocation a i p h fa fi fp = (
  waterfall a i p,
  allocate_payment-cents a i p h fa fi fp,
  record {
    in_interest = refl;
    in_principal = refl;
    in_credit = refl;
    interest_left = refl;
    principal_left = refl;
    spent = omega arith;
    interest = omega arith;
    principal = omega arith;
    interest_first = omega arith;
    credit_last = omega arith;
  },
)

-- An amount of less than half a centavo passes the guard, and is allocated as nothing at all.
pub allocate_payment_vanishing :
    (n places i p : ℕ)
    → 0 < n
    → 2 * n < 10 ^ (places - 2)
    → i < precision_limit
    → p < precision_limit
    → allocate_payment (decimal (pos n) places) (cents (pos i)) (cents (pos p))
      ≡ ok (record {
        interest_paid = zero_money;
        principal_paid = zero_money;
        unapplied_credit = zero_money;
        remaining_interest = cents (pos i);
        remaining_principal = cents (pos p);
      })
allocate_payment_vanishing n places i p h small fi fp =
    allocate_payment-eq-waterfall (decimal (pos n) places) (cents (pos i)) (cents (pos p)) {a = 0}
      (le-zero_money n places h) (lt-zero_money i 2) (lt-zero_money p 2)
      (quantize_money_vanishing n places small) (quantize_money-cents (pos i) fi)
      (quantize_money-cents (pos p) fp)
    ∙ ground arith
