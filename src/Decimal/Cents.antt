-- ===== src/Decimal/Cents.antt =====
-- Amounts in centavos: what the Decimal operations do on values that fit the context.
use native.Mathlib.Nat.{pow-suc}
use nelson_lending_v.Prelude.{
  ℕ, zero, suc, ◌^◌, false, ◌+◌, ◌-◌, ◌≤◌, ◌<◌, ◌≡◌, ap, ◌∙◌, min, arith, lt→ltb, if◌then◌else◌,
}
use nelson_lending_v.Prelude.Int.{
  ℤ, pos, negsuc, abs, ◌+ℤ◌, ◌-ℤ◌, ltb_ℤ, leb_ℤ, eqb_ℤ, -ℤ-pos, +ℤ-pos,
}
use nelson_lending_v.Prelude.Result.{ok}
use nelson_lending_v.Decimal.{
  Decimal, decimal, zero_money, cents, precision_limit, aligned, add, sub, lt, le, eq, minimum,
  quantize_money, context_round,
}

pub aligned-cents : (a b : ℤ) → aligned (cents a) (cents b) ≡ a
aligned-cents (pos n) b = ground arith
aligned-cents (negsuc n) b = ground arith

-- A coefficient of at most 28 digits is left alone.
pub context_round_fits : (d : Decimal) → abs d.coefficient < precision_limit → context_round d ≡ d
unfolding context_round
context_round_fits d h = rw (lt→ltb _ _ h)

pub add-cents :
    (a b : ℤ) → abs (a +ℤ b) < precision_limit → add (cents a) (cents b) ≡ cents (a +ℤ b)
unfolding add
add-cents a b h = rw (aligned-cents a b, aligned-cents b a) (context_round_fits (cents (a +ℤ b)) h)

pub sub-eq-context_round : (a b : ℤ) → sub (cents a) (cents b) ≡ context_round (cents (a -ℤ b))
unfolding sub
sub-eq-context_round a b = rw (aligned-cents a b, aligned-cents b a)

pub sub-cents :
    (a b : ℤ) → abs (a -ℤ b) < precision_limit → sub (cents a) (cents b) ≡ cents (a -ℤ b)
unfolding sub
sub-cents a b h = rw (aligned-cents a b, aligned-cents b a) (context_round_fits (cents (a -ℤ b)) h)

pub lt-cents : (a b : ℤ) → lt (cents a) (cents b) ≡ ltb_ℤ a b
unfolding lt
lt-cents a b = rw (aligned-cents a b, aligned-cents b a)

pub le-cents : (a b : ℤ) → le (cents a) (cents b) ≡ leb_ℤ a b
unfolding le
le-cents a b = rw (aligned-cents a b, aligned-cents b a)

pub eq-cents : (a b : ℤ) → eq (cents a) (cents b) ≡ eqb_ℤ a b
unfolding eq
eq-cents a b = rw (aligned-cents a b, aligned-cents b a)

pub minimum-cents : (a b : ℤ) → minimum (cents a) (cents b) ≡ cents (if ltb_ℤ b a then b else a)
unfolding minimum
minimum-cents a b = rw (lt-cents b a) (ground arith)

-- Money is its own quantum.
pub quantize_money-cents :
    (a : ℤ) → abs a < precision_limit → quantize_money (cents a) ≡ ok (cents a)
unfolding quantize_money
quantize_money-cents (pos n) h = ground arith
quantize_money-cents (negsuc n) h = ground arith

-- Amounts that are not negative.
pub minimum-pos : (a b : ℕ) → minimum (cents (pos a)) (cents (pos b)) ≡ cents (pos (min a b))
minimum-pos a b = rw minimum-cents (ground arith)

pub sub-pos :
    (a b : ℕ)
    → b ≤ a
    → a < precision_limit
    → sub (cents (pos a)) (cents (pos b)) ≡ cents (pos (a - b))
sub-pos a b h fits =
    let e = -ℤ-pos a b h in sub-cents (pos a) (pos b) (rw e (omega arith)) ∙ ap cents e

pub add-pos :
    (a b : ℕ) → a + b < precision_limit → add (cents (pos a)) (cents (pos b)) ≡ cents (pos (a + b))
add-pos a b fits = let e = +ℤ-pos a b in add-cents (pos a) (pos b) (rw e fits) ∙ ap cents e

pub pow10_pos : (e : ℕ) → 0 < 10 ^ e
pow10_pos zero = omega arith
pow10_pos (suc e) = rw pow-suc (omega (arith, pow10_pos e))

-- The tests against zero, for any value.
pub le-zero_money : (n p : ℕ) → 0 < n → le (decimal (pos n) p) zero_money ≡ false
unfolding le
le-zero_money n p h = grind (arith, pow10_pos (2 - p))

pub lt-zero_money : (n p : ℕ) → lt (decimal (pos n) p) zero_money ≡ false
unfolding lt
lt-zero_money n p = ground arith
