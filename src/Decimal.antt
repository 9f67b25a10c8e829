-- ===== src/Decimal.antt =====
-- Python's `decimal.Decimal` under the default context (28 significant digits, ROUND_HALF_EVEN),
-- as far as the backend uses it, and the two quantizers of
-- backend/app/features/loans/calculator.py. A finite value is an integer coefficient over a power
-- of ten; the sign of zero is not kept.
pub mod Cents
pub mod Quantize
pub mod Overflow
pub mod Sign
pub mod Closing
mod Tests
use nelson_lending_v.Prelude.{
  ℕ, zero, suc, ◌+◌, ◌-◌, ◌*◌, ◌/◌, ◌%◌, ◌^◌, Bool, not, ◌&&◌, ◌||◌, ltb, leb, ◌==◌, if◌then◌else◌,
}
use nelson_lending_v.Prelude.Int.{ℤ, pos, abs, sign_as, ◌+ℤ◌, ◌-ℤ◌, ◌*ℤ◌, ltb_ℤ, leb_ℤ, eqb_ℤ}
use nelson_lending_v.Prelude.Result.{Result, ok, err, invalid_operation, division_by_zero}

-- coefficient * 10 ^ -places
pub record Decimal : Type 0 where
  pub coefficient : ℤ
  pub places : ℕ

abbrev pub decimal : ℤ → ℕ → Decimal
decimal c p = record { coefficient = c; places = p }

-- An amount of money in centavos.
abbrev pub cents : ℤ → Decimal
cents c = decimal c 2

-- `Decimal("0")` and `Decimal("0.00")` compare alike; money columns hold the second.
abbrev pub zero_money : Decimal
zero_money = cents (pos 0)

-- The least coefficient that the context cannot hold.
abbrev pub precision_limit : ℕ
precision_limit = 10 ^ 28

-- n / p to the nearest integer, ties to the even one.
unfoldable pub round_half_even : ℕ → ℕ → ℕ
round_half_even n p =
    let q = n / p in
    let r = n % p in if ltb p (2 * r) || ((2 * r == p) && (q % 2 == 1)) then q + 1 else q

-- n / p to the nearest integer, ties away from zero.
unfoldable pub round_half_up : ℕ → ℕ → ℕ
round_half_up n p = (2 * n + p) / (2 * p)

-- The number of low digits of `n` past the 28th, at least `k`. The fuel `n` is enough.
excess_from : ℕ → ℕ → ℕ → ℕ
excess_from zero n k = k
excess_from (suc f) n k =
    let rest = excess_from f n (k + 1) in if ltb n (10 ^ (28 + k)) then k else rest

-- The context's rounding of an exact result.
unfoldable pub context_round : Decimal → Decimal
unfolding excess_from round_half_even
context_round d =
    let n = abs d.coefficient in
    let k = excess_from n n 0 in
    let long =
      decimal (sign_as d.coefficient (round_half_even n (10 ^ k) * 10 ^ (k - d.places)))
        (d.places - k) in
    if ltb n precision_limit then d else long

-- The coefficient with `extra` more places.
abbrev pub shifted : Decimal → ℕ → ℤ
shifted d extra = sign_as d.coefficient (abs d.coefficient * 10 ^ extra)

-- The coefficient of `a` over the larger number of places of `a` and `b`.
abbrev pub aligned : Decimal → Decimal → ℤ
aligned a b = shifted a (b.places - a.places)

abbrev pub common_places : Decimal → Decimal → ℕ
common_places a b = a.places + (b.places - a.places)

unfoldable pub add : Decimal → Decimal → Decimal
unfolding context_round
add a b = context_round (decimal (aligned a b +ℤ aligned b a) (common_places a b))

unfoldable pub sub : Decimal → Decimal → Decimal
unfolding context_round
sub a b = context_round (decimal (aligned a b -ℤ aligned b a) (common_places a b))

unfoldable pub mul : Decimal → Decimal → Decimal
unfolding context_round
mul a b = context_round (decimal (a.coefficient *ℤ b.coefficient) (a.places + b.places))

-- The number of decimal digits of `n`, at least `k`. The fuel `n` is enough.
digits_from : ℕ → ℕ → ℕ → ℕ
digits_from zero n k = k
digits_from (suc f) n k = let rest = digits_from f n (k + 1) in if ltb n (10 ^ k) then k else rest

-- n / m, correctly rounded half-even to 28 digits: the numerator is scaled so that the quotient
-- has at least 28 digits, and the digits past the 28th are rounded away. `m` is not zero.
unfoldable pub ratio : ℕ → ℕ → Decimal
unfolding digits_from excess_from round_half_even
ratio n m =
    let scale = 28 + digits_from m m 0 in
    let wide = n * 10 ^ scale in
    let k = excess_from (wide / m) (wide / m) 0 in
    decimal (pos (round_half_even wide (m * 10 ^ k) * 10 ^ (k - scale))) (scale - k)

-- `a / b`: a zero divisor raises, and the quotient is rounded once.
unfoldable pub div : Decimal → Decimal → Result Decimal
unfolding ratio
div a b =
    let n = abs a.coefficient * 10 ^ b.places in
    let m = abs b.coefficient * 10 ^ a.places in
    let q = ratio n m in
    let negative =
      if ltb_ℤ a.coefficient (pos 0)
      then not (ltb_ℤ b.coefficient (pos 0))
      else ltb_ℤ b.coefficient (pos 0) in
    if abs b.coefficient == 0
    then err (if abs a.coefficient == 0 then invalid_operation else division_by_zero)
    else ok (if negative then decimal (pos 0 -ℤ q.coefficient) q.places else q)

-- `base ** (-n)` of a positive base: the exact power, rounded once. `decimal` documents its
-- power with an integer exponent as correctly rounded in all but rare cases.
unfoldable pub negative_power : Decimal → ℕ → Decimal
unfolding ratio
negative_power base n = ratio (10 ^ (base.places * n)) (abs base.coefficient ^ n)

-- Comparison is exact.
unfoldable pub lt : Decimal → Decimal → Bool
lt a b = ltb_ℤ (aligned a b) (aligned b a)

unfoldable pub le : Decimal → Decimal → Bool
le a b = leb_ℤ (aligned a b) (aligned b a)

unfoldable pub eq : Decimal → Decimal → Bool
eq a b = eqb_ℤ (aligned a b) (aligned b a)

-- `min(a, b)` keeps the first argument unless the second is smaller.
unfoldable pub minimum : Decimal → Decimal → Decimal
unfolding lt
minimum a b = if lt b a then b else a

-- `d.quantize(10 ^ -places, rounding=ROUND_HALF_UP)`: a coefficient of more than 28 digits is an
-- `InvalidOperation`.
unfoldable pub quantize : ℕ → Decimal → Result Decimal
unfolding round_half_up
quantize places d =
    let n = abs d.coefficient in
    let rounded =
      sign_as d.coefficient
        (round_half_up n (10 ^ (d.places - places)) * 10 ^ (places - d.places)) in
    if ltb (abs rounded) precision_limit then ok (decimal rounded places) else err invalid_operation

unfoldable pub quantize_money : Decimal → Result Decimal
unfolding quantize
quantize_money = quantize 2

unfoldable pub quantize_rate : Decimal → Result Decimal
unfolding quantize
quantize_rate = quantize 10
