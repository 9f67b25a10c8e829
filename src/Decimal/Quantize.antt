-- ===== src/Decimal/Quantize.antt =====
-- What the quantizers return: a value on the wanted grid, the one nearest to the argument.
use nelson_lending_v.Prelude.{ℕ, ◌+◌, ◌-◌, ◌*◌, ◌^◌, ◌≤◌, ◌<◌, ◌≡◌, refl, arith, suc, zero}
use nelson_lending_v.Prelude.Int.{ℤ, pos, negsuc, abs, sign_as}
use nelson_lending_v.Prelude.Result.{ok}
use nelson_lending_v.Decimal.{
  Decimal, decimal, cents, precision_limit, quantize, quantize_money, round_half_up,
}

pub abs-sign_as : (a : ℤ) (n : ℕ) → abs (sign_as a n) ≡ n
abs-sign_as (pos m) n = refl
abs-sign_as (negsuc m) zero = refl
abs-sign_as (negsuc m) (suc n) = ground arith

-- A quantized value has the wanted places and at most 28 digits.
pub quantize_fits :
    (k : ℕ) (d : Decimal) {q : Decimal}
    → quantize k d ≡ ok q
    → (q.places ≡ k) × (abs q.coefficient < precision_limit)
unfolding quantize
quantize_fits k d h = ground arith

-- Over the finer of the two grids, a value `n` of the argument and the result's `c`.
abbrev pub Nearest : ℕ → ℕ → ℕ → Type 0
Nearest unit n c = (2 * (c * unit) ≤ 2 * n + unit) × (2 * n < 2 * (c * unit) + unit)

pub quantize_coefficient :
    (k : ℕ) (d : Decimal) {q : Decimal}
    → quantize k d ≡ ok q
    → q.coefficient
      ≡ sign_as d.coefficient
          (round_half_up (abs d.coefficient) (10 ^ (d.places - k)) * 10 ^ (k - d.places))
unfolding quantize
quantize_coefficient k d h = ground arith

-- A value of `k` places and at most 28 digits that is the nearest one to `d`, on its side of zero.
abbrev pub IsRounding : ℕ → Decimal → Decimal → Type 0
IsRounding k d q =
    (q.places ≡ k)
    × (abs q.coefficient < precision_limit)
    × Nearest (10 ^ (d.places - k)) (abs d.coefficient * 10 ^ (k - d.places)) (abs q.coefficient)
    × (q.coefficient ≡ sign_as d.coefficient (abs q.coefficient))

pub quantize_money_fits :
    (d : Decimal)
    → {q : Decimal} → quantize_money d ≡ ok q
    → (q.places ≡ 2) × (abs q.coefficient < precision_limit)
unfolding quantize_money
quantize_money_fits d h = quantize_fits 2 d h

pub round_half_up_small : (n u : ℕ) → 2 * n < u → round_half_up n u ≡ 0
unfolding round_half_up
round_half_up_small n u h = grind arith

-- Less than half a centavo is rounded to nothing.
pub quantize_money_vanishing :
    (n places : ℕ)
    → 2 * n < 10 ^ (places - 2)
    → quantize_money (decimal (pos n) places) ≡ ok (cents (pos 0))
unfolding quantize_money
quantize_money_vanishing n places h =
    rw (round_half_up_small n (10 ^ (places - 2)) h) (ground arith)

pub quantize_money-is_cents :
    (d : Decimal) {q : Decimal} → quantize_money d ≡ ok q → q ≡ cents q.coefficient
quantize_money-is_cents d h = ground (arith, quantize_money_fits d h)
