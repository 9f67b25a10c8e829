-- ===== src/Decimal/Sign.antt =====
-- Rounding keeps the sign of a value, and so does a product with a factor that is not negative.
use nelson_lending_v.Prelude.{ℕ, zero, suc, ◌+◌, ◌-◌, ◌^◌, ◌≡◌, ◌⊎◌, false, refl, arith, inl, inr}
use nelson_lending_v.Prelude.Int.{ℤ, pos, negsuc, abs, sign_as, ◌*ℤ◌, ◌≤ℤ◌}
use nelson_lending_v.Prelude.Result.{ok}
use nelson_lending_v.Decimal.{
  Decimal, lt, zero_money, decimal, cents, mul, context_round, quantize_money,
}
use nelson_lending_v.Decimal.Cents.{pow10_pos}
use nelson_lending_v.Decimal.Quantize.{quantize_coefficient, round_half_up_small}

-- Both not negative, or both not positive.
abbrev pub SameSign : ℤ → ℤ → Type 0
SameSign a b = ((pos 0 ≤ℤ a) × (pos 0 ≤ℤ b)) ⊎ ((a ≤ℤ pos 0) × (b ≤ℤ pos 0))

sign_as-nonneg : (z : ℤ) (n : ℕ) → pos 0 ≤ℤ z → pos 0 ≤ℤ sign_as z n
sign_as-nonneg z n h = ground arith

context_round-nonneg :
    (d : Decimal) → pos 0 ≤ℤ d.coefficient → pos 0 ≤ℤ (context_round d).coefficient
unfolding context_round
context_round-nonneg d h = ground arith

-- A value that is not positive: rounding it up leaves zero, or a value under its sign.
sign_as-nonpos : (z : ℤ) (n : ℕ) → z ≤ℤ pos 0 → (z ≡ pos 0 → n ≡ 0) → sign_as z n ≤ℤ pos 0
sign_as-nonpos (pos zero) n h e = omega (arith, e refl)
sign_as-nonpos (pos (suc m)) n h e = absurd (omega arith)
sign_as-nonpos (negsuc m) n h e = ground arith

context_round-nonpos :
    (z : ℤ) (p : ℕ) → z ≤ℤ pos 0 → (context_round (decimal z p)).coefficient ≤ℤ pos 0
unfolding context_round
context_round-nonpos (pos zero) p h = omega arith
context_round-nonpos (pos (suc m)) p h = absurd (omega arith)
context_round-nonpos (negsuc m) p h = ground arith

quantize_money-nonneg :
    (d : Decimal) {q : Decimal}
    → quantize_money d ≡ ok q
    → pos 0 ≤ℤ d.coefficient
    → pos 0 ≤ℤ q.coefficient
unfolding quantize_money
quantize_money-nonneg d h s = rw (quantize_coefficient 2 d h) (sign_as-nonneg d.coefficient _ s)

quantize_money-nonpos :
    (d : Decimal) {q : Decimal}
    → quantize_money d ≡ ok q
    → d.coefficient ≤ℤ pos 0
    → q.coefficient ≤ℤ pos 0
unfolding quantize_money
quantize_money-nonpos d h s = rw (quantize_coefficient 2 d h) (
    sign_as-nonpos d.coefficient _ s λ e.
      rw (e, round_half_up_small 0 (10 ^ (d.places - 2)) (pow10_pos (d.places - 2))) (omega arith))

*ℤ-nonneg : (a r : ℕ) → pos 0 ≤ℤ (pos a *ℤ pos r)
unfolding ◌*ℤ◌
*ℤ-nonneg a r = ground arith

*ℤ-nonpos : (z : ℤ) (r : ℕ) → z ≤ℤ pos 0 → (z *ℤ pos r) ≤ℤ pos 0
unfolding ◌*ℤ◌
*ℤ-nonpos (pos zero) r h = ground arith
*ℤ-nonpos (pos (suc m)) r h = absurd (omega arith)
*ℤ-nonpos (negsuc m) r h = ground arith

-- Interest at a rate that is not negative has the sign of the principal.
pub quantize_money-mul-SameSign :
    (o : ℤ) (r p : ℕ) {q : Decimal}
    → quantize_money (mul (cents o) (decimal (pos r) p)) ≡ ok q
    → SameSign q.coefficient o
unfolding mul
quantize_money-mul-SameSign (pos n) r p h = inl (
  quantize_money-nonneg (context_round (decimal (pos n *ℤ pos r) (2 + p))) h
      (context_round-nonneg (decimal (pos n *ℤ pos r) (2 + p)) (*ℤ-nonneg n r)),
  omega arith,
)
quantize_money-mul-SameSign (negsuc n) r p h = inr (
  quantize_money-nonpos (context_round (decimal (negsuc n *ℤ pos r) (2 + p))) h
      (context_round-nonpos (negsuc n *ℤ pos r) (2 + p) (*ℤ-nonpos (negsuc n) r (omega arith))),
  omega arith,
)

-- A value that passes the test `d < 0` is a natural coefficient.
pub nonneg_of_not-lt : (c : ℤ) (p : ℕ) → lt (decimal c p) zero_money ≡ false → c ≡ pos (abs c)
unfolding lt
nonneg_of_not-lt (pos n) p h = refl
nonneg_of_not-lt (negsuc n) p h = absurd (ground (arith, pow10_pos (2 - p)))
