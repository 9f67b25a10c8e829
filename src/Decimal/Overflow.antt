-- ===== src/Decimal/Overflow.antt =====
-- A sum or a difference of amounts that the context had to round has no quantum in centavos: if
-- quantizing it succeeds, the operation was exact.
use nelson_lending_v.Prelude.{
  ℕ, zero, suc, ◌+◌, ◌-◌, ◌*◌, ◌/◌, ◌^◌, ◌≤◌, ◌<◌, ◌≡◌, refl, arith, ltb, Bool-cases, inl, inr,
  le→ltb, ltb→lt,
}
use native.Mathlib.Nat.{pow-suc, le-div_iff_mul-le}
use nelson_lending_v.Prelude.Int.{ℤ, abs, sign_as, ◌+ℤ◌, ◌-ℤ◌}
use nelson_lending_v.Prelude.Result.{ok, err, invalid_operation}
use nelson_lending_v.Decimal.{
  Decimal, decimal, cents, precision_limit, add, sub, context_round, round_half_even, excess_from,
  quantize_money,
}
use nelson_lending_v.Decimal.Cents.{
  aligned-cents, context_round_fits, quantize_money-cents, pow10_pos,
}
use nelson_lending_v.Decimal.Quantize.{abs-sign_as}

pow10_split : (k : ℕ) → 10 ^ (28 + k) ≡ 10 ^ 27 * 10 ^ (k + 1)
pow10_split zero = refl
pow10_split (suc k) =
    let e : 28 + suc k ≡ suc (28 + k) = omega arith in
    let f : suc k + 1 ≡ suc (k + 1) = omega arith in
    rw (e, f, pow-suc 10 (28 + k), pow-suc 10 (k + 1)) (omega (arith, pow10_split k))

-- All but 28 digits are counted: what is left has no fewer.
excess_from_lower : (f n k : ℕ) → 10 ^ 27 * 10 ^ k ≤ n → 10 ^ 27 * 10 ^ excess_from f n k ≤ n
unfolding excess_from
excess_from_lower zero n k h = h
excess_from_lower (suc f) n k h = elim (Bool-cases (ltb n (10 ^ (28 + k)))) [
  | inl small ↦ rw small h
  | inr large ↦ rw large (excess_from_lower f n (k + 1) (ground (arith, pow10_split k)))
]

le-excess_from : (f n k : ℕ) → k ≤ excess_from f n k
unfolding excess_from
le-excess_from zero n k = omega arith
le-excess_from (suc f) n k = ground (arith, le-excess_from f n (k + 1))

excess_pos : (n : ℕ) → precision_limit ≤ n → 0 < excess_from n n 0
unfolding excess_from
excess_pos zero h = absurd (omega arith)
excess_pos (suc n) h = ground (arith, le-excess_from n (suc n) 1)

round_half_even_lower : (n p : ℕ) → 0 < p → 10 ^ 27 * p ≤ n → 10 ^ 27 ≤ round_half_even n p
unfolding round_half_even
round_half_even_lower n p pp h = ground (arith, (le-div_iff_mul-le pp).1 h)

-- The coefficient of a rounded amount, back over two places, is still too long.
rounded_long :
    (n k : ℕ)
    → 0 < k
    → 10 ^ 27 * 10 ^ k ≤ n
    → precision_limit ≤ round_half_even n (10 ^ k) * 10 ^ (k - 2) * 10 ^ (2 - (2 - k))
rounded_long n zero h l = elim h [ ]
rounded_long n (suc zero) h l = omega (arith, round_half_even_lower n 10 (omega arith) l)
rounded_long n (suc (suc k)) h l =
    let r = round_half_even_lower n (10 ^ suc (suc k)) (pow10_pos (suc (suc k))) l in
    grind (arith, r, pow10_pos k)

quantize_money-long :
    (z : ℤ) (x p : ℕ)
    → p ≤ 2
    → precision_limit ≤ x * 10 ^ (2 - p)
    → quantize_money (decimal (sign_as z x) p) ≡ err invalid_operation
unfolding quantize_money
quantize_money-long z x p fine h =
    let e : p - 2 ≡ 0 = omega arith in
    let whole : (2 * x + 1) / 2 ≡ x = omega arith in simp (e, abs-sign_as, whole, le→ltb _ _ h)

-- An amount that the context had to round: at most two places, and too long over two.
pub context_round_long :
    (z : ℤ)
    → precision_limit ≤ abs z
    → (x : ℕ) × (p : ℕ) × (context_round (cents z) ≡ decimal (sign_as z x) p)
      × (p ≤ 2)
      × (0 < x)
      × (precision_limit ≤ x * 10 ^ (2 - p))
unfolding context_round
context_round_long z h =
    let k = excess_from (abs z) (abs z) 0 in
    let lower = excess_from_lower (abs z) (abs z) 0 (omega arith) in
    let x = round_half_even (abs z) (10 ^ k) in
    let long = rounded_long (abs z) k (excess_pos (abs z) h) lower in
    let big = round_half_even_lower (abs z) (10 ^ k) (pow10_pos k) lower in
    (
      x * 10 ^ (k - 2),
      2 - k,
      rw (le→ltb _ _ h),
      omega arith,
      grind (arith, big, pow10_pos (k - 2)),
      long,
    )

pub quantize_money-context_round_long :
    (z : ℤ)
    → precision_limit ≤ abs z
    → quantize_money (context_round (cents z)) ≡ err invalid_operation
quantize_money-context_round_long z h =
    let (x, p, e, fine, _, long) = context_round_long z h in
    rw e (quantize_money-long z x p fine long)

quantize_money-context_round :
    (z : ℤ) {q : Decimal}
    → quantize_money (context_round (cents z)) ≡ ok q
    → (abs z < precision_limit) × (q ≡ cents z)
quantize_money-context_round z {q} h = elim (Bool-cases (ltb (abs z) precision_limit)) [
  | inl fits ↦
      let small = ltb→lt _ _ fits in
      (small, ground (arith, context_round_fits (cents z) small, quantize_money-cents z small))
  | inr long ↦ ground (arith, quantize_money-context_round_long z)
]

pub quantize_money-sub :
    (a b : ℤ) {q : Decimal}
    → quantize_money (sub (cents a) (cents b)) ≡ ok q
    → (abs (a -ℤ b) < precision_limit) × (q ≡ cents (a -ℤ b))
unfolding sub
quantize_money-sub a b h =
    quantize_money-context_round (a -ℤ b) (rw (aligned-cents a b, aligned-cents b a) at h)

pub quantize_money-add :
    (a b : ℤ) {q : Decimal}
    → quantize_money (add (cents a) (cents b)) ≡ ok q
    → (abs (a +ℤ b) < precision_limit) × (q ≡ cents (a +ℤ b))
unfolding add
quantize_money-add a b h =
    quantize_money-context_round (a +ℤ b) (rw (aligned-cents a b, aligned-cents b a) at h)
