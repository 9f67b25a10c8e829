-- ===== src/Decimal/Closing.antt =====
-- The closing principal of an installment: if it has a quantum in centavos, the two subtractions
-- that lead to it were exact.
use nelson_lending_v.Prelude.{
  ℕ, zero, suc, ◌+◌, ◌-◌, ◌*◌, ◌^◌, ◌≤◌, ◌<◌, ◌≡◌, refl, arith, inl, inr, ltb, ltb→lt, Bool-cases,
}
use nelson_lending_v.Prelude.Int.{ℤ, pos, negsuc, abs, sign_as, ◌-ℤ◌}
use nelson_lending_v.Prelude.Result.{ok, err, invalid_operation}
use nelson_lending_v.Decimal.{
  Decimal, decimal, cents, precision_limit, aligned, sub, context_round, quantize_money,
}
use nelson_lending_v.Decimal.Cents.{pow10_pos, sub-eq-context_round, sub-cents}
use nelson_lending_v.Decimal.Overflow.{
  quantize_money-sub, quantize_money-context_round_long, context_round_long,
}
use nelson_lending_v.Decimal.Sign.{SameSign}

aligned_coarse : (o c : ℤ) (p : ℕ) → p ≤ 2 → aligned (cents o) (decimal c p) ≡ o
aligned_coarse (pos n) c p h = let e : p - 2 ≡ 0 = omega arith in rw e (ground arith)
aligned_coarse (negsuc n) c p h = let e : p - 2 ≡ 0 = omega arith in rw e (ground arith)

aligned_fine :
    (o z : ℤ) (x p : ℕ)
    → 0 < x
    → aligned (decimal (sign_as z x) p) (cents o) ≡ sign_as z (x * 10 ^ (2 - p))
aligned_fine o (pos n) x p h = refl
aligned_fine o (negsuc n) zero p h = elim h [ ]
aligned_fine o (negsuc n) (suc x) p h = ground (arith, pow10_pos (2 - p))

-- A value of at most two places, over two.
sub_coarse :
    (o z : ℤ) (x p : ℕ)
    → p ≤ 2
    → 0 < x
    → sub (cents o) (decimal (sign_as z x) p)
      ≡ context_round (cents (o -ℤ sign_as z (x * 10 ^ (2 - p))))
unfolding sub
sub_coarse o z x p fine h =
    let places : 2 + (p - 2) ≡ 2 = omega arith in
    rw (aligned_coarse o (sign_as z x) p fine, aligned_fine o z x p h, places)

-- A difference of payment and interest that was rounded is too far from the principal.
far :
    (o i z : ℤ) (y : ℕ)
    → abs i < precision_limit
    → SameSign i o
    → precision_limit ≤ y
    → (P : ℤ) → abs P < precision_limit
    → z ≡ P -ℤ i
    → precision_limit ≤ abs z
    → precision_limit ≤ abs (o -ℤ sign_as z y)
unfolding ◌-ℤ◌
far o i z y hi same big P hP e long = ground arith

closing_raises :
    (P i o : ℤ)
    → abs P < precision_limit
    → abs i < precision_limit
    → SameSign i o
    → precision_limit ≤ abs (P -ℤ i)
    → quantize_money (sub (cents o) (sub (cents P) (cents i))) ≡ err invalid_operation
closing_raises P i o hP hi same long =
    let z = P -ℤ i in
    let (x, p, rounded, fine, positive, big) = context_round_long z long in
    rw (sub-eq-context_round P i, rounded, sub_coarse o z x p fine positive)
      (quantize_money-context_round_long (o -ℤ sign_as z (x * 10 ^ (2 - p)))
        (far o i z (x * 10 ^ (2 - p)) hi same big P hP refl long))

pub quantize_money-closing :
    (P i o : ℤ) {q : Decimal}
    → abs P < precision_limit
    → abs i < precision_limit
    → SameSign i o
    → quantize_money (sub (cents o) (sub (cents P) (cents i))) ≡ ok q
    → (sub (cents P) (cents i) ≡ cents (P -ℤ i))
      × (abs (o -ℤ (P -ℤ i)) < precision_limit)
      × (q ≡ cents (o -ℤ (P -ℤ i)))
quantize_money-closing P i o {q} hP hi same h =
    elim (Bool-cases (ltb (abs (P -ℤ i)) precision_limit)) [
      | inl fits ↦
          let e = sub-cents P i (ltb→lt _ _ fits) in
          let (small, eq) = quantize_money-sub o (P -ℤ i) (rw e at h) in (e, small, eq)
      | inr long ↦ absurd (cc (closing_raises P i o hP hi same (ground arith)))
    ]
