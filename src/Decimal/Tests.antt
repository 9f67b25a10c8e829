-- ===== src/Decimal/Tests.antt =====
-- The Decimal model on values worked out with Python's `decimal`.
use nelson_lending_v.Prelude.{◌≡◌, refl}
use nelson_lending_v.Prelude.Int.{pos, negsuc}
use nelson_lending_v.Prelude.Result.{ok}
use nelson_lending_v.Decimal.{decimal, cents, quantize_money, negative_power, div}

-- Decimal("10.005") and Decimal("-10.005")
half_up : quantize_money (decimal (pos 10005) 3) ≡ ok (cents (pos 1001))
unfolding quantize_money
half_up = refl

half_up_negative : quantize_money (decimal (negsuc 10004) 3) ≡ ok (cents (negsuc 1000))
unfolding quantize_money
half_up_negative = refl

-- Decimal("1.05") ** -3
power : negative_power (decimal (pos 105) 2) 3 ≡ decimal (pos 8638375985314760824964906598) 28
unfolding negative_power
power = refl

third :
    div (decimal (pos 2) 0) (decimal (pos 3) 0) ≡ ok (decimal (pos 6666666666666666666666666667) 28)
unfolding div
third = refl
