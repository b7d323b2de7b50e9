-- ===== src/Base/Float.antt =====
-- float64 values by their bit patterns: the order of Go's `<` and `>`, the conversion of integers, and
-- the division of a duration by a unit, rounded to nearest with ties to even.
use Prim.Native.Nat.{ℕ, zero, suc, ◌+◌, ◌-◌, ◌*◌, ◌/◌, ◌%◌, ◌^◌, ◌<◌, ◌≤◌}
use mathlib.Core.Bool.{Bool, not, ◌&&◌, ◌||◌}
use native.Mathlib.Omega.{arith}
use monitorbeat.Base.Int.{ℤ, pos, negsuc}
use monitorbeat.Base.Tests.{ltb, ◌==◌, if◌then◌else◌}

-- The pattern of the sign, 2^63, and the modulus of the patterns.
abbrev pub sign_bit : ℕ
sign_bit = 9223372036854775808

abbrev pub float_mod : ℕ
float_mod = 18446744073709551616

-- A NaN has the exponent of the infinities and a mantissa that is not 0.
unfoldable pub is_nan : ℕ → Bool
is_nan p = ltb 0x7ff0000000000000 (p % sign_bit)

-- Where a value that is no NaN stands in the order; the two zeros share a place.
unfoldable pub rank : ℕ → ℕ
rank p = if ltb p sign_bit then sign_bit + p else sign_bit - p % sign_bit

-- `a > b`.
unfoldable pub gt_float : ℕ → ℕ → Bool
unfolding is_nan rank
gt_float a b = not (is_nan a) && not (is_nan b) && ltb (rank b) (rank a)

pub rank-le : (p : ℕ) → p < float_mod → rank p ≤ float_mod
unfolding rank
rank-le p h = ground arith

-- The number of binary digits, of a number below 2 to the fuel.
unfoldable pub width : ℕ → ℕ → ℕ
width zero n = 0
width (suc fuel) n = let rest = width fuel (n / 2) in if n == 0 then 0 else suc rest

-- A quotient rounded by its remainder.
unfoldable pub round_even : ℕ → ℕ → ℕ → ℕ
round_even q r d = if ltb d (2 * r) || (2 * r == d && q % 2 == 1) then q + 1 else q

-- The nearest number of 53 binary digits, for a number below 2 ^ 64.
unfoldable pub nearest : ℕ → ℕ
unfolding round_even width
nearest n = let d = 2 ^ (width 64 n - 53) in round_even (n / d) (n % d) d * d

-- `float64(n)` of a number below 2 ^ 64: the mantissa without its first digit is added to the exponent,
-- so that a mantissa that is rounded up to 2 ^ 53 raises the exponent.
unfoldable pub of_nat : ℕ → ℕ
unfolding round_even width
of_nat n =
    let w = width 64 n in
    let d = 2 ^ (w - 53) in
    if n == 0
    then 0
    else (w + 1022) * 2 ^ 52 + (round_even (n / d) (n % d) d * 2 ^ (53 - w) - 2 ^ 52)

unfoldable pub of_int : ℤ → ℕ
unfolding of_nat
of_int (pos n) = of_nat n
of_int (negsuc n) = sign_bit + of_nat (suc n)

-- The float64 nearest to `a / b`, for numbers below 2 ^ 64 and `b` not 0.
unfoldable pub of_ratio : ℕ → ℕ → ℕ
unfolding round_even width
of_ratio a b =
    let s = 54 + width 64 b in
    let d = width 256 (a * 2 ^ s / b) - 53 in
    let q = round_even (a * 2 ^ s / (2 ^ d * b)) (a * 2 ^ s % (2 ^ d * b)) (2 ^ d * b) in
    if a == 0 then 0 else (1075 + d - s) * 2 ^ 52 + (q - 2 ^ 52)

-- `float64(d) / float64(unit)` of a unit below 2 ^ 53.
unfoldable pub over_unit : ℕ → ℤ → ℕ
unfolding of_ratio nearest
over_unit unit (pos n) = of_ratio (nearest n) unit
over_unit unit (negsuc n) = sign_bit + of_ratio (nearest (suc n)) unit
