-- ===== src/Script/Tests.antt =====
-- The output of scripts at concrete inputs.
use monitorbeat.Base.{
  ℕ, zero, suc, ◌≡◌, ◌≤◌, refl, true, Option, none, some, [], ◌∷◌, ◌++◌, length, replicate,
  length-replicate, arith,
}
use monitorbeat.Base.Text.{Text, codes}
use monitorbeat.Input.Decimal.{lacks}
use monitorbeat.Script.{drop_cr, parse_custom}
use monitorbeat.Script.TooLong.{parse_custom_lem}

-- One digit is a number.
abbrev digit : Text → Option ℕ
digit [] = none
digit (c ∷ []) = some c
digit (c ∷ d ∷ s) = none

lacks-replicate : (n : ℕ) → lacks b'\n' (replicate n b'x') ≡ true
lacks-replicate zero = refl
lacks-replicate (suc n) = lacks-replicate n

long_enough : 65536 ≤ length {A = ℕ} (replicate 65536 b'x')
long_enough = let x : ℕ = b'x' in omega (arith, length-replicate 65536 x)

parse_custom_lem_example :
    parse_custom digit (codes "a=1" ++ b'\n' ∷ (replicate 65536 b'x' ++ codes "\nb=2\n"))
    ≡ parse_custom digit (codes "a=1" ++ b'\n' ∷ [])
parse_custom_lem_example =
    parse_custom_lem digit (codes "a=1") (replicate 65536 b'x') (codes "\nb=2\n")
      (lacks-replicate 65536) long_enough

test_custom :
    parse_custom digit (codes "# up\na = 1\r\nhost=h1\nnone\n")
    ≡ ((codes "a", b'1') ∷ [], (codes "host", codes "h1") ∷ [])
unfolding parse_custom drop_cr
test_custom = refl
