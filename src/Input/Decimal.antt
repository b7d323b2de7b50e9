-- ===== src/Input/Decimal.antt =====
-- The decimal digits that Go's `%d` prints of an unsigned number.
use monitorbeat.Base.{
  ℕ, zero, suc, ◌+◌, ◌-◌, ◌*◌, ◌/◌, ◌%◌, ◌<◌, ◌≡◌, refl, sym, ap, ◌∙◌, Bool, true, false, not, ◌&&◌,
  ◌||◌, ◌==◌, [], ◌∷◌, ◌++◌, arith, ltb, if◌then◌else◌,
}
use monitorbeat.Base.Text.{Text}

-- The digits of a number below 10 to the fuel; `suc n` is fuel enough for `n`.
unfoldable pub digits : ℕ → ℕ → Text
digits zero n = []
digits (suc fuel) n =
    let rest = digits fuel (n / 10) in
    if ltb n 10 then (b'0' + n) ∷ [] else rest ++ (b'0' + n % 10) ∷ []

unfoldable pub decimal : ℕ → Text
unfolding digits
decimal n = digits (suc n) n

-- The number that digits stand for, behind some that stand for `acc`.
abbrev value : ℕ → Text → ℕ
value acc [] = acc
value acc (c ∷ s) = value (acc * 10 + (c - b'0')) s

value-append : (acc : ℕ) (s t : Text) → value acc (s ++ t) ≡ value (value acc s) t
value-append acc [] t = refl
value-append acc (c ∷ s) t = value-append (acc * 10 + (c - b'0')) s t

value-digits : (fuel n : ℕ) → n < fuel → value 0 (digits fuel n) ≡ n
unfolding digits
value-digits zero n h = absurd (omega arith)
value-digits (suc fuel) n h = ground (
  arith,
  value-digits fuel (n / 10),
  value-append 0 (digits fuel (n / 10)) ((b'0' + n % 10) ∷ []),
)

-- Two numbers with the same digits are equal.
pub decimal_injective : (m n : ℕ) → decimal m ≡ decimal n → m ≡ n
unfolding decimal
decimal_injective m n e =
    sym (value-digits (suc m) m (omega arith))
    ∙ ap (value 0) e
    ∙ value-digits (suc n) n (omega arith)

-- No byte of the text is `c`.
abbrev pub lacks : ℕ → Text → Bool
lacks c [] = true
lacks c (x ∷ s) = not (x == c) && lacks c s

lacks-append : (c : ℕ) (s t : Text) → lacks c s ≡ true → lacks c t ≡ true → lacks c (s ++ t) ≡ true
lacks-append c [] t h k = k
lacks-append c (x ∷ s) t h k = ground (arith, lacks-append c s t)

-- A byte that is no digit.
abbrev no_digit : ℕ → Bool
no_digit c = ltb c b'0' || ltb b'9' c

lacks-digits : (c fuel n : ℕ) → no_digit c ≡ true → lacks c (digits fuel n) ≡ true
unfolding digits
lacks-digits c zero n h = refl
lacks-digits c (suc fuel) n h = ground (
  arith,
  lacks-digits c fuel (n / 10) h,
  lacks-append c (digits fuel (n / 10)) ((b'0' + n % 10) ∷ []),
)

pub lacks-decimal : (c n : ℕ) → no_digit c ≡ true → lacks c (decimal n) ≡ true
unfolding decimal
lacks-decimal c n h = lacks-digits c (suc n) n h

lacks_colon : (c : ℕ) (s t : Text) → lacks c (s ++ (c ∷ t)) ≡ false
lacks_colon c [] t = ground arith
lacks_colon c (x ∷ s) t = ground (arith, lacks_colon c s t)

-- A text is read back behind the last separator.
pub split_last :
    (c : ℕ) (p q s t : Text)
    → lacks c s ≡ true
    → lacks c t ≡ true
    → p ++ (c ∷ s) ≡ q ++ (c ∷ t)
    → (p ≡ q) × (s ≡ t)
split_last c [] [] s t h k e = ground arith
split_last c [] (y ∷ q) s t h k e = ground (arith, lacks_colon c q t)
split_last c (x ∷ p) [] s t h k e = ground (arith, lacks_colon c p s)
split_last c (x ∷ p) (y ∷ q) s t h k e = ground (arith, split_last c p q s t h k)
