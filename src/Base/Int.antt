-- ===== src/Base/Int.antt =====
-- Signed 64-bit integers (Go int64 and time.Duration) as integers, with their wrap-around.
use Prim.Native.Nat.{ℕ, zero, suc, ◌+◌, ◌/◌, ◌-◌, ◌*◌, ◌%◌, ◌≤◌}
use mathlib.Core.Path.{◌≡◌}
use mathlib.Core.Bool.{Bool, true, false, not}
use native.Mathlib.Omega.{arith}
use monitorbeat.Base.Tests.{leb, if◌then◌else◌}

-- `negsuc n` is -(n + 1).
pub data ℤ : Type 0 where
  pos : ℕ → ℤ
  negsuc : ℕ → ℤ

abbrev pub leb_int : ℤ → ℤ → Bool
leb_int (pos a) (pos b) = leb a b
leb_int (pos a) (negsuc b) = false
leb_int (negsuc a) (pos b) = true
leb_int (negsuc a) (negsuc b) = leb b a

abbrev pub int64_mod : ℕ
int64_mod = 18446744073709551616

abbrev pub int64_max : ℕ
int64_max = 9223372036854775807

-- The int64 that a 64-bit pattern stands for.
unfoldable pub signed64 : ℕ → ℤ
signed64 x = if leb x int64_max then pos x else negsuc (int64_mod - x - 1)

-- The 64-bit pattern of an integer, modulo 2^64.
unfoldable pub pattern64 : ℤ → ℕ
pattern64 (pos n) = n % int64_mod
pattern64 (negsuc n) = int64_mod - 1 - n % int64_mod

-- An int64 product with a positive constant; it wraps.
unfoldable pub mul64 : ℤ → ℕ → ℤ
unfolding signed64 pattern64
mul64 a k = signed64 (pattern64 a * k % int64_mod)

pub mul64_exact : (n k : ℕ) → n ≤ int64_max → n * k ≤ int64_max → mul64 (pos n) k ≡ pos (n * k)
unfolding mul64
mul64_exact n k p q = grind arith

abbrev pub lt_int : ℤ → ℤ → Bool
lt_int a b = not (leb_int b a)

abbrev pub is_negative : ℤ → Bool
is_negative (pos n) = false
is_negative (negsuc n) = true

-- An int64 sum; it wraps.
unfoldable pub add64 : ℤ → ℤ → ℤ
unfolding signed64 pattern64
add64 a b = signed64 ((pattern64 a + pattern64 b) % int64_mod)

pub add64_exact : (m n : ℕ) → m + n ≤ int64_max → add64 (pos m) (pos n) ≡ pos (m + n)
unfolding add64
add64_exact m n h = ground arith

-- Go's quotient by a positive number; it is truncated towards zero.
unfoldable pub quot : ℤ → ℕ → ℤ
quot (pos n) k = pos (n / k)
quot (negsuc n) k = elim ((n + 1) / k) [ zero ↦ pos 0 | suc q ↦ negsuc q ]

-- An int64 difference; it wraps.
unfoldable pub sub64 : ℤ → ℤ → ℤ
unfolding signed64 pattern64
sub64 a b = signed64 ((pattern64 a + (int64_mod - pattern64 b)) % int64_mod)

pub sub64_exact : (m n : ℕ) → m ≤ n → n ≤ int64_max → sub64 (pos n) (pos m) ≡ pos (n - m)
unfolding sub64
sub64_exact m n p q = ground arith
