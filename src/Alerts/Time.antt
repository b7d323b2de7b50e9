-- ===== src/Alerts/Time.antt =====
-- Instants and their stored form: web/alerts/time.go, the time helpers of web/alerts/store.go and
-- what the evaluator uses of Go's `time`. An instant is the number of nanoseconds since the zero
-- time of Go (so `IsZero` is a test for 0). An RFC3339 text is represented by the second that it
-- names: `Format` drops the fraction of a second, `Parse` gives the beginning of that second.
pub mod Wire
use monitorbeat.Base.{
  ℕ, ◌-◌, ◌*◌, ◌/◌, ◌≤◌, min, ◌≡◌, Bool, false, not, Option, none, some, arith, leb, ◌==◌,
  if◌then◌else◌,
}
use monitorbeat.Base.Int.{ℤ, pos, negsuc, int64_max}

-- `time.Second` and five minutes, as durations.
abbrev pub second : ℕ
second = 1000000000

abbrev pub five_minutes : ℕ
five_minutes = 300 * second

unfoldable pub format_rfc3339 : ℕ → ℕ
format_rfc3339 t = t / second

-- `parseRFC3339OrZero`, on a text that `Format` wrote for a year up to 9999; the parse of a later
-- year fails in the source.
unfoldable pub parse_rfc3339 : ℕ → ℕ
parse_rfc3339 s = s * second

-- `formatPtrTime`: a nil pointer is stored as NULL.
unfoldable pub format_ptr : Option ℕ → Option ℕ
unfolding format_rfc3339
format_ptr none = none
format_ptr (some t) = some (format_rfc3339 t)

-- `parsePtrTime`.
unfoldable pub parse_ptr : Option ℕ → Option ℕ
unfolding parse_rfc3339
parse_ptr none = none
parse_ptr (some s) = some (parse_rfc3339 s)

-- `p != nil && !p.IsZero()`.
unfoldable pub is_set : Option ℕ → Bool
is_set none = false
is_set (some t) = not (t == 0)

-- `p.Time` where `is_set p`, and another instant where not.
unfoldable pub set_or : Option ℕ → ℕ → ℕ
unfolding is_set
set_or none d = d
set_or (some t) d = if not (t == 0) then t else d

-- `t.Sub(u)`: a duration that saturates at the ends of int64.
unfoldable pub sub_time : ℕ → ℕ → ℤ
sub_time t u = if leb u t then pos (min (t - u) int64_max) else negsuc (min (u - t - 1) int64_max)

pub parse-format : (t : ℕ) → parse_rfc3339 (format_rfc3339 t) ≤ t
unfolding parse_rfc3339 format_rfc3339
parse-format t = omega arith

pub format-parse : (s : ℕ) → format_rfc3339 (parse_rfc3339 s) ≡ s
unfolding parse_rfc3339 format_rfc3339
format-parse s = omega arith
