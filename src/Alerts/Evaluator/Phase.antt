-- ===== src/Alerts/Evaluator/Phase.antt =====
-- The abstract life of one alert instance, and when a pending one becomes firing.
use monitorbeat.Base.{
  ℕ, ◌+◌, ◌*◌, ◌/◌, ◌≤◌, ◌≡◌, refl, Bool, true, false, Option, none, some, arith, leb, ◌==◌,
  if◌then◌else◌,
}
use monitorbeat.Base.Int.{pos, mul64_exact}
use monitorbeat.Alerts.Time.{second, sub_time, set_or, parse_ptr}
use monitorbeat.Alerts.Models.{Status, ok, pending, firing, AlertRule, StateRow}
use monitorbeat.Alerts.Evaluator.{is_due, is_zero}

-- What a row of the state table says: nothing, or since which stamp it is pending or firing.
pub data Phase : Type 0 where
  inactive : Phase
  waiting : Option ℕ → Phase
  alerting : Option ℕ → Phase

abbrev pub status_phase : Status → Option ℕ → Option ℕ → Phase
status_phase ok p f = inactive
status_phase pending p f = waiting p
status_phase firing p f = alerting f

abbrev pub phase : Option StateRow → Phase
phase none = inactive
phase (some s) = status_phase s.status s.pending_since s.firing_since

-- The instant that a stored stamp means at `now`; a missing or zero stamp means `now`.
abbrev pub origin : ℕ → Option ℕ → ℕ
origin now none = now
origin now (some s) = if s == 0 then now else s * second

-- A series that the query reports, for a rule with a duration of `n` seconds.
unfoldable pub seen : ℕ → ℕ → Phase → Phase
seen n now inactive =
    if n == 0 then alerting (some (now / second)) else waiting (some (now / second))
seen n now (waiting since) =
    if leb (origin now since + n * second) now
    then alerting (some (now / second))
    else waiting (some (origin now since / second))
seen n now (alerting since) = alerting (some (origin now since / second))

-- One tick, from whether the series is reported.
unfoldable pub next_phase : ℕ → ℕ → Bool → Phase → Phase
unfolding seen
next_phase n now true p = seen n now p
next_phase n now false p = inactive

-- Durations up to 292 years do not overflow, and are compared exactly.
pub is_due_exact :
    (rule : AlertRule) (n now since : ℕ)
    → rule.duration ≡ pos n
    → n ≤ 9223372036
    → is_due rule now since ≡ leb (since + n * second) now
unfolding is_due sub_time
is_due_exact rule n now since e h =
    rw (e, mul64_exact n second (omega arith) (omega arith)) (ground arith)

pub is_zero_exact :
    (rule : AlertRule) (n : ℕ) → rule.duration ≡ pos n → is_zero rule.duration ≡ (n == 0)
unfolding is_zero
is_zero_exact rule n e = rw e

pub origin_exact : (now : ℕ) (since : Option ℕ) → set_or (parse_ptr since) now ≡ origin now since
unfolding set_or parse_ptr
origin_exact now none = refl
origin_exact now (some s) = ground arith
