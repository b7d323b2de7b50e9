-- ===== src/Alerts/Evaluator/Due.antt =====
-- Which instances are due a mail, in plain arithmetic: what web/alerts/evaluator.go is to decide.
use monitorbeat.Base.{
  ℕ, ◌+◌, ◌*◌, ◌≡◌, Bool, true, false, not, ◌&&◌, ◌||◌, Option, none, some, List, map, filter,
  is_some, arith, leb, ltb, ◌==◌,
}
use monitorbeat.Base.Text.{codes}
use monitorbeat.Alerts.Labels.{Labels, label}
use monitorbeat.Alerts.Time.{second, five_minutes, is_set, set_or, sub_time}
use monitorbeat.Alerts.Models.{
  Status, ok, pending, firing, Notice, fired, recovered, AlertState, AlertRule, Instance, Mail,
}
use monitorbeat.Alerts.Evaluator.{is_limited, is_silent, find_state, find_instance}

abbrev pub mail_of : AlertRule → Labels → ℕ → Notice → Mail
mail_of rule labels val n = record {
  rule = rule;
  hostname = label (codes "hostname") labels;
  labels = labels;
  value = val;
  state = n;
}

-- Whether a reported instance is due a mail, in plain arithmetic on instants: `n` is the duration
-- of the rule in seconds.
unfoldable pub is_mail_due : ℕ → ℕ → Option AlertState → Bool
is_mail_due n now none = n == 0
is_mail_due n now (some h) = elim h.status [
  | ok ↦ false
  | pending ↦ leb (set_or h.pending_since now + n * second) now
  | firing ↦
      not (is_set h.acknowledged_at)
      && (not (is_set h.silence_until && ltb now (set_or h.silence_until 0))
          && not
              (is_set h.last_notified_at && ltb now (set_or h.last_notified_at 0 + five_minutes)))
]

-- The mails to the instances that are due one, in their order.
unfoldable pub fired_mails : AlertRule → ℕ → ℕ → List AlertState → List Instance → List Mail
fired_mails rule n now historical l =
    map (λ i. mail_of rule i.labels i.value fired)
      (filter (λ i. is_mail_due n now (find_state historical i.fingerprint)) l)

abbrev pub is_firing : Status → Bool
is_firing ok = false
is_firing pending = false
is_firing firing = true

-- The mails for the firing states that are not reported any more.
unfoldable pub recovered_mails : AlertRule → List Instance → List AlertState → List Mail
recovered_mails rule current l =
    map (λ h. mail_of rule h.labels h.last_value recovered)
      (filter (λ h. is_firing h.status && not (is_some (find_instance current h.fingerprint))) l)

pub is_limited_exact :
    (h : AlertState) (now : ℕ)
    → is_limited h now
      ≡ (is_set h.last_notified_at && ltb now (set_or h.last_notified_at 0 + five_minutes))
unfolding is_limited sub_time
is_limited_exact h now = ground arith

pub loud_exact :
    (h : AlertState) (now : ℕ)
    → (not (is_set h.acknowledged_at || is_silent h now) && not (is_limited h now)) ≡ (
        not (is_set h.acknowledged_at)
        && (not (is_set h.silence_until && ltb now (set_or h.silence_until 0))
            && not (
                is_set h.last_notified_at && ltb now (set_or h.last_notified_at 0 + five_minutes))))
unfolding is_silent
loud_exact h now = rw (is_limited_exact h now) (ground arith)
