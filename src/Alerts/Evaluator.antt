-- ===== src/Alerts/Evaluator.antt =====
-- One tick of the alert evaluator: web/alerts/evaluator.go.
pub mod Reconcile
pub mod Due
pub mod Mails
pub mod Loops
pub mod Frame
pub mod Refinement
pub mod Phase
pub mod Keeps
use monitorbeat.Base.{
  ◌≡◌, refl, ◌⊎◌, inl, inr, ℕ, suc, ◌+◌, ◌*◌, Bool, true, false, not, ◌&&◌, ◌||◌, Option, none,
  some, List, [], ◌∷◌, ◌++◌, map, filter, find, ltb, ◌==◌, if◌then◌else◌, is_some,
}
use monitorbeat.Base.Int.{ℤ, pos, negsuc, leb_int, mul64}
use monitorbeat.Base.Text.{Text, codes, text_eq}
use monitorbeat.Alerts.Labels.{Labels, label, fingerprint}
use monitorbeat.Alerts.Time.{second, five_minutes, is_set, set_or, sub_time}
use monitorbeat.Alerts.Models.{
  Status, ok, pending, firing, Notice, fired, recovered, AlertState, AlertRule, Instance, Mail,
  Vector, World, Env,
}
use monitorbeat.Alerts.Monad.{Result, value, error, M, ◌>>=◌, ◌>>◌, skip, attempt, time_now, query}
use monitorbeat.Alerts.Store.{
  upsert_state, clear_ack, set_last_notified, get_active_states, add_history,
}
use monitorbeat.Alerts.Store.Rules.{get_enabled_rules}

-- `if e.email != nil { e.email.SendAlert(…) }`; its error is only logged.
unfoldable pub send_alert : Env → AlertRule → Labels → ℕ → Notice → M (Unit {0})
send_alert env rule labels val state w = (
  value tt,
  if env.email
      then record w {
        mails =
            w.mails
            ++ record {
              rule = rule;
              hostname = label (codes "hostname") labels;
              labels = labels;
              value = val;
              state = state;
            }
              ∷ [];
      }
      else w,
)

-- `fire`.
unfoldable pub fire : Env → AlertRule → Instance → M (Unit {0})
unfolding send_alert
fire env rule inst = do
  attempt
      (add_history env rule.id rule.name inst.fingerprint inst.labels rule.expr inst.value fired)
  now ← time_now env
  attempt (set_last_notified env rule.id inst.fingerprint now)
  send_alert env rule inst.labels inst.value fired

-- `recover`.
unfoldable pub recover : Env → AlertRule → Labels → ℕ → M (Unit {0})
unfolding send_alert
recover env rule labels val = do
  let fp = fingerprint env.sha256_hex labels
  attempt (add_history env rule.id rule.name fp labels rule.expr val recovered)
  send_alert env rule labels val recovered

pub Status-cases : (s : Status) → (s ≡ ok) ⊎ ((s ≡ pending) ⊎ (s ≡ firing))
Status-cases ok = inl refl
Status-cases pending = inr (inl refl)
Status-cases firing = inr (inr refl)

-- `findState`.
unfoldable pub find_state : List AlertState → Text → Option AlertState
find_state states fp = find (λ s. text_eq s.fingerprint fp) states

-- `rule.Duration == 0`.
unfoldable pub is_zero : ℤ → Bool
is_zero (pos n) = n == 0
is_zero (negsuc n) = false

abbrev pub put_state : Env → AlertRule → Instance → Status → Option ℕ → Option ℕ → M (Unit {0})
put_state env rule inst status pending_since firing_since = attempt (
    upsert_state env rule.id inst.fingerprint inst.labels status inst.value pending_since
      firing_since)

-- `case h == nil`.
unfoldable pub observe_new : Env → AlertRule → ℕ → Instance → M (Unit {0})
unfolding is_zero
observe_new env rule now inst =
    if is_zero rule.duration
    then (do put_state env rule inst firing none (some now); fire env rule inst)
    else put_state env rule inst pending (some now) none

-- `now.Sub(pendingSince) >= time.Duration(rule.Duration)*time.Second`.
unfoldable pub is_due : AlertRule → ℕ → ℕ → Bool
is_due rule now since = leb_int (mul64 rule.duration second) (sub_time now since)

-- `case h.Status == "pending"`.
unfoldable pub observe_pending : Env → AlertRule → ℕ → Instance → AlertState → M (Unit {0})
unfolding is_due
observe_pending env rule now inst h =
    let since = set_or h.pending_since now in
    if is_due rule now since
    then (do put_state env rule inst firing none (some now); fire env rule inst)
    else put_state env rule inst pending (some since) none

-- The notification was sent less than five minutes ago.
unfoldable pub is_limited : AlertState → ℕ → Bool
is_limited h now =
    is_set h.last_notified_at
    && not (leb_int (pos five_minutes) (sub_time now (set_or h.last_notified_at 0)))

-- `SilenceUntil` is set, and `now` is before it or not.
unfoldable pub is_silent : AlertState → ℕ → Bool
is_silent h now = is_set h.silence_until && ltb now (set_or h.silence_until 0)

unfoldable pub silence_over : AlertState → ℕ → Bool
silence_over h now = is_set h.silence_until && not (ltb now (set_or h.silence_until 0))

-- `UpsertState` of a firing instance, which keeps since when it fires.
unfoldable pub refresh : Env → AlertRule → ℕ → Instance → AlertState → M (Unit {0})
refresh env rule now inst h = put_state env rule inst firing none (some (set_or h.firing_since now))

-- A silence that is over is cleared.
unfoldable pub end_silence : Env → AlertRule → ℕ → Instance → AlertState → M (Unit {0})
unfolding silence_over
end_silence env rule now inst h =
    if silence_over h now then attempt (clear_ack env rule.id inst.fingerprint) else skip

unfoldable pub notify_again : Env → AlertRule → ℕ → Instance → AlertState → M (Unit {0})
unfolding is_limited refresh
notify_again env rule now inst h =
    if is_limited h now
    then refresh env rule now inst h
    else (refresh env rule now inst h >> fire env rule inst)

-- `case h.Status == "firing"`.
unfoldable pub observe_firing : Env → AlertRule → ℕ → Instance → AlertState → M (Unit {0})
unfolding end_silence notify_again is_silent
observe_firing env rule now inst h =
    if is_set h.acknowledged_at || is_silent h now
    then refresh env rule now inst h
    else (end_silence env rule now inst h >> notify_again env rule now inst h)

-- The `switch` on what `findState` gives.
unfoldable pub observe_found : Env → AlertRule → ℕ → Instance → Option AlertState → M (Unit {0})
unfolding observe_new observe_pending observe_firing
observe_found env rule now inst none = observe_new env rule now inst
observe_found env rule now inst (some h) = elim h.status [
  | ok ↦ skip
  | pending ↦ observe_pending env rule now inst h
  | firing ↦ observe_firing env rule now inst h
]

-- The body of the loop over the current instances.
unfoldable pub observe : Env → AlertRule → ℕ → List AlertState → Instance → M (Unit {0})
unfolding find_state observe_found
observe env rule now historical inst =
    observe_found env rule now inst (find_state historical inst.fingerprint)

-- `for fp, inst := range current`. The body has no error of its own.
unfoldable pub observe_all : Env → AlertRule → ℕ → List AlertState → List Instance → M (Unit {0})
unfolding observe
observe_all env rule now historical [] = skip
observe_all env rule now historical (i ∷ l) =
    attempt (observe env rule now historical i) >> observe_all env rule now historical l

-- `current[fp]`.
unfoldable pub find_instance : List Instance → Text → Option Instance
find_instance l fp = find (λ i. text_eq i.fingerprint fp) l

-- `UpsertState` with status "ok".
unfoldable pub clear_state : Env → AlertRule → AlertState → M (Unit {0})
clear_state env rule h =
    attempt (upsert_state env rule.id h.fingerprint h.labels ok h.last_value none none)

-- The `switch` on the status of a state whose series is gone.
unfoldable pub resolve_absent : Env → AlertRule → AlertState → M (Unit {0})
unfolding clear_state
resolve_absent env rule h = elim h.status [
  | ok ↦ skip
  | pending ↦ clear_state env rule h
  | firing ↦ do
    clear_state env rule h
    attempt (clear_ack env rule.id h.fingerprint)
    recover env rule h.labels h.last_value
]

-- The body of the loop over the historical states.
unfoldable pub resolve : Env → AlertRule → List Instance → AlertState → M (Unit {0})
unfolding find_instance resolve_absent
resolve env rule current h =
    if is_some (find_instance current h.fingerprint) then skip else resolve_absent env rule h

unfoldable pub resolve_all : Env → AlertRule → List Instance → List AlertState → M (Unit {0})
unfolding resolve
resolve_all env rule current [] = skip
resolve_all env rule current (h ∷ l) =
    attempt (resolve env rule current h) >> resolve_all env rule current l

-- `current[fp] = instance{…}`: a later series with the fingerprint replaces the earlier one.
unfoldable pub put_instance : Instance → List Instance → List Instance
put_instance i [] = i ∷ []
put_instance i (j ∷ l) = if text_eq j.fingerprint i.fingerprint then i ∷ l else j ∷ put_instance i l

-- A nil `Metric` stands for the empty map.
unfoldable pub labels_of : Option Labels → Labels
labels_of none = []
labels_of (some l) = l

unfoldable pub instance_of : Env → Vector → Instance
unfolding labels_of
instance_of env v =
    let labels = labels_of v.metric in
    record { fingerprint = fingerprint env.sha256_hex labels; labels = labels; value = v.value }

-- The loop that builds `current`.
unfoldable pub collect : Env → List Instance → List Vector → List Instance
unfolding put_instance instance_of
collect env current [] = current
collect env current (v ∷ l) = collect env (put_instance (instance_of env v) current) l

-- The two loops of `evaluateRule`.
unfoldable pub reconcile_with : Env → AlertRule → List Instance → List AlertState → M (Unit {0})
unfolding observe_all resolve_all
reconcile_with env rule current historical = do
  now ← time_now env
  attempt (observe_all env rule now historical (env.range current))
  resolve_all env rule current historical

-- `evaluateRule`, from the answer of the query on.
unfoldable pub reconcile : Env → AlertRule → List Vector → M (Unit {0})
unfolding collect reconcile_with
reconcile env rule results =
    get_active_states env rule.id >>= reconcile_with env rule (collect env [] results)

-- `evaluateRule`.
unfoldable pub evaluate_rule : Env → AlertRule → M (Unit {0})
unfolding reconcile
evaluate_rule env rule = query env rule.expr >>= reconcile env rule

unfoldable pub evaluate_rules : Env → List AlertRule → M (Unit {0})
unfolding evaluate_rule
evaluate_rules env [] = skip
evaluate_rules env (r ∷ l) = attempt (evaluate_rule env r) >> evaluate_rules env l

-- `evaluate`: one tick.
unfoldable pub evaluate : Env → M (Unit {0})
unfolding evaluate_rules
evaluate env = get_enabled_rules env >>= evaluate_rules env
