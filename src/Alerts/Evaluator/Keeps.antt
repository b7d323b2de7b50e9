-- ===== src/Alerts/Evaluator/Keeps.antt =====
-- Under any failures, a tick keeps what its edits of single rows keep.
use monitorbeat.Base.{ℕ, ◌||◌, Option, none, some, List, [], ◌∷◌, Bool-cases, inl, inr, is_some}
use monitorbeat.Base.Text.{Text}
use monitorbeat.Alerts.Labels.{Labels}
use monitorbeat.Alerts.Time.{set_or, is_set}
use monitorbeat.Alerts.Models.{
  Status, ok, pending, firing, Notice, fired, recovered, AlertState, AlertRule, Instance, StateRow,
  Env,
}
use monitorbeat.Alerts.Monad.{◌>>◌, skip, time_now, query}
use monitorbeat.Alerts.Monad.Keeps.{Keeps, bind, branch, query-Keeps, exec-Keeps}
use monitorbeat.Alerts.Store.{upsert_row, update_key, new_row, unacked, notified, get_active_states}
use monitorbeat.Alerts.Store.Rules.{get_enabled_rules}
use monitorbeat.Alerts.Store.Keeps.{
  On, upsert_state-Keeps, clear_ack-Keeps, set_last_notified-Keeps, get_active_states-Keeps,
  add_history-Keeps,
}
use monitorbeat.Alerts.Evaluator.{
  send_alert, fire, recover, put_state, observe_new, observe_pending, observe_firing, refresh,
  notify_again, end_silence, observe_found, clear_state, resolve_absent, observe, observe_all,
  resolve, resolve_all, reconcile_with, reconcile, evaluate_rule, evaluate_rules, evaluate,
  Status-cases, is_zero, is_due, is_silent, silence_over, is_limited, find_state, find_instance,
  collect,
}

-- A property of the table that the three edits of one key keep.
pub record KeepsEdits (S : List StateRow → Type 0) (env : Env) (rule_id : ℕ) (fp : Text)
    : Type 0 where
  pub upsert :
      (labels : Labels) (status : Status) (val : ℕ) (p f : Option ℕ) (l : List StateRow)
      → S l
      → S (upsert_row (new_row env rule_id fp labels status val p f) l)
  pub clear : (l : List StateRow) → S l → S (update_key rule_id fp unacked l)
  pub notify : (s : ℕ) (l : List StateRow) → S l → S (update_key rule_id fp (notified s) l)

module _ (S : List StateRow → Type 0) (env : Env) (rule : AlertRule) where
  skip-Keeps : Keeps (On S) skip
  skip-Keeps w h = h

  pub send_alert-Keeps :
      (labels : Labels) (val : ℕ) (n : Notice) → Keeps (On S) (send_alert env rule labels val n)
  unfolding send_alert
  send_alert-Keeps labels val n w h = elim (Bool-cases env.email) [
    | inl e ↦ rw e h
    | inr e ↦ rw e h
  ]

  pub recover-Keeps : (labels : Labels) (val : ℕ) → Keeps (On S) (recover env rule labels val)
  unfolding recover
  recover-Keeps labels val w h =
      send_alert-Keeps labels val recovered _ (add_history-Keeps S env _ _ _ _ _ _ _ w h)

  pub fire-Keeps :
      (inst : Instance)
      → ((s : ℕ) (l : List StateRow) → S l → S (update_key rule.id inst.fingerprint (notified s) l))
      → Keeps (On S) (fire env rule inst)
  unfolding fire time_now
  fire-Keeps inst notify w h = send_alert-Keeps inst.labels inst.value fired _ (
      set_last_notified-Keeps S env rule.id inst.fingerprint _ notify _
        (add_history-Keeps S env _ _ _ _ _ _ _ w h))

  module _ (inst : Instance) (k : KeepsEdits S env rule.id inst.fingerprint) where
    put_state-Keeps :
        (status : Status) (p f : Option ℕ) → Keeps (On S) (put_state env rule inst status p f)
    put_state-Keeps status p f =
        upsert_state-Keeps S env rule.id inst.fingerprint inst.labels status inst.value p f
          (k.upsert inst.labels status inst.value p f)

    put_fire-Keeps :
        (f : Option ℕ) → Keeps (On S) (put_state env rule inst firing none f >> fire env rule inst)
    put_fire-Keeps f w h = fire-Keeps inst k.notify _ (put_state-Keeps firing none f w h)

    observe_new-Keeps : (now : ℕ) → Keeps (On S) (observe_new env rule now inst)
    unfolding observe_new
    observe_new-Keeps now =
        branch (On S) (is_zero rule.duration) _ _ (put_fire-Keeps (some now))
          (put_state-Keeps pending (some now) none)

    observe_pending-Keeps :
        (now : ℕ) (h : AlertState) → Keeps (On S) (observe_pending env rule now inst h)
    unfolding observe_pending
    observe_pending-Keeps now h =
        branch (On S) (is_due rule now (set_or h.pending_since now)) _ _ (put_fire-Keeps (some now))
          (put_state-Keeps pending (some (set_or h.pending_since now)) none)

    refresh-Keeps : (now : ℕ) (h : AlertState) → Keeps (On S) (refresh env rule now inst h)
    unfolding refresh
    refresh-Keeps now h = put_state-Keeps firing none (some (set_or h.firing_since now))

    notify_again-Keeps :
        (now : ℕ) (h : AlertState) → Keeps (On S) (notify_again env rule now inst h)
    unfolding notify_again
    notify_again-Keeps now h =
        branch (On S) (is_limited h now) _ _ (refresh-Keeps now h)
          (λ w s. fire-Keeps inst k.notify _ (refresh-Keeps now h w s))

    end_silence-Keeps : (now : ℕ) (h : AlertState) → Keeps (On S) (end_silence env rule now inst h)
    unfolding end_silence
    end_silence-Keeps now h =
        branch (On S) (silence_over h now) _ _ (clear_ack-Keeps S env _ _ k.clear) skip-Keeps

    observe_firing-Keeps :
        (now : ℕ) (h : AlertState) → Keeps (On S) (observe_firing env rule now inst h)
    unfolding observe_firing
    observe_firing-Keeps now h =
        branch (On S) (is_set h.acknowledged_at || is_silent h now) _ _ (refresh-Keeps now h) (
          bind (On S) (end_silence env rule now inst h) (λ _. notify_again env rule now inst h)
            (end_silence-Keeps now h) (λ _. notify_again-Keeps now h))

    observe_found-Keeps :
        (now : ℕ) (found : Option AlertState) → Keeps (On S) (observe_found env rule now inst found)
    unfolding observe_found
    observe_found-Keeps now none = observe_new-Keeps now
    observe_found-Keeps now (some h) = elim (Status-cases h.status) [
      | inl e ↦ λ w s. rw (e, observe_found) s
      | inr (inl e) ↦ λ w s. rw (e, observe_found) (observe_pending-Keeps now h w s)
      | inr (inr e) ↦ λ w s. rw (e, observe_found) (observe_firing-Keeps now h w s)
    ]

    pub observe-Keeps :
        (now : ℕ) (historical : List AlertState)
        → Keeps (On S) (observe env rule now historical inst)
    unfolding observe
    observe-Keeps now historical = observe_found-Keeps now (find_state historical inst.fingerprint)

  pub observe_all-Keeps :
      ((fp : Text) → KeepsEdits S env rule.id fp)
      → (now : ℕ) (historical : List AlertState) (l : List Instance)
      → Keeps (On S) (observe_all env rule now historical l)
  unfolding observe_all
  observe_all-Keeps k now historical [] w s = s
  observe_all-Keeps k now historical (i ∷ l) w s =
      observe_all-Keeps k now historical l _ (observe-Keeps i (k i.fingerprint) now historical w s)

  pub resolve_absent-Keeps :
      (h : AlertState)
      → KeepsEdits S env rule.id h.fingerprint
      → Keeps (On S) (resolve_absent env rule h)
  unfolding resolve_absent clear_state
  resolve_absent-Keeps h k = elim (Status-cases h.status) [
    | inl e ↦ λ w s. rw (e, resolve_absent) s
    | inr (inl e) ↦ λ w s. rw (e, resolve_absent) (cleared w s)
    | inr (inr e) ↦ λ w s.
        rw (e, resolve_absent)
          (recover-Keeps h.labels h.last_value _
            (clear_ack-Keeps S env rule.id h.fingerprint k.clear _ (cleared w s)))
  ]
    where
      cleared : Keeps (On S) (clear_state env rule h)
      cleared =
          upsert_state-Keeps S env rule.id h.fingerprint h.labels ok h.last_value none none
            (k.upsert h.labels ok h.last_value none none)

  pub resolve-Keeps :
      (current : List Instance) (h : AlertState)
      → KeepsEdits S env rule.id h.fingerprint
      → Keeps (On S) (resolve env rule current h)
  unfolding resolve
  resolve-Keeps current h k =
      branch (On S) (is_some (find_instance current h.fingerprint)) _ _ skip-Keeps
        (resolve_absent-Keeps h k)

  pub resolve_all-Keeps :
      ((fp : Text) → KeepsEdits S env rule.id fp)
      → (current : List Instance) (l : List AlertState)
      → Keeps (On S) (resolve_all env rule current l)
  unfolding resolve_all
  resolve_all-Keeps k current [] w s = s
  resolve_all-Keeps k current (h ∷ l) w s =
      resolve_all-Keeps k current l _ (resolve-Keeps current h (k h.fingerprint) w s)

  reconcile_with-Keeps :
      ((fp : Text) → KeepsEdits S env rule.id fp)
      → (current : List Instance) (historical : List AlertState)
      → Keeps (On S) (reconcile_with env rule current historical)
  unfolding reconcile_with time_now
  reconcile_with-Keeps k current historical w s = resolve_all-Keeps k current historical _ (
      observe_all-Keeps k (env.clock w.readings) historical (env.range current) (time_now env w).1
        s)

  pub evaluate_rule-Keeps :
      ((fp : Text) → KeepsEdits S env rule.id fp) → Keeps (On S) (evaluate_rule env rule)
  unfolding evaluate_rule
  evaluate_rule-Keeps k =
      bind (On S) (query env rule.expr) (reconcile env rule)
        (query-Keeps (On S) env rule.expr (λ v t. t))
        (λ results.
          bind (On S) (get_active_states env rule.id)
            (reconcile_with env rule (collect env [] results))
            (get_active_states-Keeps S env rule.id)
            (reconcile_with-Keeps k (collect env [] results)))

module _ (S : List StateRow → Type 0) (env : Env) where
  get_enabled_rules-Keeps : Keeps (On S) (get_enabled_rules env)
  unfolding get_enabled_rules
  get_enabled_rules-Keeps = exec-Keeps (On S) env _ (λ w h. h) (λ w h. h)

-- A tick keeps what the edits keep, at every rule and fingerprint.
module _ (S : List StateRow → Type 0) (env : Env)
    (k : (id : ℕ) (fp : Text) → KeepsEdits S env id fp) where
  pub evaluate_rules-Keeps : (l : List AlertRule) → Keeps (On S) (evaluate_rules env l)
  unfolding evaluate_rules
  evaluate_rules-Keeps [] w s = s
  evaluate_rules-Keeps (r ∷ l) w s =
      evaluate_rules-Keeps l _ (evaluate_rule-Keeps S env r (k r.id) w s)

  pub evaluate-Keeps : Keeps (On S) (evaluate env)
  unfolding evaluate
  evaluate-Keeps =
      bind (On S) (get_enabled_rules env) (evaluate_rules env) (get_enabled_rules-Keeps S env)
        evaluate_rules-Keeps
