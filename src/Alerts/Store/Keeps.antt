-- ===== src/Alerts/Store/Keeps.antt =====
-- What each method of the store does to the table of states, under any failures: it keeps whatever
-- the edit of one statement keeps.
use monitorbeat.Base.{ℕ, Option, List}
use monitorbeat.Base.Text.{Text}
use monitorbeat.Alerts.Labels.{Labels}
use monitorbeat.Alerts.Models.{Status, Notice, StateRow, World, Env}
use monitorbeat.Alerts.Monad.{time_now}
use monitorbeat.Alerts.Monad.Keeps.{Keeps, bind, exec-Keeps, time_now-Keeps}
use monitorbeat.Alerts.Time.{format_rfc3339, format_ptr}
use monitorbeat.Alerts.Store.{
  upsert_row, update_key, new_row, upsert_state, update_states, acked, unacked, notified,
  set_acknowledged, clear_ack, set_last_notified, get_active_states, add_history,
}

-- A property of the table of states.
abbrev pub On : (List StateRow → Type 0) → World → Type 0
On S w = S w.states

module _ (S : List StateRow → Type 0) (env : Env) where
  pub upsert_state-Keeps :
      (rule_id : ℕ) (fp : Text) (labels : Labels) (status : Status) (val : ℕ) (p f : Option ℕ)
      → ((l : List StateRow)
          → S l
          → S (upsert_row (new_row env rule_id fp labels status val p f) l))
      → Keeps (On S) (upsert_state env rule_id fp labels status val p f)
  unfolding upsert_state
  upsert_state-Keeps rule_id fp labels status val p f k =
      exec-Keeps (On S) env _ (λ w h. h) (λ w. k w.states)

  pub update_states-Keeps :
      (rule_id : ℕ) (fp : Text) (g : StateRow → StateRow)
      → ((l : List StateRow) → S l → S (update_key rule_id fp g l))
      → Keeps (On S) (update_states env rule_id fp g)
  update_states-Keeps rule_id fp g k = exec-Keeps (On S) env _ (λ w h. h) (λ w. k w.states)

  pub set_acknowledged-Keeps :
      (rule_id : ℕ) (fp : Text) (silence : Option ℕ)
      → ((k : ℕ) (l : List StateRow)
          → S l
          → S (update_key rule_id fp (acked (format_rfc3339 (env.clock k)) (format_ptr silence)) l))
      → Keeps (On S) (set_acknowledged env rule_id fp silence)
  unfolding set_acknowledged time_now
  set_acknowledged-Keeps rule_id fp silence k w h =
      update_states-Keeps rule_id fp _ (k w.readings) (time_now env w).1 h

  pub clear_ack-Keeps :
      (rule_id : ℕ) (fp : Text)
      → ((l : List StateRow) → S l → S (update_key rule_id fp unacked l))
      → Keeps (On S) (clear_ack env rule_id fp)
  unfolding clear_ack
  clear_ack-Keeps rule_id fp k = update_states-Keeps rule_id fp unacked k

  pub set_last_notified-Keeps :
      (rule_id : ℕ) (fp : Text) (t : ℕ)
      → ((s : ℕ) (l : List StateRow) → S l → S (update_key rule_id fp (notified s) l))
      → Keeps (On S) (set_last_notified env rule_id fp t)
  unfolding set_last_notified
  set_last_notified-Keeps rule_id fp t k = update_states-Keeps rule_id fp _ (k (format_rfc3339 t))

  pub get_active_states-Keeps : (rule_id : ℕ) → Keeps (On S) (get_active_states env rule_id)
  unfolding get_active_states
  get_active_states-Keeps rule_id = exec-Keeps (On S) env _ (λ w h. h) (λ w h. h)

  pub add_history-Keeps :
      (rule_id : ℕ) (rule_name fp : Text) (labels : Labels) (expr : Text) (val : ℕ) (n : Notice)
      → Keeps (On S) (add_history env rule_id rule_name fp labels expr val n)
  unfolding add_history
  add_history-Keeps rule_id rule_name fp labels expr val n =
      bind (On S) (time_now env) _ (time_now-Keeps (On S) env (λ w h. h))
        (λ now. exec-Keeps (On S) env _ (λ w h. h) (λ w h. h))
