-- ===== src/Alerts/Evaluator/Frame.antt =====
-- What one evaluation of a rule leaves alone.
use monitorbeat.Base.{
  ℕ, ◌≡◌, ◌≢◌, refl, true, false, ◌⊎◌, inl, inr, Option, none, arith, ◌==◌, Option-cases,
}
use monitorbeat.Base.Text.{Text}
use monitorbeat.Alerts.Models.{AlertRule, StateRow, World, Env}
use monitorbeat.Alerts.Monad.{exec, query}
use monitorbeat.Alerts.Store.{new_row, unacked, notified, get_active_states}
use monitorbeat.Alerts.Store.States.{row, row-upsert_row, row-update_key}
use monitorbeat.Alerts.Evaluator.{reconcile, evaluate_rule}
use monitorbeat.Alerts.Evaluator.Keeps.{KeepsEdits, evaluate_rule-Keeps}

other-row :
    (env : Env) (id r : ℕ) (fp f : Text) (o : Option StateRow)
    → (r == id) ≡ false
    → KeepsEdits (λ l. row id fp l ≡ o) env r f
unfolding new_row
other-row env id r fp f o ne = record {
  upsert = λ labels status val ps fs l h.
      ground (arith, row-upsert_row id fp (new_row env r f labels status val ps fs) l);
  clear = λ l h. ground (arith, row-update_key r f unacked (λ s. (refl, refl)) id fp l);
  notify = λ s l h. ground (arith, row-update_key r f (notified s) (λ t. (refl, refl)) id fp l);
}

-- Whatever statements fail, the evaluation of a rule changes no state row of another rule.
pub evaluate_rule-other_rules :
    (env : Env) (rule : AlertRule) (id : ℕ) (fp : Text) (w : World)
    → rule.id ≢ id
    → row id fp (evaluate_rule env rule w).1.states ≡ row id fp w.states
evaluate_rule-other_rules env rule id fp w ne =
    evaluate_rule-Keeps (λ l. row id fp l ≡ row id fp w.states) env rule
      (λ f. other-row env id rule.id fp f (row id fp w.states) (ground arith)) w refl

-- Nothing of the tables and the mails differs between two worlds.
pub record SameTables (v w : World) : Type 0 where
  pub same_rules : v.rules ≡ w.rules
  pub same_states : v.states ≡ w.states
  pub same_history : v.history ≡ w.history
  pub same_mails : v.mails ≡ w.mails

-- If the query is answered by an error, or the states of the rule cannot be read, the evaluation
-- changes no table and sends no mail: no instance is taken for recovered.
pub evaluate_rule-fails :
    (env : Env) (rule : AlertRule) (w : World)
    → (env.vm w.queries rule.expr ≡ none) ⊎ (env.fails w.statements ≡ true)
    → SameTables (evaluate_rule env rule w).1 w
unfolding evaluate_rule reconcile query get_active_states exec
evaluate_rule-fails env rule w (inl e) =
    rw (e, query)
      (record { same_rules = refl; same_states = refl; same_history = refl; same_mails = refl })
evaluate_rule-fails env rule w (inr e) = elim (Option-cases (env.vm w.queries rule.expr)) [
  | inl v ↦
      rw (v, query)
        (record { same_rules = refl; same_states = refl; same_history = refl; same_mails = refl })
  | inr (vs, v) ↦
      rw (v, query, e)
        (record { same_rules = refl; same_states = refl; same_history = refl; same_mails = refl })
]
