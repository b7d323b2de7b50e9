-- ===== src/Alerts/Evaluator/Refinement.antt =====
-- `evaluateRule` refines one tick of the abstract life, for every fingerprint at once.
use monitorbeat.Base.{
  ℕ, suc, ◌≤◌, ◌≡◌, refl, sym, ap, ◌∙◌, Bool, false, ◌||◌, Option, none, some, List, [], ◌∷◌, map,
  find, any, is_some, arith, if◌then◌else◌,
}
use mathlib.Core.Option
use mathlib.Core.List.{Perm}
use monitorbeat.Base.Text.{Text, text_eq, text_eq_iff}
use monitorbeat.Base.Int.{pos}
use monitorbeat.Alerts.Models.{AlertState, AlertRule, Instance, Vector, StateRow, World, Env}
use monitorbeat.Alerts.Monad.{exec, time_now, query}
use monitorbeat.Alerts.Store.{state_of_row, is_active, active_rows, get_active_states}
use monitorbeat.Alerts.Store.States.{row, IsKeyed, active_only, find-active_rows}
use monitorbeat.Alerts.Evaluator.{
  reconcile_with, reconcile, evaluate_rule, find_state, put_instance, instance_of, collect,
}
use monitorbeat.Alerts.Evaluator.Phase.{inactive, phase, seen, next_phase}
use monitorbeat.Alerts.Evaluator.Loops.{
  has_instance, AllActive, find_state-any, has_instance-perm, observe_all-PhaseAt,
  resolve_all-PhaseAt,
}

-- The answer of the query has a series with the fingerprint.
abbrev pub reported : Env → Text → List Vector → Bool
reported env fp = any (λ v. text_eq (instance_of env v).fingerprint fp)

has_instance-put_instance :
    (fp : Text) (i : Instance) (l : List Instance)
    → has_instance fp (put_instance i l) ≡ (text_eq i.fingerprint fp || has_instance fp l)
unfolding put_instance
has_instance-put_instance fp i [] = refl
has_instance-put_instance fp i (j ∷ l) = ground (
  arith,
  has_instance-put_instance fp i l,
  text_eq_iff j.fingerprint i.fingerprint,
  text_eq_iff j.fingerprint fp,
  text_eq_iff i.fingerprint fp,
)

has_instance-collect :
    (env : Env) (fp : Text) (l : List Instance) (vs : List Vector)
    → has_instance fp (collect env l vs) ≡ (has_instance fp l || reported env fp vs)
unfolding collect
has_instance-collect env fp l [] = ground arith
has_instance-collect env fp l (v ∷ vs) = ground (
  arith,
  has_instance-collect env fp (put_instance (instance_of env v) l) vs,
  has_instance-put_instance fp (instance_of env v) l,
)

active_rows-AllActive :
    (env : Env) (id : ℕ) (l : List StateRow) → AllActive (map (state_of_row env) (active_rows id l))
unfolding active_rows state_of_row
active_rows-AllActive env id [] = tt
active_rows-AllActive env id (s ∷ l) = ground (arith, active_rows-AllActive env id l)

find_state-map :
    (env : Env) (fp : Text) (l : List StateRow)
    → find_state (map (state_of_row env) l) fp
      ≡ Option.map (state_of_row env) (find (λ s. text_eq s.fingerprint fp) l)
unfolding find_state state_of_row
find_state-map env fp [] = refl
find_state-map env fp (s ∷ l) = ground (arith, find_state-map env fp l)

-- What the two loops make of a phase is one step of the abstract life.
step_of_loops :
    (n now : ℕ) (present there state : Bool) (o : Option StateRow)
    → there ≡ present
    → state ≡ is_some (active_only o)
    → (if present
        then (if there then seen n now (phase o) else phase o)
        else (if state then inactive else (if there then seen n now (phase o) else phase o)))
      ≡ next_phase n now present (phase o)
unfolding next_phase is_active
step_of_loops n now present there state none e f = ground arith
step_of_loops n now present there state (some s) e f = ground arith

module _ (env : Env) (rule : AlertRule) (n : ℕ) (vs : List Vector)
    (reliable : (k : ℕ) → env.fails k ≡ false) (visits : (l : List Instance) → Perm (env.range l) l)
    (dur : rule.duration ≡ pos n) (small : n ≤ 9223372036) (fp : Text) where
  same_instances : has_instance fp (env.range (collect env [] vs)) ≡ reported env fp vs
  same_instances =
      has_instance-perm fp (visits (collect env [] vs)) ∙ has_instance-collect env fp [] vs

  reconcile_with-next_phase :
      (historical : List AlertState) (o : Option StateRow) (w : World)
      → find_state historical fp ≡ Option.map (state_of_row env) (active_only o)
      → AllActive historical
      → phase (row rule.id fp w.states) ≡ phase o
      → phase (row rule.id fp (reconcile_with env rule (collect env [] vs) historical w).1.states)
        ≡ next_phase n (env.clock w.readings) (reported env fp vs) (phase o)
  unfolding reconcile_with time_now
  reconcile_with-next_phase historical o w found active start =
      resolve_all-PhaseAt env reliable rule n dur small fp (collect env [] vs) historical _ _ active
        (observe_all-PhaseAt env reliable rule n dur small fp (env.clock w.readings) historical o
          found (env.range (collect env [] vs)) (phase o) (time_now env w).1 start)
      ∙ (rw (has_instance-collect env fp [] vs) (
          step_of_loops n (env.clock w.readings) (reported env fp vs) _ _ o same_instances
            (sym (find_state-any fp historical) ∙ ap is_some found ∙ is_some-map (active_only o))))
    where
      is_some-map : (r : Option StateRow) → is_some (Option.map (state_of_row env) r) ≡ is_some r
      is_some-map none = refl
      is_some-map (some s) = refl

  reconcile-next_phase :
      (w : World)
      → IsKeyed w.states
      → phase (row rule.id fp (reconcile env rule vs w).1.states)
        ≡ next_phase n (env.clock w.readings) (reported env fp vs) (phase (row rule.id fp w.states))
  unfolding reconcile get_active_states exec
  reconcile-next_phase w keyed = rw (reliable w.statements) (
      reconcile_with-next_phase (map (state_of_row env) (active_rows rule.id w.states))
        (row rule.id fp w.states) (record w { statements = suc w.statements })
        (find_state-map env fp (active_rows rule.id w.states)
          ∙ ap (Option.map (state_of_row env)) (find-active_rows rule.id fp w.states keyed))
        (active_rows-AllActive env rule.id w.states) refl)

-- In a database that does not fail and keeps its primary key, with each entry of a map visited
-- once, and for a duration of at most 292 years: one evaluation of a rule whose query is answered
-- moves every instance of the rule by one step of its abstract life, by whether its series is
-- reported; so the order of the instances does not matter.
pub evaluate_rule-next_phase :
    (env : Env) (rule : AlertRule) (n : ℕ) (vs : List Vector) (w : World)
    → ((k : ℕ) → env.fails k ≡ false)
    → ((l : List Instance) → Perm (env.range l) l)
    → rule.duration ≡ pos n
    → n ≤ 9223372036
    → IsKeyed w.states
    → env.vm w.queries rule.expr ≡ some vs
    → (fp : Text)
    → phase (row rule.id fp (evaluate_rule env rule w).1.states)
      ≡ next_phase n (env.clock w.readings) (reported env fp vs) (phase (row rule.id fp w.states))
unfolding evaluate_rule query
evaluate_rule-next_phase env rule n vs w reliable visits dur small keyed answer fp =
    rw (answer, query)
      (reconcile-next_phase env rule n vs reliable visits dur small fp
        (record w { queries = suc w.queries }) keyed)
