-- ===== src/Alerts/Store/Rules.antt =====
-- The table of alert rules: the rule methods of web/alerts/store.go.
use monitorbeat.Base.{
  ℕ, suc, Bool, true, false, not, ◌&&◌, Option, none, some, List, [], ◌∷◌, ◌++◌, map, filter, any,
  find, leb, ◌==◌, if◌then◌else◌,
}
use monitorbeat.Base.Text.{Text, text_eq}
use monitorbeat.Alerts.Time.{format_rfc3339, parse_rfc3339}
use monitorbeat.Alerts.Models.{AlertRule, CreateRuleRequest, RuleRow, Env}
use monitorbeat.Alerts.Monad.{
  unique, no_rows, Result, value, error, M, ◌>>=◌, ◌>>◌, done, attempt, exec, time_now,
}
use monitorbeat.Alerts.Store.{get_states_for_rule}

-- `boolToInt`, and the test that reads it back.
unfoldable pub bool_to_int : Bool → ℕ
bool_to_int true = 1
bool_to_int false = 0

-- `ORDER BY id`.
unfoldable pub insert_by_id : RuleRow → List RuleRow → List RuleRow
insert_by_id r [] = r ∷ []
insert_by_id r (s ∷ l) = if leb r.id s.id then r ∷ s ∷ l else s ∷ insert_by_id r l

unfoldable pub order_by_id : List RuleRow → List RuleRow
unfolding insert_by_id
order_by_id [] = []
order_by_id (r ∷ l) = insert_by_id r (order_by_id l)

-- One scanned row, its `States` left nil.
unfoldable pub rule_of_row : RuleRow → AlertRule
rule_of_row r = record {
  id = r.id;
  name = r.name;
  enabled = not (r.enabled == 0);
  expr = r.expr;
  duration = r.duration;
  description = r.description;
  created_at = parse_rfc3339 r.created_at;
  updated_at = parse_rfc3339 r.updated_at;
  states = [];
}

-- The row that `CreateRule` inserts.
unfoldable pub new_rule_row : ℕ → ℕ → AlertRule → RuleRow
unfolding bool_to_int
new_rule_row id now r = record {
  id = id;
  name = r.name;
  enabled = bool_to_int r.enabled;
  expr = r.expr;
  duration = r.duration;
  description = r.description;
  created_at = now;
  updated_at = now;
}

-- The INSERT of `CreateRule`, with the name's UNIQUE constraint.
unfoldable pub insert_rule : Env → ℕ → AlertRule → M AlertRule
unfolding new_rule_row
insert_rule env now r = exec env (λ w.
    if any (λ s. text_eq s.name r.name) w.rules then (error unique, w) else (
      value (record r {
        id = w.next_rule;
        created_at = parse_rfc3339 now;
        updated_at = parse_rfc3339 now;
      }),
      record w {
        rules = w.rules ++ new_rule_row w.next_rule now r ∷ [];
        next_rule = suc w.next_rule;
      },
    ))

-- `CreateRule`: gives the rule with its id and its times.
unfoldable pub create_rule : Env → AlertRule → M AlertRule
unfolding insert_rule
create_rule env r = do t ← time_now env; insert_rule env (format_rfc3339 t) r

-- The scan of the row of an id.
unfoldable pub found_rule : Option RuleRow → Result AlertRule
unfolding rule_of_row
found_rule none = error no_rows
found_rule (some r) = value (rule_of_row r)

-- `GetRule`.
unfoldable pub get_rule : Env → ℕ → M AlertRule
unfolding found_rule
get_rule env id = exec env (λ w. (found_rule (find (λ r. r.id == id) w.rules), w))

abbrev pub enabled_or_true : Option Bool → Bool
enabled_or_true none = true
enabled_or_true (some b) = b

unfoldable pub updated_row : ℕ → CreateRuleRequest → RuleRow → RuleRow
unfolding bool_to_int
updated_row now req r = record r {
  name = req.name;
  enabled = bool_to_int (enabled_or_true req.enabled);
  expr = req.expr;
  duration = req.duration;
  description = req.description;
  updated_at = now;
}

-- `UPDATE alert_rules SET … WHERE id=?` on the rows.
unfoldable pub update_rule_rows : ℕ → ℕ → CreateRuleRequest → List RuleRow → List RuleRow
unfolding updated_row
update_rule_rows id now req [] = []
update_rule_rows id now req (r ∷ l) =
    (if r.id == id then updated_row now req r else r) ∷ update_rule_rows id now req l

-- The update gives a row the name of another row.
abbrev pub name_taken : ℕ → Text → List RuleRow → Bool
name_taken id name rules =
    any (λ r. r.id == id) rules && any (λ r. not (r.id == id) && text_eq r.name name) rules

unfoldable pub delete_states : Env → ℕ → M (Unit {0})
delete_states env id =
    exec env (λ w. (value tt, record w { states = filter (λ s. not (s.rule_id == id)) w.states }))

-- The UPDATE of `UpdateRule`.
unfoldable pub change_rule : Env → ℕ → ℕ → CreateRuleRequest → M (Unit {0})
unfolding update_rule_rows
change_rule env id now req = exec env (λ w.
    if name_taken id req.name w.rules
    then (error unique, w)
    else (value tt, record w { rules = update_rule_rows id now req w.rules }))

-- `UpdateRule`.
unfoldable pub update_rule : Env → ℕ → CreateRuleRequest → M AlertRule
unfolding delete_states change_rule
update_rule env id req = do
  t ← time_now env
  change_rule env id (format_rfc3339 t) req
  attempt (delete_states env id)
  get_rule env id

-- The first and the last statement of `DeleteRule`.
unfoldable pub remove_rule : Env → ℕ → M (Unit {0})
remove_rule env id =
    exec env (λ w. (value tt, record w { rules = filter (λ r. not (r.id == id)) w.rules }))

unfoldable pub delete_history : Env → ℕ → M (Unit {0})
delete_history env id =
    exec env (λ w. (value tt, record w { history = filter (λ h. not (h.rule_id == id)) w.history }))

-- `DeleteRule`.
unfoldable pub delete_rule : Env → ℕ → M (Unit {0})
unfolding remove_rule delete_states delete_history
delete_rule env id = do
  remove_rule env id
  attempt (delete_states env id)
  attempt (delete_history env id)

-- The loop of `ListRules` over the scanned rows, which fills in the states.
unfoldable pub with_states : Env → List RuleRow → M (List AlertRule)
unfolding rule_of_row
with_states env [] = done []
with_states env (r ∷ l) = do
  states ← get_states_for_rule env r.id
  rest ← with_states env l
  done (record (rule_of_row r) { states = states } ∷ rest)

unfoldable pub select_rules : Env → M (List RuleRow)
unfolding order_by_id
select_rules env = exec env (λ w. (value (order_by_id w.rules), w))

-- `ListRules`.
unfoldable pub list_rules : Env → M (List AlertRule)
unfolding with_states select_rules
list_rules env = select_rules env >>= with_states env

-- `GetEnabledRules`.
unfoldable pub get_enabled_rules : Env → M (List AlertRule)
unfolding rule_of_row order_by_id
get_enabled_rules env =
    exec env
      (λ w. (value (map rule_of_row (order_by_id (filter (λ r. r.enabled == 1) w.rules))), w))
