-- ===== src/Alerts/Api.antt =====
-- The HTTP handlers of web/api/alerts.go. A body is given as what its decoder makes of it (none is
-- invalid JSON), a query parameter as the integer that `Atoi` gives (0 on an error).
pub mod Reach
pub mod Silence
pub mod Counts
use monitorbeat.Base.{
  ℕ, zero, suc, ◌+◌, ◌-◌, ◌*◌, Bool, true, false, not, ◌&&◌, ◌||◌, Option, none, some, List, [],
  ◌∷◌, ◌++◌, map, ◌==◌, leb, if◌then◌else◌, is_some,
}
use monitorbeat.Base.Int.{ℤ, pos, negsuc, mul64, leb_int}
use monitorbeat.Base.Text.{Text, text_eq}
use monitorbeat.Alerts.Labels.{Labels}
use monitorbeat.Alerts.Time.{second, format_rfc3339}
use monitorbeat.Alerts.Models.{
  Status, ok, pending, firing, Notice, AlertState, AlertRule, CreateRuleRequest, HistoryItem,
  Instance, Vector, World, Env,
}
use monitorbeat.Alerts.Monad.{
  Error, driver, unique, no_rows, upstream, Result, value, error, M, ◌>>=◌, ◌>>◌, done, time_now,
  query,
}
use monitorbeat.Alerts.Store.{set_acknowledged}
use monitorbeat.Alerts.Store.Rules.{create_rule, update_rule, delete_rule, list_rules}
use monitorbeat.Alerts.Store.History.{list_history}
use monitorbeat.Alerts.Evaluator.{instance_of}

-- `AckRequest`.
pub record AckRequest : Type 0 where
  pub rule_id : ℤ
  pub fingerprint : Text
  pub silence_hours : ℤ

-- `alertStatusItem`; its status is always "firing", and `since` is empty without `FiringSince`.
pub record StatusItem : Type 0 where
  pub rule_id : ℕ
  pub rule_name : Text
  pub fingerprint : Text
  pub hostname : Text
  pub labels : Labels
  pub acknowledged : Bool
  pub since : Option ℕ

-- `alertStatusResponse`.
pub record StatusResponse : Type 0 where
  pub firing_count : ℕ
  pub acknowledged_count : ℕ
  pub items : List StatusItem

-- What a handler writes: an error status, or 200 with a body, or 204.
pub data Response : Type 0 where
  bad_request server_error bad_gateway no_content acknowledged : Response
  rules : List AlertRule → Response
  rule : AlertRule → Response
  history : ℕ → List HistoryItem → Response
  instances : List Instance → Response
  status : StatusResponse → Response

-- `if err != nil { http.Error(…); return }` round a call of the store.
abbrev pub respond : {A : Type 0} → Result A → (A → Response) → (Error → Response) → Response
respond (value a) good bad = good a
respond (error e) good bad = bad e

abbrev pub or_error : {A : Type 0} → M A → (A → Response) → (Error → Response) → M Response
or_error m good bad w = (value (respond (m w).0 good bad), (m w).1)

abbrev pub failed : Error → Response
failed e = server_error

-- A violated UNIQUE constraint is the client's fault.
abbrev pub name_exists : Error → Response
name_exists unique = bad_request
name_exists driver = server_error
name_exists no_rows = server_error
name_exists upstream = server_error

abbrev pub is_empty : Text → Bool
is_empty [] = true
is_empty (c ∷ s) = false

-- `listRules`.
unfoldable pub handle_list_rules : Env → M Response
handle_list_rules env = or_error (list_rules env) rules failed

-- The rule that `createRule` makes of its request.
unfoldable pub rule_of_request : CreateRuleRequest → AlertRule
rule_of_request req = record {
  id = 0;
  name = req.name;
  enabled = elim req.enabled [ none ↦ true | some b ↦ b ];
  expr = req.expr;
  duration = req.duration;
  description = req.description;
  created_at = 0;
  updated_at = 0;
  states = [];
}

-- `createRule`.
unfoldable pub handle_create_rule : Env → Option CreateRuleRequest → M Response
unfolding rule_of_request
handle_create_rule env none = done bad_request
handle_create_rule env (some req) =
    if is_empty req.name || is_empty req.expr
    then done bad_request
    else or_error (create_rule env (rule_of_request req)) rule name_exists

-- `updateRule`.
unfoldable pub handle_update_rule : Env → ℕ → Option CreateRuleRequest → M Response
handle_update_rule env id none = done bad_request
handle_update_rule env id (some req) =
    if is_empty req.name || is_empty req.expr
    then done bad_request
    else or_error (update_rule env id req) rule failed

-- `deleteRule`.
unfoldable pub handle_delete_rule : Env → ℕ → M Response
handle_delete_rule env id = or_error (delete_rule env id) (λ _. no_content) failed

abbrev pub hour : ℕ
hour = 3600 * second

-- `t.Add(d)`. An instant before the zero time of Go does not occur and reads as the zero time.
unfoldable pub add_time : ℕ → ℤ → ℕ
add_time t (pos d) = t + d
add_time t (negsuc d) = t - d - 1

abbrev pub to_ℕ : ℤ → ℕ
to_ℕ (pos n) = n
to_ℕ (negsuc n) = 0

-- The deadline of a silence; the clock is read only for one.
unfoldable pub silence_until : Env → ℤ → M (Option ℕ)
unfolding add_time
silence_until env hours =
    if leb_int hours (pos 0)
    then done none
    else (time_now env >>= λ t. done (some (add_time t (mul64 hours hour))))

-- The call of the store in `acknowledge`.
unfoldable pub acknowledge_until : Env → AckRequest → Option ℕ → M Response
acknowledge_until env req until =
    or_error (set_acknowledged env (to_ℕ req.rule_id) req.fingerprint until) (λ _. acknowledged)
      failed

-- `acknowledge`.
unfoldable pub handle_acknowledge : Env → Option AckRequest → M Response
unfolding silence_until acknowledge_until
handle_acknowledge env none = done bad_request
handle_acknowledge env (some req) =
    if leb_int req.rule_id (pos 0) || is_empty req.fingerprint
    then done bad_request
    else (silence_until env req.silence_hours >>= acknowledge_until env req)

-- The page size that the handler allows.
unfoldable pub page_limit : ℤ → ℤ
page_limit limit = if leb_int limit (pos 0) || not (leb_int limit (pos 100)) then pos 20 else limit

-- `listHistory`.
unfoldable pub handle_list_history : Env → ℤ → Text → Text → ℤ → ℤ → M Response
unfolding page_limit
handle_list_history env rule_id fp state limit offset =
    or_error (list_history env rule_id fp state (page_limit limit) offset)
      (λ (total, items). history total items) failed

-- `testQuery`, with `strings.TrimSpace(req.Expr) == ""` given; `vm` tells whether there is a client.
unfoldable pub handle_test_query : Env → Bool → Option (Text × Bool) → M Response
unfolding instance_of
handle_test_query env vm req = if not vm then done bad_request else elim req [
  | none ↦ done bad_request
  | some (expr, blank) ↦
      if blank
      then done bad_request
      else or_error (query env expr) (λ vs. instances (map (instance_of env) vs)) (λ _. bad_gateway)
]

abbrev pub status_item : AlertRule → AlertState → StatusItem
status_item r st = record {
  rule_id = r.id;
  rule_name = r.name;
  fingerprint = st.fingerprint;
  hostname = st.hostname;
  labels = st.labels;
  acknowledged = is_some st.acknowledged_at;
  since = elim st.firing_since [ none ↦ none | some t ↦ some (format_rfc3339 t) ];
}

-- The body of the inner loop of `status`.
unfoldable pub count_state : AlertRule → StatusResponse → AlertState → StatusResponse
count_state r resp st = elim st.status [
  | ok ↦ resp
  | pending ↦ resp
  | firing ↦ record {
    firing_count = suc resp.firing_count;
    acknowledged_count =
        if is_some st.acknowledged_at then suc resp.acknowledged_count else resp.acknowledged_count;
    items = resp.items ++ status_item r st ∷ [];
  }
]

unfoldable pub count_states : AlertRule → StatusResponse → List AlertState → StatusResponse
unfolding count_state
count_states r resp [] = resp
count_states r resp (st ∷ l) = count_states r (count_state r resp st) l

unfoldable pub count_rules : StatusResponse → List AlertRule → StatusResponse
unfolding count_states
count_rules resp [] = resp
count_rules resp (r ∷ l) = count_rules (count_states r resp r.states) l

-- `status`.
unfoldable pub handle_status : Env → M Response
unfolding count_rules
handle_status env =
    or_error (list_rules env)
      (λ l.
        status (count_rules (record { firing_count = 0; acknowledged_count = 0; items = [] }) l))
      failed
