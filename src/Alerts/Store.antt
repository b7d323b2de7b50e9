-- ===== src/Alerts/Store.antt =====
-- The table of alert states: the methods of web/alerts/store.go that the evaluator calls. A SQL
-- statement is a function on the rows of its table.
pub mod Rules
pub mod History
pub mod States
pub mod Keeps
use monitorbeat.Base.{
  ℕ, suc, ◌+◌, Bool, true, false, not, ◌&&◌, Option, none, some, List, [], ◌∷◌, ◌++◌, map, filter,
  ◌==◌, if◌then◌else◌,
}
use monitorbeat.Base.Text.{Text, codes, text_eq}
use monitorbeat.Alerts.Labels.{Labels, label, encode_labels, decode_labels}
use monitorbeat.Alerts.Time.{format_rfc3339, format_ptr, parse_ptr}
use monitorbeat.Alerts.Models.{
  Status, ok, pending, firing, Notice, AlertState, StateRow, HistoryRow, World, Env,
}
use monitorbeat.Alerts.Monad.{Result, value, error, M, ◌>>=◌, ◌>>◌, done, exec, time_now}

-- The primary key of `alert_state`.
abbrev pub same_key : ℕ → Text → StateRow → Bool
same_key rule_id fp s = s.rule_id == rule_id && text_eq s.fingerprint fp

-- What `ON CONFLICT DO UPDATE` sets.
abbrev pub excluded : StateRow → StateRow → StateRow
excluded new old = record old {
  labels_json = new.labels_json;
  status = new.status;
  last_value = new.last_value;
  pending_since = new.pending_since;
  firing_since = new.firing_since;
}

unfoldable pub upsert_row : StateRow → List StateRow → List StateRow
upsert_row r [] = r ∷ []
upsert_row r (s ∷ l) =
    if same_key r.rule_id r.fingerprint s then excluded r s ∷ l else s ∷ upsert_row r l

-- `UPDATE alert_state SET … WHERE rule_id=? AND fingerprint=?`.
unfoldable pub update_key : ℕ → Text → (StateRow → StateRow) → List StateRow → List StateRow
update_key rule_id fp f [] = []
update_key rule_id fp f (s ∷ l) =
    (if same_key rule_id fp s then f s else s) ∷ update_key rule_id fp f l

-- The row that `UpsertState` inserts; the columns that it does not name are NULL.
unfoldable pub new_row : Env → ℕ → Text → Labels → Status → ℕ → Option ℕ → Option ℕ → StateRow
new_row env rule_id fp labels status last_value pending_since firing_since = record {
  rule_id = rule_id;
  fingerprint = fp;
  labels_json = encode_labels env.quote labels;
  status = status;
  last_value = last_value;
  pending_since = format_ptr pending_since;
  firing_since = format_ptr firing_since;
  acknowledged_at = none;
  silence_until = none;
  last_notified_at = none;
}

-- `UpsertState`.
unfoldable pub upsert_state :
    Env → ℕ → Text → Labels → Status → ℕ → Option ℕ → Option ℕ → M (Unit {0})
upsert_state env rule_id fp labels status last_value pending_since firing_since =
    let row = new_row env rule_id fp labels status last_value pending_since firing_since in
    exec env (λ w. (value tt, record w { states = upsert_row row w.states }))

abbrev pub update_states : Env → ℕ → Text → (StateRow → StateRow) → M (Unit {0})
update_states env rule_id fp f =
    exec env (λ w. (value tt, record w { states = update_key rule_id fp f w.states }))

abbrev pub acked : ℕ → Option ℕ → StateRow → StateRow
acked now until s = record s { acknowledged_at = some now; silence_until = until }

-- `SetAcknowledged`.
unfoldable pub set_acknowledged : Env → ℕ → Text → Option ℕ → M (Unit {0})
set_acknowledged env rule_id fp silence_until = do
  now ← time_now env
  update_states env rule_id fp (acked (format_rfc3339 now) (format_ptr silence_until))

abbrev pub unacked : StateRow → StateRow
unacked s = record s { acknowledged_at = none; silence_until = none }

-- `ClearAck`.
unfoldable pub clear_ack : Env → ℕ → Text → M (Unit {0})
clear_ack env rule_id fp = update_states env rule_id fp unacked

abbrev pub notified : ℕ → StateRow → StateRow
notified t s = record s { last_notified_at = some t }

-- `SetLastNotified`.
unfoldable pub set_last_notified : Env → ℕ → Text → ℕ → M (Unit {0})
set_last_notified env rule_id fp t = update_states env rule_id fp (notified (format_rfc3339 t))

-- One scanned row.
unfoldable pub state_of_row : Env → StateRow → AlertState
state_of_row env s =
    let labels = decode_labels env.unmarshal s.labels_json in
    record {
      rule_id = s.rule_id;
      fingerprint = s.fingerprint;
      labels = labels;
      hostname = label (codes "hostname") labels;
      status = s.status;
      last_value = s.last_value;
      pending_since = parse_ptr s.pending_since;
      firing_since = parse_ptr s.firing_since;
      acknowledged_at = parse_ptr s.acknowledged_at;
      silence_until = parse_ptr s.silence_until;
      last_notified_at = parse_ptr s.last_notified_at;
    }

-- `status IN ('pending','firing')`.
unfoldable pub is_active : Status → Bool
is_active ok = false
is_active pending = true
is_active firing = true

unfoldable pub active_rows : ℕ → List StateRow → List StateRow
unfolding is_active
active_rows rule_id = filter (λ s. s.rule_id == rule_id && is_active s.status)

-- `GetActiveStatesForRule`.
unfoldable pub get_active_states : Env → ℕ → M (List AlertState)
unfolding active_rows state_of_row
get_active_states env rule_id =
    exec env (λ w. (value (map (state_of_row env) (active_rows rule_id w.states)), w))

abbrev pub or_nil : {A : Type 0} → Result (List A) → List A
or_nil (value l) = l
or_nil (error e) = []

-- `getStatesForRule`: a failed query gives no states.
unfoldable pub get_states_for_rule : Env → ℕ → M (List AlertState)
unfolding state_of_row
get_states_for_rule env rule_id w =
    let (r, w') =
      exec env
        (λ v. (value (map (state_of_row env) (filter (λ s. s.rule_id == rule_id) v.states)), v))
        w in
    (value (or_nil r), w')

-- `AddHistory`.
unfoldable pub add_history : Env → ℕ → Text → Text → Labels → Text → ℕ → Notice → M (Unit {0})
add_history env rule_id rule_name fp labels expr metric_value state = do
  now ← time_now env
  exec env (λ w. (
    value tt,
    record w {
      history =
          w.history
          ++ record {
            id = w.next_history;
            rule_id = rule_id;
            rule_name = rule_name;
            fingerprint = fp;
            labels_json = encode_labels env.quote labels;
            expr = expr;
            metric_value = metric_value;
            state = state;
            acknowledged = 0;
            triggered_at = format_rfc3339 now;
          }
            ∷ [];
      next_history = suc w.next_history;
    },
  ))
