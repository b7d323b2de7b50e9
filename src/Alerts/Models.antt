-- ===== src/Alerts/Models.antt =====
-- The data of web/alerts/models.go, the rows of the three tables of web/alerts/store.go, and the
-- world in which the package runs. A float64 is its 64-bit pattern: the package only copies it.
use monitorbeat.Base.{ℕ, Bool, Option, List}
use monitorbeat.Base.Text.{Text}
use monitorbeat.Base.Int.{ℤ}
use monitorbeat.Alerts.Labels.{Labels}

-- The states of an instance; the texts "ok", "pending" and "firing".
pub data Status : Type 0 where
  ok pending firing : Status

-- What a notification or a history row is about; the texts "firing" and "recovered".
pub data Notice : Type 0 where
  fired recovered : Notice

-- `AlertState`; its `LastValue` is a bit pattern.
pub record AlertState : Type 0 where
  pub rule_id : ℕ
  pub fingerprint : Text
  pub labels : Labels
  pub hostname : Text
  pub status : Status
  pub last_value : ℕ
  pub pending_since : Option ℕ
  pub firing_since : Option ℕ
  pub acknowledged_at : Option ℕ
  pub silence_until : Option ℕ
  pub last_notified_at : Option ℕ

-- `AlertRule`; times are instants.
pub record AlertRule : Type 0 where
  pub id : ℕ
  pub name : Text
  pub enabled : Bool
  pub expr : Text
  pub duration : ℤ
  pub description : Text
  pub created_at : ℕ
  pub updated_at : ℕ
  pub states : List AlertState

-- `HistoryItem`.
pub record HistoryItem : Type 0 where
  pub id : ℕ
  pub rule_id : ℕ
  pub rule_name : Text
  pub fingerprint : Text
  pub labels : Labels
  pub hostname : Text
  pub expr : Text
  pub metric_value : ℕ
  pub state : Notice
  pub acknowledged : Bool
  pub triggered_at : ℕ

-- `CreateRuleRequest`; `enabled` may be absent.
pub record CreateRuleRequest : Type 0 where
  pub name : Text
  pub enabled : Option Bool
  pub expr : Text
  pub duration : ℤ
  pub description : Text

-- A row of `alert_rules`; the time columns hold stamps.
pub record RuleRow : Type 0 where
  pub id : ℕ
  pub name : Text
  pub enabled : ℕ
  pub expr : Text
  pub duration : ℤ
  pub description : Text
  pub created_at : ℕ
  pub updated_at : ℕ

-- A row of `alert_state`.
pub record StateRow : Type 0 where
  pub rule_id : ℕ
  pub fingerprint : Text
  pub labels_json : Text
  pub status : Status
  pub last_value : ℕ
  pub pending_since : Option ℕ
  pub firing_since : Option ℕ
  pub acknowledged_at : Option ℕ
  pub silence_until : Option ℕ
  pub last_notified_at : Option ℕ

-- A row of `alert_history`.
pub record HistoryRow : Type 0 where
  pub id : ℕ
  pub rule_id : ℕ
  pub rule_name : Text
  pub fingerprint : Text
  pub labels_json : Text
  pub expr : Text
  pub metric_value : ℕ
  pub state : Notice
  pub acknowledged : ℕ
  pub triggered_at : ℕ

-- The arguments of one `SendAlert`.
pub record Mail : Type 0 where
  pub rule : AlertRule
  pub hostname : Text
  pub labels : Labels
  pub value : ℕ
  pub state : Notice

-- One element of a query's answer: `Metric` (nil or a map) and `Value[1]`.
pub record Vector : Type 0 where
  pub metric : Option Labels
  pub value : ℕ

-- `instance`.
pub record Instance : Type 0 where
  pub fingerprint : Text
  pub labels : Labels
  pub value : ℕ

-- The three tables with their AUTOINCREMENT counters, the mails handed to the sender, and how often
-- the world outside was asked so far.
pub record World : Type 0 where
  pub rules : List RuleRow
  pub states : List StateRow
  pub history : List HistoryRow
  pub next_rule : ℕ
  pub next_history : ℕ
  pub mails : List Mail
  pub statements : ℕ
  pub readings : ℕ
  pub queries : ℕ

-- What the package does not implement: the hash, JSON strings and objects, which SQL statements
-- fail, the clock at each reading, the answers of VictoriaMetrics (none is an error), the order in
-- which a map is iterated over, and whether a mail sender is configured.
pub record Env : Type 0 where
  pub sha256_hex : Text → Text
  pub quote : Text → Text
  pub unmarshal : Text → Labels
  pub fails : ℕ → Bool
  pub clock : ℕ → ℕ
  pub vm : ℕ → Text → Option (List Vector)
  pub range : List Instance → List Instance
  pub email : Bool
