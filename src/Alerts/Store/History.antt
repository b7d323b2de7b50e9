-- ===== src/Alerts/Store/History.antt =====
-- The table of alert history: `ListHistory` of web/alerts/store.go.
use monitorbeat.Base.{
  ℕ, zero, suc, Bool, true, not, ◌&&◌, List, [], ◌∷◌, map, filter, take, drop, length, leb, ◌==◌,
  if◌then◌else◌,
}
use monitorbeat.Base.Int.{ℤ, pos, negsuc}
use monitorbeat.Base.Text.{Text, codes, text_eq}
use monitorbeat.Alerts.Labels.{label, decode_labels}
use monitorbeat.Alerts.Time.{parse_rfc3339}
use monitorbeat.Alerts.Models.{Notice, fired, recovered, HistoryRow, HistoryItem, Env}
use monitorbeat.Alerts.Monad.{value, M, ◌>>=◌, done, exec}

-- The texts of the `state` column.
unfoldable pub notice_text : Notice → Text
notice_text fired = codes "firing"
notice_text recovered = codes "recovered"

-- ` AND rule_id=?`, where the id is positive.
abbrev pub matches_rule : ℤ → HistoryRow → Bool
matches_rule (pos zero) h = true
matches_rule (pos (suc n)) h = h.rule_id == suc n
matches_rule (negsuc n) h = true

-- ` AND fingerprint=?`, where it is not empty.
abbrev pub matches_fingerprint : Text → HistoryRow → Bool
matches_fingerprint [] h = true
matches_fingerprint (c ∷ s) h = text_eq h.fingerprint (c ∷ s)

-- ` AND state=?`, where it is not empty.
abbrev pub matches_notice : Text → HistoryRow → Bool
matches_notice [] h = true
matches_notice (c ∷ s) h = text_eq (notice_text h.state) (c ∷ s)

-- The WHERE clause.
unfoldable pub matches : ℤ → Text → Text → HistoryRow → Bool
unfolding notice_text
matches rule_id fp state h =
    matches_rule rule_id h && (matches_fingerprint fp h && matches_notice state h)

-- `ORDER BY triggered_at DESC`.
unfoldable pub insert_latest : HistoryRow → List HistoryRow → List HistoryRow
insert_latest h [] = h ∷ []
insert_latest h (g ∷ l) =
    if leb g.triggered_at h.triggered_at then h ∷ g ∷ l else g ∷ insert_latest h l

unfoldable pub latest_first : List HistoryRow → List HistoryRow
unfolding insert_latest
latest_first [] = []
latest_first (h ∷ l) = insert_latest h (latest_first l)

-- One scanned row.
unfoldable pub item_of_row : Env → HistoryRow → HistoryItem
item_of_row env h =
    let labels = decode_labels env.unmarshal h.labels_json in
    record {
      id = h.id;
      rule_id = h.rule_id;
      rule_name = h.rule_name;
      fingerprint = h.fingerprint;
      labels = labels;
      hostname = label (codes "hostname") labels;
      expr = h.expr;
      metric_value = h.metric_value;
      state = h.state;
      acknowledged = not (h.acknowledged == 0);
      triggered_at = parse_rfc3339 h.triggered_at;
    }

-- `if limit <= 0 { limit = 20 }`, and the number of rows that `LIMIT` then allows.
unfoldable pub limit_rows : ℤ → ℕ
limit_rows (pos zero) = 20
limit_rows (pos (suc n)) = suc n
limit_rows (negsuc n) = 20

-- `if offset < 0 { offset = 0 }`.
unfoldable pub offset_rows : ℤ → ℕ
offset_rows (pos n) = n
offset_rows (negsuc n) = 0

-- `LIMIT ? OFFSET ?` on the ordered rows.
unfoldable pub page : ℤ → ℤ → List HistoryRow → List HistoryRow
unfolding limit_rows offset_rows latest_first
page limit offset rows = take (limit_rows limit) (drop (offset_rows offset) (latest_first rows))

-- The two queries of `ListHistory`.
unfoldable pub count_history : Env → ℤ → Text → Text → M ℕ
unfolding matches
count_history env rule_id fp state =
    exec env (λ w. (value (length (filter (matches rule_id fp state) w.history)), w))

unfoldable pub select_history : Env → ℤ → Text → Text → ℤ → ℤ → M (List HistoryRow)
unfolding matches page
select_history env rule_id fp state limit offset =
    exec env (λ w. (value (page limit offset (filter (matches rule_id fp state) w.history)), w))

-- `ListHistory`: the total of the matching rows, and one page of them.
unfoldable pub list_history : Env → ℤ → Text → Text → ℤ → ℤ → M (ℕ × List HistoryItem)
unfolding count_history select_history item_of_row
list_history env rule_id fp state limit offset = do
  total ← count_history env rule_id fp state
  rows ← select_history env rule_id fp state limit offset
  done (total, map (item_of_row env) rows)
