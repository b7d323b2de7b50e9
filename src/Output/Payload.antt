-- ===== src/Output/Payload.antt =====
-- The other bodies of the HTTP output, before JSON, and the lines of the console: `formatDoris`,
-- `formatJSON` and `formatBody` of internal/output/http.go, and internal/output/console.go.
use monitorbeat.Base.{ℕ, Bool, true, Option, none, some, List, [], ◌∷◌, ◌++◌, if◌then◌else◌}
use monitorbeat.Base.Int.{ℤ}
use monitorbeat.Base.Text.{Text, codes, text_eq}
use monitorbeat.Alerts.Labels.{Labels}
use monitorbeat.Output.Metrics.{Metrics, VmMetric, vm_lines}

-- A value of a record: text, a float64 by its pattern, an integer, or rows as they are.
pub data Value {ℓ} (Rows : Type ℓ) : Type ℓ where
  text : Text → Value Rows
  float : ℕ → Value Rows
  int : ℤ → Value Rows
  rows : Rows → Value Rows

abbrev pub Record {ℓ} : Type ℓ → Type ℓ
Record Rows = List (Text × Value Rows)

-- An event whose data is a map; the three lists of rows are there or not.
pub record MapEvent (Rows : Type 0) : Type 0 where
  pub kind : Text
  pub timestamp : ℤ
  pub metrics : Metrics
  pub dimensions : Labels
  pub processes : Option Rows
  pub connections : Option Rows
  pub exceptions : Option Rows

-- The data of an event, if it is a map.
pub data Data (Rows : Type 0) : Type 0 where
  no_map : Data Rows
  map_event : MapEvent Rows → Data Rows

module _ {Rows : Type 0} where
  unfoldable pub put_value : Text → Value Rows → Record Rows → Record Rows
  put_value k v [] = (k, v) ∷ []
  put_value k v ((j, w) ∷ l) = if text_eq j k then (k, v) ∷ l else (j, w) ∷ put_value k v l

  unfoldable pub put_dimensions : Labels → Record Rows → Record Rows
  unfolding put_value
  put_dimensions [] r = r
  put_dimensions ((k, v) ∷ l) r = put_dimensions l (put_value k (text v) r)

  unfoldable pub put_floats : Metrics → Record Rows → Record Rows
  unfolding put_value
  put_floats [] r = r
  put_floats ((k, x) ∷ l) r = put_floats l (put_value k (float x) r)

  unfoldable pub put_rows : Text → Option Rows → Record Rows → Record Rows
  unfolding put_value
  put_rows k none r = r
  put_rows k (some l) r = put_value k (rows l) r

  -- The record of `formatDoris`.
  unfoldable pub doris_record : MapEvent Rows → Record Rows
  unfolding put_dimensions put_floats put_rows
  doris_record e = put_rows (codes "exceptions") e.exceptions (
      put_rows (codes "connections") e.connections (
        put_rows (codes "processes") e.processes (
          put_floats e.metrics (
            put_dimensions e.dimensions
              ((codes "__type", text e.kind) ∷ (codes "__timestamp", int e.timestamp) ∷ [])))))

-- A body before JSON.
pub data Body (Rows : Type 0) : Type 0 where
  json : Data Rows → Body Rows
  doris : Record Rows → Body Rows
  streamed : List VmMetric → Body Rows

-- `formatDoris`; none is an error.
unfoldable pub format_doris : {Rows : Type 0} → Data Rows → Option (Body Rows)
unfolding doris_record
format_doris no_map = none
format_doris (map_event e) = some (doris (doris_record e))

-- `formatVictoriaMetrics`.
unfoldable pub format_victoria_metrics : {Rows : Type 0} → Data Rows → Option (Body Rows)
unfolding vm_lines
format_victoria_metrics no_map = none
format_victoria_metrics (map_event e) =
    some (streamed (vm_lines e.kind e.timestamp e.metrics e.dimensions))

-- `formatBody`.
unfoldable pub format_body : {Rows : Type 0} → Text → Data Rows → Option (Body Rows)
unfolding format_doris format_victoria_metrics
format_body format d =
    if text_eq format (codes "victoriametrics")
    then format_victoria_metrics d
    else if text_eq format (codes "doris")
    then format_doris d
    else some (json d)

unfoldable pub content_type : {Rows : Type 0} → Body Rows → Text
content_type (json d) = codes "application/json; charset=utf-8"
content_type (doris r) = codes "application/json"
content_type (streamed l) = codes "application/streamed; charset=utf-8"

-- `Publish` of the console, where `marshal` is given, and of a write whether it fails and what comes
-- out. The flag is the error.
unfoldable pub publish_console :
    {Rows : Type 0}
    → (Data Rows → Option Text)
    → (Text → Bool × Text)
    → Data Rows
    → Text
    → Bool × Text
publish_console marshal write d out = elim (marshal d) [
  | none ↦ (true, out)
  | some line ↦ let done = write (line ++ (0x0a ∷ [])) in (done.0, out ++ done.1)
]
