-- ===== src/Output/Metrics.antt =====
-- The lines that the HTTP output imports into VictoriaMetrics: `formatVictoriaMetrics` of
-- internal/output/http.go, before JSON. A map is its entries in the order of a visit, and a float64
-- its bit pattern.
pub mod Lines
use monitorbeat.Base.{ℕ, Bool, true, false, Option, none, some, List, [], ◌∷◌, map, if◌then◌else◌}
use monitorbeat.Base.Int.{ℤ}
use monitorbeat.Base.Text.{Text, codes, text_eq}
use monitorbeat.Alerts.Labels.{Labels, sort_strings}

abbrev pub Metrics : Type 0
Metrics = List (Text × ℕ)

-- `vmMetric`, whose lists have one element each.
pub record VmMetric : Type 0 where
  pub metric : Labels
  pub value : ℕ
  pub timestamp : ℤ

abbrev pub name_key : Text
name_key = codes "__name__"

-- The float64 1.
abbrev pub float_one : ℕ
float_one = 0x3ff0000000000000

unfoldable pub put_label : Text → Text → Labels → Labels
put_label k v [] = (k, v) ∷ []
put_label k v ((j, w) ∷ l) = if text_eq j k then (k, v) ∷ l else (j, w) ∷ put_label k v l

-- `cloneStringMap`.
unfoldable pub clone_string_map : Labels → Labels
clone_string_map [] = []
clone_string_map (([], v) ∷ l) = clone_string_map l
clone_string_map ((c ∷ k, v) ∷ l) = (c ∷ k, v) ∷ clone_string_map l

unfoldable pub metric_keys : Metrics → List Text
metric_keys [] = []
metric_keys ((k, x) ∷ l) = k ∷ metric_keys l

-- `metrics[k]`: 0 on a missing key.
unfoldable pub metric_value : Text → Metrics → ℕ
metric_value k [] = 0
metric_value k ((j, x) ∷ l) = if text_eq j k then x else metric_value k l

-- The loop over the sorted names, with dimensions.
unfoldable pub named_lines : ℤ → Metrics → Labels → List Text → List VmMetric
unfolding put_label metric_value
named_lines t metrics dims [] = []
named_lines t metrics dims (k ∷ ks) =
    record { metric = put_label name_key k dims; value = metric_value k metrics; timestamp = t }
    ∷ named_lines t metrics dims ks

-- The loop over the metrics when there are no dimensions.
unfoldable pub unnamed_lines : ℤ → Labels → Metrics → List VmMetric
unfolding put_label clone_string_map
unnamed_lines t metric [] = []
unnamed_lines t metric ((k, x) ∷ l) =
    let named = put_label name_key k metric in
    record { metric = clone_string_map named; value = x; timestamp = t }
    ∷ unnamed_lines t (put_label name_key [] named) l

-- The lines of an event of a type, at an instant in milliseconds.
unfoldable pub vm_lines : Text → ℤ → Metrics → Labels → List VmMetric
unfolding named_lines unnamed_lines sort_strings metric_keys put_label
vm_lines kind t (m ∷ ms) (d ∷ ds) =
    named_lines t (m ∷ ms) (d ∷ ds) (sort_strings (metric_keys (m ∷ ms)))
vm_lines kind t (m ∷ ms) [] = unnamed_lines t [] (m ∷ ms)
vm_lines kind t [] dims =
    record { metric = put_label name_key kind dims; value = float_one; timestamp = t } ∷ []
