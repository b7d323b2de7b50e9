-- ===== src/Script/Prometheus.antt =====
-- The other parts of scripts: `parsePrometheus` of internal/script/parse/parser.go, where the metric
-- families that expfmt reads are given in the order of a visit, and internal/script/exec/runner.go, where
-- the command's output and error are given.
use monitorbeat.Base.{ℕ, Option, none, some, List, [], ◌∷◌, ◌++◌, if◌then◌else◌, ◌||◌}
use monitorbeat.Base.Text.{Text, codes}
use monitorbeat.Alerts.Api.{is_empty}
use monitorbeat.Alerts.Labels.{Labels}
use monitorbeat.Output.Metrics.{Metrics, put_label}
use monitorbeat.Script.{put_metric}

-- `dto.Metric` as far as it is read: a value of each kind is there or not.
pub record Metric : Type 0 where
  pub gauge : Option ℕ
  pub counter : Option ℕ
  pub untyped : Option ℕ
  pub labels : Labels

pub record MetricFamily : Type 0 where
  pub name : Text
  pub metrics : List Metric

abbrev value_or : Option ℕ → ℕ → ℕ
value_or none x = x
value_or (some y) x = y

-- `extractValue`; a histogram and a summary read as 0.
unfoldable pub extract_value : Metric → ℕ
extract_value m = value_or m.gauge (value_or m.counter (value_or m.untyped 0))

-- The loop over the labels: an empty name or value is left out.
unfoldable pub add_labels : Labels → Labels → Labels
unfolding put_label
add_labels [] out = out
add_labels ((k, v) ∷ l) out =
    add_labels l (if is_empty k || is_empty v then out else put_label k v out)

-- The loop over the metrics of a family.
unfoldable pub add_metrics : Text → List Metric → Metrics × Labels → Metrics × Labels
unfolding extract_value add_labels put_metric
add_metrics name [] found = found
add_metrics name (m ∷ l) found = add_metrics name l (
  if is_empty name then found.0 else put_metric name (extract_value m) found.0,
  add_labels m.labels found.1,
)

unfoldable pub add_families : List MetricFamily → Metrics × Labels → Metrics × Labels
unfolding add_metrics
add_families [] found = found
add_families (f ∷ l) found = add_families l (add_metrics f.name f.metrics found)

-- `parsePrometheus`; an error of the parser gives nothing.
unfoldable pub parse_prometheus : (Text → Option (List MetricFamily)) → Text → Metrics × Labels
unfolding add_families
parse_prometheus read out = elim (read out) [ none ↦ ([], []) | some l ↦ add_families l ([], []) ]

-- `envSlice`.
unfoldable pub env_slice : List (Text × Text) → List Text
env_slice [] = []
env_slice ((k, v) ∷ l) = (k ++ (b'=' ∷ v)) ∷ env_slice l

-- `Run` of the runner, given the process's own environment and what `sh -c` does with a command: its
-- output and its error, which is wrapped with the quoted command and the output.
unfoldable pub run_command :
    (Text → Text)
    → List Text
    → (Text → List Text → Text × Option Text)
    → Text
    → List (Text × Text)
    → Text × Option Text
unfolding env_slice
run_command quote environ exec command envs =
    let (out, failed) = exec command (environ ++ env_slice envs) in
    (
      out,
      elim failed [
        | none ↦ none
        | some e ↦ some (codes "exec " ++ (quote command ++ (codes ": " ++ (e ++ (0x0a ∷ out)))))
      ],
    )
