-- ===== src/Output/Metrics/Lines.antt =====
-- One line for each metric of an event.
use monitorbeat.Base.{
  ℕ, ◌+◌, ◌≡◌, refl, sym, ap, ◌∙◌, false, List, [], ◌∷◌, map, arith, All, if◌then◌else◌,
}
use monitorbeat.Base.Int.{ℤ}
use monitorbeat.Base.Text.{Text, text_eq, text_eq_refl, text_eq_iff}
use monitorbeat.Alerts.Labels.{Labels, label, insert_string, sort_strings}
use monitorbeat.Output.Metrics.{
  Metrics, VmMetric, name_key, put_label, metric_keys, metric_value, named_lines, vm_lines,
}

abbrev pub count_text : Text → List Text → ℕ
count_text k [] = 0
count_text k (s ∷ l) = (if text_eq s k then 1 else 0) + count_text k l

count_text-insert_string :
    (k s : Text) (l : List Text) → count_text k (insert_string s l) ≡ count_text k (s ∷ l)
unfolding insert_string
count_text-insert_string k s [] = refl
count_text-insert_string k s (x ∷ l) = ground (arith, count_text-insert_string k s l)

count_text-sort_strings :
    (k : Text) (l : List Text) → count_text k (sort_strings l) ≡ count_text k l
unfolding sort_strings
count_text-sort_strings k [] = refl
count_text-sort_strings k (s ∷ l) =
    omega (arith, count_text-insert_string k s (sort_strings l), count_text-sort_strings k l)

label-put_label :
    (k j v : Text) (l : Labels) → label k (put_label j v l) ≡ (if text_eq j k then v else label k l)
unfolding label put_label
label-put_label k j v [] = refl
label-put_label k j v ((i, w) ∷ l) =
    ground (arith, label-put_label k j v l, text_eq_iff i j, text_eq_iff j k, text_eq_iff i k)

abbrev pub line_names : List VmMetric → List Text
line_names = map (λ (l : VmMetric). label name_key l.metric)

-- A line has the value of the metric that it names, and every other label is that of the event.
pub record IsLine (t : ℤ) (metrics : Metrics) (dims : Labels) (line : VmMetric) : Type 0 where
  pub value_eq : line.value ≡ metric_value (label name_key line.metric) metrics
  pub labels_eq : (j : Text) → text_eq name_key j ≡ false → label j line.metric ≡ label j dims
  pub timestamp_eq : line.timestamp ≡ t

line_name : (k : Text) (dims : Labels) → label name_key (put_label name_key k dims) ≡ k
line_name k dims = label-put_label name_key name_key k dims ∙ rw (text_eq_refl name_key) refl

names-named_lines :
    (t : ℤ) (metrics : Metrics) (dims : Labels) (ks : List Text)
    → line_names (named_lines t metrics dims ks) ≡ ks
unfolding named_lines
names-named_lines t metrics dims [] = refl
names-named_lines t metrics dims (k ∷ ks) =
    ap (λ s. s ∷ line_names (named_lines t metrics dims ks)) (line_name k dims)
    ∙ ap (λ l. k ∷ l) (names-named_lines t metrics dims ks)

named_lines-IsLine :
    (t : ℤ) (metrics : Metrics) (dims : Labels) (ks : List Text)
    → All (IsLine t metrics dims) (named_lines t metrics dims ks)
unfolding named_lines
named_lines-IsLine t metrics dims [] = tt
named_lines-IsLine t metrics dims (k ∷ ks) = (
  record {
    value_eq = ap (λ s. metric_value s metrics) (sym (line_name k dims));
    labels_eq = λ j h. label-put_label j name_key k dims ∙ rw h refl;
    timestamp_eq = refl;
  },
  named_lines-IsLine t metrics dims ks,
)

-- An event with metrics and dimensions gives as many lines of each name as it has metrics of that
-- name; a line has the value of the metric that it names, the instant of the event, and every label
-- but the name from the dimensions.
pub vm_lines_lem :
    (kind : Text) (t : ℤ) (m : Text × ℕ) (ms : Metrics) (d : Text × Text) (ds : Labels) (k : Text)
    → let lines = vm_lines kind t (m ∷ ms) (d ∷ ds) in
      (count_text k (line_names lines) ≡ count_text k (metric_keys (m ∷ ms)))
      × All (IsLine t (m ∷ ms) (d ∷ ds)) lines
unfolding vm_lines
vm_lines_lem kind t m ms d ds k =
    let names = sort_strings (metric_keys (m ∷ ms)) in
    (
      ap (count_text k) (names-named_lines t (m ∷ ms) (d ∷ ds) names)
          ∙ count_text-sort_strings k (metric_keys (m ∷ ms)),
      named_lines-IsLine t (m ∷ ms) (d ∷ ds) names,
    )
