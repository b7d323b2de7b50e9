-- ===== src/Script.antt =====
-- What scripts print: `Parse` and `parseCustom` of internal/script/parse/parser.go, on ASCII text.
-- `parse_float` is `strconv.ParseFloat`, and `parse_prometheus` the branch that calls expfmt.
pub mod TooLong
pub mod Prometheus
mod Tests
use monitorbeat.Base.{
  ℕ, Bool, true, false, ◌||◌, ◌==◌, Option, none, some, List, [], ◌∷◌, ◌++◌, length, ltb,
  if◌then◌else◌,
}
use monitorbeat.Base.Text.{Text, codes, text_eq}
use monitorbeat.Alerts.Labels.{Labels}
use monitorbeat.Exceptionbeat.Strings.{trim_space}
use monitorbeat.Output.Metrics.{Metrics, put_label}

-- A carriage return at the end of a line is dropped.
unfoldable pub drop_cr : Text → Text
drop_cr [] = []
drop_cr (c ∷ []) = if c == 0x0d then [] else c ∷ []
drop_cr (c ∷ d ∷ s) = c ∷ drop_cr (d ∷ s)

-- The last line, if it has a byte.
unfoldable pub last_token : Text → List Text
unfolding drop_cr
last_token [] = []
last_token (c ∷ s) = drop_cr (c ∷ s) ∷ []

-- What `Scan` gives of a text, after some bytes of the first line: it stops for good at a line of
-- `MaxScanTokenSize` bytes, 65536, or more.
unfoldable pub scan_from : Text → Text → List Text
unfolding drop_cr last_token
scan_from acc [] = if ltb 65535 (length acc) then [] else last_token acc
scan_from acc (c ∷ s) =
    if ltb 65535 (length acc)
    then []
    else if c == b'\n'
    then drop_cr acc ∷ scan_from [] s
    else scan_from (acc ++ c ∷ []) s

-- `strings.SplitN(line, "=", 2)`, if it gives two parts.
unfoldable pub split_equals : Text → Option (Text × Text)
split_equals [] = none
split_equals (c ∷ s) =
    if c == b'='
    then some ([], s)
    else (elim (split_equals s) [ none ↦ none | some (k, v) ↦ some (c ∷ k, v) ])

unfoldable pub put_metric : Text → ℕ → Metrics → Metrics
put_metric k x [] = (k, x) ∷ []
put_metric k x ((j, y) ∷ l) = if text_eq j k then (k, x) ∷ l else (j, y) ∷ put_metric k x l

module _ (parse_float : Text → Option ℕ) where
  -- An assignment goes to the metrics if its value is a number, and else to the labels.
  unfoldable pub put_assignment : Text → Text → Metrics × Labels → Metrics × Labels
  unfolding put_metric put_label
  put_assignment key value (metrics, labels) = elim (parse_float value) [
    | none ↦ (metrics, put_label key value labels)
    | some x ↦ (put_metric key x metrics, labels)
  ]

  -- One turn of the loop of `parseCustom`: empty lines, comments and lines without `=` are skipped.
  unfoldable pub parse_line : Text → Metrics × Labels → Metrics × Labels
  unfolding split_equals put_assignment trim_space
  parse_line [] found = found
  parse_line (c ∷ s) found = if c == b'#' then found else (elim (split_equals (c ∷ s)) [
    | none ↦ found
    | some (k, v) ↦ put_assignment (trim_space k) (trim_space v) found
  ])

  unfoldable pub parse_lines : List Text → Metrics × Labels → Metrics × Labels
  unfolding parse_line
  parse_lines [] found = found
  parse_lines (l ∷ ls) found = parse_lines ls (parse_line l found)

  -- `parseCustom`.
  unfoldable pub parse_custom : Text → Metrics × Labels
  unfolding parse_lines scan_from
  parse_custom out = parse_lines (scan_from [] out) ([], [])

  -- `Parse`.
  unfoldable pub parse_output : (Text → Metrics × Labels) → Text → Text → Metrics × Labels
  unfolding parse_custom
  parse_output parse_prometheus format out =
      if text_eq format (codes "prometheus") then parse_prometheus out else parse_custom out
