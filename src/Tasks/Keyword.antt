-- ===== src/Tasks/Keyword.antt =====
-- The extraction of log lines: tasks/keyword. The regexp engine is given: what it captures of a line,
-- the whole match first, and the names of the groups in the same order. Lines come from a harvester.
use monitorbeat.Base.{
  ℕ, suc, Bool, true, not, ◌&&◌, Option, none, some, List, [], ◌∷◌, ◌++◌, if◌then◌else◌,
}
use monitorbeat.Base.Text.{Text, codes}
use monitorbeat.Alerts.Api.{is_empty}
use monitorbeat.Alerts.Labels.{Labels}
use monitorbeat.Configs.Tasks.{KeywordConfig}
use monitorbeat.Input.Decimal.{decimal}
use monitorbeat.Output.Metrics.{float_one, put_label}
use monitorbeat.Tasks.Event.{Event}

pub record Regex : Type 0 where
  pub find : Text → Option (List Text)
  pub names : List Text

unfoldable pub all_empty : List Text → Bool
all_empty [] = true
all_empty (n ∷ l) = is_empty n && all_empty l

-- The key of a group: its name, or its number if it has none or no group has one.
unfoldable pub group_key : Bool → Text → ℕ → Text
group_key unnamed name i = if not unnamed && not (is_empty name) then name else decimal i

-- The loop over the groups behind the whole match.
unfoldable pub captures_from : Bool → ℕ → List Text → List Text → Labels → Labels
unfolding group_key put_label
captures_from unnamed i [] m out = out
captures_from unnamed i (n ∷ names) [] out = out
captures_from unnamed i (n ∷ names) (x ∷ m) out =
    captures_from unnamed (suc i) names m (put_label (group_key unnamed n i) x out)

abbrev tail : List Text → List Text
tail [] = []
tail (x ∷ l) = l

-- `ExtractLine`.
unfoldable pub extract_line : Regex → Text → Option Labels
unfolding all_empty captures_from
extract_line re line = elim (re.find line) [
  | none ↦ none
  | some m ↦ some (captures_from (all_empty re.names) 1 (tail re.names) (tail m) [])
]

-- What the event of a line has besides its dimensions and metrics.
pub record RawLog : Type 0 where
  pub fields : Labels
  pub raw : Text
  pub error : Option Text

abbrev file_dimensions : Text → Text → Text → Labels
file_dimensions host file pattern_text =
    (codes "file", file) ∷ (codes "regex", pattern_text) ∷ (codes "hostname", host) ∷ []

-- `BuildRawLogEvent`, on a host with a name.
unfoldable pub build_raw_log_event : Text → Text → Text → ℕ → Labels → Text → Event RawLog
unfolding put_label
build_raw_log_event host file pattern_text line_no captures raw = record {
  kind = codes "raw_log";
  dimensions = file_dimensions host file pattern_text;
  metrics = (codes "matches_count", float_one) ∷ [];
  extra = record {
    fields = put_label (codes "line_number") (decimal line_no) captures;
    raw = raw;
    error = none;
  };
}

-- `emitError`.
unfoldable pub error_event : Text → KeywordConfig → Text → Event RawLog
error_event host cfg cause = record {
  kind = codes "raw_log";
  dimensions = file_dimensions host cfg.file cfg.pattern_text;
  metrics = (codes "matches_count", 0) ∷ [];
  extra = record { fields = []; raw = []; error = some cause };
}

-- The loop of `Run` over the lines that the harvester gives until it ends, behind some lines:
-- `cancelled` is whether the context is done before the event of a line is taken.
unfoldable pub run_lines :
    Text → KeywordConfig → Regex → (ℕ → Bool) → ℕ → List Text → List (Event RawLog)
unfolding extract_line build_raw_log_event
run_lines host cfg re cancelled line_no [] = []
run_lines host cfg re cancelled line_no (line ∷ l) =
    let rest = run_lines host cfg re cancelled (suc line_no) l in
    elim (extract_line re line) [
      | none ↦ rest
      | some captures ↦
          if cancelled (suc line_no)
          then []
          else build_raw_log_event host cfg.file cfg.pattern_text (suc line_no) captures line ∷ rest
    ]

-- `FromBegin == nil || *FromBegin`.
unfoldable pub from_begin : KeywordConfig → Bool
from_begin cfg = elim cfg.from_begin [ none ↦ true | some b ↦ b ]

-- `Run`, given the error of the offset registry, which is opened if it has a path, and what the
-- harvester gives: an error, or its lines.
unfoldable pub run_keyword :
    Text
    → KeywordConfig
    → Regex
    → (ℕ → Bool)
    → Option Text
    → Option Text
    → List Text
    → List (Event RawLog)
unfolding run_lines error_event
run_keyword host cfg re cancelled registry_error harvester_error lines =
    elim (if is_empty cfg.offset_registry then none else registry_error) [
      | some e ↦ error_event host cfg (codes "registry: " ++ e) ∷ []
      | none ↦ elim harvester_error [
        | some e ↦ error_event host cfg e ∷ []
        | none ↦ run_lines host cfg re cancelled 0 lines
      ]
    ]

pub data BuildError : Type 0 where
  config_mismatch no_file no_pattern bad_pattern no_command no_url : BuildError

-- The tests of `builder` on a keyword configuration, given whether its expression compiles.
unfoldable pub check_keyword : Bool → KeywordConfig → Option BuildError
check_keyword compiles cfg =
    if is_empty cfg.file
    then some no_file
    else if is_empty cfg.pattern_text
    then some no_pattern
    else if compiles
    then none
    else some bad_pattern

-- `Extract` of internal/regexp/extract/extract.go, which does the same.
unfoldable pub extract : Regex → Text → Option Labels
unfolding all_empty captures_from
extract re line = elim (re.find line) [
  | none ↦ none
  | some m ↦ some (captures_from (all_empty re.names) 1 (tail re.names) (tail m) [])
]
