-- ===== src/Schedulers/Wiring.antt =====
-- The outputs of the agent: `wireOutputs`, `buildOutput` and `decodeHTTPOutputConfig` of
-- cmd/monitorbeat/main.go. Parameters are a map of YAML values; the JSON package and
-- `time.ParseDuration` are given.
use monitorbeat.Base.{Bool, true, false, Option, none, some, List, [], ◌∷◌, ◌++◌, if◌then◌else◌}
use monitorbeat.Base.Int.{ℤ}
use monitorbeat.Base.Text.{Text, codes, text_eq}
use monitorbeat.Configs.HttpOutput.{HttpOutputConfig, clean_http_output}

-- A value of a parameter: a text, a duration, or another.
pub data Param {ℓ} (V : Type ℓ) : Type ℓ where
  text : Text → Param V
  duration : ℤ → Param V
  other : V → Param V

abbrev pub Params : Type 0 → Type 0
Params V = List (Text × Param V)

pub record OutputConfig (V : Type 0) : Type 0 where
  pub kind : Text
  pub params : Params V

-- What an output is made from.
pub data Output : Type 0 where
  console : Output
  file : Output
  http : HttpOutputConfig → Output

-- The duration that a parameter is parsed to; none is an error of the parser.
unfoldable pub as_duration : {V : Type 0} → (Text → Option ℤ) → Param V → Option (Param V)
as_duration parse_duration (text s) = elim (parse_duration s) [
  | none ↦ none
  | some d ↦ some (duration d)
]
as_duration parse_duration (duration d) = some (duration d)
as_duration parse_duration (other v) = some (other v)

abbrev put_first : {V : Type 0} → Text → Params V → Option (Param V) → Option (Params V)
put_first k l none = none
put_first k l (some v) = some ((k, v) ∷ l)

abbrev keep_first : {V : Type 0} → Text → Param V → Option (Params V) → Option (Params V)
keep_first k v none = none
keep_first k v (some l) = some ((k, v) ∷ l)

-- `params["timeout"]`, parsed if it is a text.
unfoldable pub parse_timeout : {V : Type 0} → (Text → Option ℤ) → Params V → Option (Params V)
unfolding as_duration
parse_timeout parse_duration [] = some []
parse_timeout parse_duration ((k, v) ∷ l) =
    let rest = parse_timeout parse_duration l in
    if text_eq k (codes "timeout")
    then put_first k l (as_duration parse_duration v)
    else keep_first k v rest

module _ {V : Type 0} (parse_duration : Text → Option ℤ)
    (decode : Params V → Option HttpOutputConfig) where
  -- `decodeHTTPOutputConfig`; none is one of its errors.
  unfoldable pub decode_http_output_config : Params V → Option HttpOutputConfig
  unfolding parse_timeout clean_http_output
  decode_http_output_config params = elim (parse_timeout parse_duration params) [
    | none ↦ none
    | some p ↦ elim (decode p) [ none ↦ none | some c ↦ clean_http_output c ]
  ]

  -- `buildOutput`; none is an error.
  unfoldable pub build_output : OutputConfig V → Option Output
  unfolding decode_http_output_config
  build_output oc =
      if text_eq oc.kind (codes "console")
      then some console
      else if text_eq oc.kind (codes "file")
      then some file
      else if text_eq oc.kind (codes "http")
      then elim (decode_http_output_config oc.params) [ none ↦ none | some c ↦ some (http c) ]
      else none

  -- `wireOutputs`, behind some outputs: an output that is not built is skipped, and one whose `Init`
  -- fails ends the loop with an error, which the flag is.
  unfoldable pub wire_outputs :
      (Output → Params V → Bool) → List (OutputConfig V) → List Output → Bool × List Output
  unfolding build_output
  wire_outputs init [] out = (false, out)
  wire_outputs init (oc ∷ l) out = elim (build_output oc) [
    | none ↦ wire_outputs init l out
    | some o ↦ if init o oc.params then wire_outputs init l (out ++ o ∷ []) else (true, out)
  ]
