-- ===== src/Dashboard/Vm.antt =====
-- The client of VictoriaMetrics: web/vm/client.go. The HTTP transport, `url.Values.Encode` and the
-- JSON package are parameters; floats are bit patterns.
use monitorbeat.Base.{ℕ, ◌/◌, Option, none, some, List, [], ◌∷◌, ◌++◌, ◌==◌, if◌then◌else◌}
use monitorbeat.Base.Text.{Text, codes, text_eq}
use monitorbeat.Alerts.Labels.{Labels}

-- `Point`: the time in seconds, and the value.
pub record Point : Type 0 where
  pub time : ℕ
  pub value : ℕ

pub record Series : Type 0 where
  pub metric : Labels
  pub values : List Point

pub record Vector : Type 0 where
  pub metric : Labels
  pub value : Point

-- `queryResponse` and `queryData`, whose raw JSON stays text.
pub record QueryResponse : Type 0 where
  pub status : Text
  pub body : Text
  pub error : Text

pub record QueryData : Type 0 where
  pub result_type : Text
  pub result : Text

pub data VmError : Type 0 where
  invalid_request request_failed read_failed decode_failed : VmError
  http_status : ℕ → VmError
  vm_error : Text → VmError

pub data Result {ℓ} (A : Type ℓ) : Type ℓ where
  ok : A → Result A
  err : VmError → Result A

infixl 5 ◌>>=◌
abbrev pub ◌>>=◌ {ℓ κ} : {A : Type ℓ} {B : Type κ} → Result A → (A → Result B) → Result B
ok a >>= f = f a
err e >>= f = err e

-- A JSON text that is not of the form wanted is an error.
abbrev pub decoded {ℓ} : {A : Type ℓ} → Option A → Result A
decoded none = err decode_failed
decoded (some a) = ok a

-- What comes of a GET request.
pub data Reply : Type 0 where
  invalid unreachable broken : Reply
  replied : ℕ → Text → Reply

-- The decoders of the JSON package.
pub record Json : Type 0 where
  pub response : Text → Option QueryResponse
  pub query_data : Text → Option QueryData
  pub vectors : Text → Option (List Vector)
  pub series : Text → Option (List Series)
  pub strings : Text → Option (List Text)

-- `Point.UnmarshalJSON` of the two raw elements: the value is a string that holds a number, or a
-- number.
unfoldable pub decode_point :
    (Text → Option ℕ) → (Text → Option Text) → (Text → Option ℕ) → Text → Text → Option Point
decode_point json_float json_string parse_float time value = elim (json_float time) [
  | none ↦ none
  | some t ↦ elim (json_string value) [
    | none ↦ elim (json_float value) [
      | none ↦ none
      | some v ↦ some (record { time = t; value = v })
    ]
    | some s ↦ elim (parse_float s) [ none ↦ none | some v ↦ some (record { time = t; value = v }) ]
  ]
]

-- The test of the status that the server reports.
unfoldable pub check_status : QueryResponse → Result QueryResponse
check_status r = if text_eq r.status (codes "success") then ok r else err (vm_error r.error)

-- The rest of `doQuery`, from the reply on.
unfoldable pub read_reply : Json → Reply → Result QueryResponse
unfolding check_status
read_reply json invalid = err invalid_request
read_reply json unreachable = err request_failed
read_reply json broken = err read_failed
read_reply json (replied code body) =
    if code / 100 == 2
    then decoded (json.response body) >>= check_status
    else err (http_status code)

abbrev pub Params : Type 0
Params = List (Text × Text)

module _ (base_url : Text) (get : Text → Reply) (encode : Params → Text) (json : Json) where
  unfoldable pub query_url : Text → Params → Text
  query_url path [] = base_url ++ path
  query_url path (p ∷ q) = base_url ++ path ++ (b'?' ∷ encode (p ∷ q))

  -- `doQuery`.
  unfoldable pub do_query : Text → Params → Result QueryResponse
  unfolding query_url read_reply
  do_query path q = read_reply json (get (query_url path q))

  -- The elements of a result of the wanted type; a result of another type is no elements.
  unfoldable pub of_type :
      {A : Type 0} → Text → (Text → Option (List A)) → QueryData → Result (List A)
  of_type wanted decode d =
      if text_eq d.result_type wanted then decoded (decode d.result) else ok []

  -- `Query`.
  unfoldable pub query : Text → Result (List Vector)
  unfolding do_query of_type
  query expr = do
    out ← do_query (codes "/api/v1/query") ((codes "query", expr) ∷ [])
    d ← decoded (json.query_data out.body)
    of_type (codes "vector") json.vectors d

  -- `QueryRange`.
  unfoldable pub query_range : Text → Text → Text → Text → Result (List Series)
  unfolding do_query of_type
  query_range expr start end step = do
    out ← do_query (codes "/api/v1/query_range") (
        (codes "query", expr)
        ∷ (codes "start", start)
        ∷ (codes "end", end)
        ∷ (codes "step", step)
        ∷ [])
    d ← decoded (json.query_data out.body)
    of_type (codes "matrix") json.series d

  -- `LabelValues`.
  unfoldable pub label_values : Text → Result (List Text)
  unfolding do_query
  label_values label = do
    out ← do_query (codes "/api/v1/label/" ++ label ++ codes "/values") []
    decoded (json.strings out.body)
