-- ===== src/Dashboard/Replies.antt =====
-- What the handlers of web/api/server.go share: the calls of the client, the responses, the query
-- parameters and the guards. A response is a status with its body.
use monitorbeat.Base.{ℕ, Bool, Option, none, some, List, [], ◌∷◌, if◌then◌else◌}
use monitorbeat.Base.Int.{ℤ}
use monitorbeat.Base.Text.{Text, codes, text_eq}
use monitorbeat.Alerts.Api.{is_empty}
use monitorbeat.Dashboard.Vm.{Point, Series, Vector, VmError, Result, ok, err, Params}

-- The calls of `vm.Client` that the handlers make.
pub record Client : Type 0 where
  pub query : Text → Result (List Vector)
  pub query_range : Text → Text → Text → Text → Result (List Series)
  pub label_values : Text → Result (List Text)

-- `hostOut`.
pub record HostOut : Type 0 where
  pub hostname : Text
  pub last_seen : ℤ

pub record Summary : Type 0 where
  pub hostname : Text
  pub ts : ℕ
  pub cpu_usage : Option ℕ
  pub mem_used_percent : Option ℕ
  pub disk_root_used_percent : Option ℕ
  pub load1 : Option ℕ
  pub net_bytes_recv : Option ℕ
  pub net_bytes_sent : Option ℕ

pub record MetricSeries : Type 0 where
  pub metric : Text
  pub unit : Text
  pub points : List Point

pub record EventsResult : Type 0 where
  pub kind : Text
  pub points : List Point

pub record ProbeSeries : Type 0 where
  pub up : List Point
  pub duration : List Point

pub record ProbeResult : Type 0 where
  pub ping : ProbeSeries
  pub tcp : ProbeSeries
  pub http : ProbeSeries

-- A status 200 with its body, `badRequest`, `vmError` and `http.NotFound`.
pub data Response : Type 0 where
  not_found : Response
  healthy bad_request : Text → Response
  bad_gateway : VmError → Response
  hosts : List HostOut → Response
  summary : Summary → Response
  series : List MetricSeries → Response
  names : List Text → Response
  events : EventsResult → Response
  probes : ProbeResult → Response

-- `url.Values.Get`: the first value of a parameter, or nothing.
unfoldable pub get_param : Text → Params → Text
get_param k [] = []
get_param k ((n, v) ∷ q) = let rest = get_param k q in if text_eq n k then v else rest

-- The values of a parameter, in their order.
unfoldable pub get_params : Text → Params → List Text
get_params k [] = []
get_params k ((n, v) ∷ q) = let rest = get_params k q in if text_eq n k then v ∷ rest else rest

-- The value of the first vector; an error and an empty reply are none.
unfoldable pub first_value : Result (List Vector) → Option ℕ
first_value (err e) = none
first_value (ok []) = none
first_value (ok (v ∷ l)) = some v.value.value

-- The points of the first series.
unfoldable pub first_points : List Series → List Point
first_points [] = []
first_points (s ∷ l) = s.values

-- The guards of the handlers: the first condition that fails answers.
unfoldable pub or_bad : Bool → Text → Response → Response
or_bad fails msg rest = if fails then bad_request msg else rest

unfoldable pub or_minute : Text → Text
or_minute step = if is_empty step then codes "60" else step

abbrev pub answer {ℓ} : {A : Type ℓ} → (A → Response) → Result A → Response
answer f (err e) = bad_gateway e
answer f (ok a) = f a

-- The points of a probe's query; an error is no points.
unfoldable pub points_or_none : Result (List Series) → List Point
unfolding first_points
points_or_none (err e) = []
points_or_none (ok found) = first_points found
