-- ===== src/Dashboard/Handlers.antt =====
-- The handlers that read VictoriaMetrics: web/api/server.go. The client's answers, the clock and the
-- conversion of a float to int64 are parameters; a request is the list of its query parameters.
pub mod Isolation
use monitorbeat.Base.{ℕ, Bool, ◌||◌, Option, List, [], ◌∷◌, ◌==◌, length, if◌then◌else◌}
use monitorbeat.Base.Int.{ℤ}
use monitorbeat.Base.Text.{Text, codes, text_eq}
use monitorbeat.Alerts.Labels.{label}
use monitorbeat.Alerts.Api.{is_empty}
use monitorbeat.Dashboard.Promql.{selector, events_query, probe_query}
use monitorbeat.Dashboard.Replies.{
  Client, HostOut, Summary, MetricSeries, EventsResult, ProbeSeries, ProbeResult, Response,
  not_found, healthy, bad_request, bad_gateway, hosts, summary, series, names, events, probes,
  get_param, get_params, or_bad, or_minute, answer, first_points, points_or_none, first_value,
}
use monitorbeat.Dashboard.Vm.{Vector, Result, ok, err, ◌>>=◌, Params}
use monitorbeat.Exceptionbeat.Strings.{split, contains, has_suffix}

-- `handleHealthz`.
unfoldable pub handle_healthz : Text → Response
handle_healthz vm_url = healthy vm_url

-- `tsMap[h]`: the last vector of a host counts, and a host with none reads as 0.
unfoldable pub last_time : ℕ → Text → List Vector → ℕ
unfolding label
last_time found h [] = found
last_time found h (v ∷ l) =
    last_time (if text_eq (label (codes "hostname") v.metric) h then v.value.value else found) h l

-- The hosts of the first query, less those with no name.
unfoldable pub host_list : (ℕ → ℤ) → List Vector → List Vector → List HostOut
unfolding label last_time
host_list to_int64 times [] = []
host_list to_int64 times (v ∷ l) =
    let rest = host_list to_int64 times l in
    let h = label (codes "hostname") v.metric in
    if is_empty h
    then rest
    else record { hostname = h; last_seen = to_int64 (last_time 0 h times) } ∷ rest

-- `handleHosts`, from the reply to its second query on.
unfoldable pub hosts_with : (ℕ → ℤ) → List Vector → Result (List Vector) → Response
unfolding host_list
hosts_with to_int64 found (err e) = bad_gateway e
hosts_with to_int64 found (ok times) = hosts (host_list to_int64 times found)

-- `handleHosts`.
unfoldable pub handle_hosts : (ℕ → ℤ) → Client → Response
unfolding hosts_with
handle_hosts to_int64 c = elim (c.query (codes "max by (hostname) (cpu_usage)")) [
  | err e ↦ bad_gateway e
  | ok found ↦
      hosts_with to_int64 found (c.query (codes "max by (hostname) (timestamp(cpu_usage))"))
]

-- `get` of `handleSummary`.
unfoldable pub get_metric : Client → Text → Text → Option ℕ
unfolding first_value
get_metric c host metric = first_value (c.query (selector metric host))

-- `handleSummary`.
unfoldable pub handle_summary : ℕ → Client → Text → Response
unfolding get_metric
handle_summary now c host = summary (record {
  hostname = host;
  ts = now;
  cpu_usage = get_metric c host (codes "cpu_usage");
  mem_used_percent = get_metric c host (codes "mem_used_percent");
  disk_root_used_percent = get_metric c host (codes "disk_root_used_percent");
  load1 = get_metric c host (codes "load1");
  net_bytes_recv = get_metric c host (codes "net_bytes_recv");
  net_bytes_sent = get_metric c host (codes "net_bytes_sent");
})

-- The two parts of a path that are read, the others dropped.
unfoldable pub handle_host_parts : ℕ → Client → List Text → Response
unfolding handle_summary
handle_host_parts now c [] = not_found
handle_host_parts now c (host ∷ []) = not_found
handle_host_parts now c (host ∷ p ∷ rest) =
    if text_eq p (codes "summary") then handle_summary now c host else not_found

-- `handleHost`, given the path behind `/api/v1/host/`.
unfoldable pub handle_host : ℕ → Client → Text → Response
unfolding handle_host_parts split
handle_host now c rest = handle_host_parts now c (split b'/' rest)

-- `unitOf`.
unfoldable pub unit_of : Text → Text
unfolding contains has_suffix
unit_of m =
    if contains (codes "percent") m
    then codes "%"
    else if has_suffix (codes "_bytes") m
    then codes "B"
    else []

-- The loop of `handleRange`: the first query that fails ends it.
unfoldable pub range_series :
    Client → Text → Text → Text → Text → List Text → Result (List MetricSeries)
unfolding unit_of first_points
range_series c host from to step [] = ok []
range_series c host from to step (m ∷ l) =
    let rest = range_series c host from to step l in
    c.query_range (selector m host) from to step >>= (λ found.
      rest
      >>= (λ out. ok (record { metric = m; unit = unit_of m; points = first_points found } ∷ out)))

-- `handleRange`.
unfoldable pub handle_range : Client → Params → Response
unfolding get_param get_params or_bad or_minute range_series
handle_range c q =
    let host = get_param (codes "host") q in
    let metrics = get_params (codes "metric") q in
    let from = get_param (codes "from") q in
    let to = get_param (codes "to") q in
    or_bad (is_empty host || length metrics == 0) (codes "host and metric required") (
      or_bad (is_empty from || is_empty to) (codes "from and to required") (
        answer series
          (range_series c host from to (or_minute (get_param (codes "step") q)) metrics)))

-- `handleMetricNames`.
unfoldable pub handle_metric_names : Client → Response
handle_metric_names c = answer names (c.label_values (codes "__name__"))

-- `handleEvents`.
unfoldable pub handle_events : Client → Params → Response
unfolding get_param or_bad or_minute first_points
handle_events c q =
    let host = get_param (codes "host") q in
    let typ = get_param (codes "type") q in
    let from = get_param (codes "from") q in
    let to = get_param (codes "to") q in
    let step = or_minute (get_param (codes "step") q) in
    or_bad (is_empty host || is_empty typ) (codes "host and type required") (
      or_bad (is_empty from || is_empty to) (codes "from and to required") (
        answer (λ found. events (record { kind = typ; points = first_points found }))
          (c.query_range (events_query typ host step) from to step)))

-- `probeSeries`.
unfoldable pub probe_series : Client → Text → Text → Text → Text → Text → ProbeSeries
unfolding points_or_none
probe_series c host kind from to step = record {
  up = points_or_none (c.query_range (probe_query (codes "success") host kind) from to step);
  duration =
      points_or_none (c.query_range (probe_query (codes "duration_ms") host kind) from to step);
}

-- `handleProbes`.
unfoldable pub handle_probes : Client → Params → Response
unfolding get_param or_bad or_minute probe_series
handle_probes c q =
    let host = get_param (codes "host") q in
    let from = get_param (codes "from") q in
    let to = get_param (codes "to") q in
    let step = or_minute (get_param (codes "step") q) in
    or_bad (is_empty host) (codes "host required") (
      or_bad (is_empty from || is_empty to) (codes "from and to required") (
        probes (record {
          ping = probe_series c host (codes "ping") from to step;
          tcp = probe_series c host (codes "tcp") from to step;
          http = probe_series c host (codes "http") from to step;
        })))
