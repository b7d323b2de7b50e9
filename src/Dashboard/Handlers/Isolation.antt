-- ===== src/Dashboard/Handlers/Isolation.antt =====
-- What the answers about one host depend on: `handleSummary`, `handleRange`, `handleEvents` and
-- `handleProbes` of web/api/server.go.
use monitorbeat.Base.{ℕ, ◌≡◌, refl, ap, ap₂, true, ◌||◌, some, List, [], ◌∷◌, ◌==◌, length, All}
use monitorbeat.Base.Text.{Text, codes}
use monitorbeat.Alerts.Api.{is_empty}
use monitorbeat.Dashboard.Promql.{selector, events_query, probe_query}
use monitorbeat.Dashboard.Promql.Selector.{
  is_name, read_host, read_host-selector, read_host-events_query, read_host-probe_query,
}
use monitorbeat.Dashboard.Vm.{Series, Result, ok, ◌>>=◌, Params}
use monitorbeat.Dashboard.Replies.{
  Client, MetricSeries, Response, series, get_param, get_params, first_value, or_bad, or_minute,
  answer, first_points,
}
use monitorbeat.Dashboard.Handlers.{
  get_metric, handle_summary, range_series, unit_of, handle_range, handle_events, probe_series,
  handle_probes,
}

-- Two clients that give the same reply to each query that is one selector of the given host.
pub record AgreesOn (host : Text) (c d : Client) : Type 0 where
  pub queries : (q : Text) → read_host q ≡ some host → c.query q ≡ d.query q
  pub ranges :
      (q from to step : Text)
      → read_host q ≡ some host
      → c.query_range q from to step ≡ d.query_range q from to step

module _ (host : Text) (c d : Client) (agrees : AgreesOn host c d) where
  get_metric_agrees :
      (metric : Text) → is_name metric ≡ true → get_metric c host metric ≡ get_metric d host metric
  unfolding get_metric
  get_metric_agrees metric h =
      ap first_value (agrees.queries (selector metric host) (read_host-selector metric host h))

  handle_summary_agrees : (now : ℕ) → handle_summary now c host ≡ handle_summary now d host
  unfolding handle_summary
  handle_summary_agrees now =
      rw
        (
          get_metric_agrees (codes "cpu_usage") refl,
          get_metric_agrees (codes "mem_used_percent") refl,
          get_metric_agrees (codes "disk_root_used_percent") refl,
          get_metric_agrees (codes "load1") refl,
          get_metric_agrees (codes "net_bytes_recv") refl,
          get_metric_agrees (codes "net_bytes_sent") refl,
        )
        refl

  range_series_agrees :
      (from to step : Text) (l : List Text)
      → All (λ m. is_name m ≡ true) l
      → range_series c host from to step l ≡ range_series d host from to step l
  unfolding range_series
  range_series_agrees from to step [] h = refl
  range_series_agrees from to step (m ∷ l) (h, k) =
      ap₂
        (λ (r : Result (List Series)) (rest : Result (List MetricSeries)). r >>= (λ found.
          rest >>= (λ out.
            ok (record { metric = m; unit = unit_of m; points = first_points found } ∷ out))))
        (agrees.ranges (selector m host) from to step (read_host-selector m host h))
        (range_series_agrees from to step l k)

  handle_range_agrees :
      (q : Params)
      → get_param (codes "host") q ≡ host
      → All (λ m. is_name m ≡ true) (get_params (codes "metric") q)
      → handle_range c q ≡ handle_range d q
  unfolding handle_range
  handle_range_agrees q e h = rw e (
      ap
        (λ (r : Result (List MetricSeries)).
          or_bad (is_empty host || length (get_params (codes "metric") q) == 0)
            (codes "host and metric required")
            (or_bad (is_empty (get_param (codes "from") q) || is_empty (get_param (codes "to") q))
              (codes "from and to required") (answer series r)))
        (range_series_agrees (get_param (codes "from") q) (get_param (codes "to") q)
          (or_minute (get_param (codes "step") q)) (get_params (codes "metric") q) h))

  handle_events_agrees :
      (q : Params)
      → get_param (codes "host") q ≡ host
      → is_name (get_param (codes "type") q) ≡ true
      → is_name (or_minute (get_param (codes "step") q)) ≡ true
      → handle_events c q ≡ handle_events d q
  unfolding handle_events
  handle_events_agrees q e h k =
      let typ : Text = get_param (codes "type") q in
      let step : Text = or_minute (get_param (codes "step") q) in
      rw
        (
          e,
          agrees.ranges (events_query typ host step) (get_param (codes "from") q)
              (get_param (codes "to") q) step (read_host-events_query typ host step h k),
        )
        refl

  probe_series_agrees :
      (kind from to step : Text)
      → is_name kind ≡ true
      → probe_series c host kind from to step ≡ probe_series d host kind from to step
  unfolding probe_series
  probe_series_agrees kind from to step k =
      rw
        (
          agrees.ranges (probe_query (codes "success") host kind) from to step
              (read_host-probe_query (codes "success") host kind refl k),
          agrees.ranges (probe_query (codes "duration_ms") host kind) from to step
              (read_host-probe_query (codes "duration_ms") host kind refl k),
        )
        refl

  handle_probes_agrees :
      (q : Params) → get_param (codes "host") q ≡ host → handle_probes c q ≡ handle_probes d q
  unfolding handle_probes
  handle_probes_agrees q e =
      let from : Text = get_param (codes "from") q in
      let to : Text = get_param (codes "to") q in
      let step : Text = or_minute (get_param (codes "step") q) in
      rw
        (
          e,
          probe_series_agrees (codes "ping") from to step refl,
          probe_series_agrees (codes "tcp") from to step refl,
          probe_series_agrees (codes "http") from to step refl,
        )
        refl

-- A request about one host: its summary by name, or the parameters of the other three.
pub data HostRequest : Type 0 where
  summary_of : Text → HostRequest
  range_of events_of probes_of : Params → HostRequest

abbrev pub host_of : HostRequest → Text
host_of (summary_of host) = host
host_of (range_of q) = get_param (codes "host") q
host_of (events_of q) = get_param (codes "host") q
host_of (probes_of q) = get_param (codes "host") q

-- The metric names of the request, or its event type and step, consist of the bytes of names.
abbrev pub HasPlainNames : HostRequest → Type 0
HasPlainNames (summary_of host) = Unit
HasPlainNames (range_of q) = All (λ m. is_name m ≡ true) (get_params (codes "metric") q)
HasPlainNames (events_of q) =
    (is_name (get_param (codes "type") q) ≡ true)
    × (is_name (or_minute (get_param (codes "step") q)) ≡ true)
HasPlainNames (probes_of q) = Unit

unfoldable pub serve_host : ℕ → Client → HostRequest → Response
serve_host now c (summary_of host) = handle_summary now c host
serve_host now c (range_of q) = handle_range c q
serve_host now c (events_of q) = handle_events c q
serve_host now c (probes_of q) = handle_probes c q

-- A request about a host, whose metric names, or event type and step, consist of letters, digits, `_`
-- and `:`, has the same response for two clients that give the same reply to each query that is one
-- selector of that host, alone or in calls: no data that another query would give reaches it.
pub serve_host_lem :
    (now : ℕ) (r : HostRequest) (c d : Client)
    → AgreesOn (host_of r) c d
    → HasPlainNames r
    → serve_host now c r ≡ serve_host now d r
unfolding serve_host
serve_host_lem now (summary_of host) c d agrees h = handle_summary_agrees host c d agrees now
serve_host_lem now (range_of q) c d agrees h =
    handle_range_agrees (get_param (codes "host") q) c d agrees q refl h
serve_host_lem now (events_of q) c d agrees h =
    handle_events_agrees (get_param (codes "host") q) c d agrees q refl h.0 h.1
serve_host_lem now (probes_of q) c d agrees h =
    handle_probes_agrees (get_param (codes "host") q) c d agrees q refl
