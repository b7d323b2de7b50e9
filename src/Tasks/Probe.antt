-- ===== src/Tasks/Probe.antt =====
-- The probes: tasks/probe, tasks/tcp, tasks/udp and tasks/http. What the network does is given, and
-- so is the time that a probe took; errors are their texts.
use monitorbeat.Base.{ℕ, Bool, true, false, ◌&&◌, Option, none, some, [], ◌∷◌, ◌++◌, if◌then◌else◌}
use monitorbeat.Base.Float.{of_nat, of_int, over_unit}
use monitorbeat.Base.Int.{ℤ, pos, leb_int}
use monitorbeat.Base.Text.{Text, codes}
use monitorbeat.Alerts.Time.{sub_time}
use monitorbeat.Configs.Param.{print_int}
use monitorbeat.Configs.Tasks.{HttpConfig, TcpConfig, UdpConfig}
use monitorbeat.Output.Metrics.{Metrics, float_one}
use monitorbeat.Script.{put_metric}
use monitorbeat.Tasks.Event.{Event}

pub record Result : Type 0 where
  pub metrics : Metrics
  pub error : Text
  pub duration : ℤ
  pub success : Bool

-- `DurationMillis`.
unfoldable pub duration_millis : ℤ → ℕ
unfolding over_unit
duration_millis d = over_unit 1000000 d

-- `BuildEvent`, on a host with a name.
unfoldable pub build_event : Text → Text → Text → ℤ → Result → Event Text
unfolding duration_millis put_metric
build_event host probe_type target task_id r = record {
  kind = probe_type ++ codes "_event";
  dimensions =
      (codes "hostname", host)
      ∷ (codes "probe_type", probe_type)
      ∷ (codes "target", target)
      ∷ (codes "task_id", print_int task_id)
      ∷ [];
  metrics =
      put_metric (codes "duration_ms") (duration_millis r.duration)
        (put_metric (codes "success") (if r.success then float_one else 0) r.metrics);
  extra = r.error;
}

abbrev error_text : Option Text → Text
error_text none = []
error_text (some e) = e

-- The result in `Run` of tasks/tcp: the errors of dialling and, if that worked, of closing.
unfoldable pub tcp_result : ℤ → Option Text → Option Text → Result
unfolding duration_millis
tcp_result duration (some e) close = record {
  metrics = (codes "connect_ms", duration_millis duration) ∷ [];
  error = e;
  duration = duration;
  success = false;
}
tcp_result duration none close = record {
  metrics = (codes "connect_ms", duration_millis duration) ∷ [];
  error = error_text close;
  duration = duration;
  success = elim close [ none ↦ true | some e ↦ false ];
}

-- A UDP connection: its errors, and the bytes that a write and a read give also with an error.
pub record Udp : Type 0 where
  pub dial : Option Text
  pub has_deadline : Bool
  pub set_deadline : Option Text
  pub write : Text → ℕ × Option Text
  pub read : ℕ × Option Text
  pub elapsed : ℤ

abbrev udp_failure : ℤ → Text → Metrics → Result
udp_failure duration e metrics = record {
  metrics = metrics;
  error = e;
  duration = duration;
  success = false;
}

abbrev round_trip : ℤ → Text × ℕ
round_trip duration = (codes "round_trip_ms", duration_millis duration)

abbrev written : ℕ → Text × ℕ
written n = (codes "bytes_written", of_nat n)

-- `probe` of tasks/udp from the reply on.
unfoldable pub udp_reply : ℤ → ℕ → ℕ × Option Text → Result
unfolding duration_millis
udp_reply duration n (m, err) = record {
  metrics = written n ∷ (codes "bytes_read", of_nat m) ∷ round_trip duration ∷ [];
  error = error_text err;
  duration = duration;
  success = elim err [ none ↦ true | some e ↦ false ];
}

-- From the write on.
unfoldable pub udp_write : UdpConfig → Udp → ℕ × Option Text → Result
unfolding udp_reply
udp_write cfg u (n, some e) = udp_failure u.elapsed e (written n ∷ round_trip u.elapsed ∷ [])
udp_write cfg u (n, none) = if cfg.expect_reply then udp_reply u.elapsed n u.read else record {
  metrics = written n ∷ round_trip u.elapsed ∷ [];
  error = [];
  duration = u.elapsed;
  success = true;
}

unfoldable pub udp_payload : Text → Text
udp_payload [] = codes "monitorbeat"
udp_payload (c ∷ s) = c ∷ s

-- `probe` of tasks/udp.
unfoldable pub udp_probe : UdpConfig → Udp → Result
unfolding udp_write udp_payload
udp_probe cfg u = elim u.dial [
  | some e ↦ udp_failure u.elapsed e (round_trip u.elapsed ∷ [])
  | none ↦ elim (if u.has_deadline then u.set_deadline else none) [
    | some e ↦ udp_failure u.elapsed e (round_trip u.elapsed ∷ [])
    | none ↦ udp_write cfg u (u.write (udp_payload cfg.payload))
  ]
]

-- `traceTimes`: an instant that was not reached is none.
pub record TraceTimes : Type 0 where
  pub dns_start : Option ℕ
  pub dns_done : Option ℕ
  pub connect_start : Option ℕ
  pub connect_done : Option ℕ
  pub tls_start : Option ℕ
  pub tls_done : Option ℕ
  pub first_byte : Option ℕ

-- A phase is timed if both its instants were reached.
unfoldable pub phase_metric : Text → Option ℕ → Option ℕ → Metrics
unfolding sub_time duration_millis
phase_metric name none finish = []
phase_metric name (some a) none = []
phase_metric name (some a) (some b) = (name, duration_millis (sub_time b a)) ∷ []

-- `traceTimes.metrics`.
unfoldable pub trace_metrics : TraceTimes → ℕ → ℤ → ℕ → Metrics
unfolding phase_metric
trace_metrics t start status_code content_length =
    (codes "status_code", of_int status_code)
    ∷ (codes "content_length", of_nat content_length)
    ∷ (phase_metric (codes "dns_ms") t.dns_start t.dns_done
        ++ (phase_metric (codes "connect_ms") t.connect_start t.connect_done
            ++ (phase_metric (codes "tls_ms") t.tls_start t.tls_done
                ++ phase_metric (codes "ttfb_ms") (some start) t.first_byte)))

-- A request: whether it can be made, and what comes of it with its instants.
pub record Http : Type 0 where
  pub bad_request : Option Text
  pub failed : Option Text
  pub status_code : ℤ
  pub body_length : ℕ
  pub read_error : Option Text
  pub times : TraceTimes
  pub start : ℕ
  pub elapsed : ℤ

-- `failure`.
unfoldable pub http_failure : ℤ → Text → Metrics → Result
unfolding duration_millis put_metric
http_failure duration e metrics = record {
  metrics = put_metric (codes "total_ms") (duration_millis duration) metrics;
  error = e;
  duration = duration;
  success = false;
}

-- The rest of `probe` of tasks/http, behind the reading of the body.
unfoldable pub http_reply : HttpConfig → Http → Metrics → Result
http_reply cfg h metrics = elim h.read_error [
  | some e ↦ record { metrics = metrics; error = e; duration = h.elapsed; success = false }
  | none ↦
      if leb_int h.status_code cfg.expected_code && leb_int cfg.expected_code h.status_code
      then record { metrics = metrics; error = []; duration = h.elapsed; success = true }
      else record {
        metrics = metrics;
        error =
            codes "unexpected status: got "
            ++ (print_int h.status_code ++ (codes " want " ++ print_int cfg.expected_code));
        duration = h.elapsed;
        success = false;
      }
]

-- `probe` of tasks/http.
unfoldable pub http_probe : HttpConfig → Http → Result
unfolding http_failure http_reply trace_metrics put_metric duration_millis
http_probe cfg h = elim h.bad_request [
  | some e ↦ http_failure h.elapsed e []
  | none ↦ elim h.failed [
    | some e ↦ http_failure h.elapsed e (trace_metrics h.times h.start (pos 0) 0)
    | none ↦ http_reply cfg h (
        put_metric (codes "total_ms") (duration_millis h.elapsed)
          (trace_metrics h.times h.start h.status_code h.body_length))
  ]
]

-- `Run` of tasks/tcp, tasks/udp and tasks/http: the event that is sent unless the context is done.
unfoldable pub run_tcp : Text → TcpConfig → ℤ → Option Text → Option Text → Event Text
unfolding build_event tcp_result
run_tcp host cfg elapsed dial close =
    build_event host (codes "tcp") cfg.address cfg.base.task_id (tcp_result elapsed dial close)

unfoldable pub run_udp : Text → UdpConfig → Udp → Event Text
unfolding build_event udp_probe
run_udp host cfg u = build_event host (codes "udp") cfg.address cfg.base.task_id (udp_probe cfg u)

unfoldable pub run_http : Text → HttpConfig → Http → Event Text
unfolding build_event http_probe
run_http host cfg h = build_event host (codes "http") cfg.url cfg.base.task_id (http_probe cfg h)
