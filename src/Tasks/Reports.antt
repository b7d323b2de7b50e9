-- ===== src/Tasks/Reports.antt =====
-- The remaining reports: tasks/selfstats, tasks/gatherupbeat, tasks/socketsnapshot, tasks/script,
-- tasks/metricbeat and the event of tasks/processbeat. What the runtime, gopsutil, the command and the
-- HTTP client give is given.
use monitorbeat.Base.{ℕ, ◌*◌, Bool, Option, none, some, List, [], ◌∷◌, ◌++◌, length, map}
use monitorbeat.Base.Float.{of_nat, of_int, over_unit}
use monitorbeat.Base.Int.{ℤ, pos, quot}
use monitorbeat.Base.Text.{Text, codes}
use monitorbeat.Alerts.Labels.{Labels}
use monitorbeat.Configs.Param.{print_int, or_default, second}
use monitorbeat.Configs.Tasks.{
  GatherUpBeatConfig, ScriptConfig, MetricbeatConfig, ProcessbeatConfig,
}
use monitorbeat.Output.Metrics.{Metrics, put_label}
use monitorbeat.Processbeat.{Process, ProcInfo, ok, err, collect}
use monitorbeat.Script.{put_metric, parse_output}
use monitorbeat.Tasks.Event.{Event, host_only}

-- `time.Duration.Milliseconds`, as a float64.
abbrev pub cost_ms : ℤ → ℕ
cost_ms elapsed = of_int (quot elapsed 1000000)

pub record MemStats : Type 0 where
  pub heap_alloc : ℕ
  pub heap_sys : ℕ
  pub heap_objects : ℕ
  pub num_gc : ℕ
  pub pause_total_ns : ℕ
  pub alloc : ℕ
  pub total_alloc : ℕ
  pub sys : ℕ

-- A number of bytes in mebibytes.
abbrev mebibytes : ℕ → ℕ
mebibytes n = over_unit 1048576 (pos n)

-- `Run` of tasks/selfstats, with the version of Go as the extra; `uptime` is a float64 of seconds.
unfoldable pub run_self_stats : Text → ℕ → ℕ → ℕ → Text → MemStats → Event Text
unfolding of_nat over_unit
run_self_stats host uptime goroutines cpus version ms = record {
  kind = codes "selfstats_event";
  dimensions = host_only host;
  metrics =
      (codes "uptime_sec", uptime)
      ∷ (codes "num_goroutine", of_nat goroutines)
      ∷ (codes "num_cpu", of_nat cpus)
      ∷ (codes "heap_alloc_mb", mebibytes ms.heap_alloc)
      ∷ (codes "heap_sys_mb", mebibytes ms.heap_sys)
      ∷ (codes "heap_objects", of_nat ms.heap_objects)
      ∷ (codes "num_gc", of_nat ms.num_gc)
      ∷ (codes "gc_pause_total_ns", of_nat ms.pause_total_ns)
      ∷ (codes "alloc_mb", mebibytes ms.alloc)
      ∷ (codes "total_alloc_mb", mebibytes ms.total_alloc)
      ∷ (codes "sys_mb", mebibytes ms.sys)
      ∷ [];
  extra = version;
}

-- `Run` of tasks/gatherupbeat.
unfoldable pub run_gather_up_beat : Text → ℕ → GatherUpBeatConfig → Event (Unit {0})
unfolding print_int
run_gather_up_beat host uptime cfg = record {
  kind = codes "gather_up_beat_event";
  dimensions = (codes "hostname", host) ∷ (codes "task_id", print_int cfg.base.task_id) ∷ [];
  metrics = (codes "uptime_sec", uptime) ∷ [];
  extra = tt;
}

-- `net.ConnectionStat` as far as it is read.
pub record ConnectionStat : Type 0 where
  pub pid : ℕ
  pub status : Text
  pub local_ip : Text
  pub local_port : ℕ
  pub remote_ip : Text
  pub remote_port : ℕ

pub record ConnInfo : Type 0 where
  pub pid : ℕ
  pub protocol : Text
  pub status : Text
  pub local_ip : Text
  pub port : ℕ
  pub remote_ip : Text
  pub remote_port : ℕ

unfoldable pub conn_info : Text → ConnectionStat → ConnInfo
conn_info kind c = record {
  pid = c.pid;
  protocol = kind;
  status = c.status;
  local_ip = c.local_ip;
  port = c.local_port;
  remote_ip = c.remote_ip;
  remote_port = c.remote_port;
}

unfoldable pub conn_infos : Text → Option (List ConnectionStat) → List ConnInfo
unfolding conn_info
conn_infos kind none = []
conn_infos kind (some l) = map (conn_info kind) l

-- `collect` of tasks/socketsnapshot: a kind that fails is left out.
unfoldable pub collect_connections : (Text → Option (List ConnectionStat)) → List ConnInfo
unfolding conn_infos
collect_connections connections =
    conn_infos (codes "tcp") (connections (codes "tcp"))
    ++ conn_infos (codes "udp") (connections (codes "udp"))

-- The event of a list of rows: their number and the time that they took.
unfoldable pub counted_event : {A : Type 0} → Text → Text → ℤ → List A → Event (List A)
unfolding of_nat of_int quot
counted_event kind host elapsed l = record {
  kind = kind;
  dimensions = host_only host;
  metrics = (codes "total", of_nat (length l)) ∷ (codes "cost_ms", cost_ms elapsed) ∷ [];
  extra = l;
}

-- `Run` of tasks/socketsnapshot.
unfoldable pub run_socket_snapshot :
    Text → ℤ → (Text → Option (List ConnectionStat)) → Event (List ConnInfo)
unfolding collect_connections counted_event
run_socket_snapshot host elapsed connections =
    counted_event (codes "socketsnapshot_event") host elapsed (collect_connections connections)

-- `Run` of tasks/processbeat: an error sends nothing.
unfoldable pub run_processbeat :
    (Text → Option (Text → Bool))
    → (List ProcInfo → List ProcInfo)
    → Text
    → ℤ
    → ProcessbeatConfig
    → Option (List Process)
    → Option (Event (List ProcInfo))
unfolding collect counted_event
run_processbeat compile sort host elapsed cfg l = elim (collect compile sort cfg l) [
  | err e ↦ none
  | ok found ↦ some (counted_event (codes "processbeat_event") host elapsed found)
]

-- The labels put over the dimensions.
unfoldable pub put_labels : Labels → Labels → Labels
unfolding put_label
put_labels [] dims = dims
put_labels ((k, v) ∷ l) dims = put_labels l (put_label k v dims)

-- The timeout of a script: 30 seconds if none is configured.
unfoldable pub script_timeout : ScriptConfig → ℤ
unfolding or_default
script_timeout cfg = or_default (30 * second) cfg.base.timeout

-- `Run` of tasks/script, behind the command: its output is parsed also after an error, which is the
-- extra. The parser has no error.
unfoldable pub script_event :
    Text → ScriptConfig → ℤ → Option Text → Metrics × Labels → Event (Option Text)
unfolding put_metric put_labels of_int quot print_int
script_event host cfg elapsed exec_error (metrics, labels) = record {
  kind = codes "script_event";
  dimensions = put_labels labels (
      (codes "command", cfg.command)
      ∷ (codes "task_id", print_int cfg.base.task_id)
      ∷ (codes "hostname", host)
      ∷ []);
  metrics = put_metric (codes "cost_ms") (cost_ms elapsed) metrics;
  extra = exec_error;
}

-- The GET request of tasks/metricbeat: the errors of its three steps, or the body.
pub data HttpGet : Type 0 where
  no_request no_reply broken_body : Text → HttpGet
  body_read : Text → HttpGet

-- What `fetch` gives to the parser: an error, or the body.
pub data Fetched : Type 0 where
  fetch_failed : Text → Fetched
  fetched : Text → Fetched

-- 10 MiB.
abbrev body_limit : ℕ
body_limit = 10485760

-- The tests of `fetch`; `limit` is `io.LimitReader`.
unfoldable pub fetch : (ℕ → Text → Text) → HttpGet → Fetched
fetch limit (no_request e) = fetch_failed (codes "create request: " ++ e)
fetch limit (no_reply e) = fetch_failed (codes "http get: " ++ e)
fetch limit (broken_body e) = fetch_failed (codes "read body: " ++ e)
fetch limit (body_read body) = fetched (limit body_limit body)

pub record MetricbeatExtra : Type 0 where
  pub cost : ℕ
  pub error : Option Text

abbrev metricbeat_event : Text → ℤ → Option Text → Metrics × Labels → Event MetricbeatExtra
metricbeat_event host elapsed error (metrics, labels) = record {
  kind = codes "metricbeat_event";
  dimensions = put_labels labels (host_only host);
  metrics = metrics;
  extra = record { cost = cost_ms elapsed; error = error };
}

module _ (parse_float : Text → Option ℕ) (parse_prometheus : Text → Metrics × Labels) where
  unfoldable pub run_script : Text → ScriptConfig → ℤ → Text × Option Text → Event (Option Text)
  unfolding script_event parse_output
  run_script host cfg elapsed (stdout, error) =
      script_event host cfg elapsed error
        (parse_output parse_float parse_prometheus cfg.format stdout)

  -- `Run` of tasks/metricbeat.
  unfoldable pub run_metricbeat : Text → MetricbeatConfig → ℤ → Fetched → Event MetricbeatExtra
  unfolding parse_output put_labels of_int quot
  run_metricbeat host cfg elapsed (fetch_failed e) = metricbeat_event host elapsed (some e) ([], [])
  run_metricbeat host cfg elapsed (fetched body) =
      metricbeat_event host elapsed none (parse_output parse_float parse_prometheus cfg.format body)
