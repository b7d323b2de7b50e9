-- ===== src/Configs/Tasks/Laws.antt =====
-- Cleaning a task configuration twice is cleaning it once.
use monitorbeat.Base.{zero, suc, ◌*◌, ◌≡◌, refl, Bool, Option, none, some, arith}
use monitorbeat.Base.Int.{ℤ, pos, negsuc}
use monitorbeat.Base.Text.{codes}
use monitorbeat.Configs.Param.{
  second, or_default_idem, or_text_idem, fill_defaults_idem, period_idem, timeout_idem, both_idem,
}
use monitorbeat.Configs.Tasks.{
  at_least_8, or_code, or_true, BasereportConfig, clean_basereport, PingConfig, clean_ping,
  TcpConfig, clean_tcp, UdpConfig, clean_udp, HttpConfig, clean_http, KeywordConfig, clean_keyword,
  ScriptConfig, clean_script, ExceptionbeatConfig, clean_exceptionbeat, ProcessbeatConfig,
  clean_processbeat, SocketSnapshotConfig, clean_socket_snapshot, SelfStatsConfig, clean_self_stats,
  GatherUpBeatConfig, clean_gather_up_beat, DmesgConfig, clean_dmesg, MetricbeatConfig,
  clean_metricbeat,
}

at_least_8_idem : (n : ℤ) → at_least_8 (at_least_8 n) ≡ at_least_8 n
unfolding at_least_8
at_least_8_idem (pos n) = ground arith
at_least_8_idem (negsuc n) = refl

or_code_idem : (n : ℤ) → or_code (or_code n) ≡ or_code n
unfolding or_code
or_code_idem (pos zero) = refl
or_code_idem (pos (suc n)) = refl
or_code_idem (negsuc n) = refl

or_true_idem : (o : Option Bool) → or_true (or_true o) ≡ or_true o
unfolding or_true
or_true_idem none = refl
or_true_idem (some b) = refl

pub clean_basereport_idem :
    (c : BasereportConfig) → clean_basereport (clean_basereport c) ≡ clean_basereport c
unfolding clean_basereport
clean_basereport_idem c = simp (fill_defaults_idem (codes "basereport") c.base)

pub clean_ping_idem : (c : PingConfig) → clean_ping (clean_ping c) ≡ clean_ping c
unfolding clean_ping
clean_ping_idem c = simp (
  fill_defaults_idem (codes "ping") c.base,
  or_default_idem 2 c.count (omega arith),
  at_least_8_idem c.payload_size,
  or_default_idem second c.max_rtt (omega arith),
  or_default_idem 500000 c.send_interval (omega arith),
  or_text_idem (codes "icmp") c.backend,
)

pub clean_tcp_idem : (c : TcpConfig) → clean_tcp (clean_tcp c) ≡ clean_tcp c
unfolding clean_tcp
clean_tcp_idem c = simp (fill_defaults_idem (codes "tcp") c.base)

pub clean_udp_idem : (c : UdpConfig) → clean_udp (clean_udp c) ≡ clean_udp c
unfolding clean_udp
clean_udp_idem c = simp (fill_defaults_idem (codes "udp") c.base)

pub clean_http_idem : (c : HttpConfig) → clean_http (clean_http c) ≡ clean_http c
unfolding clean_http
clean_http_idem c = simp (
  fill_defaults_idem (codes "http") c.base,
  or_text_idem (codes "GET") c.method,
  or_code_idem c.expected_code,
)

pub clean_keyword_idem : (c : KeywordConfig) → clean_keyword (clean_keyword c) ≡ clean_keyword c
unfolding clean_keyword
clean_keyword_idem c = simp (
  fill_defaults_idem (codes "keyword") c.base,
  or_text_idem (codes "utf-8") c.encoding,
  or_default_idem 65536 c.buffer_size (omega arith),
  or_true_idem c.from_begin,
)

pub clean_script_idem : (c : ScriptConfig) → clean_script (clean_script c) ≡ clean_script c
unfolding clean_script
clean_script_idem c = simp (
  timeout_idem (codes "script") (30 * second) c.base (omega arith),
  or_text_idem (codes "prometheus") c.format,
)

pub clean_exceptionbeat_idem :
    (c : ExceptionbeatConfig) → clean_exceptionbeat (clean_exceptionbeat c) ≡ clean_exceptionbeat c
unfolding clean_exceptionbeat
clean_exceptionbeat_idem c = simp (
  period_idem (codes "exceptionbeat") (60 * second) c.base (omega arith),
  or_default_idem 90 c.disk_usage_percent (omega arith),
  or_default_idem 10 c.disk_min_free_gb (omega arith),
  or_default_idem (60 * second) c.corefile_report_gap (omega arith),
  or_default_idem (60 * second) c.out_of_mem_report_gap (omega arith),
)

pub clean_processbeat_idem :
    (c : ProcessbeatConfig) → clean_processbeat (clean_processbeat c) ≡ clean_processbeat c
unfolding clean_processbeat
clean_processbeat_idem c = simp (
  period_idem (codes "processbeat") (30 * second) c.base (omega arith),
  or_default_idem 20 c.top_n (omega arith),
)

pub clean_socket_snapshot_idem :
    (c : SocketSnapshotConfig)
    → clean_socket_snapshot (clean_socket_snapshot c) ≡ clean_socket_snapshot c
unfolding clean_socket_snapshot
clean_socket_snapshot_idem c =
    simp (period_idem (codes "socketsnapshot") (60 * second) c.base (omega arith))

pub clean_self_stats_idem :
    (c : SelfStatsConfig) → clean_self_stats (clean_self_stats c) ≡ clean_self_stats c
unfolding clean_self_stats
clean_self_stats_idem c = simp (period_idem (codes "selfstats") (60 * second) c.base (omega arith))

pub clean_gather_up_beat_idem :
    (c : GatherUpBeatConfig)
    → clean_gather_up_beat (clean_gather_up_beat c) ≡ clean_gather_up_beat c
unfolding clean_gather_up_beat
clean_gather_up_beat_idem c =
    simp (period_idem (codes "gather_up_beat") (60 * second) c.base (omega arith))

pub clean_dmesg_idem : (c : DmesgConfig) → clean_dmesg (clean_dmesg c) ≡ clean_dmesg c
unfolding clean_dmesg
clean_dmesg_idem c = simp (period_idem (codes "dmesg") (60 * second) c.base (omega arith))

pub clean_metricbeat_idem :
    (c : MetricbeatConfig) → clean_metricbeat (clean_metricbeat c) ≡ clean_metricbeat c
unfolding clean_metricbeat
clean_metricbeat_idem c = simp (
  both_idem (codes "metricbeat") (60 * second) (10 * second) c.base (omega arith) (omega arith),
  or_text_idem (codes "prometheus") c.format,
)
