-- ===== src/Configs/Tasks.antt =====
-- The configurations of the fourteen task types, and their `Clean`: configs/basereport.go, ping.go,
-- tcp.go, udp.go, http.go, keyword.go, script.go, exceptionbeat.go, processbeat.go,
-- socketsnapshot.go, selfstats.go, dmesg.go and metricbeat.go. No `Clean` of a task gives an error.
pub mod Laws
use monitorbeat.Base.{
  ℕ, zero, suc, ◌+◌, ◌*◌, Bool, true, false, Option, none, some, List, [], ◌∷◌, if◌then◌else◌, map,
}
use monitorbeat.Base.Int.{ℤ, pos, negsuc, lt_int}
use monitorbeat.Base.Text.{Text, codes}
use monitorbeat.Configs.Param.{
  BaseTaskParam, second, or_default, or_text, fill_defaults, with_period, with_timeout,
}

unfoldable pub at_least_8 : ℤ → ℤ
at_least_8 n = if lt_int n (pos 8) then pos 56 else n

unfoldable pub or_code : ℤ → ℤ
or_code (pos zero) = pos 200
or_code (pos (suc n)) = pos (suc n)
or_code (negsuc n) = negsuc n

unfoldable pub or_true : Option Bool → Option Bool
or_true none = some true
or_true (some b) = some b

pub record BasereportConfig : Type 0 where
  pub base : BaseTaskParam
  pub info_period : ℤ
  pub mem_enabled : Bool
  pub disk_enabled : Bool
  pub disk_paths : List Text
  pub load_enabled : Bool
  pub net_enabled : Bool

unfoldable pub clean_basereport : BasereportConfig → BasereportConfig
unfolding fill_defaults with_period with_timeout or_default or_text at_least_8 or_code or_true
clean_basereport c = record c { base = fill_defaults (codes "basereport") c.base }

pub record PingConfig : Type 0 where
  pub base : BaseTaskParam
  pub target : Text
  pub backend : Text
  pub count : ℤ
  pub payload_size : ℤ
  pub max_rtt : ℤ
  pub send_interval : ℤ
  pub privileged : Bool

unfoldable pub clean_ping : PingConfig → PingConfig
unfolding fill_defaults with_period with_timeout or_default or_text at_least_8 or_code or_true
clean_ping c = record c {
  base = fill_defaults (codes "ping") c.base;
  count = or_default 2 c.count;
  payload_size = at_least_8 c.payload_size;
  max_rtt = or_default second c.max_rtt;
  send_interval = or_default 500000 c.send_interval;
  backend = or_text (codes "icmp") c.backend;
}

pub record TcpConfig : Type 0 where
  pub base : BaseTaskParam
  pub address : Text

unfoldable pub clean_tcp : TcpConfig → TcpConfig
unfolding fill_defaults with_period with_timeout or_default or_text at_least_8 or_code or_true
clean_tcp c = record c { base = fill_defaults (codes "tcp") c.base }

pub record UdpConfig : Type 0 where
  pub base : BaseTaskParam
  pub address : Text
  pub payload : Text
  pub expect_reply : Bool

unfoldable pub clean_udp : UdpConfig → UdpConfig
unfolding fill_defaults with_period with_timeout or_default or_text at_least_8 or_code or_true
clean_udp c = record c { base = fill_defaults (codes "udp") c.base }

pub record HttpConfig : Type 0 where
  pub base : BaseTaskParam
  pub url : Text
  pub method : Text
  pub headers : List (Text × Text)
  pub body : Text
  pub expected_code : ℤ

unfoldable pub clean_http : HttpConfig → HttpConfig
unfolding fill_defaults with_period with_timeout or_default or_text at_least_8 or_code or_true
clean_http c = record c {
  base = fill_defaults (codes "http") c.base;
  method = or_text (codes "GET") c.method;
  expected_code = or_code c.expected_code;
}

pub record KeywordConfig : Type 0 where
  pub base : BaseTaskParam
  pub file : Text
  pub pattern_text : Text
  pub encoding : Text
  pub buffer_size : ℤ
  pub from_begin : Option Bool
  pub offset_registry : Text

unfoldable pub clean_keyword : KeywordConfig → KeywordConfig
unfolding fill_defaults with_period with_timeout or_default or_text at_least_8 or_code or_true
clean_keyword c = record c {
  base = fill_defaults (codes "keyword") c.base;
  encoding = or_text (codes "utf-8") c.encoding;
  buffer_size = or_default 65536 c.buffer_size;
  from_begin = or_true c.from_begin;
}

pub record ScriptConfig : Type 0 where
  pub base : BaseTaskParam
  pub command : Text
  pub format : Text
  pub user_envs : List (Text × Text)

unfoldable pub clean_script : ScriptConfig → ScriptConfig
unfolding fill_defaults with_period with_timeout or_default or_text at_least_8 or_code or_true
clean_script c = record c {
  base = with_timeout (30 * second) (fill_defaults (codes "script") c.base);
  format = or_text (codes "prometheus") c.format;
}

pub record ExceptionbeatConfig : Type 0 where
  pub base : BaseTaskParam
  pub check_disk_ro : Bool
  pub check_disk_space : Bool
  pub check_corefile : Bool
  pub check_oom : Bool
  pub disk_usage_percent : ℤ
  pub disk_min_free_gb : ℤ
  pub disk_ro_white_list : List Text
  pub disk_ro_black_list : List Text
  pub corefile_report_gap : ℤ
  pub corefile_pattern : Text
  pub corefile_match_regex : Text
  pub out_of_mem_report_gap : ℤ

unfoldable pub clean_exceptionbeat : ExceptionbeatConfig → ExceptionbeatConfig
unfolding fill_defaults with_period with_timeout or_default or_text at_least_8 or_code or_true
clean_exceptionbeat c = record c {
  base = with_period (60 * second) (fill_defaults (codes "exceptionbeat") c.base);
  disk_usage_percent = or_default 90 c.disk_usage_percent;
  disk_min_free_gb = or_default 10 c.disk_min_free_gb;
  corefile_report_gap = or_default (60 * second) c.corefile_report_gap;
  out_of_mem_report_gap = or_default (60 * second) c.out_of_mem_report_gap;
}

pub record ProcessbeatConfig : Type 0 where
  pub base : BaseTaskParam
  pub process_names : List Text
  pub process_regex : Text
  pub top_n : ℤ

unfoldable pub clean_processbeat : ProcessbeatConfig → ProcessbeatConfig
unfolding fill_defaults with_period with_timeout or_default or_text at_least_8 or_code or_true
clean_processbeat c = record c {
  base = with_period (30 * second) (fill_defaults (codes "processbeat") c.base);
  top_n = or_default 20 c.top_n;
}

pub record SocketSnapshotConfig : Type 0 where
  pub base : BaseTaskParam

unfoldable pub clean_socket_snapshot : SocketSnapshotConfig → SocketSnapshotConfig
unfolding fill_defaults with_period with_timeout or_default or_text at_least_8 or_code or_true
clean_socket_snapshot c = record c {
  base = with_period (60 * second) (fill_defaults (codes "socketsnapshot") c.base);
}

pub record SelfStatsConfig : Type 0 where
  pub base : BaseTaskParam

unfoldable pub clean_self_stats : SelfStatsConfig → SelfStatsConfig
unfolding fill_defaults with_period with_timeout or_default or_text at_least_8 or_code or_true
clean_self_stats c = record c {
  base = with_period (60 * second) (fill_defaults (codes "selfstats") c.base);
}

pub record GatherUpBeatConfig : Type 0 where
  pub base : BaseTaskParam

unfoldable pub clean_gather_up_beat : GatherUpBeatConfig → GatherUpBeatConfig
unfolding fill_defaults with_period with_timeout or_default or_text at_least_8 or_code or_true
clean_gather_up_beat c = record c {
  base = with_period (60 * second) (fill_defaults (codes "gather_up_beat") c.base);
}

pub record DmesgConfig : Type 0 where
  pub base : BaseTaskParam

unfoldable pub clean_dmesg : DmesgConfig → DmesgConfig
unfolding fill_defaults with_period with_timeout or_default or_text at_least_8 or_code or_true
clean_dmesg c = record c { base = with_period (60 * second) (fill_defaults (codes "dmesg") c.base) }

pub record MetricbeatConfig : Type 0 where
  pub base : BaseTaskParam
  pub url : Text
  pub format : Text

unfoldable pub clean_metricbeat : MetricbeatConfig → MetricbeatConfig
unfolding fill_defaults with_period with_timeout or_default or_text at_least_8 or_code or_true
clean_metricbeat c = record c {
  base =
      with_timeout (10 * second)
        (with_period (60 * second) (fill_defaults (codes "metricbeat") c.base));
  format = or_text (codes "prometheus") c.format;
}
