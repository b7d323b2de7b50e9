-- ===== src/Configs/Root.antt =====
-- The root of the configuration: configs/config.go. The parameters of an output are given as text.
pub mod Types
pub mod Idents
pub mod Defaults
pub mod Clean
use monitorbeat.Base.{ℕ, Bool, true, false, List, [], ◌∷◌, ◌++◌, ◌*◌, if◌then◌else◌, map}
use monitorbeat.Base.Int.{ℤ, pos}
use monitorbeat.Base.Text.{Text, codes, text_eq}
use monitorbeat.Configs.Param.{BaseTaskParam, second, or_default}
use monitorbeat.Configs.Tasks.{
  BasereportConfig, clean_basereport, PingConfig, clean_ping, TcpConfig, clean_tcp, UdpConfig,
  clean_udp, HttpConfig, clean_http, KeywordConfig, clean_keyword, ScriptConfig, clean_script,
  ExceptionbeatConfig, clean_exceptionbeat, ProcessbeatConfig, clean_processbeat,
  SocketSnapshotConfig, clean_socket_snapshot, SelfStatsConfig, clean_self_stats,
  GatherUpBeatConfig, clean_gather_up_beat, DmesgConfig, clean_dmesg, MetricbeatConfig,
  clean_metricbeat,
}

-- `define.TaskConfig`, by its implementations.
pub data TaskConfig : Type 0 where
  basereport : BasereportConfig → TaskConfig
  ping : PingConfig → TaskConfig
  tcp : TcpConfig → TaskConfig
  udp : UdpConfig → TaskConfig
  http : HttpConfig → TaskConfig
  keyword : KeywordConfig → TaskConfig
  script : ScriptConfig → TaskConfig
  exceptionbeat : ExceptionbeatConfig → TaskConfig
  processbeat : ProcessbeatConfig → TaskConfig
  socket_snapshot : SocketSnapshotConfig → TaskConfig
  self_stats : SelfStatsConfig → TaskConfig
  gather_up_beat : GatherUpBeatConfig → TaskConfig
  dmesg : DmesgConfig → TaskConfig
  metricbeat : MetricbeatConfig → TaskConfig

-- `GetType`.
unfoldable pub get_type : TaskConfig → Text
get_type (basereport c) = codes "basereport"
get_type (ping c) = codes "ping"
get_type (tcp c) = codes "tcp"
get_type (udp c) = codes "udp"
get_type (http c) = codes "http"
get_type (keyword c) = codes "keyword"
get_type (script c) = codes "script"
get_type (exceptionbeat c) = codes "exceptionbeat"
get_type (processbeat c) = codes "processbeat"
get_type (socket_snapshot c) = codes "socketsnapshot"
get_type (self_stats c) = codes "selfstats"
get_type (gather_up_beat c) = codes "gather_up_beat"
get_type (dmesg c) = codes "dmesg"
get_type (metricbeat c) = codes "metricbeat"

-- The shared part of a configuration.
unfoldable pub task_base : TaskConfig → BaseTaskParam
task_base (basereport c) = c.base
task_base (ping c) = c.base
task_base (tcp c) = c.base
task_base (udp c) = c.base
task_base (http c) = c.base
task_base (keyword c) = c.base
task_base (script c) = c.base
task_base (exceptionbeat c) = c.base
task_base (processbeat c) = c.base
task_base (socket_snapshot c) = c.base
task_base (self_stats c) = c.base
task_base (gather_up_beat c) = c.base
task_base (dmesg c) = c.base
task_base (metricbeat c) = c.base

-- `Clean` of a task configuration.
unfoldable pub clean_task : TaskConfig → TaskConfig
unfolding clean_basereport clean_ping clean_tcp clean_udp clean_http clean_keyword clean_script
    clean_exceptionbeat clean_processbeat clean_socket_snapshot clean_self_stats
    clean_gather_up_beat clean_dmesg clean_metricbeat
clean_task (basereport c) = basereport (clean_basereport c)
clean_task (ping c) = ping (clean_ping c)
clean_task (tcp c) = tcp (clean_tcp c)
clean_task (udp c) = udp (clean_udp c)
clean_task (http c) = http (clean_http c)
clean_task (keyword c) = keyword (clean_keyword c)
clean_task (script c) = script (clean_script c)
clean_task (exceptionbeat c) = exceptionbeat (clean_exceptionbeat c)
clean_task (processbeat c) = processbeat (clean_processbeat c)
clean_task (socket_snapshot c) = socket_snapshot (clean_socket_snapshot c)
clean_task (self_stats c) = self_stats (clean_self_stats c)
clean_task (gather_up_beat c) = gather_up_beat (clean_gather_up_beat c)
clean_task (dmesg c) = dmesg (clean_dmesg c)
clean_task (metricbeat c) = metricbeat (clean_metricbeat c)

pub record RegistryConfig : Type 0 where
  pub url : Text
  pub interval : ℤ
  pub timeout : ℤ

pub record OutputConfig : Type 0 where
  pub kind : Text
  pub params : Text

pub record Config : Type 0 where
  pub check_interval : ℤ
  pub event_buffer_size : ℤ
  pub admin_addr : Text
  pub config_path : Text
  pub registry : RegistryConfig
  pub outputs : List OutputConfig
  pub basereports : List BasereportConfig
  pub pings : List PingConfig
  pub tcps : List TcpConfig
  pub udps : List UdpConfig
  pub https : List HttpConfig
  pub keywords : List KeywordConfig
  pub scripts : List ScriptConfig
  pub exceptionbeats : List ExceptionbeatConfig
  pub processbeats : List ProcessbeatConfig
  pub socket_snapshots : List SocketSnapshotConfig
  pub self_stats_list : List SelfStatsConfig
  pub gather_up_beats : List GatherUpBeatConfig
  pub dmesgs : List DmesgConfig
  pub metricbeats : List MetricbeatConfig

-- `GetCheckInterval`.
unfoldable pub get_check_interval : Config → ℤ
unfolding or_default
get_check_interval c = or_default second c.check_interval

-- `GetEventBufferSize`.
unfoldable pub get_event_buffer_size : Config → ℤ
unfolding or_default
get_event_buffer_size c = or_default 1024 c.event_buffer_size

-- `GetTaskConfigListByType`.
unfoldable pub get_task_config_list_by_type : Config → Text → List TaskConfig
get_task_config_list_by_type c typ =
    if text_eq typ (codes "basereport")
    then map basereport c.basereports
    else if text_eq typ (codes "ping")
    then map ping c.pings
    else if text_eq typ (codes "tcp")
    then map tcp c.tcps
    else if text_eq typ (codes "udp")
    then map udp c.udps
    else if text_eq typ (codes "http")
    then map http c.https
    else if text_eq typ (codes "keyword")
    then map keyword c.keywords
    else if text_eq typ (codes "script")
    then map script c.scripts
    else if text_eq typ (codes "exceptionbeat")
    then map exceptionbeat c.exceptionbeats
    else if text_eq typ (codes "processbeat")
    then map processbeat c.processbeats
    else if text_eq typ (codes "socketsnapshot")
    then map socket_snapshot c.socket_snapshots
    else if text_eq typ (codes "selfstats")
    then map self_stats c.self_stats_list
    else if text_eq typ (codes "gather_up_beat")
    then map gather_up_beat c.gather_up_beats
    else if text_eq typ (codes "dmesg")
    then map dmesg c.dmesgs
    else if text_eq typ (codes "metricbeat")
    then map metricbeat c.metricbeats
    else []

-- `AllTaskConfigs`.
unfoldable pub all_task_configs : Config → List TaskConfig
all_task_configs c =
    map basereport c.basereports
    ++ (map ping c.pings
        ++ (map tcp c.tcps
            ++ (map udp c.udps
                ++ (map http c.https
                    ++ (map keyword c.keywords
                        ++ (map script c.scripts
                            ++ (map exceptionbeat c.exceptionbeats
                                ++ (map processbeat c.processbeats
                                    ++ (map socket_snapshot c.socket_snapshots
                                        ++ (map self_stats c.self_stats_list
                                            ++ (map gather_up_beat c.gather_up_beats
                                                ++ (map dmesg c.dmesgs
                                                    ++ (map metricbeat c.metricbeats)))))))))))))

-- `Clean`.
unfoldable pub clean_config : Config → Config
unfolding or_default clean_basereport clean_ping clean_tcp clean_udp clean_http clean_keyword
    clean_script clean_exceptionbeat clean_processbeat clean_socket_snapshot clean_self_stats
    clean_gather_up_beat clean_dmesg clean_metricbeat
clean_config c = record c {
  registry = record c.registry {
    interval = or_default (30 * second) c.registry.interval;
    timeout = or_default (5 * second) c.registry.timeout;
  };
  basereports = map clean_basereport c.basereports;
  pings = map clean_ping c.pings;
  tcps = map clean_tcp c.tcps;
  udps = map clean_udp c.udps;
  https = map clean_http c.https;
  keywords = map clean_keyword c.keywords;
  scripts = map clean_script c.scripts;
  exceptionbeats = map clean_exceptionbeat c.exceptionbeats;
  processbeats = map clean_processbeat c.processbeats;
  socket_snapshots = map clean_socket_snapshot c.socket_snapshots;
  self_stats_list = map clean_self_stats c.self_stats_list;
  gather_up_beats = map clean_gather_up_beat c.gather_up_beats;
  dmesgs = map clean_dmesg c.dmesgs;
  metricbeats = map clean_metricbeat c.metricbeats;
}
