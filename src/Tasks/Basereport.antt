-- ===== src/Tasks/Basereport.antt =====
-- The report of the host: tasks/basereport/basereport.go. What gopsutil reads is given, with none for
-- an error; a float64 is its bit pattern.
pub mod Keys
use monitorbeat.Base.{
  ℕ, Bool, ◌&&◌, ◌||◌, Option, none, some, List, [], ◌∷◌, ◌++◌, ◌==◌, leb, if◌then◌else◌,
}
use monitorbeat.Base.Float.{of_nat}
use monitorbeat.Base.Int.{ℤ}
use monitorbeat.Base.Text.{Text, codes}
use monitorbeat.Configs.Param.{or_default, second}
use monitorbeat.Configs.Tasks.{BasereportConfig}
use monitorbeat.Output.Metrics.{Metrics}
use monitorbeat.Script.{put_metric}
use monitorbeat.Tasks.Event.{Event, host_only}

pub record VirtualMemory : Type 0 where
  pub total : ℕ
  pub available : ℕ
  pub used : ℕ
  pub used_percent : ℕ

pub record DiskUsage : Type 0 where
  pub total : ℕ
  pub used : ℕ
  pub used_percent : ℕ

pub record LoadAvg : Type 0 where
  pub load1 : ℕ
  pub load5 : ℕ
  pub load15 : ℕ

pub record IoCounters : Type 0 where
  pub bytes_sent : ℕ
  pub bytes_recv : ℕ
  pub packets_sent : ℕ
  pub packets_recv : ℕ

-- What a run reads; the window of the CPU sample is its argument.
pub record Host : Type 0 where
  pub cpu_percent : ℤ → Option (List ℕ)
  pub cancelled : Bool
  pub memory : Option VirtualMemory
  pub usage : Text → Option DiskUsage
  pub load : Option LoadAvg
  pub counters : Option (List IoCounters)

-- The entries put one after the other.
unfoldable pub put_all : Metrics → Metrics → Metrics
unfolding put_metric
put_all [] m = m
put_all ((k, x) ∷ l) m = put_all l (put_metric k x m)

unfoldable pub put_cpu : Bool → Option (List ℕ) → Metrics → Metrics
unfolding put_metric
put_cpu cancelled none m = m
put_cpu cancelled (some []) m = m
put_cpu cancelled (some (x ∷ l)) m = if cancelled then m else put_metric (codes "cpu_usage") x m

-- `collectCPU`: a window that is not positive is a second.
unfoldable pub collect_cpu : BasereportConfig → Host → Metrics → Metrics
unfolding put_cpu or_default
collect_cpu cfg host m =
    put_cpu host.cancelled (host.cpu_percent (or_default second cfg.info_period)) m

unfoldable pub put_mem : Option VirtualMemory → Metrics → Metrics
unfolding put_all
put_mem none m = m
put_mem (some v) m =
    put_all
      ((codes "mem_total_bytes", of_nat v.total)
        ∷ (codes "mem_available_bytes", of_nat v.available)
        ∷ (codes "mem_used_bytes", of_nat v.used)
        ∷ (codes "mem_used_percent", v.used_percent)
        ∷ [])
      m

-- `collectMem`.
unfoldable pub collect_mem : BasereportConfig → Host → Metrics → Metrics
unfolding put_mem
collect_mem cfg host m = if cfg.mem_enabled then put_mem host.memory m else m

abbrev pub alphanumeric : ℕ → Bool
alphanumeric c =
    (leb b'a' c && leb c b'z') || ((leb b'A' c && leb c b'Z') || (leb b'0' c && leb c b'9'))

abbrev pub separator : ℕ → Bool
separator c = c == b'/' || (c == b'.' || (c == b'-' || c == b'_'))

-- The loop of `sanitizeMetricKey`; other bytes are dropped.
unfoldable pub key_bytes : Text → Text
key_bytes [] = []
key_bytes (c ∷ p) =
    let rest = key_bytes p in
    if alphanumeric c then c ∷ rest else if separator c then b'_' ∷ rest else rest

unfoldable pub trim_first : Text → Text
trim_first [] = []
trim_first (c ∷ s) = let rest = trim_first s in if c == b'_' then rest else c ∷ s

-- A byte before a trimmed rest, which is dropped only if nothing follows it.
unfoldable pub before_trimmed : ℕ → Text → Text
before_trimmed c [] = if c == b'_' then [] else c ∷ []
before_trimmed c (d ∷ s) = c ∷ d ∷ s

unfoldable pub trim_last : Text → Text
unfolding before_trimmed
trim_last [] = []
trim_last (c ∷ s) = before_trimmed c (trim_last s)

unfoldable pub or_root : Text → Text
or_root [] = codes "root"
or_root (c ∷ s) = c ∷ s

-- `sanitizeMetricKey`.
unfoldable pub sanitize_metric_key : Text → Text
unfolding key_bytes trim_first trim_last or_root
sanitize_metric_key p = or_root (trim_last (trim_first (key_bytes p)))

abbrev disk_key : Text → Text → Text
disk_key p suffix = codes "disk_" ++ (sanitize_metric_key p ++ suffix)

unfoldable pub put_disk : Text → Option DiskUsage → Metrics → Metrics
unfolding put_all sanitize_metric_key
put_disk p none m = m
put_disk p (some u) m =
    put_all
      ((disk_key p (codes "_total_bytes"), of_nat u.total)
        ∷ (disk_key p (codes "_used_bytes"), of_nat u.used)
        ∷ (disk_key p (codes "_used_percent"), u.used_percent)
        ∷ [])
      m

unfoldable pub put_disks : (Text → Option DiskUsage) → List Text → Metrics → Metrics
unfolding put_disk
put_disks usage [] m = m
put_disks usage (p ∷ l) m = put_disks usage l (put_disk p (usage p) m)

unfoldable pub disk_paths : List Text → List Text
disk_paths [] = codes "/" ∷ []
disk_paths (p ∷ l) = p ∷ l

-- `collectDisk`.
unfoldable pub collect_disk : BasereportConfig → Host → Metrics → Metrics
unfolding put_disks disk_paths
collect_disk cfg host m =
    if cfg.disk_enabled then put_disks host.usage (disk_paths cfg.disk_paths) m else m

unfoldable pub put_load : Option LoadAvg → Metrics → Metrics
unfolding put_all
put_load none m = m
put_load (some a) m =
    put_all ((codes "load1", a.load1) ∷ (codes "load5", a.load5) ∷ (codes "load15", a.load15) ∷ [])
      m

-- `collectLoad`.
unfoldable pub collect_load : BasereportConfig → Host → Metrics → Metrics
unfolding put_load
collect_load cfg host m = if cfg.load_enabled then put_load host.load m else m

unfoldable pub put_net : Option (List IoCounters) → Metrics → Metrics
unfolding put_all
put_net none m = m
put_net (some []) m = m
put_net (some (c ∷ l)) m =
    put_all
      ((codes "net_bytes_sent", of_nat c.bytes_sent)
        ∷ (codes "net_bytes_recv", of_nat c.bytes_recv)
        ∷ (codes "net_packets_sent", of_nat c.packets_sent)
        ∷ (codes "net_packets_recv", of_nat c.packets_recv)
        ∷ [])
      m

-- `collectNet`.
unfoldable pub collect_net : BasereportConfig → Host → Metrics → Metrics
unfolding put_net
collect_net cfg host m = if cfg.net_enabled then put_net host.counters m else m

-- `Run`, on a host with a name: the event that is sent unless the context is done.
unfoldable pub run_basereport : Text → BasereportConfig → Host → Event (Unit {0})
unfolding collect_cpu collect_mem collect_disk collect_load collect_net
run_basereport name cfg host = record {
  kind = codes "basereport";
  dimensions = host_only name;
  metrics = collect_net cfg host (
      collect_load cfg host
        (collect_disk cfg host (collect_mem cfg host (collect_cpu cfg host []))));
  extra = tt;
}
