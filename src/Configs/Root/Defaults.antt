-- ===== src/Configs/Root/Defaults.antt =====
-- What a cleaned configuration looks like, by tables of the defaults: configs/config.go and the
-- `Clean` of the task types.
use monitorbeat.Base.{
  ℕ, ◌*◌, ◌<◌, ◌≡◌, ◌≢◌, refl, List, [], ◌∷◌, ◌++◌, Option, none, some, zero, suc, Bool, ◌&&◌,
  if◌then◌else◌, arith, true, false,
}
use monitorbeat.Base.Int.{ℤ, pos, negsuc, lt_int, leb_int}
use monitorbeat.Base.Text.{Text, codes, text_eq}
use monitorbeat.Configs.Param.{
  BaseTaskParam, second, or_default, or_text, fill_defaults, with_period, with_timeout, print_int,
  default_task_id,
}
use monitorbeat.Configs.Tasks.{
  at_least_8, or_code, or_true, clean_basereport, clean_ping, clean_tcp, clean_udp, clean_http,
  clean_keyword, clean_script, clean_exceptionbeat, clean_processbeat, clean_socket_snapshot,
  clean_self_stats, clean_gather_up_beat, clean_dmesg, clean_metricbeat,
}
use monitorbeat.Configs.Root.{
  TaskConfig, basereport, ping, tcp, udp, http, keyword, script, exceptionbeat, processbeat,
  socket_snapshot, self_stats, gather_up_beat, dmesg, metricbeat, get_type, task_base, clean_task,
}

-- The default periods and timeouts in seconds, for the types that set one.
abbrev periods : List (Text × ℕ)
periods =
    (codes "exceptionbeat", 60)
    ∷ (codes "processbeat", 30)
    ∷ (codes "socketsnapshot", 60)
    ∷ (codes "selfstats", 60)
    ∷ (codes "gather_up_beat", 60)
    ∷ (codes "dmesg", 60)
    ∷ (codes "metricbeat", 60)
    ∷ []

abbrev timeouts : List (Text × ℕ)
timeouts = (codes "script", 30) ∷ (codes "metricbeat", 10) ∷ []

-- A positive number stays; any other becomes the default.
abbrev pub defaulted : ℕ → ℤ → ℤ
defaulted d n = if lt_int (pos 0) n then n else pos d

abbrev defaulted_by : List (Text × ℕ) → Text → ℤ → ℤ
defaulted_by [] typ n = n
defaulted_by ((t, d) ∷ l) typ n =
    if text_eq t typ then defaulted (d * second) n else defaulted_by l typ n

-- The id 0 becomes 1.
abbrev id_of : ℤ → ℤ
id_of n = if leb_int n (pos 0) && leb_int (pos 0) n then pos 1 else n

-- The shared part of a task configuration once it is cleaned.
abbrev pub cleaned_base : TaskConfig → BaseTaskParam
cleaned_base t =
    let b = task_base t in
    record {
      task_id = id_of b.task_id;
      ident =
          if text_eq b.ident []
          then get_type t ++ (b':' ∷ print_int (id_of b.task_id))
          else b.ident;
      period = defaulted_by periods (get_type t) b.period;
      timeout = defaulted_by timeouts (get_type t) b.timeout;
      enabled = b.enabled;
      labels = b.labels;
    }

abbrev IsPositive : ℤ → Type 0
IsPositive n = lt_int (pos 0) n ≡ true

-- What a task may rely on beside the shared part.
abbrev pub IsReady : TaskConfig → Type 0
IsReady (basereport c) = Unit
IsReady (ping c) =
    IsPositive c.count
    × (lt_int c.payload_size (pos 8) ≡ false)
    × IsPositive c.max_rtt
    × IsPositive c.send_interval
    × (c.backend ≢ [])
IsReady (tcp c) = Unit
IsReady (udp c) = Unit
IsReady (http c) = (c.method ≢ []) × (c.expected_code ≢ pos 0)
IsReady (keyword c) = (c.encoding ≢ []) × IsPositive c.buffer_size × (c.from_begin ≢ none)
IsReady (script c) = c.format ≢ []
IsReady (exceptionbeat c) =
    IsPositive c.disk_usage_percent
    × IsPositive c.disk_min_free_gb
    × IsPositive c.corefile_report_gap
    × IsPositive c.out_of_mem_report_gap
IsReady (processbeat c) = IsPositive c.top_n
IsReady (socket_snapshot c) = Unit
IsReady (self_stats c) = Unit
IsReady (gather_up_beat c) = Unit
IsReady (dmesg c) = Unit
IsReady (metricbeat c) = c.format ≢ []

pub or_default-defaulted : (d : ℕ) (n : ℤ) → or_default d n ≡ defaulted d n
unfolding or_default
or_default-defaulted d (pos zero) = refl
or_default-defaulted d (pos (suc n)) = ground arith
or_default-defaulted d (negsuc n) = refl

or_default-IsPositive : (d : ℕ) (n : ℤ) → 0 < d → IsPositive (or_default d n)
unfolding or_default
or_default-IsPositive d (pos zero) h = ground arith
or_default-IsPositive d (pos (suc n)) h = ground arith
or_default-IsPositive d (negsuc n) h = ground arith

or_text_if : (d s : Text) → or_text d s ≡ (if text_eq s [] then d else s)
unfolding or_text text_eq
or_text_if d [] = refl
or_text_if d (c ∷ s) = refl

default_task_id-id_of : (n : ℤ) → default_task_id n ≡ id_of n
unfolding default_task_id
default_task_id-id_of (pos zero) = refl
default_task_id-id_of (pos (suc n)) = ground arith
default_task_id-id_of (negsuc n) = refl

pub clean_task_base : (t : TaskConfig) → task_base (clean_task t) ≡ cleaned_base t
unfolding clean_task task_base get_type fill_defaults with_period with_timeout clean_basereport
    clean_ping clean_tcp clean_udp clean_http clean_keyword clean_script clean_exceptionbeat
    clean_processbeat clean_socket_snapshot clean_self_stats clean_gather_up_beat clean_dmesg
    clean_metricbeat text_eq
clean_task_base (basereport c) = simp (default_task_id-id_of, or_text_if)
clean_task_base (ping c) = simp (default_task_id-id_of, or_text_if)
clean_task_base (tcp c) = simp (default_task_id-id_of, or_text_if)
clean_task_base (udp c) = simp (default_task_id-id_of, or_text_if)
clean_task_base (http c) = simp (default_task_id-id_of, or_text_if)
clean_task_base (keyword c) = simp (default_task_id-id_of, or_text_if)
clean_task_base (script c) = simp (default_task_id-id_of, or_text_if, or_default-defaulted)
clean_task_base (exceptionbeat c) = simp (default_task_id-id_of, or_text_if, or_default-defaulted)
clean_task_base (processbeat c) = simp (default_task_id-id_of, or_text_if, or_default-defaulted)
clean_task_base (socket_snapshot c) = simp (default_task_id-id_of, or_text_if, or_default-defaulted)
clean_task_base (self_stats c) = simp (default_task_id-id_of, or_text_if, or_default-defaulted)
clean_task_base (gather_up_beat c) = simp (default_task_id-id_of, or_text_if, or_default-defaulted)
clean_task_base (dmesg c) = simp (default_task_id-id_of, or_text_if, or_default-defaulted)
clean_task_base (metricbeat c) = simp (default_task_id-id_of, or_text_if, or_default-defaulted)

or_text-IsNonempty : (d s : Text) → d ≢ [] → or_text d s ≢ []
unfolding or_text
or_text-IsNonempty d [] h = h
or_text-IsNonempty d (c ∷ s) h = λ e. cc e

at_least_8_lem : (n : ℤ) → lt_int (at_least_8 n) (pos 8) ≡ false
unfolding at_least_8
at_least_8_lem (pos n) = ground arith
at_least_8_lem (negsuc n) = ground arith

or_code-nonzero : (n : ℤ) → or_code n ≢ pos 0
unfolding or_code
or_code-nonzero (pos zero) = λ e. cc e
or_code-nonzero (pos (suc n)) = λ e. cc e
or_code-nonzero (negsuc n) = λ e. cc e

or_true-some : (o : Option Bool) → or_true o ≢ none
unfolding or_true
or_true-some none = λ e. cc e
or_true-some (some b) = λ e. cc e

pub clean_task-IsReady : (t : TaskConfig) → IsReady (clean_task t)
unfolding clean_task clean_basereport clean_ping clean_tcp clean_udp clean_http clean_keyword
    clean_script clean_exceptionbeat clean_processbeat clean_socket_snapshot clean_self_stats
    clean_gather_up_beat clean_dmesg clean_metricbeat
clean_task-IsReady (ping c) = (
  or_default-IsPositive 2 c.count (omega arith),
  at_least_8_lem c.payload_size,
  or_default-IsPositive second c.max_rtt (omega arith),
  or_default-IsPositive 500000 c.send_interval (omega arith),
  or_text-IsNonempty (codes "icmp") c.backend (λ e. cc e),
)
clean_task-IsReady (http c) =
    (or_text-IsNonempty (codes "GET") c.method (λ e. cc e), or_code-nonzero c.expected_code)
clean_task-IsReady (keyword c) = (
  or_text-IsNonempty (codes "utf-8") c.encoding (λ e. cc e),
  or_default-IsPositive 65536 c.buffer_size (omega arith),
  or_true-some c.from_begin,
)
clean_task-IsReady (script c) = or_text-IsNonempty (codes "prometheus") c.format (λ e. cc e)
clean_task-IsReady (exceptionbeat c) = (
  or_default-IsPositive 90 c.disk_usage_percent (omega arith),
  or_default-IsPositive 10 c.disk_min_free_gb (omega arith),
  or_default-IsPositive (60 * second) c.corefile_report_gap (omega arith),
  or_default-IsPositive (60 * second) c.out_of_mem_report_gap (omega arith),
)
clean_task-IsReady (processbeat c) = or_default-IsPositive 20 c.top_n (omega arith)
clean_task-IsReady (metricbeat c) = or_text-IsNonempty (codes "prometheus") c.format (λ e. cc e)
clean_task-IsReady (basereport c) = tt
clean_task-IsReady (tcp c) = tt
clean_task-IsReady (udp c) = tt
clean_task-IsReady (socket_snapshot c) = tt
clean_task-IsReady (self_stats c) = tt
clean_task-IsReady (gather_up_beat c) = tt
clean_task-IsReady (dmesg c) = tt
