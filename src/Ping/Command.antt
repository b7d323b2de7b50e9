-- ===== src/Ping/Command.antt =====
-- The backend that runs a command: tasks/ping/command.go and command_backend.go, and `probe` of
-- tasks/ping/ping.go. What the expressions capture, `ParseFloat`, float division and the command are
-- given; a float64 is its bit pattern.
use monitorbeat.Base.{
  ℕ, zero, suc, ◌/◌, Bool, false, Option, none, some, List, [], ◌∷◌, ◌++◌, if◌then◌else◌,
}
use monitorbeat.Base.Float.{of_int, gt_float}
use monitorbeat.Base.Int.{ℤ, pos, negsuc, leb_int}
use monitorbeat.Base.Text.{Text, codes, text_eq}
use monitorbeat.Alerts.Api.{is_empty}
use monitorbeat.Configs.Param.{or_default, print_int, second}
use monitorbeat.Configs.Tasks.{PingConfig}
use monitorbeat.Exceptionbeat.Strings.{parse_int}
use monitorbeat.Output.Metrics.{Metrics, metric_value}
use monitorbeat.Script.{put_metric}
use monitorbeat.Tasks.Event.{Event}
use monitorbeat.Tasks.Probe.{Result, build_event}

-- What the three expressions make of an output: whether the header is there, and the groups of the
-- other two.
pub record Matches : Type 0 where
  pub header : Bool
  pub stats : Option (Text × Text × Text)
  pub rtt : Option (Text × Text × Text)

pub data ParseError : Type 0 where
  unsupported malformed_stats none_sent no_stats malformed_rtt no_rtt : ParseError

pub data Parsed {ℓ} (A : Type ℓ) : Type ℓ where
  ok : A → Parsed A
  err : ParseError → Parsed A

abbrev both : {A B : Type 0} → Option A → Option B → Option (A × B)
both none b = none
both (some a) none = none
both (some a) (some b) = some (a, b)

-- `perPacketSeconds`: the whole seconds of a limit below 2 ^ 22 seconds, at least one.
unfoldable pub per_packet_seconds : ℤ → ℤ
per_packet_seconds (pos d) = elim (d / second) [ zero ↦ pos 1 | suc n ↦ pos (suc n) ]
per_packet_seconds (negsuc d) = pos 1

-- The arguments of `ping`.
unfoldable pub ping_args : PingConfig → List Text
unfolding or_default per_packet_seconds print_int
ping_args cfg =
    codes "-c"
    ∷ print_int (or_default 2 cfg.count)
    ∷ codes "-s"
    ∷ print_int (if leb_int (pos 8) cfg.payload_size then cfg.payload_size else pos 56)
    ∷ codes "-W"
    ∷ print_int (per_packet_seconds cfg.max_rtt)
    ∷ codes "-4"
    ∷ cfg.target
    ∷ []

module _ (parse_float : Text → Option ℕ) (over : ℕ → ℕ → ℕ) where
  abbrev counted : ℤ → ℤ → ℕ → Metrics
  counted sent received loss =
      (codes "packets_sent", of_int sent)
      ∷ (codes "packets_received", of_int received)
      ∷ (codes "packet_loss_percent", over loss (of_int (pos 100)))
      ∷ (codes "available", over (of_int received) (of_int sent))
      ∷ []

  -- The line of the counts.
  unfoldable pub parse_stats : Option (Text × Text × Text) → Parsed Metrics
  unfolding parse_int of_int
  parse_stats none = err no_stats
  parse_stats (some (a, b, c)) = elim (both (parse_int a) (both (parse_int b) (parse_float c))) [
    | none ↦ err malformed_stats
    | some (sent, (received, loss)) ↦
        if leb_int sent (pos 0) then err none_sent else ok (counted sent received loss)
  ]

  abbrev with_rtt : ℕ → ℕ → ℕ → Metrics → Metrics
  with_rtt least avg most m =
      put_metric (codes "max_rtt_ms") most
        (put_metric (codes "avg_rtt_ms") avg (put_metric (codes "min_rtt_ms") least m))

  -- The line of the times: it may be missing if no reply came.
  unfoldable pub parse_rtt : Option (Text × Text × Text) → Metrics → Parsed Metrics
  unfolding put_metric metric_value gt_float
  parse_rtt none m =
      if gt_float (metric_value (codes "packets_received") m) 0
      then err no_rtt
      else ok (with_rtt 0 0 0 m)
  parse_rtt (some (a, b, c)) m =
      elim (both (parse_float a) (both (parse_float b) (parse_float c))) [
        | none ↦ err malformed_rtt
        | some (least, (avg, most)) ↦ ok (with_rtt least avg most m)
      ]

  -- `parseCommandOutput`.
  unfoldable pub parse_command_output : Matches → Parsed Metrics
  unfolding parse_stats parse_rtt
  parse_command_output t =
      if t.header
      then elim (parse_stats t.stats) [ err e ↦ err e | ok m ↦ parse_rtt t.rtt m ]
      else err unsupported

  -- What comes of the command: the context's error, its own, and its two outputs.
  pub record Command : Type 0 where
    pub aborted : Option Text
    pub failed : Option Text
    pub stdout : Text
    pub stderr : Text
    pub elapsed : ℤ

  abbrev backend_only : Metrics
  backend_only = (codes "backend", 0) ∷ []

  abbrev append_error : Text → Option Text → Text
  append_error msg none = msg
  append_error msg (some e) = msg ++ (codes ": " ++ e)

  -- `runCommandBackend` behind the command, with the text of each error of the parser.
  unfoldable pub run_command_backend : (Text → Matches) → (ParseError → Text) → Command → Result
  unfolding parse_command_output put_metric metric_value gt_float
  run_command_backend matches message c = elim c.aborted [
    | some e ↦ record {
      metrics = backend_only;
      error = codes "command ping aborted: " ++ e;
      duration = c.elapsed;
      success = false;
    }
    | none ↦ elim (parse_command_output (matches c.stdout)) [
      | err e ↦ record {
        metrics = backend_only;
        error =
            append_error (append_error (message e) c.failed)
              (if is_empty c.stderr then none else some c.stderr);
        duration = c.elapsed;
        success = false;
      }
      | ok m ↦ record {
        metrics = put_metric (codes "backend") 0 m;
        error = [];
        duration = c.elapsed;
        success = gt_float (metric_value (codes "packets_received") m) 0;
      }
    ]
  ]

-- `probe`: the backend by its name; another name is an error.
unfoldable pub ping_probe : PingConfig → ℤ → Result → Result → Result
unfolding text_eq
ping_probe cfg elapsed by_command by_icmp =
    if text_eq cfg.backend (codes "command")
    then by_command
    else if text_eq cfg.backend (codes "icmp")
    then by_icmp
    else record {
      metrics = [];
      error = codes "ping: command output backend is linux-only: \"" ++ (cfg.backend ++ codes "\"");
      duration = elapsed;
      success = false;
    }

-- `Run` of tasks/ping: the event that is sent unless the context is done.
unfoldable pub run_ping : Text → PingConfig → ℤ → Result → Result → Event Text
unfolding ping_probe build_event
run_ping host cfg elapsed by_command by_icmp =
    build_event host (codes "ping") cfg.target cfg.base.task_id
      (ping_probe cfg elapsed by_command by_icmp)
