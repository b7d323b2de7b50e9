-- ===== src/Tasks/Tests.antt =====
-- The tasks at concrete inputs.
use monitorbeat.Base.{◌≡◌, refl, true, none, some, [], ◌∷◌, length}
use monitorbeat.Base.Float.{of_nat}
use monitorbeat.Base.Int.{pos, negsuc}
use monitorbeat.Base.Text.{Text, codes, text_eq}
use monitorbeat.Configs.Tasks.{UdpConfig}
use monitorbeat.Input.Decimal.{decimal}
use monitorbeat.Output.Metrics.{metric_value}
use monitorbeat.Tasks.Basereport.{sanitize_metric_key}
use monitorbeat.Tasks.Dmesg.{collect_dmesg}
use monitorbeat.Tasks.Event.{hostname}
use monitorbeat.Tasks.Factory.{register_builder}
use monitorbeat.Tasks.Keyword.{Regex, extract_line}
use monitorbeat.Tasks.Probe.{Udp, udp_probe, build_event, duration_millis}

test_hostname : hostname [] (some (codes "h")) ≡ codes "h"
unfolding hostname
test_hostname = refl

test_key : sanitize_metric_key (codes "/var/log/my app") ≡ codes "var_log_myapp"
unfolding sanitize_metric_key
test_key = refl

test_root : sanitize_metric_key (codes "/") ≡ codes "root"
unfolding sanitize_metric_key
test_root = refl

-- 1.5 milliseconds.
test_millis : duration_millis (pos 1500000) ≡ 4609434218613702656
unfolding duration_millis
test_millis = refl

-- A message that comes again is reported again, under the next name that fits.
test_again :
    collect_dmesg (
      some (codes "EXT3-fs error: I/O error\n\nEXT3-fs error: I/O error\nEXT3-fs error: I/O error"))
    ≡ record { name = codes "ext3_fs_error"; message = codes "EXT3-fs error: I/O error" }
      ∷ record { name = codes "disk_io_error"; message = codes "EXT3-fs error: I/O error" }
      ∷ []
unfolding collect_dmesg
test_again = refl

abbrev regex : Regex
regex = record {
  find = λ line. some (line ∷ codes "7" ∷ codes "x" ∷ []);
  names = [] ∷ codes "id" ∷ [] ∷ [];
}

test_extract :
    extract_line regex (codes "7 x") ≡ some ((codes "id", codes "7") ∷ (codes "2", codes "x") ∷ [])
unfolding extract_line text_eq decimal
test_extract = refl

abbrev udp_config : UdpConfig
udp_config = record {
  base = record {
    task_id = pos 1;
    ident = [];
    period = pos 0;
    timeout = pos 0;
    enabled = true;
    labels = [];
  };
  address = codes "h:1";
  payload = [];
  expect_reply = true;
}

-- The default payload of eleven bytes is sent, and no reply comes.
abbrev silent : Udp
silent = record {
  dial = none;
  has_deadline = true;
  set_deadline = none;
  write = λ s. (length s, none);
  read = (0, some (codes "timeout"));
  elapsed = pos 2000000;
}

test_udp :
    metric_value
      (codes "bytes_written")
      (build_event [] (codes "udp") (codes "h:1") (negsuc 0) (udp_probe udp_config silent)).metrics
    ≡ of_nat 11
unfolding build_event udp_probe of_nat metric_value text_eq
test_udp = refl

test_twice : register_builder Text (codes "tcp") (λ c. none) ((codes "tcp", λ c. none) ∷ []) ≡ none
unfolding register_builder
test_twice = refl
