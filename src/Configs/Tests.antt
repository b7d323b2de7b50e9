-- ===== src/Configs/Tests.antt =====
-- Configurations at concrete inputs.
use monitorbeat.Base.{ℕ, ◌≡◌, ◌↔◌, refl, true, false, some, [], ◌∷◌, filter}
use monitorbeat.Base.Int.{pos, negsuc}
use monitorbeat.Base.Text.{codes, text_eq}
use monitorbeat.Configs.Param.{BaseTaskParam, default_task_id}
use monitorbeat.Configs.Tasks.{TcpConfig, UdpConfig}
use monitorbeat.Configs.Root.{
  tcp, Config, get_type, task_base, clean_task, get_task_config_list_by_type, all_task_configs,
}
use monitorbeat.Configs.Root.Types.{get_task_config_list_by_type_lem}
use monitorbeat.Configs.Root.Idents.{default_ident_lem}
use monitorbeat.Configs.HttpOutput.{
  HttpOutputConfig, IsUsable, clean_http_output, clean_http_output_lem,
}

-- Nothing but the id of the task is configured.
abbrev param : ℕ → BaseTaskParam
param id = record {
  task_id = pos id;
  ident = [];
  period = pos 0;
  timeout = pos 0;
  enabled = true;
  labels = [];
}

abbrev first : TcpConfig
first = record { base = param 0; address = codes "10.0.0.1:22" }

abbrev second_one : TcpConfig
second_one = record { base = param 1; address = codes "10.0.0.2:22" }

abbrev probe : UdpConfig
probe = record { base = param 0; address = codes "10.0.0.1:53"; payload = []; expect_reply = false }

abbrev root : Config
root = record {
  check_interval = pos 0;
  event_buffer_size = pos 0;
  admin_addr = [];
  config_path = [];
  registry = record { url = []; interval = pos 0; timeout = pos 0 };
  outputs = [];
  basereports = [];
  pings = [];
  tcps = first ∷ second_one ∷ [];
  udps = probe ∷ [];
  https = [];
  keywords = [];
  scripts = [];
  exceptionbeats = [];
  processbeats = [];
  socket_snapshots = [];
  self_stats_list = [];
  gather_up_beats = [];
  dmesgs = record { base = param 7 } ∷ [];
  metricbeats = [];
}

get_task_config_list_by_type_lem_example :
    get_task_config_list_by_type root (codes "tcp")
    ≡ filter (λ t. text_eq (codes "tcp") (get_type t)) (all_task_configs root)
get_task_config_list_by_type_lem_example = get_task_config_list_by_type_lem root (codes "tcp")

default_ident_lem_example :
    ((task_base (clean_task (tcp first))).ident ≡ (task_base (clean_task (tcp second_one))).ident)
    ↔ ((get_type (tcp first) ≡ get_type (tcp second_one))
        × (default_task_id (pos 0) ≡ default_task_id (pos 1)))
unfolding task_base
default_ident_lem_example = default_ident_lem (tcp first) (tcp second_one) refl refl

test_same_ident :
    (task_base (clean_task (tcp first))).ident ≡ (task_base (clean_task (tcp second_one))).ident
unfolding task_base default_task_id get_type
test_same_ident = (default_ident_lem (tcp first) (tcp second_one) refl refl).1 (refl, refl)

abbrev url_only : HttpOutputConfig
url_only = record {
  url = codes "http://h/";
  method = [];
  format = codes "doris";
  timeout = pos 0;
  retry_max = negsuc 0;
  headers = [];
  auth = record { kind = []; token = []; user = []; passwd = [] };
  insecure_skip_verify = false;
  fallback_path = [];
  fallback_max_size = pos 0;
  fallback_max_backups = negsuc 4;
}

clean_http_output_lem_example :
    (cleaned : HttpOutputConfig) × (clean_http_output url_only ≡ some cleaned)
    × IsUsable cleaned
    × (clean_http_output cleaned ≡ some cleaned)
clean_http_output_lem_example = clean_http_output_lem url_only (λ e. cc e)
