-- ===== src/WebConfig.antt =====
-- The configuration of the console: web/config/config.go. Reading the file and its YAML is given.
use monitorbeat.Base.{◌*◌, Option, none, some}
use monitorbeat.Base.Int.{ℤ}
use monitorbeat.Base.Text.{Text, codes}
use monitorbeat.Configs.Param.{second, or_default, or_text}
use monitorbeat.Smtp.{Config}

pub record VictoriaMetrics : Type 0 where
  pub url : Text
  pub timeout : ℤ

pub record AlertConfig : Type 0 where
  pub eval_interval : ℤ

pub record RegistryConfig : Type 0 where
  pub ttl : ℤ
  pub clean_interval : ℤ

pub record WebConfig : Type 0 where
  pub listen : Text
  pub db_path : Text
  pub victoria_metrics : VictoriaMetrics
  pub alert : AlertConfig
  pub smtp : Config
  pub registry : RegistryConfig
  pub ui_dir : Text

-- `Clean`, which has no error.
unfoldable pub clean_web : WebConfig → WebConfig
unfolding or_default or_text
clean_web c = record {
  listen = or_text (codes "0.0.0.0:8080") c.listen;
  db_path = or_text (codes "./data/monitorweb.db") c.db_path;
  victoria_metrics = record {
    url = or_text (codes "http://127.0.0.1:8428") c.victoria_metrics.url;
    timeout = or_default (10 * second) c.victoria_metrics.timeout;
  };
  alert = record { eval_interval = or_default (60 * second) c.alert.eval_interval };
  smtp = c.smtp;
  registry = record {
    ttl = or_default (90 * second) c.registry.ttl;
    clean_interval = or_default (60 * second) c.registry.clean_interval;
  };
  ui_dir = or_text (codes "./web/ui/dist") c.ui_dir;
}

-- `Load`; none is an error.
unfoldable pub load_web : (Text → Option Text) → (Text → Option WebConfig) → Text → Option WebConfig
unfolding clean_web
load_web read_file unmarshal path = elim (read_file path) [
  | none ↦ none
  | some raw ↦ elim (unmarshal raw) [ none ↦ none | some c ↦ some (clean_web c) ]
]
