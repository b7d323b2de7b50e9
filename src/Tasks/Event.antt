-- ===== src/Tasks/Event.antt =====
-- The events that tasks send: define/event.go and tasks/hostname.go.
use monitorbeat.Base.{Option, none, some, [], ◌∷◌, if◌then◌else◌}
use monitorbeat.Base.Text.{Text, codes}
use monitorbeat.Alerts.Api.{is_empty}
use monitorbeat.Alerts.Labels.{Labels}
use monitorbeat.Output.Metrics.{Metrics}

-- `SimpleEvent` without its instant, its data by their keys; `extra` are the keys that one kind has.
pub record Event {ℓ} (A : Type ℓ) : Type ℓ where
  pub kind : Text
  pub dimensions : Labels
  pub metrics : Metrics
  pub extra : A

-- `os.Hostname`, or what stands for it after an error.
unfoldable pub or_unknown : Option Text → Text
or_unknown none = codes "unknown"
or_unknown (some h) = h

-- `tasks.Hostname`, given the environment's variable and `os.Hostname`.
unfoldable pub hostname : Text → Option Text → Text
unfolding or_unknown
hostname env os = if is_empty env then or_unknown os else env

abbrev pub host_only : Text → Labels
host_only host = (codes "hostname", host) ∷ []
