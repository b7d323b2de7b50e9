-- ===== src/Configs/Root/Clean.antt =====
-- What the cleaning of a whole configuration does.
use monitorbeat.Base.{◌≡◌, ◌*◌, All, map}
use monitorbeat.Configs.Param.{second}
use monitorbeat.Configs.Root.{Config, task_base, all_task_configs, clean_config}
use monitorbeat.Configs.Root.Defaults.{defaulted, cleaned_base, IsReady}

-- A configuration that is cleaned: the shared parts of all tasks and the times of the registry are
-- as the tables of defaults say, each task is ready, and there is nothing left to clean.
pub record IsCleaned (c after : Config) : Type 0 where
  pub bases : map task_base (all_task_configs after) ≡ map cleaned_base (all_task_configs c)
  pub ready : All IsReady (all_task_configs after)
  pub interval_eq : after.registry.interval ≡ defaulted (30 * second) c.registry.interval
  pub timeout_eq : after.registry.timeout ≡ defaulted (5 * second) c.registry.timeout
  pub again : clean_config after ≡ after
