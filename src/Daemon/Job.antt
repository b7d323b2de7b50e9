-- ===== src/Daemon/Job.antt =====
-- Jobs: scheduler/daemon/job.go, over the tasks of define/task.go and tasks/task_base.go. Times are
-- nanoseconds.
use monitorbeat.Base.{ℕ, ◌+◌}
use monitorbeat.Base.Text.{Text}

-- What the scheduler reads of a `TaskConfig`; `settings` stands for the rest of it.
pub record TaskConfig : Type 0 where
  pub ident : Text
  pub period : ℕ
  pub settings : ℕ

-- A task object with its configuration and the global configuration.
pub record Task : Type 0 where
  pub object : ℕ
  pub config : TaskConfig
  pub global : ℕ

-- `IntervalJob`; its context is that of the scheduler.
pub record Job : Type 0 where
  pub task : Task
  pub check_time : ℕ

abbrev pub ident : Job → Text
ident j = j.task.config.ident

abbrev pub check_time_of : Job → ℕ
check_time_of j = j.check_time

-- `NewJob` and `Init`, as `makeJobFromTask` calls them.
unfoldable pub make_job : ℕ → Task → Job
make_job now task = record { task = task; check_time = now }

-- `Next`.
unfoldable pub next_job : Job → Job
next_job j = record j { check_time = j.check_time + j.task.config.period }

-- `SetGlobalConfig` and `SetConfig` on the task of a job, as `reloadJobFromTask` calls them.
unfoldable pub reload_job : Job → Task → Job
reload_job j task = record j {
  task = record { object = j.task.object; config = task.config; global = task.global };
}
