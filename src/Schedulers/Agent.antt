-- ===== src/Schedulers/Agent.antt =====
-- How the agent starts and reloads its tasks: `main` of cmd/monitorbeat/main.go. `is_keyword` is
-- whether the type of a task is that of the keyword tasks.
pub mod Twice
use monitorbeat.Base.{ℕ, Bool, Option, none, some, List, [], ◌∷◌, if◌then◌else◌}
use monitorbeat.Configs.Root.{Config, clean_config}
use monitorbeat.Daemon.Collections.{LinkedList, TreeMap}
use monitorbeat.Daemon.Job.{Task, Job, check_time_of}
use monitorbeat.Daemon.Scheduler.{State, new_state, add, start, stop, wait, reload}
use monitorbeat.Schedulers.Keyword.{
  KeywordState, new_keyword, add_keyword, start_keyword, stop_keyword, wait_keyword,
}

pub record AgentState (L : LinkedList Job check_time_of) (T : TreeMap Task) : Type 0 where
  pub daemon : State L T
  pub keyword : KeywordState T

module _ (L : LinkedList Job check_time_of) (T : TreeMap Task) (is_keyword : Task → Bool) where
  unfoldable pub new_agent : AgentState L T
  new_agent = record { daemon = new_state L T; keyword = new_keyword T }

  -- A task goes to the scheduler for its type.
  unfoldable pub add_agent : ℕ → Task → AgentState L T → AgentState L T
  add_agent now t s =
      if is_keyword t
      then record s { keyword = add_keyword T t s.keyword }
      else record s { daemon = add L T now t s.daemon }

  -- The loop over the tasks of the configuration.
  unfoldable pub add_all_tasks : ℕ → List Task → AgentState L T → AgentState L T
  unfolding add_agent
  add_all_tasks now [] s = s
  add_all_tasks now (t ∷ l) s = add_all_tasks now l (add_agent now t s)

  -- Both schedulers are started.
  unfoldable pub start_agent : ℕ → Option ℕ → List Task → AgentState L T
  unfolding add_all_tasks new_agent
  start_agent now interval tasks =
      let s = add_all_tasks now tasks new_agent in
      record { daemon = start L T now interval s.daemon; keyword = start_keyword T s.keyword }

  -- The function that the reloader calls: all tasks of the new configuration go to one scheduler.
  unfoldable pub reload_agent : ℕ → List Task → AgentState L T → AgentState L T
  reload_agent now tasks s = record s { daemon = (reload L T now tasks s.daemon).1 }

  -- The function in full, of the configuration that was read (none is an error of reading or
  -- decoding it), where `build` stands for the tasks that the factory builds.
  unfoldable pub reload_config :
      (Config → List Task) → ℕ → Option Config → AgentState L T → AgentState L T
  unfolding reload_agent clean_config
  reload_config build now none s = s
  reload_config build now (some c) s = reload_agent now (build (clean_config c)) s

  -- The end of `main`.
  unfoldable pub shut_down : AgentState L T → AgentState L T
  shut_down s = record {
    daemon = (wait L T (stop L T s.daemon)).1;
    keyword = wait_keyword T (stop_keyword T s.keyword);
  }
