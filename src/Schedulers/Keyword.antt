-- ===== src/Schedulers/Keyword.antt =====
-- The scheduler of tasks that run until they are stopped: scheduler/keyword/scheduler.go. Starting a
-- goroutine for a task adds the task to those that run.
use monitorbeat.Base.{ℕ, Bool, true, false, List, [], ◌∷◌, ◌++◌, length}
use monitorbeat.Daemon.Collections.{TreeMap, values_of}
use monitorbeat.Daemon.Job.{Task}
use monitorbeat.Daemon.Scheduler.{Status, ready, running, finished}

-- `running` are the tasks whose `Run` has not returned, and `cancelled` is about their context.
pub record KeywordState (T : TreeMap Task) : Type 0 where
  pub status : Status
  pub tasks : T.Map
  pub active : List Task
  pub cancelled : Bool

module _ (T : TreeMap Task) where
  -- `New`.
  unfoldable pub new_keyword : KeywordState T
  new_keyword = record { status = ready; tasks = T.empty; active = []; cancelled = false }

  -- `Add`.
  unfoldable pub add_keyword : Task → KeywordState T → KeywordState T
  add_keyword task s = record s { tasks = T.put task.config.ident task s.tasks }

  -- `Count`.
  unfoldable pub count_keyword : KeywordState T → ℕ
  count_keyword s = length (T.entries s.tasks)

  -- `Start`: each registered task is run, in the order of the map.
  unfoldable pub start_keyword : KeywordState T → KeywordState T
  start_keyword s = record s {
    status = running;
    active = s.active ++ values_of (T.entries s.tasks);
    cancelled = false;
  }

  -- `Stop`.
  unfoldable pub stop_keyword : KeywordState T → KeywordState T
  stop_keyword s = record s { status = finished; cancelled = true }

  -- `Wait`: it returns when every task has.
  unfoldable pub wait_keyword : KeywordState T → KeywordState T
  wait_keyword s = record s { status = finished; active = [] }

  -- The loop of `Reload`.
  unfoldable pub put_keyword : List Task → T.Map → T.Map
  put_keyword [] m = m
  put_keyword (t ∷ l) m = put_keyword l (T.put t.config.ident t m)

  -- `Reload`: the registered tasks change, and what runs does not.
  unfoldable pub reload_keyword : List Task → KeywordState T → KeywordState T
  unfolding put_keyword
  reload_keyword tasks s = record s { tasks = put_keyword tasks T.empty }
