-- ===== src/Schedulers/Checker.antt =====
-- The scheduler that runs each task once: scheduler/checker/scheduler.go. A panic of a task is caught
-- and changes nothing else.
pub mod Once
use monitorbeat.Base.{
  ℕ, suc, zero, Bool, true, false, List, [], ◌∷◌, ◌++◌, map, length, if◌then◌else◌,
}
use monitorbeat.Base.Text.{Text}
use monitorbeat.Daemon.Collections.{TreeMap, values_of}
use monitorbeat.Daemon.Job.{Task}
use monitorbeat.Daemon.Scheduler.{Status, ready, running, finished}

pub record CheckerState (T : TreeMap Task) : Type 0 where
  pub status : Status
  pub tasks : T.Map
  pub cancelled : Bool

-- The loop of `run`: `cancelled n` is whether the context is cancelled before task `n`.
unfoldable pub run_tasks : (ℕ → Bool) → ℕ → List Task → List Task
run_tasks cancelled n [] = []
run_tasks cancelled n (t ∷ l) = if cancelled n then [] else t ∷ run_tasks cancelled (suc n) l

module _ (T : TreeMap Task) where
  -- `New`.
  unfoldable pub new_checker : CheckerState T
  new_checker = record { status = ready; tasks = T.empty; cancelled = false }

  -- `Add`.
  unfoldable pub add_checker : Task → CheckerState T → CheckerState T
  add_checker task s = record s { tasks = T.put task.config.ident task s.tasks }

  -- `Count`.
  unfoldable pub count_checker : CheckerState T → ℕ
  count_checker s = length (T.entries s.tasks)

  -- `Start` and the goroutine that it starts: the tasks that are run, in order.
  unfoldable pub run_checker : (ℕ → Bool) → CheckerState T → List Task × CheckerState T
  unfolding run_tasks
  run_checker cancelled s =
      (run_tasks cancelled 0 (values_of (T.entries s.tasks)), record s { status = finished })

  -- `Stop`.
  unfoldable pub stop_checker : CheckerState T → CheckerState T
  stop_checker s = record s { status = finished; cancelled = true }

  -- `Wait`.
  unfoldable pub wait_checker : CheckerState T → CheckerState T
  wait_checker s = record s { status = finished }

  -- The loop of `Reload`.
  unfoldable pub put_checker : List Task → T.Map → T.Map
  put_checker [] m = m
  put_checker (t ∷ l) m = put_checker l (T.put t.config.ident t m)

  -- `Reload`.
  unfoldable pub reload_checker : List Task → CheckerState T → CheckerState T
  unfolding put_checker
  reload_checker tasks s = record s { tasks = put_checker tasks T.empty }
