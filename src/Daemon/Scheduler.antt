-- ===== src/Daemon/Scheduler.antt =====
-- The scheduler: scheduler/daemon/scheduler.go, with `BaseScheduler` of define/scheduler.go. A round
-- of the loop and a reload exclude one another by `jobAtomic`, so each is one step. Starting a task
-- and stopping a job are their results: the jobs concerned, in order.
pub mod Tick
pub mod Reload
use monitorbeat.Base.{
  ℕ, zero, suc, ◌≡◌, refl, Bool, true, false, Option, none, some, List, [], ◌∷◌, ◌++◌, map, leb,
  length, if◌then◌else◌,
}
use monitorbeat.Base.Text.{Text}
use monitorbeat.Daemon.Collections.{LinkedList, TreeMap}
use monitorbeat.Daemon.Job.{
  TaskConfig, Task, Job, ident, check_time_of, make_job, next_job, reload_job,
}
use monitorbeat.Daemon.Queue.{push, pop_all, pop_until}

-- `define.Status`.
pub data Status : Type 0 where
  ready running error finished : Status

-- `daemonState`: `busy` is `jobAtomic`, `interval` the period of the ticker.
pub record State (L : LinkedList Job check_time_of) (T : TreeMap Task) : Type 0 where
  pub status : Status
  pub tasks : T.Map
  pub jobs : L.Carrier
  pub busy : Bool
  pub interval : ℕ

-- `DefaultCheckInterval`, a second.
abbrev pub default_check_interval : ℕ
default_check_interval = 1000000000

-- The interval that `Start` chooses; there may be no configuration, or one without an interval.
unfoldable pub choose_interval : Option ℕ → ℕ
choose_interval none = default_check_interval
choose_interval (some zero) = default_check_interval
choose_interval (some (suc n)) = suc n

unfoldable pub is_running : Status → Bool
is_running ready = false
is_running running = true
is_running error = false
is_running finished = false

module _ (L : LinkedList Job check_time_of) (T : TreeMap Task) where
  -- `newDaemonState`.
  unfoldable pub new_state : State L T
  new_state = record { status = ready; tasks = T.empty; jobs = L.new; busy = false; interval = 0 }

  -- `Add`.
  unfoldable pub add : ℕ → Task → State L T → State L T
  unfolding is_running
  add now task s =
      let tasks = T.put task.config.ident task s.tasks in
      record s {
        tasks = tasks;
        jobs = if is_running s.status then push L s.jobs (make_job now task ∷ []) else s.jobs;
      }

  -- `Start`.
  unfoldable pub start : ℕ → Option ℕ → State L T → State L T
  unfolding choose_interval
  start now interval s = record s {
    status = running;
    jobs = push L s.jobs (map (λ e. make_job now e.1) (T.entries s.tasks));
    interval = choose_interval interval;
  }

  -- `Count`.
  unfoldable pub count_tasks : State L T → ℕ
  count_tasks s = length (T.entries s.tasks)

  -- The end of a round: the jobs that are run, and the state after they are queued again.
  unfoldable pub run_jobs : List Job → L.Carrier → State L T → List Job × State L T
  run_jobs [] rest s = ([], record s { jobs = rest })
  run_jobs (j ∷ js) rest s = (j ∷ js, record s { jobs = push L rest (map next_job (j ∷ js)) })

  -- One round of `run` at a tick of the ticker: the jobs that it runs, and the state after it. The
  -- source tests the status before it waits for the tick: a `Stop` within that wait lets one more
  -- round run, which here stands before the `stop`.
  unfoldable pub round : ℕ → State L T → List Job × State L T
  unfolding is_running run_jobs
  round now s =
      if is_running s.status
      then (if s.busy
          then ([], s)
          else (let (jobs, rest) = pop_until L now s.jobs in run_jobs jobs rest s))
      else ([], s)

  -- `Stop`.
  unfoldable pub stop : State L T → State L T
  stop s = record s { status = finished }

  -- `Wait`: the tasks of the jobs that are left are waited for.
  unfoldable pub wait : State L T → List Job × State L T
  wait s =
      let (jobs, rest) = pop_all L s.jobs in (jobs, record s { jobs = rest; status = finished })

  -- The loop of `Reload` that fills the two maps of new tasks.
  unfoldable pub put_tasks : List Task → T.Map → T.Map
  put_tasks [] m = m
  put_tasks (t ∷ l) m = put_tasks l (T.put t.config.ident t m)

  -- The loop of `Reload` over the old jobs: the tasks left, the new queue, the stopped jobs.
  unfoldable pub reload_jobs :
      List Job → T.Map → L.Carrier → List Job → T.Map × L.Carrier × List Job
  reload_jobs [] m q stopped = (m, q, stopped)
  reload_jobs (j ∷ js) m q stopped = elim (T.get (ident j) m) [
    | some task ↦ reload_jobs js (T.remove (ident j) m) (push L q (reload_job j task ∷ [])) stopped
    | none ↦ reload_jobs js m q (stopped ++ j ∷ [])
  ]

  -- The last loop of `Reload`.
  unfoldable pub push_new : ℕ → List (Text × Task) → L.Carrier → L.Carrier
  push_new now [] q = q
  push_new now ((k, t) ∷ l) q = push_new now l (push L q (make_job now t ∷ []))

  -- `Reload`: the stopped jobs, and the state after it.
  unfoldable pub reload : ℕ → List Task → State L T → List Job × State L T
  unfolding put_tasks reload_jobs push_new
  reload now new_tasks s =
      let tasks = put_tasks new_tasks T.empty in
      let (left, kept, stopped) = reload_jobs (pop_all L s.jobs).0 tasks (new_state).jobs [] in
      (stopped, record s { tasks = tasks; jobs = push_new now (T.entries left) kept; busy = false })
