-- ===== src/Daemon/Tests.antt =====
-- The scheduler of tasks at concrete inputs.
use monitorbeat.Base.{ℕ, ◌≡◌, refl, none, List, [], ◌∷◌, map, ◌-◌}
use monitorbeat.Base.Text.{Text, codes, text_eq}
use monitorbeat.Daemon.Collections.{LinkedList, TreeMap, entry}
use monitorbeat.Daemon.Instances.{linked_list, tree_map, insert, sort, remove_entry}
use monitorbeat.Daemon.Job.{Task, Job, ident, check_time_of, make_job, next_job}
use monitorbeat.Daemon.Queue.{push, add_all, due, remove_n, pop_until}
use monitorbeat.Daemon.Queue.Count.{count}
use monitorbeat.Daemon.Scheduler.{
  State, choose_interval, is_running, new_state, add, start, run_jobs, round, reload,
}
use monitorbeat.Daemon.Scheduler.Tick.{round-count}
use monitorbeat.Daemon.Scheduler.Reload.{has_task, reload_lem}

abbrev jobs : LinkedList Job check_time_of
jobs = linked_list check_time_of

abbrev tasks : TreeMap Task
tasks = tree_map Task

abbrev task : Text → ℕ → Task
task ident period = record {
  object = 1;
  config = record { ident = ident; period = period; settings = 0 };
  global = 0;
}

abbrev two_tasks : State jobs tasks
two_tasks =
    add jobs tasks 0 (task (codes "ping") 10)
      (add jobs tasks 0 (task (codes "basereport") 60) (new_state jobs tasks))

abbrev started : State jobs tasks
started = start jobs tasks 100 none two_tasks

started-times :
    (started.jobs
      ≡ make_job 100 (task (codes "ping") 10) ∷ make_job 100 (task (codes "basereport") 60) ∷ [])
unfolding start add new_state push add_all insert sort make_job choose_interval is_running
    remove_entry entry text_eq
started-times = refl

round-idents :
    map ident (round jobs tasks 110 (round jobs tasks 100 started).1).0 ≡ codes "ping" ∷ []
unfolding start add new_state push add_all insert sort make_job choose_interval is_running
    remove_entry entry text_eq round run_jobs pop_until due remove_n next_job
round-idents = refl

round-count_example :
    count (codes "ping") ((round jobs tasks 100 started).1.jobs) ≡ count (codes "ping") started.jobs
round-count_example = round-count jobs tasks 100 (codes "ping") started

abbrev new_tasks : List Task
new_tasks = task (codes "ping") 20 ∷ task (codes "exceptionbeat") 60 ∷ []

reload_lem_example :
    let (stopped, s) = reload jobs tasks 200 new_tasks started in
    (count (codes "ping") s.jobs ≡ 1)
    × (count (codes "ping") stopped ≡ count (codes "ping") started.jobs - 1)
unfolding has_task text_eq
reload_lem_example = reload_lem jobs tasks 200 new_tasks started (codes "ping")
