-- ===== src/Schedulers/Tests.antt =====
-- The schedulers and the agent at concrete inputs.
use monitorbeat.Base.{ℕ, zero, suc, ◌≡◌, refl, Bool, true, false, none, List, [], ◌∷◌}
use monitorbeat.Base.Text.{Text, codes, text_eq}
use monitorbeat.Daemon.Collections.{LinkedList, TreeMap}
use monitorbeat.Daemon.Instances.{linked_list, tree_map}
use monitorbeat.Daemon.Job.{Task, Job, check_time_of}
use monitorbeat.Daemon.Queue.Count.{count}
use monitorbeat.Daemon.Scheduler.{finished}
use monitorbeat.Daemon.Scheduler.Reload.{has_task}
use monitorbeat.Schedulers.Checker.{new_checker, reload_checker, run_checker}
use monitorbeat.Schedulers.Checker.Once.{count_task, run_checker_lem}
use monitorbeat.Schedulers.Agent.{start_agent, reload_agent}
use monitorbeat.Schedulers.Agent.Twice.{reload_agent_lem}

abbrev jobs : LinkedList Job check_time_of
jobs = linked_list check_time_of

abbrev tasks : TreeMap Task
tasks = tree_map Task

-- The settings of a task tell whether it is a keyword task.
abbrev task : Text → ℕ → Task
task ident settings = record {
  object = 1;
  config = record { ident = ident; period = 10; settings = settings };
  global = 0;
}

abbrev is_keyword : Task → Bool
is_keyword t = elim t.config.settings [ zero ↦ false | suc n ↦ true ]

abbrev configured : List Task
configured = task (codes "ping:1") 0 ∷ task (codes "keyword:1") 1 ∷ []

reload_agent_lem_example :
    let s =
      reload_agent jobs tasks is_keyword 900 configured
        (start_agent jobs tasks is_keyword 100 none configured) in
    (has_task (codes "keyword:1") s.keyword.active ≡ true)
    × (count (codes "keyword:1") (jobs.values s.daemon.jobs) ≡ 1)
unfolding has_task text_eq
reload_agent_lem_example =
    reload_agent_lem jobs tasks is_keyword 100 900 none configured configured (codes "keyword:1")
      refl refl

run_checker_lem_example :
    let (ran, after) =
      run_checker tasks (λ i. false) (reload_checker tasks configured (new_checker tasks)) in
    (count_task (codes "ping:1") ran ≡ 1) × (after.status ≡ finished)
unfolding has_task text_eq
run_checker_lem_example =
    run_checker_lem tasks (λ i. false) configured (new_checker tasks) (codes "ping:1") (λ i. refl)
