-- ===== src/Schedulers/Agent/Twice.antt =====
-- What a reload of the agent does to keyword tasks.
use monitorbeat.Base.{
  ℕ, ◌≡◌, refl, sym, ap, ap₂, ◌∙◌, Bool, true, false, Option, List, [], ◌∷◌, ◌++◌, filter, arith,
  All, is_some, if◌then◌else◌,
}
use monitorbeat.Base.Text.{Text}
use monitorbeat.Daemon.Collections.{LinkedList, TreeMap, entry, values_of}
use monitorbeat.Daemon.Job.{Task, Job, check_time_of}
use monitorbeat.Daemon.Queue.Count.{count}
use monitorbeat.Daemon.Scheduler.{add, put_tasks}
use monitorbeat.Daemon.Scheduler.Reload.{
  has_task, reload_lem, IsKeyed, put_tasks-left, put_tasks-IsKeyed, entries-IsKeyed,
}
use monitorbeat.Schedulers.Keyword.{new_keyword, add_keyword, start_keyword}
use monitorbeat.Schedulers.Agent.{
  AgentState, new_agent, add_agent, add_all_tasks, start_agent, reload_agent,
}

-- A task stands among keyed entries just if its ident does.
has_task-entries :
    (k : Text) (l : List (Text × Task))
    → All (λ e. e.1.config.ident ≡ e.0) l
    → has_task k (values_of l) ≡ is_some (entry k l)
unfolding has_task entry
has_task-entries k [] h = refl
has_task-entries k ((j, t) ∷ l) (e, h) = ground (arith, e, has_task-entries k l h)

module _ (L : LinkedList Job check_time_of) (T : TreeMap Task) (is_keyword : Task → Bool) where
  add_all_tasks-keyword :
      (now : ℕ) (l : List Task) (s : AgentState L T)
      → (add_all_tasks L T is_keyword now l s).keyword.tasks
        ≡ put_tasks L T (filter is_keyword l) s.keyword.tasks
  unfolding add_all_tasks add_agent put_tasks add_keyword
  add_all_tasks-keyword now [] s = refl
  add_all_tasks-keyword now (t ∷ l) s =
      let rest = filter is_keyword l in
      add_all_tasks-keyword now l (add_agent L T is_keyword now t s)
      ∙ (elim (is_keyword t)
          as (λ b.
            put_tasks L T rest
              (if b
                then record s { keyword = add_keyword T t s.keyword }
                else record s { daemon = add L T now t s.daemon }).keyword.tasks
            ≡ put_tasks L T (if b then t ∷ rest else rest) s.keyword.tasks) [
              | true ↦ refl
              | false ↦ refl
            ])

  add_all_tasks-active :
      (now : ℕ) (l : List Task) (s : AgentState L T)
      → (add_all_tasks L T is_keyword now l s).keyword.active ≡ s.keyword.active
  unfolding add_all_tasks add_agent add_keyword
  add_all_tasks-active now [] s = refl
  add_all_tasks-active now (t ∷ l) s =
      add_all_tasks-active now l (add_agent L T is_keyword now t s)
      ∙ (elim (is_keyword t)
          as (λ b.
            (if b
              then record s { keyword = add_keyword T t s.keyword }
              else record s { daemon = add L T now t s.daemon }).keyword.active
            ≡ s.keyword.active) [ true ↦ refl | false ↦ refl ])

  pub entries-has_task :
      (k : Text) (l : List Task)
      → has_task k (values_of (T.entries (put_tasks L T l T.empty))) ≡ has_task k l
  entries-has_task k l =
      let m = put_tasks L T l T.empty in
      let keyed : IsKeyed L T m =
        put_tasks-IsKeyed L T l T.empty (λ j t h. (let e = T.get-empty j in cc)) in
      let entries =
        entries-IsKeyed L T (T.entries m) (T.entries-distinct m)
          (λ j t h. keyed j t (sym (T.entry-entries j m) ∙ h)) in
      let found = put_tasks-left L T k l T.empty in
      let empty = T.get-empty k in
      has_task-entries k (T.entries m) entries ∙ ap is_some (T.entry-entries k m) ∙ ground arith

  -- A keyword task that is configured when the agent starts and again when it is reloaded runs
  -- twice: the keyword scheduler still runs it, and the other scheduler has a job for it too.
  pub reload_agent_lem :
      (start_time now : ℕ) (interval : Option ℕ) (tasks new_tasks : List Task) (k : Text)
      → has_task k (filter is_keyword tasks) ≡ true
      → has_task k new_tasks ≡ true
      → let s =
          reload_agent L T is_keyword now new_tasks
            (start_agent L T is_keyword start_time interval tasks) in
        (has_task k s.keyword.active ≡ true) × (count k (L.values s.daemon.jobs) ≡ 1)
  unfolding reload_agent start_agent start_keyword new_agent new_keyword
  reload_agent_lem start_time now interval tasks new_tasks k h n =
      let fresh = new_agent L T is_keyword in
      (
        ap₂ (λ a m. has_task k (a ++ values_of (T.entries m)))
              (add_all_tasks-active start_time tasks fresh)
              (add_all_tasks-keyword start_time tasks fresh)
            ∙ entries-has_task k (filter is_keyword tasks)
            ∙ h,
        (reload_lem L T now new_tasks (start_agent L T is_keyword start_time interval tasks).daemon
              k).0
            ∙ ap (λ (b : Bool). if b then 1 else 0) n,
      )
