-- ===== src/Schedulers/Checker/Once.antt =====
-- The checker runs one task for each ident.
use monitorbeat.Base.{
  ℕ, suc, ◌+◌, ◌≡◌, refl, sym, ap, ◌∙◌, Bool, false, List, [], ◌∷◌, arith, All, is_some,
  if◌then◌else◌, Bool-cases, inl, inr,
}
use monitorbeat.Base.Text.{Text, text_eq, text_eq_iff}
use monitorbeat.Daemon.Collections.{LinkedList, TreeMap, entry, DistinctEntries, values_of}
use monitorbeat.Daemon.Instances.{linked_list}
use monitorbeat.Daemon.Job.{Task, Job, check_time_of}
use monitorbeat.Daemon.Scheduler.{finished, put_tasks}
use monitorbeat.Daemon.Scheduler.Reload.{
  has_task, IsKeyed, put_tasks-left, put_tasks-IsKeyed, entries-IsKeyed,
}
use monitorbeat.Schedulers.Checker.{
  CheckerState, run_tasks, run_checker, put_checker, reload_checker,
}

-- The number of tasks with the ident.
abbrev pub count_task : Text → List Task → ℕ
count_task k [] = 0
count_task k (t ∷ l) = (if text_eq t.config.ident k then 1 else 0) + count_task k l

count_task-entries :
    (k : Text) (l : List (Text × Task))
    → DistinctEntries l
    → All (λ e. e.1.config.ident ≡ e.0) l
    → count_task k (values_of l) ≡ (if is_some (entry k l) then 1 else 0)
unfolding entry
count_task-entries k [] d h = refl
count_task-entries k ((j, t) ∷ l) (new, d) (e, h) =
    let rest = count_task-entries k l d h in
    elim (Bool-cases (text_eq j k)) [
      | inl b ↦ ground (arith, b, e, rest, new, text_eq_iff j k)
      | inr b ↦ ground (arith, b, e, rest)
    ]

abbrev jobs : LinkedList Job check_time_of
jobs = linked_list check_time_of

run_tasks-uncancelled :
    (cancelled : ℕ → Bool) (n : ℕ) (l : List Task)
    → ((i : ℕ) → cancelled i ≡ false)
    → run_tasks cancelled n l ≡ l
unfolding run_tasks
run_tasks-uncancelled cancelled n [] h = refl
run_tasks-uncancelled cancelled n (t ∷ l) h =
    rw (h n) (ap (λ r. t ∷ r) (run_tasks-uncancelled cancelled (suc n) l h))

module _ (T : TreeMap Task) where
  put_checker-put_tasks : (l : List Task) (m : T.Map) → put_checker T l m ≡ put_tasks jobs T l m
  unfolding put_checker put_tasks
  put_checker-put_tasks [] m = refl
  put_checker-put_tasks (t ∷ l) m = put_checker-put_tasks l (T.put t.config.ident t m)

  put_tasks-count :
      (k : Text) (l : List Task)
      → count_task k (values_of (T.entries (put_tasks jobs T l T.empty)))
        ≡ (if has_task k l then 1 else 0)
  put_tasks-count k l =
      let m = put_tasks jobs T l T.empty in
      let keyed : IsKeyed jobs T m =
        put_tasks-IsKeyed jobs T l T.empty (λ j t h. (let e = T.get-empty j in cc)) in
      let entries =
        entries-IsKeyed jobs T (T.entries m) (T.entries-distinct m)
          (λ j t h. keyed j t (sym (T.entry-entries j m) ∙ h)) in
      let found = put_tasks-left jobs T k l T.empty in
      let empty = T.get-empty k in
      count_task-entries k (T.entries m) (T.entries-distinct m) entries
      ∙ ap (λ o. if is_some o then 1 else 0) (T.entry-entries k m)
      ∙ ground arith

  -- After a reload, a run that is not cancelled runs one task for each ident of the new tasks and
  -- none for any other, and the scheduler has then finished.
  pub run_checker_lem :
      (cancelled : ℕ → Bool) (tasks : List Task) (s : CheckerState T) (k : Text)
      → ((i : ℕ) → cancelled i ≡ false)
      → let (ran, after) = run_checker T cancelled (reload_checker T tasks s) in
        (count_task k ran ≡ (if has_task k tasks then 1 else 0)) × (after.status ≡ finished)
  unfolding run_checker reload_checker
  run_checker_lem cancelled tasks s k h =
      let entries = λ (m : T.Map). count_task k (values_of (T.entries m)) in
      (
        ap (count_task k) (run_tasks-uncancelled cancelled 0 _ h)
            ∙ ap entries (put_checker-put_tasks tasks T.empty)
            ∙ put_tasks-count k tasks,
        refl,
      )
