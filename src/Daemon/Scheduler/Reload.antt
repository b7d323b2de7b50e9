-- ===== src/Daemon/Scheduler/Reload.antt =====
-- A reload leaves one job for each task of the new configuration.
use monitorbeat.Base.{
  ℕ, suc, ◌+◌, ◌-◌, ◌≡◌, refl, sym, ap, ◌∙◌, Bool, true, false, none, some, List, [], ◌∷◌, ◌++◌,
  arith, All, if◌then◌else◌, Bool-cases, Option-cases, inl, inr, is_some, any, ◌||◌,
}
use monitorbeat.Base.Text.{Text, text_eq, text_eq_refl, text_eq_iff}
use monitorbeat.Daemon.Collections.{LinkedList, TreeMap, entry, DistinctEntries}
use monitorbeat.Daemon.Job.{Job, Task, ident, check_time_of, make_job, reload_job}
use monitorbeat.Daemon.Queue.{push, pop_all}
use monitorbeat.Daemon.Queue.Count.{count, count-append, count-push}
use monitorbeat.Daemon.Scheduler.{State, put_tasks, reload_jobs, push_new, reload, new_state}

-- Whether a task of the list has the ident.
unfoldable pub has_task : Text → List Task → Bool
has_task k l = any (λ t. text_eq t.config.ident k) l

abbrev to_ℕ : Bool → ℕ
to_ℕ true = 1
to_ℕ false = 0

or-true : (b : Bool) → (b || true) ≡ true
or-true true = refl
or-true false = refl

module _ (L : LinkedList Job check_time_of) (T : TreeMap Task) where
  open L use {Carrier, values}

  -- Each task of the map stands under its own ident.
  abbrev pub IsKeyed : T.Map → Type 0
  IsKeyed m = (k : Text) (t : Task) → T.get k m ≡ some t → t.config.ident ≡ k

  -- One if the map has the key.
  abbrev left : Text → T.Map → ℕ
  left k m = to_ℕ (is_some (T.get k m))

  pub put_tasks-left :
      (k : Text) (l : List Task) (m : T.Map)
      → is_some (T.get k (put_tasks L T l m)) ≡ (has_task k l || is_some (T.get k m))
  unfolding put_tasks has_task
  put_tasks-left k [] m = refl
  put_tasks-left k (t ∷ l) m =
      let put = T.get-put t.config.ident k t m in
      rw (put_tasks-left k l (T.put t.config.ident t m), put)
        (elim (Bool-cases (text_eq t.config.ident k)) [
          | inl e ↦ rw e (or-true (has_task k l))
          | inr e ↦ rw e refl
        ])

  put-IsKeyed : (m : T.Map) → IsKeyed m → (t : Task) → IsKeyed (T.put t.config.ident t m)
  put-IsKeyed m w t k u h =
      let put = T.get-put t.config.ident k t m in
      let old = w k u in ground (arith, text_eq_iff t.config.ident k)

  pub put_tasks-IsKeyed : (l : List Task) (m : T.Map) → IsKeyed m → IsKeyed (put_tasks L T l m)
  unfolding put_tasks
  put_tasks-IsKeyed [] m w = w
  put_tasks-IsKeyed (t ∷ l) m w =
      put_tasks-IsKeyed l (T.put t.config.ident t m) (λ k u h. put-IsKeyed m w t k u h)

  remove-IsKeyed : (j : Text) (m : T.Map) → IsKeyed m → IsKeyed (T.remove j m)
  remove-IsKeyed j m w k t h = let removed = T.get-remove j k m in let old = w k t in ground arith

  -- A job that is kept takes its task out of the map.
  step :
      (k : Text) (j : Job) (t : Task) (m : T.Map) (q : Carrier)
      → IsKeyed m
      → T.get (ident j) m ≡ some t
      → count k (values (push L q (reload_job j t ∷ []))) + left k (T.remove (ident j) m)
        ≡ count k (values q) + left k m
  unfolding reload_job
  step k j t m q w e =
      let same = w (ident j) t e in
      let pushed = count-push L k q (reload_job j t ∷ []) in
      let removed = T.get-remove (ident j) k m in
      ground (arith, text_eq_iff (ident j) k, text_eq_iff t.config.ident k)

  -- The jobs kept and the tasks left, of one ident, are as many as before each step.
  reload_jobs-count :
      (k : Text) (js : List Job) (m : T.Map) (q : Carrier) (stopped : List Job)
      → IsKeyed m
      → let (m', q', stopped') = reload_jobs L T js m q stopped in
        count k (values q') + left k m' ≡ count k (values q) + left k m
  unfolding reload_jobs
  reload_jobs-count k [] m q stopped w = refl
  reload_jobs-count k (j ∷ js) m q stopped w = elim (Option-cases (T.get (ident j) m)) [
    | inl e ↦ rw (e, reload_jobs) (reload_jobs-count k js m q (stopped ++ j ∷ []) w)
    | inr (t, e) ↦
        let rest =
          reload_jobs-count k js (T.remove (ident j) m) (push L q (reload_job j t ∷ [])) stopped
            (remove-IsKeyed (ident j) m w) in
        rw (e, reload_jobs) (rest ∙ step k j t m q w e)
  ]

  -- The idents of entries are their keys.
  IsKeyedList : List (Text × Task) → Type 0
  IsKeyedList l = All (λ e. e.1.config.ident ≡ e.0) l

  push_new-count :
      (now : ℕ) (k : Text) (l : List (Text × Task)) (q : Carrier)
      → DistinctEntries l
      → All (λ e. e.1.config.ident ≡ e.0) l
      → count k (values (push_new L T now l q)) ≡ count k (values q) + to_ℕ (is_some (entry k l))
  unfolding push_new entry make_job
  push_new-count now k [] q d w = omega arith
  push_new-count now k ((j, t) ∷ l) q d w =
      let rest = push_new-count now k l (push L q (make_job now t ∷ [])) d.1 w.1 in
      let pushed = count-push L k q (make_job now t ∷ []) in
      let new = d.0 in
      let keyed = w.0 in ground (arith, text_eq_iff j k, text_eq_iff t.config.ident k)

  reload_jobs-IsKeyed :
      (js : List Job) (m : T.Map) (q : Carrier) (stopped : List Job)
      → IsKeyed m
      → IsKeyed (reload_jobs L T js m q stopped).0
  unfolding reload_jobs
  reload_jobs-IsKeyed [] m q stopped w = w
  reload_jobs-IsKeyed (j ∷ js) m q stopped w = elim (Option-cases (T.get (ident j) m)) [
    | inl e ↦ rw (e, reload_jobs) (reload_jobs-IsKeyed js m q (stopped ++ j ∷ []) w)
    | inr (t, e) ↦
        rw (e, reload_jobs)
          (reload_jobs-IsKeyed js (T.remove (ident j) m) (push L q (reload_job j t ∷ [])) stopped
            (remove-IsKeyed (ident j) m w))
  ]

  stop_step :
      (k : Text) (j : Job) (t : Task) (m : T.Map) (n : ℕ)
      → T.get (ident j) m ≡ some t
      → n - left k (T.remove (ident j) m) ≡ (if text_eq (ident j) k then suc n else n) - left k m
  stop_step k j t m n e =
      let removed = T.get-remove (ident j) k m in ground (arith, text_eq_iff (ident j) k)

  pass_step :
      (k : Text) (j : Job) (m : T.Map) (n c : ℕ)
      → T.get (ident j) m ≡ none
      → c + (if text_eq (ident j) k then 1 else 0) + (n - left k m)
        ≡ c + ((if text_eq (ident j) k then suc n else n) - left k m)
  pass_step k j m n c e = ground (arith, text_eq_iff (ident j) k)

  -- The old jobs beyond those that a task of the map keeps are stopped.
  reload_jobs-stopped :
      (k : Text) (js : List Job) (m : T.Map) (q : Carrier) (stopped : List Job)
      → count k (reload_jobs L T js m q stopped).2 ≡ count k stopped + (count k js - left k m)
  unfolding reload_jobs
  reload_jobs-stopped k [] m q stopped = omega arith
  reload_jobs-stopped k (j ∷ js) m q stopped = elim (Option-cases (T.get (ident j) m)) [
    | inl e ↦
        rw (e, reload_jobs)
          (reload_jobs-stopped k js m q (stopped ++ j ∷ [])
            ∙ ap (λ c. c + (count k js - left k m)) (count-append k stopped (j ∷ []))
            ∙ pass_step k j m (count k js) (count k stopped) e)
    | inr (t, e) ↦
        rw (e, reload_jobs)
          (reload_jobs-stopped k js (T.remove (ident j) m) (push L q (reload_job j t ∷ [])) stopped
            ∙ ap (λ c. count k stopped + c) (stop_step k j t m (count k js) e))
  ]

  pub entries-IsKeyed :
      (l : List (Text × Task))
      → DistinctEntries l
      → ((k : Text) (t : Task) → entry k l ≡ some t → t.config.ident ≡ k)
      → All (λ e. e.1.config.ident ≡ e.0) l
  unfolding entry
  entries-IsKeyed [] d w = tt
  entries-IsKeyed ((j, t) ∷ l) d w = (
    w j t (rw (text_eq_refl j) refl),
    entries-IsKeyed l d.1 (λ k u h. w k u (elim (Bool-cases (text_eq j k)) [
      | inl e ↦ (let new = d.0 in ground (arith, text_eq_iff j k))
      | inr e ↦ rw e h
    ])),
  )

  -- The map of the new tasks has the idents of the new tasks.
  left-new_tasks :
      (k : Text) (l : List Task)
      → left k (put_tasks L T l T.empty) ≡ (if has_task k l then 1 else 0)
  left-new_tasks k l =
      let put = put_tasks-left k l T.empty in let empty = T.get-empty k in ground arith

  -- After a reload the queue has one job for each ident of the new tasks and none for any other
  -- ident, whatever the old queue was. Of the old jobs of an ident, all are stopped if no new task
  -- has it, and all but one if a new task has it.
  pub reload_lem :
      (now : ℕ) (new_tasks : List Task) (s : State L T) (k : Text)
      → let (stopped, s') = reload L T now new_tasks s in
        (count k (values s'.jobs) ≡ (if has_task k new_tasks then 1 else 0))
        × (count k stopped ≡ count k (values s.jobs) - (if has_task k new_tasks then 1 else 0))
  unfolding reload pop_all new_state
  reload_lem now new_tasks s k =
      let m = put_tasks L T new_tasks T.empty in
      let keyed : IsKeyed m =
        put_tasks-IsKeyed new_tasks T.empty (λ j t h. (let e = T.get-empty j in cc)) in
      let result = reload_jobs L T (values s.jobs) m L.new [] in
      let kept : IsKeyed result.0 = reload_jobs-IsKeyed (values s.jobs) m L.new [] keyed in
      let old = reload_jobs-count k (values s.jobs) m L.new [] keyed in
      let pushed =
        push_new-count now k (T.entries result.0) result.1 (T.entries-distinct result.0) (
          entries-IsKeyed (T.entries result.0) (T.entries-distinct result.0)
            (λ j t h. kept j t (sym (T.entry-entries j result.0) ∙ h))) in
      let found = ap (λ o. to_ℕ (is_some o)) (T.entry-entries k result.0) in
      let none_before = ap (count k) L.values-new in
      let new = left-new_tasks k new_tasks in
      let stopped = reload_jobs-stopped k (values s.jobs) m L.new [] in (omega arith, omega arith)
