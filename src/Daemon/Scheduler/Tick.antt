-- ===== src/Daemon/Scheduler/Tick.antt =====
-- The rounds of the scheduler's loop: they run what is due, and lose no job.
use mathlib.Core.List.{Perm}
use mathlib.Core.List.Perm as Perm
use monitorbeat.Base.{
  ℕ, ◌≡◌, refl, ap, ◌∙◌, Bool, true, false, List, [], ◌∷◌, ◌++◌, map, arith, if◌then◌else◌,
}
use monitorbeat.Base.Text.{Text}
use monitorbeat.Daemon.Collections.{LinkedList, TreeMap, IsSorted}
use monitorbeat.Daemon.Job.{Job, Task, check_time_of, next_job}
use monitorbeat.Daemon.Queue.{pop_until}
use monitorbeat.Daemon.Queue.Order.{Late, Due, pop_until-append}
use monitorbeat.Daemon.Queue.Count.{count, count-append, count-push}
use monitorbeat.Daemon.Scheduler.{State, is_running, run_jobs, round}

-- The next time of a job does not change its ident.
count-next_job : (k : Text) (l : List Job) → count k (map next_job l) ≡ count k l
unfolding next_job
count-next_job k [] = refl
count-next_job k (j ∷ l) = ground (arith, count-next_job k l)

module _ (L : LinkedList Job check_time_of) (T : TreeMap Task) where
  open L use {Carrier, values}

  run_jobs-count :
      (k : Text) (jobs : List Job) (rest : Carrier) (s : State L T)
      → count k (values (run_jobs L T jobs rest s).1.jobs) ≡ count k (jobs ++ values rest)
  unfolding run_jobs
  run_jobs-count k [] rest s = refl
  run_jobs-count k (j ∷ js) rest s =
      let pushed = count-push L k rest (map next_job (j ∷ js)) in
      let same = count-next_job k (j ∷ js) in
      let all = count-append k (j ∷ js) (values rest) in omega arith

  abbrev round_if : ℕ → State L T → Bool → Bool → List Job × State L T
  round_if now s r b =
      if r
      then (if b
          then ([], s)
          else run_jobs L T (pop_until L now s.jobs).0 (pop_until L now s.jobs).1 s)
      else ([], s)

  round_cases :
      (now : ℕ) (s : State L T) (P : List Job × State L T → Type 0)
      → P ([], s)
      → P (run_jobs L T (pop_until L now s.jobs).0 (pop_until L now s.jobs).1 s)
      → P (round L T now s)
  unfolding round
  round_cases now s P a b = elim (is_running s.status) as (λ r. P (round_if now s r s.busy)) [
    | false ↦ a
    | true ↦ elim s.busy as (λ c. P (round_if now s true c)) [ true ↦ a | false ↦ b ]
  ]

  -- A round loses no job and duplicates none: whatever the status of the scheduler, the queue has
  -- as many jobs of each ident after it as before.
  pub round-count :
      (now : ℕ) (k : Text) (s : State L T)
      → count k (values (round L T now s).1.jobs) ≡ count k (values s.jobs)
  unfolding round
  round-count now k s =
      round_cases now s (λ r. count k (values r.1.jobs) ≡ count k (values s.jobs)) refl
        (run_jobs-count k (pop_until L now s.jobs).0 (pop_until L now s.jobs).1 s
          ∙ ap (count k) (pop_until-append L now s.jobs))

  -- What a round at `now` does: the jobs it runs are due, those it leaves are not, and the new
  -- queue holds, in order, the jobs left and the next times of the jobs run.
  abbrev pub IsRound : ℕ → State L T → List Job × State L T → Type 0
  IsRound now s (jobs, s') =
      (rest : List Job) × (jobs ++ rest ≡ values s.jobs)
      × Due now jobs
      × Late now rest
      × Perm (values s'.jobs) (rest ++ map next_job jobs)
      × IsSorted check_time_of (values s'.jobs)
