-- ===== src/Daemon/Queue/Order.antt =====
-- The queue is sorted after every push, and `PopUntil` takes exactly the jobs that are due.
use monitorbeat.Base.{
  ℕ, zero, suc, ◌≤◌, ◌<◌, ◌≡◌, refl, ap, ◌∙◌, List, [], ◌∷◌, ◌++◌, arith, leb, length, drop, All,
  Bool-cases, inl, inr,
}
use monitorbeat.Daemon.Collections.{LinkedList, IsSorted, tail}
use monitorbeat.Daemon.Job.{Job, check_time_of}
use monitorbeat.Daemon.Queue.{push, remove_n, due, pop_until}

abbrev pub Late : ℕ → List Job → Type 0
Late now = All (λ (j : Job). now < j.check_time)

abbrev pub Due : ℕ → List Job → Type 0
Due now = All (λ (j : Job). j.check_time ≤ now)

due-Due : (now : ℕ) (l : List Job) → Due now (due now l)
unfolding due
due-Due now [] = tt
due-Due now (j ∷ l) = ground (arith, due-Due now l)

Late-above :
    (now : ℕ) (j : Job) (l : List Job)
    → now < j.check_time
    → All (λ b. j.check_time ≤ b.check_time) l
    → Late now l
Late-above now j [] h a = tt
Late-above now j (i ∷ l) h a = (omega arith, Late-above now j l h a.1)

rest-Late :
    (now : ℕ) (l : List Job) → IsSorted check_time_of l → Late now (drop (length (due now l)) l)
unfolding due
rest-Late now [] s = tt
rest-Late now (j ∷ l) s = elim (Bool-cases (leb j.check_time now)) [
  | inl e ↦ rw e (rest-Late now l s.1)
  | inr e ↦
      let after : now < j.check_time = ground arith in rw e (after, Late-above now j l after s.0)
]

due-append-rest : (now : ℕ) (l : List Job) → due now l ++ drop (length (due now l)) l ≡ l
unfolding due
due-append-rest now [] = refl
due-append-rest now (j ∷ l) = elim (Bool-cases (leb j.check_time now)) [
  | inl e ↦ rw e (ap (λ r. j ∷ r) (due-append-rest now l))
  | inr e ↦ rw e refl
]

drop-IsSorted :
    (n : ℕ) (l : List Job) → IsSorted check_time_of l → IsSorted check_time_of (drop n l)
drop-IsSorted zero l s = s
drop-IsSorted (suc n) [] s = tt
drop-IsSorted (suc n) (j ∷ l) s = drop-IsSorted n l s.1

drop-tail : (n : ℕ) (l : List Job) → drop n (tail l) ≡ drop (suc n) l
drop-tail zero [] = refl
drop-tail (suc n) [] = refl
drop-tail zero (j ∷ l) = refl
drop-tail (suc n) (j ∷ l) = refl

module _ (L : LinkedList Job check_time_of) where
  open L use {Carrier, values, remove_first, values-remove_first, sort-IsSorted}

  values-remove_n : (n : ℕ) (q : Carrier) → values (remove_n L n q) ≡ drop n (values q)
  unfolding remove_n
  values-remove_n zero q = refl
  values-remove_n (suc n) q =
      values-remove_n n (remove_first q)
      ∙ ap (drop n) (values-remove_first q)
      ∙ drop-tail n (values q)

  pub pop_until-append :
      (now : ℕ) (q : Carrier) → (pop_until L now q).0 ++ values (pop_until L now q).1 ≡ values q
  unfolding pop_until
  pop_until-append now q =
      ap (λ r. due now (values q) ++ r) (values-remove_n (length (due now (values q))) q)
      ∙ due-append-rest now (values q)

  pub push-IsSorted : (q : Carrier) (js : List Job) → IsSorted check_time_of (values (push L q js))
  unfolding push
  push-IsSorted q js = sort-IsSorted _

  -- From a sorted queue `PopUntil` takes the jobs whose time is not after `now` and leaves those
  -- whose time is after it: together, in order, they are the queue, and the rest is sorted.
  pub pop_until_lem :
      (now : ℕ) (q : Carrier)
      → IsSorted check_time_of (values q)
      → let (jobs, rest) = pop_until L now q in
        Due now jobs
        × Late now (values rest)
        × (jobs ++ values rest ≡ values q)
        × IsSorted check_time_of (values rest)
  unfolding pop_until
  pop_until_lem now q s =
      let e = values-remove_n (length (due now (values q))) q in
      (
        due-Due now (values q),
        rw e (rest-Late now (values q) s),
        rw e (due-append-rest now (values q)),
        rw e (drop-IsSorted (length (due now (values q))) (values q) s),
      )
