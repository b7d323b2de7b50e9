-- ===== src/Daemon/Queue.antt =====
-- The queue of jobs: scheduler/daemon/queue.go. Each method holds the lock, so it is one step.
pub mod Order
pub mod Count
use monitorbeat.Base.{
  ℕ, zero, suc, ◌≡◌, Option, none, some, List, [], ◌∷◌, ◌++◌, leb, length, if◌then◌else◌,
}
use monitorbeat.Daemon.Collections.{LinkedList}
use monitorbeat.Daemon.Job.{Job, check_time_of}

module _ (L : LinkedList Job check_time_of) where
  open L use {Carrier, new, add, sort, remove_first, values}

  unfoldable pub add_all : Carrier → List Job → Carrier
  add_all q [] = q
  add_all q (j ∷ js) = add_all (add q j) js

  -- `Push`.
  unfoldable pub push : Carrier → List Job → Carrier
  push q js = sort (add_all q js)

  -- `First`.
  pub first : Carrier → Option Job
  first q = elim (values q) [ [] ↦ none | j ∷ l ↦ some j ]

  -- `Pop`.
  unfoldable pub pop : Carrier → Option Job × Carrier
  unfolding first
  pop q = elim (values q) [ [] ↦ (none, q) | j ∷ l ↦ (some j, remove_first q) ]

  -- `Clear`.
  unfoldable pub clear : Carrier → Carrier
  clear q = new

  -- `PopAll`.
  unfoldable pub pop_all : Carrier → List Job × Carrier
  unfolding clear
  pop_all q = (values q, clear q)

  unfoldable pub remove_n : ℕ → Carrier → Carrier
  remove_n zero q = q
  remove_n (suc n) q = remove_n n (remove_first q)

  -- `Size`.
  pub size : Carrier → ℕ
  size q = length (values q)

-- The jobs before the first one whose time is after `now`.
unfoldable pub due : ℕ → List Job → List Job
due now [] = []
due now (j ∷ l) = if leb j.check_time now then j ∷ due now l else []

module _ (L : LinkedList Job check_time_of) where
  open L use {Carrier, values}

  -- `PopUntil`.
  unfoldable pub pop_until : ℕ → Carrier → List Job × Carrier
  unfolding due remove_n
  pop_until now q = let jobs = due now (values q) in (jobs, remove_n L (length jobs) q)
