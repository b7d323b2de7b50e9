-- ===== src/Daemon/Queue/Count.antt =====
-- How many jobs of the queue have an ident: pushes add to it, and the order does not matter.
use mathlib.Core.List.{Perm, Permᴰ, append_assoc, append-nil}
use mathlib.Core.Logic.{∥∥₁_elim}
use native.Mathlib.Nat.{ℕ_set}
use monitorbeat.Base.{
  subst, ℕ, suc, ◌+◌, ◌≡◌, refl, sym, ap, ◌∙◌, List, [], ◌∷◌, ◌++◌, arith, if◌then◌else◌,
}
use monitorbeat.Base.Text.{Text, text_eq}
use monitorbeat.Daemon.Collections.{LinkedList}
use monitorbeat.Daemon.Job.{Job, ident, check_time_of}
use monitorbeat.Daemon.Queue.{push, add_all}

abbrev pub count : Text → List Job → ℕ
count k [] = 0
count k (j ∷ l) = if text_eq (ident j) k then suc (count k l) else count k l

pub count-append : (k : Text) (l m : List Job) → count k (l ++ m) ≡ count k l + count k m
count-append k [] m = omega arith
count-append k (j ∷ l) m = ground (arith, count-append k l m)

count-permᴰ : (k : Text) {l m : List Job} → Permᴰ l m → count k l ≡ count k m
count-permᴰ k Permᴰ.nil = refl
count-permᴰ k (Permᴰ.cons e p) = rw (e, count-permᴰ k p)
count-permᴰ k (Permᴰ.swap {a} {b} e f) = rw (← e, ← f) (ground arith)
count-permᴰ k (Permᴰ.trans p q) = count-permᴰ k p ∙ count-permᴰ k q

pub count-perm : (k : Text) {l m : List Job} → Perm l m → count k l ≡ count k m
count-perm k p = ∥∥₁_elim p (ℕ_set _ _) (count-permᴰ k)

module _ (L : LinkedList Job check_time_of) where
  open L use {Carrier, values, add, sort, values-add, values-sort}

  values-add_all : (q : Carrier) (js : List Job) → values (add_all L q js) ≡ values q ++ js
  unfolding add_all
  values-add_all q [] = sym (append-nil (values q))
  values-add_all q (j ∷ js) =
      values-add_all (add q j) js
      ∙ ap (λ l. l ++ js) (values-add q j)
      ∙ append_assoc (values q) (j ∷ []) js

  -- A push adds its jobs to those of the queue.
  pub count-push :
      (k : Text) (q : Carrier) (js : List Job)
      → count k (values (push L q js)) ≡ count k (values q) + count k js
  unfolding push
  count-push k q js =
      count-perm k (values-sort (add_all L q js))
      ∙ ap (count k) (values-add_all q js)
      ∙ count-append k (values q) js

  -- A push leaves the jobs of the queue and its own, in some order.
  pub push-Perm : (q : Carrier) (js : List Job) → Perm (values (push L q js)) (values q ++ js)
  unfolding push
  push-Perm q js =
      subst (Perm (values (sort (add_all L q js)))) (values-add_all q js)
        (values-sort (add_all L q js))
