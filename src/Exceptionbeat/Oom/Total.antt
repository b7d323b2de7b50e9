-- ===== src/Exceptionbeat/Oom/Total.antt =====
-- How many kills are reported in all, against the counter of the kernel.
use monitorbeat.Base.{
  ℕ, zero, suc, ◌+◌, ◌-◌, ◌≤◌, ◌<◌, ◌≡◌, refl, sym, subst, Option, none, some, List, [], ◌∷◌, ◌++◌,
  arith, Bool-cases, inl, inr, leb,
}
use monitorbeat.Base.Int.{ℤ, pos, negsuc, sub64_exact, int64_max}
use monitorbeat.Base.Text.{Text}
use monitorbeat.Exceptionbeat.Oom.{Kills, parse_oom_kill_count, observe, collect_oom, collect_ooms}

abbrev pub magnitude : ℤ → ℕ
magnitude (pos n) = n
magnitude (negsuc n) = 0

abbrev pub count : Text → ℕ
count c = magnitude (parse_oom_kill_count c)

-- The counts that were read are not negative and do not decrease.
abbrev pub IsRising : ℕ → List (Option Text) → Type 0
IsRising low [] = Unit
IsRising low (none ∷ l) = IsRising low l
IsRising low (some c ∷ l) =
    (parse_oom_kill_count c ≡ pos (count c))
    × (low ≤ count c)
    × (count c ≤ int64_max)
    × IsRising (count c) l

-- The last count that was read, or `n`.
abbrev pub final_count : ℕ → List (Option Text) → ℕ
final_count n [] = n
final_count n (none ∷ l) = final_count n l
final_count n (some c ∷ l) = final_count (count c) l

-- `n`, or if that is 0 the first count that is not 0.
abbrev pub baseline : ℕ → List (Option Text) → ℕ
baseline zero [] = 0
baseline zero (none ∷ l) = baseline zero l
baseline zero (some c ∷ l) = baseline (count c) l
baseline (suc n) l = suc n

abbrev pub total : List Kills → ℕ
total [] = 0
total (k ∷ l) = magnitude k.new_oom_count + total l

total-append : (k l : List Kills) → total (k ++ l) ≡ total k + total l
total-append [] l = omega arith
total-append (x ∷ k) l = omega (arith, total-append k l)

baseline_positive : (n : ℕ) (l : List (Option Text)) → 0 < n → baseline n l ≡ n
baseline_positive zero l h = absurd (omega arith)
baseline_positive (suc n) l h = refl

abbrev at_zero : ℕ → ℕ → ℕ → ℕ
at_zero zero x y = x
at_zero (suc m) x y = y

-- One run after a count `m`, which reads the count `n`.
observe_lem :
    (m n : ℕ)
    → m ≤ n
    → n ≤ int64_max
    → let (kills, next) = observe (pos n) (pos m) in
      (next ≡ pos n) × (total kills ≡ at_zero m 0 (n - m))
unfolding observe
observe_lem zero n h k = (refl, refl)
observe_lem (suc m) n h k = elim (Bool-cases (leb n (suc m))) [
  | inl b ↦ ground (arith, b)
  | inr b ↦ ground (arith, b, sub64_exact (suc m) n h k)
]

-- The sum of all that is reported, from a count `m` on.
Counted : ℕ → List (Option Text) → List Kills × ℤ → Type 0
Counted m rs (kills, end) =
    (total kills + baseline m rs ≡ final_count m rs) × (end ≡ pos (final_count m rs))

seen :
    (m : ℕ) (c : Text)
    → parse_oom_kill_count c ≡ pos (count c)
    → m ≤ count c
    → count c ≤ int64_max
    → let (kills, next) = observe (parse_oom_kill_count c) (pos m) in
      (next ≡ pos (count c)) × (total kills ≡ at_zero m 0 (count c - m))
seen m c read low high =
    subst
      (λ x.
        ((observe x (pos m)).1 ≡ pos (count c))
        × (total (observe x (pos m)).0 ≡ at_zero m 0 (count c - m)))
      (sym read) (observe_lem m (count c) low high)

run_sum :
    (m n : ℕ) (rs : List (Option Text)) (later now both : ℕ)
    → m ≤ n
    → later + baseline n rs ≡ final_count n rs
    → now ≡ at_zero m 0 (n - m)
    → both ≡ now + later
    → both + at_zero m (baseline n rs) m ≡ final_count n rs
run_sum zero n rs later now both h sum t e = omega (arith, sum, t, e)
run_sum (suc m) n rs later now both h sum t e =
    omega (arith, sum, t, e, baseline_positive n rs (omega arith))

-- What is counted from a run on, whose report and next count are given.
run-Counted :
    (m n : ℕ) (rs : List (Option Text)) (kills : List Kills) (next : ℤ)
    → m ≤ n
    → next ≡ pos n
    → total kills ≡ at_zero m 0 (n - m)
    → Counted n rs (collect_ooms rs (pos n))
    → let (rest, end) = collect_ooms rs next in
      (total (kills ++ rest) + at_zero m (baseline n rs) m ≡ final_count n rs)
      × (end ≡ pos (final_count n rs))
unfolding Counted
run-Counted m n rs kills next h e t (sum, end) =
    let turn = λ (x : ℤ).
      (total (kills ++ (collect_ooms rs x).0) + at_zero m (baseline n rs) m ≡ final_count n rs)
      × ((collect_ooms rs x).1 ≡ pos (final_count n rs)) in
    subst turn (sym e) (
      run_sum m n rs _ (total kills) (total (kills ++ (collect_ooms rs (pos n)).0)) h sum t
          (total-append kills (collect_ooms rs (pos n)).0),
      end,
    )

collect_ooms-Counted :
    (m : ℕ) (rs : List (Option Text)) → IsRising m rs → Counted m rs (collect_ooms rs (pos m))
unfolding collect_ooms collect_oom Counted
collect_ooms-Counted zero [] h = (refl, refl)
collect_ooms-Counted (suc m) [] h = (omega arith, refl)
collect_ooms-Counted zero (none ∷ rs) h = collect_ooms-Counted zero rs h
collect_ooms-Counted (suc m) (none ∷ rs) h = collect_ooms-Counted (suc m) rs h
collect_ooms-Counted zero (some c ∷ rs) (read, low, high, rest) =
    let (next, sum) = seen zero c read low high in
    let (kills, last) = observe (parse_oom_kill_count c) (pos 0) in
    run-Counted 0 (count c) rs kills last low next sum (collect_ooms-Counted (count c) rs rest)
collect_ooms-Counted (suc m) (some c ∷ rs) (read, low, high, rest) =
    let (next, sum) = seen (suc m) c read low high in
    let (kills, last) = observe (parse_oom_kill_count c) (pos (suc m)) in
    run-Counted (suc m) (count c) rs kills last low next sum
      (collect_ooms-Counted (count c) rs rest)

-- From a new task on, with reads that may fail and counts that do not decrease: the reported kills
-- together are those since the first count that is not 0, which is itself never reported, and the
-- task remembers the last count.
pub collect_ooms_lem :
    (readings : List (Option Text))
    → IsRising 0 readings
    → let (kills, end) = collect_ooms readings (pos 0) in
      (total kills + baseline 0 readings ≡ final_count 0 readings)
      × (end ≡ pos (final_count 0 readings))
unfolding Counted
collect_ooms_lem readings h = collect_ooms-Counted 0 readings h
