-- ===== src/Ping/Result/Bounds.antt =====
-- What the loop of the aggregation computes.
use monitorbeat.Base.{
  ℕ, ◌+◌, ◌*◌, ◌/◌, ◌≤◌, ◌<◌, ◌≡◌, refl, subst, ap, ◌∙◌, List, [], ◌∷◌, arith, length, All, any,
  Bool, true, ◌==◌, if◌then◌else◌,
}
use monitorbeat.Base.Int.{ℤ, pos, negsuc, lt_int, int64_max, add64_exact, quot}
use monitorbeat.Ping.Result.{Summary, initial, sample, summarize, avg_rtt}

-- The round-trip times of the packets that came back.
abbrev pub answered : List ℤ → List ℕ
answered [] = []
answered (pos n ∷ l) = n ∷ answered l
answered (negsuc n ∷ l) = answered l

abbrev pub sum : List ℕ → ℕ
sum [] = 0
sum (n ∷ l) = n + sum l

-- The variables stand for a count, a minimum, a maximum and a sum.
record Stands (s : Summary) (count low high total : ℕ) : Type 0 where
  count_eq : s.received ≡ count
  low_eq : s.min_rtt ≡ pos low
  high_eq : s.max_rtt ≡ pos high
  total_eq : s.total_rtt ≡ pos total
  low_le : count * low ≤ total
  high_ge : total ≤ count * high
  order : low ≤ high

abbrev Between : ℕ → ℕ → List ℕ → Type 0
Between low high = All (λ n. (low ≤ n) × (n ≤ high))

abbrev lower : ℕ → ℕ → ℕ
lower low n = if lt_int (pos n) (pos low) then n else low

abbrev higher : ℕ → ℕ → ℕ
higher high n = if lt_int (pos high) (pos n) then n else high

scaled_le :
    (count low' low total n : ℕ)
    → low' ≤ low
    → low' ≤ n
    → count * low ≤ total
    → (count + 1) * low' ≤ total + n
scaled_le count low' low total n a b c = grind arith

scaled_ge :
    (count high' high total n : ℕ)
    → high ≤ high'
    → n ≤ high'
    → total ≤ count * high
    → total + n ≤ (count + 1) * high'
scaled_ge count high' high total n a b c = grind arith

sample-Stands :
    (s : Summary) (count low high total n : ℕ)
    → Stands s count low high total
    → total + n ≤ int64_max
    → Stands (sample (pos n) s) (count + 1) (lower low n) (higher high n) (total + n)
unfolding sample
sample-Stands s count low high total n st h =
    let added = add64_exact total n h in
    record {
      count_eq = ground arith;
      low_eq = ground arith;
      high_eq = ground arith;
      total_eq = ground arith;
      low_le = scaled_le count (lower low n) low total n (ground arith) (ground arith) st.low_le;
      high_ge =
          scaled_ge count (higher high n) high total n (ground arith) (ground arith) st.high_ge;
      order = ground arith;
    }

Between-weaken :
    (low high low' high' : ℕ) (l : List ℕ)
    → low' ≤ low
    → high ≤ high'
    → Between low high l
    → Between low' high' l
Between-weaken low high low' high' [] a b w = tt
Between-weaken low high low' high' (n ∷ l) a b w =
    ((omega arith, omega arith), Between-weaken low high low' high' l a b w.1)

abbrev pub occurs : ℕ → List ℕ → Bool
occurs n l = any (◌==◌ n) l

-- The result for samples after `s`, which stands for a minimum and a maximum of its own.
record Summarized (s : Summary) (count low high total : ℕ) (l : List ℕ) : Type 0 where
  lowest : ℕ
  highest : ℕ
  stands : Stands s (count + length l) lowest highest (total + sum l)
  lowest_le : lowest ≤ low
  highest_ge : high ≤ highest
  lowest_in : occurs lowest (low ∷ l) ≡ true
  highest_in : occurs highest (high ∷ l) ≡ true
  between : Between lowest highest l

recount :
    (s : Summary) (count count' low high total total' : ℕ)
    → count ≡ count'
    → total ≡ total'
    → Stands s count low high total
    → Stands s count' low high total'
recount s count count' low high total total' p q st =
    subst (λ c. Stands s c low high total') p (subst (λ t. Stands s count low high t) q st)

occurs-choice :
    (m first n : ℕ) (l : List ℕ) (b : Bool)
    → occurs m ((if b then n else first) ∷ l) ≡ true
    → occurs m (first ∷ n ∷ l) ≡ true
occurs-choice m first n l b h = ground (arith, h)

summarize-Stands :
    (l : List ℤ) (s : Summary) (count low high total : ℕ)
    → Stands s count low high total
    → total + sum (answered l) ≤ int64_max
    → Summarized (summarize l s) count low high total (answered l)
unfolding summarize
summarize-Stands [] s count low high total st h = record {
  lowest = low;
  highest = high;
  stands = recount s count (count + 0) low high total (total + 0) (omega arith) (omega arith) st;
  lowest_le = omega arith;
  highest_ge = omega arith;
  lowest_in = ground arith;
  highest_in = ground arith;
  between = tt;
}
summarize-Stands (negsuc n ∷ l) s count low high total st h =
    summarize-Stands l s count low high total st h
summarize-Stands (pos n ∷ l) s count low high total st h =
    let first = sample-Stands s count low high total n st (omega arith) in
    let rest =
      summarize-Stands l (sample (pos n) s) (count + 1) (lower low n) (higher high n) (total + n)
        first (omega arith) in
    record {
      lowest = rest.lowest;
      highest = rest.highest;
      stands =
          recount (summarize l (sample (pos n) s)) (count + 1 + length (answered l))
            (count + length (n ∷ answered l)) rest.lowest rest.highest
            (total + n + sum (answered l)) (total + sum (n ∷ answered l)) (omega arith)
            (omega arith) rest.stands;
      lowest_le = ground arith;
      highest_ge = ground arith;
      lowest_in = occurs-choice rest.lowest low n (answered l) _ rest.lowest_in;
      highest_in = occurs-choice rest.highest high n (answered l) _ rest.highest_in;
      between = ((ground arith, ground arith), rest.between);
    }

first-Stands : (n : ℕ) → n ≤ int64_max → Stands (sample (pos n) initial) 1 n n n
unfolding sample
first-Stands n h =
    let added = add64_exact 0 n (omega arith) in
    record {
      count_eq = refl;
      low_eq = refl;
      high_eq = ground arith;
      total_eq = added ∙ ap pos (omega arith);
      low_le = omega arith;
      high_ge = omega arith;
      order = omega arith;
    }

-- What is reported for samples of which some came back.
pub record IsSummary (s : Summary) (l : List ℕ) : Type 0 where
  pub low : ℕ
  pub high : ℕ
  pub received_eq : s.received ≡ length l
  pub min_eq : s.min_rtt ≡ pos low
  pub max_eq : s.max_rtt ≡ pos high
  pub avg_eq : avg_rtt s ≡ pos (sum l / length l)
  pub low_le_avg : low ≤ sum l / length l
  pub avg_le_high : sum l / length l ≤ high
  pub low_in : occurs low l ≡ true
  pub high_in : occurs high l ≡ true
  pub between : Between low high l

quotient_between :
    (k low total high : ℕ)
    → 0 < k
    → k * low ≤ total
    → total ≤ k * high
    → (low ≤ total / k) × (total / k ≤ high)
quotient_between k low total high p a b = (grind arith, grind arith)

-- Where at least one packet came back and the times together fit an int64: the count is that of the
-- packets that came back, the minimum and the maximum are among the times of the packets that came
-- back and every time is between them, the average is the quotient of their sum by their number,
-- and it is between the two as well.
pub summarize_lem :
    (l : List ℤ)
    → 0 < length (answered l)
    → sum (answered l) ≤ int64_max
    → IsSummary (summarize l initial) (answered l)
unfolding summarize quot
summarize_lem [] p h = absurd (omega arith)
summarize_lem (negsuc n ∷ l) p h = summarize_lem l p h
summarize_lem (pos n ∷ l) p h =
    let r = summarize-Stands l (sample (pos n) initial) 1 n n n (first-Stands n (omega arith)) h in
    let st = r.stands in
    let total = sum (n ∷ answered l) in
    let k = length (n ∷ answered l) in
    let bounds =
      quotient_between (1 + length (answered l)) r.lowest (n + sum (answered l)) r.highest
        (omega arith) st.low_le st.high_ge in
    let count_eq : 1 + length (answered l) ≡ k = omega arith in
    record {
      low = r.lowest;
      high = r.highest;
      received_eq = st.count_eq ∙ count_eq;
      min_eq = st.low_eq;
      max_eq = st.high_eq;
      avg_eq = rw (st.total_eq, st.count_eq, count_eq) refl;
      low_le_avg = subst (λ c. r.lowest ≤ total / c) count_eq bounds.0;
      avg_le_high = subst (λ c. total / c ≤ r.highest) count_eq bounds.1;
      low_in = r.lowest_in;
      high_in = r.highest_in;
      between = ((r.lowest_le, r.highest_ge), r.between);
    }
