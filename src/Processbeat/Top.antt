-- ===== src/Processbeat/Top.antt =====
-- The processes that a run reports: those that pass the filters, cut to the top of the order.
use mathlib.Core.List.{Perm, append-nil, foldr}
use mathlib.Core.List.Perm
use mathlib.Core.Bool.{Bool-set}
use monitorbeat.Base.{
  ℕ, zero, suc, ◌<◌, ◌≤◌, ◌≡◌, inl, inr, refl, sym, ap, subst, ◌∙◌, Bool, false, Option, none, some,
  map, filter, any, ◌≢◌, if◌then◌else◌, ◌==◌, ◌||◌, List, [], ◌∷◌, ◌++◌, All, length, not, ◌&&◌,
  true, take, drop, take-append-drop, length-take, ltb, arith, Bool-cases, min,
}
use monitorbeat.Base.Int.{ℤ, pos, negsuc}
use monitorbeat.Base.Float.{is_nan, rank, gt_float, float_mod}
use monitorbeat.Base.Text.{Text, text_eq}
use monitorbeat.Configs.Tasks.{ProcessbeatConfig}
use monitorbeat.Processbeat.{
  Process, ProcInfo, comes_before, or_empty, collect_proc, passes_names, passes_regex, collect_one,
  collect_all, cut_top, compile_regex, Result, ok, err, collect_from, collect,
}

-- Each has at least the CPU value of those behind it.
abbrev pub IsDescending : List ProcInfo → Type 0
IsDescending [] = Unit
IsDescending (a ∷ l) = All (λ b. rank b.cpu_percent ≤ rank a.cpu_percent) l × IsDescending l

abbrev pub HasCpu : ProcInfo → Type 0
HasCpu p = (p.cpu_percent < float_mod) × (is_nan p.cpu_percent ≡ false)

-- Nothing that was dropped has a higher CPU value than what was kept.
abbrev pub IsAbove : List ProcInfo → List ProcInfo → Type 0
IsAbove kept dropped = All (λ a. All (λ b. rank b.cpu_percent ≤ rank a.cpu_percent) dropped) kept

-- What `sort.Slice` gives: nothing comes before what stands ahead of it.
abbrev pub IsInOrder : List ProcInfo → Type 0
IsInOrder [] = Unit
IsInOrder (a ∷ l) = All (λ b. comes_before b a ≡ false) l × IsInOrder l

has_value : ProcInfo → Bool
has_value p = not (is_nan p.cpu_percent)

and_swap : (a b x : Bool) → (a && (b && x)) ≡ (b && (a && x))
and_swap true b x = refl
and_swap false true x = refl
and_swap false false x = refl

comes_before_lem :
    (a b : ProcInfo)
    → has_value a ≡ true
    → has_value b ≡ true
    → comes_before b a ≡ false
    → rank b.cpu_percent ≤ rank a.cpu_percent
unfolding comes_before gt_float has_value
comes_before_lem a b p q h = ground (arith, h)

rank_descends :
    (a : ProcInfo) (l : List ProcInfo)
    → has_value a ≡ true
    → foldr (λ p b. has_value p && b) true l ≡ true
    → All (λ b. comes_before b a ≡ false) l
    → All (λ b. rank b.cpu_percent ≤ rank a.cpu_percent) l
rank_descends a [] p q h = tt
rank_descends a (b ∷ l) p q (h, k) =
    (comes_before_lem a b p (ground (arith, q)) h, rank_descends a l p (ground (arith, q)) k)

IsInOrder-IsDescending :
    (l : List ProcInfo)
    → foldr (λ p b. has_value p && b) true l ≡ true
    → IsInOrder l
    → IsDescending l
IsInOrder-IsDescending [] q h = tt
IsInOrder-IsDescending (a ∷ l) q (h, k) = (
  rank_descends a l (ground (arith, q)) (ground (arith, q)) h,
  IsInOrder-IsDescending l (ground (arith, q)) k,
)

HasCpu-has_value :
    (l : List ProcInfo) → All HasCpu l → foldr (λ p b. has_value p && b) true l ≡ true
unfolding has_value
HasCpu-has_value [] h = refl
HasCpu-has_value (a ∷ l) (p, h) = ground (arith, p.1, HasCpu-has_value l h)

All-after : (P : ProcInfo → Type 0) (k l : List ProcInfo) → All P (k ++ l) → All P l
All-after P [] l h = h
All-after P (a ∷ k) l (p, h) = All-after P k l h

IsDescending-IsAbove : (k l : List ProcInfo) → IsDescending (k ++ l) → IsAbove k l
IsDescending-IsAbove [] l h = tt
IsDescending-IsAbove (a ∷ k) l (p, h) = (All-after _ k l p, IsDescending-IsAbove k l h)

IsAbove-nil : (k : List ProcInfo) → IsAbove k []
IsAbove-nil [] = tt
IsAbove-nil (a ∷ k) = (tt, IsAbove-nil k)

All-front : (P : ProcInfo → Type 0) (k l : List ProcInfo) → All P (k ++ l) → All P k
All-front P [] l h = tt
All-front P (a ∷ k) l (p, h) = (p, All-front P k l h)

IsDescending-front : (k l : List ProcInfo) → IsDescending (k ++ l) → IsDescending k
IsDescending-front [] l h = tt
IsDescending-front (a ∷ k) l (p, h) = (All-front _ k l p, IsDescending-front k l h)

-- How many of some processes are kept.
abbrev pub kept_count : ℤ → ℕ → ℕ
kept_count (pos zero) n = n
kept_count (pos (suc top)) n = min (suc top) n
kept_count (negsuc m) n = n

-- What `cut_top` keeps, and what it drops.
record IsPart (top : ℤ) (l kept dropped : List ProcInfo) : Type 0 where
  kept_eq : cut_top top l ≡ kept
  split : kept ++ dropped ≡ l
  count_eq : length kept ≡ kept_count top (length l)

keep_whole :
    (top : ℤ) (l : List ProcInfo)
    → cut_top top l ≡ l
    → kept_count top (length l) ≡ length l
    → IsPart top l l []
keep_whole top l e k = record { kept_eq = e; split = append-nil l; count_eq = sym k }

cut_top-IsPart :
    (top : ℤ) (l : List ProcInfo)
    → (kept : List ProcInfo) × (dropped : List ProcInfo) × IsPart top l kept dropped
unfolding cut_top
cut_top-IsPart (negsuc m) l = (l, [], keep_whole (negsuc m) l refl refl)
cut_top-IsPart (pos zero) l = (l, [], keep_whole (pos zero) l refl refl)
cut_top-IsPart (pos (suc n)) l = elim (Bool-cases (ltb (suc n) (length l))) [
  | inl b ↦ (
    take (suc n) l,
    drop (suc n) l,
    record {
      kept_eq = ground (arith, b);
      split = take-append-drop (suc n) l;
      count_eq = length-take (suc n) l;
    },
  )
  | inr b ↦ (l, [], keep_whole (pos (suc n)) l (ground (arith, b)) (ground (arith, b)))
]

-- What a run reports of the processes that match.
pub record IsReport (top : ℤ) (matching kept dropped : List ProcInfo) : Type 0 where
  pub perm : Perm (kept ++ dropped) matching
  pub above : IsAbove kept dropped
  pub descending : IsDescending kept
  pub count_eq : length kept ≡ kept_count top (length (kept ++ dropped))

-- The expression that a text stands for; the empty text stands for none.
abbrev pub IsExpression : (Text → Option (Text → Bool)) → Text → Option (Text → Bool) → Type 0
IsExpression compile s none = s ≡ []
IsExpression compile s (some matches) = (s ≢ []) × (compile s ≡ some matches)

compile_regex-IsExpression :
    (compile : Text → Option (Text → Bool)) (s : Text) (regex : Option (Text → Bool))
    → IsExpression compile s regex
    → compile_regex compile s ≡ ok regex
unfolding compile_regex
compile_regex-IsExpression compile [] none h = refl
compile_regex-IsExpression compile (c ∷ s) none h = cc h
compile_regex-IsExpression compile [] (some matches) h = absurd (h.0 refl)
compile_regex-IsExpression compile (c ∷ s) (some matches) h = rw (compile_regex, h.1) refl

-- The name can be read, and is configured or no name is.
abbrev pub has_wanted_name : List Text → Option Text → Bool
has_wanted_name names none = false
has_wanted_name names (some name) = length names == 0 || any (λ n. text_eq n name) names

-- The command line can be read and matches, or no expression is configured.
abbrev pub has_wanted_line : Option (Text → Bool) → Option Text → Bool
has_wanted_line none line = true
has_wanted_line (some matches) none = false
has_wanted_line (some matches) (some line) = matches line

abbrev pub is_wanted : List Text → Option (Text → Bool) → Process → Bool
is_wanted names regex p = has_wanted_name names p.name && has_wanted_line regex p.matched_cmdline

-- What is collected of the processes that have both.
abbrev pub wanted : List Text → Option (Text → Bool) → List Process → List ProcInfo
wanted names regex l =
    map (λ p. collect_proc p (or_empty p.name)) (filter (is_wanted names regex) l)

passes_names_lem :
    (names : List Text) (name : Text) → passes_names names name ≡ has_wanted_name names (some name)
unfolding passes_names
passes_names_lem [] name = refl
passes_names_lem (n ∷ names) name = ground arith

passes_regex_lem :
    (regex : Option (Text → Bool)) (line : Option Text)
    → passes_regex regex line ≡ has_wanted_line regex line
unfolding passes_regex
passes_regex_lem none line = refl
passes_regex_lem (some matches) none = refl
passes_regex_lem (some matches) (some line) = refl

collect_one_lem :
    (names : List Text) (regex : Option (Text → Bool)) (p : Process) (o : Option Text)
    → p.name ≡ o
    → collect_one names regex p
      ≡ (if is_wanted names regex p then collect_proc p (or_empty p.name) ∷ [] else [])
unfolding collect_one
collect_one_lem names regex p none e = rw (collect_one, e) refl
collect_one_lem names regex p (some name) e =
    rw (collect_one, e, passes_names_lem names name, passes_regex_lem regex p.matched_cmdline) refl

collect_all-wanted :
    (names : List Text) (regex : Option (Text → Bool)) (l : List Process)
    → collect_all names regex l ≡ wanted names regex l
unfolding collect_all
collect_all-wanted names regex [] = refl
collect_all-wanted names regex (p ∷ l) =
    rw (collect_one_lem names regex p p.name refl, collect_all-wanted names regex l)
      (elim (Bool-cases (is_wanted names regex p)) [ inl e ↦ rw e refl | inr e ↦ rw e refl ])

module _ (compile : Text → Option (Text → Bool)) (sort : List ProcInfo → List ProcInfo)
    (sort-perm : (l : List ProcInfo) → Perm (sort l) l)
    (sort-IsInOrder : (l : List ProcInfo) → All HasCpu l → IsInOrder (sort l)) where
  sort-IsDescending : (l : List ProcInfo) → All HasCpu l → IsDescending (sort l)
  sort-IsDescending l h =
      let swapped = λ (a b : ProcInfo) (x : Bool). and_swap (has_value a) (has_value b) x in
      let same = Perm.foldr-eq Bool-set (λ p b. has_value p && b) swapped (sort-perm l) true in
      IsInOrder-IsDescending (sort l) (same ∙ HasCpu-has_value l h) (sort-IsInOrder l h)

  sorted_top :
      (top : ℤ) (l : List ProcInfo)
      → All HasCpu l
      → (kept : List ProcInfo) × (dropped : List ProcInfo) × (cut_top top (sort l) ≡ kept)
        × IsReport top l kept dropped
  sorted_top top l h =
      let (kept, dropped, c) = cut_top-IsPart top (sort l) in
      let ordered = subst IsDescending (sym c.split) (sort-IsDescending l h) in
      (
        kept,
        dropped,
        c.kept_eq,
        record {
          perm = subst (λ m. Perm m l) (sym c.split) (sort-perm l);
          above = IsDescending-IsAbove kept dropped ordered;
          descending = IsDescending-front kept dropped ordered;
          count_eq = c.count_eq ∙ ap (λ m. kept_count top (length m)) (sym c.split);
        },
      )

  collect_from_lem :
      (cfg : ProcessbeatConfig) (l : List Process) (regex : Option (Text → Bool))
      → compile_regex compile cfg.process_regex ≡ ok regex
      → collect_from compile sort cfg l
        ≡ ok (cut_top cfg.top_n (sort (collect_all cfg.process_names regex l)))
  unfolding collect_from
  collect_from_lem cfg l regex e =
      ap
        (λ r. elim r as (λ x. Result (List ProcInfo)) [
          | err f ↦ err f
          | ok found ↦ ok (cut_top cfg.top_n (sort (collect_all cfg.process_names found l)))
        ])
        e

  -- Where the expression compiles or none is configured, and no CPU value is a NaN: a run reports
  -- processes in descending order of their CPU values, and no dropped one has a higher value than
  -- a reported one. What it reports and what it drops are together what is collected of exactly
  -- the processes that have a name, which is a configured one if any is, and a command line that
  -- the expression matches if one is configured. It reports the configured number of them, or all
  -- if there are fewer or no number is configured.
  pub collect_lem :
      (cfg : ProcessbeatConfig) (l : List Process) (regex : Option (Text → Bool))
      → IsExpression compile cfg.process_regex regex
      → let matching = wanted cfg.process_names regex l in
        All HasCpu matching
        → (kept : List ProcInfo) × (dropped : List ProcInfo) × (collect compile sort cfg (some l)
            ≡ ok kept)
          × IsReport cfg.top_n matching kept dropped
  unfolding collect
  collect_lem cfg l regex e h =
      let same = collect_all-wanted cfg.process_names regex l in
      let (kept, dropped, cut, top) = sorted_top cfg.top_n (wanted cfg.process_names regex l) h in
      let compiled = compile_regex-IsExpression compile cfg.process_regex regex e in
      let run = collect_from_lem cfg l regex compiled in
      (kept, dropped, run ∙ ap (λ m. ok (cut_top cfg.top_n (sort m))) same ∙ ap ok cut, top)
