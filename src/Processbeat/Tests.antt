-- ===== src/Processbeat/Tests.antt =====
-- The process task at concrete inputs.
use monitorbeat.Base.{
  ℕ, ◌-◌, ◌≤◌, ◌≡◌, refl, Bool, true, false, Option, none, some, List, [], ◌∷◌, All, arith, leb,
  if_both,
}
use monitorbeat.Base.Int.{pos}
use monitorbeat.Base.Float.{is_nan, rank, rank-le, gt_float, float_mod}
use monitorbeat.Base.Text.{Text, codes, text_eq}
use monitorbeat.Configs.Tasks.{ProcessbeatConfig}
use monitorbeat.Daemon.Collections.{IsSorted}
use monitorbeat.Daemon.Instances.{sort, insert, sort-Perm, sort-IsSorted}
use monitorbeat.Processbeat.{
  Process, ProcInfo, comes_before, collect_proc, collect_all, compile_regex, ok, collect,
}
use monitorbeat.Processbeat.Top.{HasCpu, IsInOrder, IsReport, collect_lem}

-- The place from the top of the order.
abbrev place : ProcInfo → ℕ
place p = float_mod - rank p.cpu_percent

All-insert :
    (a : ProcInfo) (l : List ProcInfo) → HasCpu a → All HasCpu l → All HasCpu (insert place a l)
unfolding insert
All-insert a [] p h = (p, tt)
All-insert a (b ∷ l) p (q, h) =
    if_both (All HasCpu) (leb (place a) (place b)) (p, (q, h)) (q, All-insert a l p h)

All-sort : (l : List ProcInfo) → All HasCpu l → All HasCpu (sort place l)
unfolding sort
All-sort [] h = tt
All-sort (a ∷ l) (p, h) = All-insert a (sort place l) p (All-sort l h)

not-before : (a b : ProcInfo) → HasCpu a → HasCpu b → place a ≤ place b → comes_before b a ≡ false
unfolding comes_before gt_float
not-before a b h k p = ground (arith, rank-le a.cpu_percent h.0, rank-le b.cpu_percent k.0)

none_before :
    (a : ProcInfo) (l : List ProcInfo)
    → HasCpu a
    → All HasCpu l
    → All (λ b. place a ≤ place b) l
    → All (λ b. comes_before b a ≡ false) l
none_before a [] h k p = tt
none_before a (b ∷ l) h (q, k) (p, r) = (not-before a b h q p, none_before a l h k r)

IsSorted-IsInOrder : (l : List ProcInfo) → IsSorted place l → All HasCpu l → IsInOrder l
IsSorted-IsInOrder [] s h = tt
IsSorted-IsInOrder (a ∷ l) (p, s) (h, k) = (none_before a l h k p, IsSorted-IsInOrder l s k)

sort-IsInOrder : (l : List ProcInfo) → All HasCpu l → IsInOrder (sort place l)
sort-IsInOrder l h = IsSorted-IsInOrder (sort place l) (sort-IsSorted place l) (All-sort l h)

abbrev config : ProcessbeatConfig
config = record {
  base = record {
    task_id = pos 1;
    ident = [];
    period = pos 0;
    timeout = pos 0;
    enabled = true;
    labels = [];
  };
  process_names = codes "nginx" ∷ codes "mysqld" ∷ [];
  process_regex = codes "-c";
  top_n = pos 1;
}

-- The command line is the expression.
abbrev compile : Text → Option (Text → Bool)
compile s = some (text_eq s)

abbrev process : ℕ → Text → ℕ → Process
process pid name cpu = record {
  pid = pid;
  name = some name;
  matched_cmdline = some (codes "-c");
  cmdline = none;
  cpu_percent = some cpu;
  memory_percent = none;
  memory_info = none;
  num_fds = none;
  num_threads = none;
}

-- 1.0, 2.0 and another name.
abbrev processes : List Process
processes =
    process 11 (codes "nginx") 4607182418800017408
    ∷ process 12 (codes "mysqld") 4611686018427387904
    ∷ process 13 (codes "sh") 4611686018427387904
    ∷ []

collect_lem_example :
    let matching =
      collect_proc (process 11 (codes "nginx") 4607182418800017408) (codes "nginx")
      ∷ collect_proc (process 12 (codes "mysqld") 4611686018427387904) (codes "mysqld")
      ∷ [] in
    (kept : List ProcInfo) × (dropped : List ProcInfo) × (collect compile
        (sort place)
        config
        (some processes)
      ≡ ok kept)
    × IsReport (pos 1) matching kept dropped
unfolding collect_all compile_regex text_eq is_nan
collect_lem_example =
    collect_lem compile (sort place) (sort-Perm place) sort-IsInOrder config processes
      (some (text_eq (codes "-c"))) ((λ e. cc e), refl)
      ((omega arith, refl), ((omega arith, refl), tt))

test_top :
    collect compile (sort place) config (some processes)
    ≡ ok (collect_proc (process 12 (codes "mysqld") 4611686018427387904) (codes "mysqld") ∷ [])
unfolding collect collect_all compile_regex text_eq sort rank
test_top = refl
