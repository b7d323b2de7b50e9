-- ===== src/Processbeat.antt =====
-- The processes of a host: tasks/processbeat/processbeat.go. What gopsutil reads of a process is
-- given, each call apart, with `none` for an error; so are the regexp engine and `sort.Slice`.
pub mod Top
mod Tests
use monitorbeat.Base.{
  ℕ, Bool, true, false, not, ◌||◌, ◌&&◌, Option, none, some, List, [], ◌∷◌, ◌++◌, any, length, ltb,
  take, if◌then◌else◌,
}
use monitorbeat.Base.Int.{ℤ, pos, negsuc}
use monitorbeat.Base.Float.{gt_float}
use monitorbeat.Base.Text.{Text, text_eq}
use monitorbeat.Configs.Tasks.{ProcessbeatConfig}

pub record MemoryInfo : Type 0 where
  pub rss : ℕ
  pub vms : ℕ

-- `process.Process`: `matched_cmdline` is what the first call of `Cmdline` gives.
pub record Process : Type 0 where
  pub pid : ℕ
  pub name : Option Text
  pub matched_cmdline : Option Text
  pub cmdline : Option Text
  pub cpu_percent : Option ℕ
  pub memory_percent : Option ℕ
  pub memory_info : Option MemoryInfo
  pub num_fds : Option ℕ
  pub num_threads : Option ℕ

-- `procInfo`, with the floats as bit patterns.
pub record ProcInfo : Type 0 where
  pub pid : ℕ
  pub name : Text
  pub cmdline : Text
  pub cpu_percent : ℕ
  pub mem_percent : ℕ
  pub rss_bytes : ℕ
  pub vms_bytes : ℕ
  pub num_fds : ℕ
  pub num_threads : ℕ

-- A value that was not read stays zero.
abbrev pub or_zero : Option ℕ → ℕ
or_zero none = 0
or_zero (some n) = n

abbrev pub or_empty : Option Text → Text
or_empty none = []
or_empty (some s) = s

abbrev pub or_no_memory : Option MemoryInfo → MemoryInfo
or_no_memory none = record { rss = 0; vms = 0 }
or_no_memory (some m) = m

-- `collectProc`.
unfoldable pub collect_proc : Process → Text → ProcInfo
collect_proc p name = record {
  pid = p.pid;
  name = name;
  cmdline = or_empty p.cmdline;
  cpu_percent = or_zero p.cpu_percent;
  mem_percent = or_zero p.memory_percent;
  rss_bytes = (or_no_memory p.memory_info).rss;
  vms_bytes = (or_no_memory p.memory_info).vms;
  num_fds = or_zero p.num_fds;
  num_threads = or_zero p.num_threads;
}

-- The test of the names: with none configured, each passes.
unfoldable pub passes_names : List Text → Text → Bool
passes_names [] name = true
passes_names (n ∷ ns) name = any (λ m. text_eq m name) (n ∷ ns)

-- The test of the command line: `none` is no configured expression.
unfoldable pub passes_regex : Option (Text → Bool) → Option Text → Bool
passes_regex none cmdline = true
passes_regex (some matches) none = false
passes_regex (some matches) (some s) = matches s

-- What the loop of `collect` appends for a process.
unfoldable pub collect_one : List Text → Option (Text → Bool) → Process → List ProcInfo
unfolding passes_names passes_regex collect_proc
collect_one names regex p = elim p.name [
  | none ↦ []
  | some name ↦
      if passes_names names name && passes_regex regex p.matched_cmdline
      then collect_proc p name ∷ []
      else []
]

unfoldable pub collect_all : List Text → Option (Text → Bool) → List Process → List ProcInfo
unfolding collect_one
collect_all names regex [] = []
collect_all names regex (p ∷ l) = collect_one names regex p ++ collect_all names regex l

-- The end of `collect`: at most `top_n` are kept, if that is positive.
unfoldable pub cut_top : ℤ → List ProcInfo → List ProcInfo
cut_top (pos n) l = if ltb 0 n && ltb n (length l) then take n l else l
cut_top (negsuc n) l = l

-- The order that `collect` sorts by.
unfoldable pub comes_before : ProcInfo → ProcInfo → Bool
comes_before a b = gt_float a.cpu_percent b.cpu_percent

pub data CollectError : Type 0 where
  processes_failed bad_regex : CollectError

pub data Result {ℓ} (A : Type ℓ) : Type ℓ where
  ok : A → Result A
  err : CollectError → Result A

-- The configured expression: empty is none, and one that does not compile an error.
unfoldable pub compile_regex : (Text → Option (Text → Bool)) → Text → Result (Option (Text → Bool))
compile_regex compile [] = ok none
compile_regex compile (c ∷ s) = elim (compile (c ∷ s)) [
  | none ↦ err bad_regex
  | some matches ↦ ok (some matches)
]

module _ (compile : Text → Option (Text → Bool)) (sort : List ProcInfo → List ProcInfo) where
  -- `collect` behind the list of processes.
  unfoldable pub collect_from : ProcessbeatConfig → List Process → Result (List ProcInfo)
  unfolding compile_regex collect_all cut_top
  collect_from cfg l = elim (compile_regex compile cfg.process_regex) [
    | err e ↦ err e
    | ok regex ↦ ok (cut_top cfg.top_n (sort (collect_all cfg.process_names regex l)))
  ]

  -- `collect`; `none` is an error of `process.Processes`.
  unfoldable pub collect : ProcessbeatConfig → Option (List Process) → Result (List ProcInfo)
  unfolding collect_from
  collect cfg none = err processes_failed
  collect cfg (some l) = collect_from cfg l
