-- ===== src/Exceptionbeat/Tests.antt =====
-- The task at concrete inputs.
use monitorbeat.Base.{
  ℕ, ◌+◌, ◌≡◌, refl, Bool, true, false, Option, none, some, List, [], ◌∷◌, arith,
}
use monitorbeat.Base.Int.{pos, negsuc}
use monitorbeat.Base.Text.{Text, codes}
use monitorbeat.Base.Float.{of_int}
use monitorbeat.Configs.Tasks.{ExceptionbeatConfig}
use monitorbeat.Exceptionbeat.DiskSpace.{Usage, is_used_up, is_short}
use monitorbeat.Exceptionbeat.Strings.{fields, parse_int, trim_space}
use monitorbeat.Exceptionbeat.Oom.{parse_oom_kill_count, collect_ooms}
use monitorbeat.Exceptionbeat.Oom.Total.{total, collect_ooms_lem}
use monitorbeat.Exceptionbeat.Corefile.{DirEntry, CoreState}
use monitorbeat.Exceptionbeat.Corefile.Fresh.{
  Run, listing, run, run_all, is_fresh, file_names, run_lem,
}

-- Two kills before the first reading with any, a failing read, and three more kills.
abbrev readings : List (Option Text)
readings =
    some (codes "oom_kill 0\n")
    ∷ some (codes "nr_free 7\noom_kill 2\n")
    ∷ none
    ∷ some (codes "oom_kill 5\n")
    ∷ []

collect_ooms_lem_example :
    let (kills, end) = collect_ooms readings (pos 0) in (total kills + 2 ≡ 5) × (end ≡ pos 5)
unfolding parse_oom_kill_count
collect_ooms_lem_example = collect_ooms_lem readings (
  refl,
  omega arith,
  omega arith,
  (refl, omega arith, omega arith, (refl, omega arith, omega arith, tt)),
)

abbrev core_at : Text → ℕ → DirEntry
core_at name t = record {
  name = name;
  is_dir = false;
  info = some (record { size = pos 4096; mod_time = t });
}

abbrev files : List DirEntry
files = core_at (codes "core.1") 70 ∷ core_at (codes "core.2") 150 ∷ []

abbrev run_at : ℕ → Bool → Run
run_at t readable = record {
  now = t;
  dir = some (codes "/var/core");
  read_dir = λ d. elim readable [ true ↦ some files | false ↦ none ];
}

abbrev never : CoreState
never = record { files = []; check = none }

run_lem_example :
    let reported =
      (run (run_at 300 true) (run_all (run_at 100 true ∷ run_at 200 false ∷ []) never)).0 in
    file_names reported ≡ codes "core.2" ∷ []
unfolding listing is_fresh
run_lem_example =
    run_lem (run_at 100 true) (run_at 300 true) (run_at 200 false ∷ []) never files files refl
      (refl, tt) refl

test_parse : parse_int (codes "-12") ≡ some (negsuc 11)
unfolding parse_int
test_parse = refl

test_range : parse_int (codes "9223372036854775808") ≡ none
unfolding parse_int
test_range = refl

test_fields : fields (codes " a  bc ") ≡ codes "a" ∷ codes "bc" ∷ []
unfolding fields
test_fields = refl

test_trim : trim_space (codes " |x \n") ≡ codes "|x"
unfolding trim_space
test_trim = refl

abbrev full : Usage
full = record {
  total = 107374182400;
  used = 106300440576;
  free = 1073741824;
  used_percent = 4636666922610458624;
  inodes_used_percent = 0;
}

-- 99 percent against a limit of 90, and 1 GB against 5.
test_space :
    (limits : ExceptionbeatConfig)
    → limits.disk_usage_percent ≡ pos 90
    → limits.disk_min_free_gb ≡ pos 5
    → (is_used_up limits full ≡ true) × (is_short limits full ≡ true)
unfolding is_used_up is_short of_int
test_space limits e f = (rw e refl, rw f refl)
