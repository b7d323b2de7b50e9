-- ===== src/Output/Tests.antt =====
-- The outputs at concrete inputs.
use monitorbeat.Output.Metrics.{
  Metrics, VmMetric, put_label, clone_string_map, metric_keys, unnamed_lines, vm_lines,
}
use monitorbeat.Output.Metrics.Lines.{IsLine, count_text, line_names, vm_lines_lem}
use monitorbeat.Base.{
  zero, suc, ◌≡◌, ◌⊎◌, refl, map, All, true, false, Option, none, some, List, ◌∷◌, [], ◌++◌,
}
use monitorbeat.Base.Int.{pos}
use monitorbeat.Base.Text.{Text, codes, text_eq}
use monitorbeat.Output.Disk.{Disk}
use monitorbeat.Output.Http.{Config, Output, Faults, other, unreachable, publish, rotate_fallback}
use monitorbeat.Output.File
use monitorbeat.Output.File.Stale.{publish_all, stale_after_rotate}
use monitorbeat.Output.Http.Rotate.{rotate_fallback_lem}
use monitorbeat.Output.Http.Deliver.{IsAccepted, IsStored, publish_lem}

abbrev config : Config
config = record {
  url = codes "http://vm/import";
  method = [];
  headers = [];
  auth = other;
  retry_max = pos 2;
  fallback_path = codes "events";
  fallback_max_size = pos 50;
  fallback_max_backups = 1;
}

-- No server, and a disk that works.
abbrev offline : Faults
offline = record {
  answer = λ n r. unreachable;
  cancelled = λ n. false;
  open_fails = false;
  stat_fails = false;
  written = none;
  rename_fails = λ i. false;
}

-- The fallback file and its first backup.
abbrev disk : Disk
disk zero = some (codes "new")
disk (suc zero) = some (codes "old")
disk (suc (suc n)) = none

abbrev output : Output
output = record { is_open = false; fb_size = 0; closed = false; disk = disk }

publish_lem_example :
    ((publish config offline (some (codes "{}", codes "application/json")) output).0 ≡ true)
    × ((IsAccepted config offline (codes "{}") (codes "application/json")
          × ((publish config offline (some (codes "{}", codes "application/json")) output).1
              ≡ output))
        ⊎ IsStored
            (codes "new" ++ (codes "{}" ++ codes "\n"))
            (publish config offline (some (codes "{}", codes "application/json")) output).1.disk)
unfolding text_eq
publish_lem_example =
    publish_lem config offline (codes "{}") (codes "application/json") output refl refl refl refl
      refl (λ i. refl)

rotate_fallback_lem_example :
    ((rotate_fallback config offline output).0 ≡ true)
    × ((rotate_fallback config offline output).1.disk 0 ≡ none)
    × ((rotate_fallback config offline output).1.disk 1 ≡ some (codes "new"))
    × ((rotate_fallback config offline output).1.disk 2 ≡ some (codes "old"))
rotate_fallback_lem_example =
    rotate_fallback_lem config offline output (codes "new") 0 (λ i. refl) refl

-- A rotation after which the file cannot be opened.
abbrev no_reopen : File.Faults
no_reopen = record {
  mkdir_fails = false;
  open_fails = false;
  stat_fails = false;
  written = none;
  rename_fails = false;
  reopen_fails = true;
  restat_fails = false;
  close_fails = false;
}

abbrev full_file : File.File
full_file = record {
  path = codes "events";
  max_bytes = pos 2;
  handle = File.opened;
  size = 0;
  disk = disk;
}

abbrev later : List (File.Faults × Option Text)
later = (record no_reopen { reopen_fails = false }, some (codes "{}")) ∷ []

stale_after_rotate_example :
    let (fine, g) = File.publish_line no_reopen (some (codes "{}")) full_file in
    (fine ≡ true) × (publish_all later g ≡ (false ∷ [], g))
stale_after_rotate_example =
    stale_after_rotate no_reopen (codes "{}") full_file later refl refl refl refl

abbrev two_metrics : Metrics
two_metrics = (codes "idle", 4636737291354636288) ∷ (codes "busy", 4607182418800017408) ∷ []

vm_lines_lem_example :
    let lines =
      vm_lines
        (codes "cpu")
        (pos 1700000000000)
        two_metrics
        ((codes "hostname", codes "h1") ∷ []) in
    (count_text (codes "busy") (line_names lines) ≡ 1)
    × All (IsLine (pos 1700000000000) two_metrics ((codes "hostname", codes "h1") ∷ [])) lines
unfolding metric_keys text_eq
vm_lines_lem_example =
    vm_lines_lem (codes "cpu") (pos 1700000000000) (codes "idle", 4636737291354636288)
      ((codes "busy", 4607182418800017408) ∷ []) (codes "hostname", codes "h1") [] (codes "busy")

test_no_metrics :
    map (λ (l : VmMetric). l.metric) (vm_lines (codes "cpu") (pos 0) [] [])
    ≡ ((codes "__name__", codes "cpu") ∷ []) ∷ []
unfolding vm_lines put_label
test_no_metrics = refl

test_no_dimensions :
    map (λ (l : VmMetric). l.metric) (vm_lines (codes "cpu") (pos 0) two_metrics [])
    ≡ ((codes "__name__", codes "idle") ∷ []) ∷ ((codes "__name__", codes "busy") ∷ []) ∷ []
unfolding vm_lines unnamed_lines put_label clone_string_map text_eq
test_no_dimensions = refl
