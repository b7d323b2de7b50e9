-- ===== src/Exceptionbeat/Oom.antt =====
-- Kills by the kernel for want of memory: `collectOOM` and `parseOOMKillCount`.
pub mod Total
use monitorbeat.Base.{
  ℕ, zero, Bool, true, false, Option, none, some, List, [], ◌∷◌, ◌++◌, suc, if◌then◌else◌,
}
use monitorbeat.Base.Int.{ℤ, pos, negsuc, leb_int, sub64}
use monitorbeat.Base.Text.{Text, codes}
use monitorbeat.Exceptionbeat.Strings.{split, has_prefix, fields, parse_int}

-- What an item of the event holds.
pub record Kills : Type 0 where
  pub new_oom_count : ℤ
  pub total_count : ℤ

-- The number on a line of `/proc/vmstat`, if it is the line of kills.
unfoldable pub line_count : Text → Option ℤ
unfolding has_prefix fields parse_int
line_count line =
    if has_prefix (codes "oom_kill ") line
    then (elim (fields line) [
      | [] ↦ none
      | name ∷ rest ↦ elim rest [ [] ↦ none | value ∷ more ↦ parse_int value ]
    ])
    else none

unfoldable pub first_count : List Text → ℤ
unfolding line_count
first_count [] = pos 0
first_count (l ∷ ls) = elim (line_count l) [ none ↦ first_count ls | some n ↦ n ]

-- `parseOOMKillCount`.
unfoldable pub parse_oom_kill_count : Text → ℤ
unfolding split first_count
parse_oom_kill_count content = first_count (split b'\n' content)

abbrev pub is_zero : ℤ → Bool
is_zero (pos zero) = true
is_zero (pos (suc n)) = false
is_zero (negsuc n) = false

-- `collectOOM` for a count that was read.
unfoldable pub observe : ℤ → ℤ → List Kills × ℤ
observe current last =
    if is_zero last
    then ([], current)
    else if leb_int current last
    then ([], last)
    else (record { new_oom_count = sub64 current last; total_count = current } ∷ [], current)

-- `collectOOM`: what is reported, and `lastOOMKillCount` after it. `none` is a failing read.
unfoldable pub collect_oom : Option Text → ℤ → List Kills × ℤ
unfolding observe
collect_oom none last = ([], last)
collect_oom (some content) last = observe (parse_oom_kill_count content) last

-- Successive runs: all that they report, in order, and `lastOOMKillCount` at the end.
unfoldable pub collect_ooms : List (Option Text) → ℤ → List Kills × ℤ
unfolding collect_oom
collect_ooms [] last = ([], last)
collect_ooms (r ∷ rs) last =
    let (kills, next) = collect_oom r last in
    let (rest, end) = collect_ooms rs next in (kills ++ rest, end)
