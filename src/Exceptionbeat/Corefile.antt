-- ===== src/Exceptionbeat/Corefile.antt =====
-- Core files: `collectCorefile` and `resolveCoreDir`. An instant is in
-- nanoseconds since the Unix epoch.
pub mod Fresh
use monitorbeat.Base.{
  ℕ, ◌/◌, Bool, true, false, not, ◌||◌, ◌==◌, Option, none, some, List, [], ◌∷◌, ◌++◌, ltb,
  if◌then◌else◌,
}
use monitorbeat.Base.Int.{ℤ}
use monitorbeat.Base.Text.{Text, codes, text_eq}
use monitorbeat.Exceptionbeat.Strings.{trim_space}

-- What `Info` gives of an entry.
pub record Info : Type 0 where
  pub size : ℤ
  pub mod_time : ℕ

pub record DirEntry : Type 0 where
  pub name : Text
  pub is_dir : Bool
  pub info : Option Info

-- An item of the event; `mod_time` is given in seconds there.
pub record CoreFile : Type 0 where
  pub file_path : Text
  pub file_name : Text
  pub file_size : ℤ
  pub mod_time : ℕ

-- `lastCoreFiles` and `lastCoreCheck`, which is zero before the first run.
pub record CoreState : Type 0 where
  pub files : List Text
  pub check : Option ℕ

-- `filepath.Join` of a clean directory and the name of an entry in it.
unfoldable pub join_path : Text → Text → Text
join_path dir name = if text_eq dir (codes "/") then dir ++ name else dir ++ (b'/' ∷ name)

-- What the loop reports of an entry, `last` being the instant of the last check.
unfoldable pub report_entry : Text → Option ℕ → DirEntry → List CoreFile
unfolding join_path
report_entry dir last e = if e.is_dir then [] else (elim e.info [
  | none ↦ []
  | some i ↦ elim last [
    | none ↦ []
    | some t ↦
        if ltb i.mod_time t
        then []
        else record {
          file_path = join_path dir e.name;
          file_name = e.name;
          file_size = i.size;
          mod_time = i.mod_time / 1000000000;
        }
          ∷ []
  ]
])

-- The path that the loop keeps of an entry.
unfoldable pub seen_path : Text → DirEntry → List Text
unfolding join_path
seen_path dir e =
    if e.is_dir then [] else (elim e.info [ none ↦ [] | some i ↦ join_path dir e.name ∷ [] ])

unfoldable pub report_entries : Text → Option ℕ → List DirEntry → List CoreFile × List Text
unfolding report_entry seen_path
report_entries dir last [] = ([], [])
report_entries dir last (e ∷ l) =
    let (files, paths) = report_entries dir last l in
    (report_entry dir last e ++ files, seen_path dir e ++ paths)

unfoldable pub known_dir : Text → Option Text
known_dir dir = if text_eq dir [] || text_eq dir (codes ".") then none else some dir

-- The directory of a pattern that the kernel gives: a pattern `|...` is a pipe.
unfoldable pub pattern_dir : (Text → Text) → Text → Option Text
unfolding known_dir
pattern_dir dir_of [] = none
pattern_dir dir_of (c ∷ s) = if c == b'|' then none else known_dir (dir_of (c ∷ s))

-- `resolveCoreDir`: `pattern` is the configured one, and `kernel` what is read of
-- `/proc/sys/kernel/core_pattern`. `dir_of` is `filepath.Dir`.
unfoldable pub resolve_core_dir : (Text → Text) → Text → Option Text → Option Text
unfolding known_dir trim_space pattern_dir
resolve_core_dir dir_of pattern kernel =
    let from_kernel = elim kernel as (λ k. Option Text) [
      | none ↦ none
      | some text ↦ pattern_dir dir_of (trim_space text)
    ] in
    elim pattern [
      | [] ↦ from_kernel
      | c ∷ s ↦ elim (known_dir (dir_of (c ∷ s))) [ some dir ↦ some dir | none ↦ from_kernel ]
    ]

-- `collectCorefile` at the instant `now`: `read_dir` is what `os.ReadDir` gives.
unfoldable pub collect_corefile :
    ℕ → Option Text → (Text → Option (List DirEntry)) → CoreState → List CoreFile × CoreState
unfolding report_entries
collect_corefile now dir read_dir s = elim dir [
  | none ↦ ([], s)
  | some d ↦ elim (read_dir d) [
    | none ↦ ([], s)
    | some l ↦
        let (files, paths) = report_entries d s.check l in
        (files, record { files = paths; check = some now })
  ]
]
