-- ===== src/Exceptionbeat/Corefile/Fresh.antt =====
-- The core files that a run reports, after any runs that could not read the directory.
use monitorbeat.Base.{
  ℕ, ◌≡◌, refl, ap, ap₂, ◌∙◌, Bool, false, not, ◌&&◌, Option, none, some, List, [], ◌∷◌, ◌++◌, ltb,
  map, filter, All, arith, if◌then◌else◌, Option-cases, inl, inr,
}
use monitorbeat.Base.Text.{Text}
use monitorbeat.Exceptionbeat.Corefile.{
  DirEntry, CoreFile, CoreState, report_entry, report_entries, collect_corefile,
}

pub record Run : Type 0 where
  pub now : ℕ
  pub dir : Option Text
  pub read_dir : Text → Option (List DirEntry)

-- What the directory holds for a run, if it is known and can be read.
unfoldable pub listing : Run → Option (List DirEntry)
listing r = elim r.dir [ none ↦ none | some d ↦ r.read_dir d ]

unfoldable pub run : Run → CoreState → List CoreFile × CoreState
run r s = collect_corefile r.now r.dir r.read_dir s

-- The state after several runs.
unfoldable pub run_all : List Run → CoreState → CoreState
unfolding run
run_all [] s = s
run_all (r ∷ l) s = run_all l (run r s).1

-- A file that was changed at the instant or later.
unfoldable pub is_fresh : ℕ → DirEntry → Bool
is_fresh t e = not e.is_dir && (elim e.info [ none ↦ false | some i ↦ not (ltb i.mod_time t) ])

abbrev pub file_names : List CoreFile → List Text
file_names = map (λ (f : CoreFile). f.file_name)

abbrev pub entry_names : List DirEntry → List Text
entry_names = map (λ (e : DirEntry). e.name)

file_names-append : (k l : List CoreFile) → file_names (k ++ l) ≡ file_names k ++ file_names l
file_names-append [] l = refl
file_names-append (f ∷ k) l = ap (λ m. f.file_name ∷ m) (file_names-append k l)

report_entry-fresh :
    (dir : Text) (t : ℕ) (e : DirEntry)
    → file_names (report_entry dir (some t) e) ≡ (if is_fresh t e then e.name ∷ [] else [])
unfolding report_entry is_fresh
report_entry-fresh dir t e = elim (Option-cases e.info) [
  | inl n ↦ ground (arith, n)
  | inr (i, n) ↦ ground (arith, n)
]

shown :
    (t : ℕ) (e : DirEntry) (l : List DirEntry)
    → (if is_fresh t e then e.name ∷ [] else []) ++ entry_names (filter (is_fresh t) l)
      ≡ entry_names (filter (is_fresh t) (e ∷ l))
shown t e l = ground arith

report_entries-fresh :
    (dir : Text) (t : ℕ) (l : List DirEntry)
    → file_names (report_entries dir (some t) l).0 ≡ entry_names (filter (is_fresh t) l)
unfolding report_entries
report_entries-fresh dir t [] = refl
report_entries-fresh dir t (e ∷ l) =
    file_names-append (report_entry dir (some t) e) (report_entries dir (some t) l).0
    ∙ ap₂ ◌++◌ (report_entry-fresh dir t e) (report_entries-fresh dir t l)
    ∙ shown t e l

run-listing :
    (r : Run) (s : CoreState) (t : ℕ) (l : List DirEntry)
    → listing r ≡ some l
    → s.check ≡ some t
    → file_names (run r s).0 ≡ entry_names (filter (is_fresh t) l)
unfolding listing run collect_corefile
run-listing r s t l h c = elim (Option-cases r.dir) [
  | inl e ↦ ground (arith, h, e)
  | inr (d, e) ↦ ground (arith, h, e, c, report_entries-fresh d t l)
]

failing_run : (r : Run) (s : CoreState) → listing r ≡ none → run r s ≡ ([], s)
unfolding listing run collect_corefile
failing_run r s h = elim (Option-cases r.dir) [
  | inl e ↦ ground (arith, h, e)
  | inr (d, e) ↦ ground (arith, h, e)
]

failing_runs : (l : List Run) (s : CoreState) → All (λ r. listing r ≡ none) l → run_all l s ≡ s
unfolding run_all
failing_runs [] s h = refl
failing_runs (r ∷ l) s (e, h) = ap (λ o. run_all l o.1) (failing_run r s e) ∙ failing_runs l s h

run_check :
    (r : Run) (s : CoreState) (l : List DirEntry)
    → listing r ≡ some l
    → (run r s).1.check ≡ some r.now
unfolding listing run collect_corefile
run_check r s l h = elim (Option-cases r.dir) [
  | inl e ↦ ground (arith, h, e)
  | inr (d, e) ↦ ground (arith, h, e)
]

-- After a run that read the directory, and then any runs that could not: a run that reads it
-- reports, in its order, exactly the files in it that were changed since the clock reading of the
-- first run.
pub run_lem :
    (first last : Run) (between : List Run) (s : CoreState) (l m : List DirEntry)
    → listing first ≡ some l
    → All (λ r. listing r ≡ none) between
    → listing last ≡ some m
    → let reported = (run last (run_all (first ∷ between) s)).0 in
      file_names reported ≡ entry_names (filter (is_fresh first.now) m)
unfolding run_all
run_lem first last between s l m f b h =
    let s1 = (run first s).1 in
    run-listing last (run_all between s1) first.now m h
      (ap (λ x. x.check) (failing_runs between s1 b) ∙ run_check first s l f)
