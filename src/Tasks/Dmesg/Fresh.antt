-- ===== src/Tasks/Dmesg/Fresh.antt =====
-- That `collect` of tasks/dmesg/dmesg.go reports nothing twice.
use monitorbeat.Base.{
  ◌≡◌, Bool, true, false, not, ◌&&◌, Option, none, some, List, [], ◌∷◌, ◌==◌, any, length,
  if◌then◌else◌, Bool-cases, inl, inr,
}
use monitorbeat.Base.Text.{Text, text_eq}
use monitorbeat.Exceptionbeat.Strings.{split, trim_space}
use monitorbeat.Tasks.Dmesg.{
  Pattern, MatchResult, key_of, match_line, report_line, see, add_result, report_lines,
  exception_patterns, collect_dmesg,
}

abbrev key : MatchResult → Text
key r = key_of r.name r.message

-- What a line adds was not seen.
abbrev IsUnseen : List Text → Option MatchResult → Type 0
IsUnseen seen none = Unit
IsUnseen seen (some r) = any (text_eq (key r)) seen ≡ false

-- No result was seen before, among the given keys or those of the results before it.
abbrev IsFresh : List Text → List MatchResult → Type 0
IsFresh seen [] = Unit
IsFresh seen (r ∷ l) = (any (text_eq (key r)) seen ≡ false) × IsFresh (key r ∷ seen) l

keep_or_rest :
    (seen : List Text) (matches : Bool) (r : MatchResult) (o : Option MatchResult)
    → IsUnseen seen o
    → IsUnseen seen (if matches && not (any (text_eq (key r)) seen) then some r else o)
keep_or_rest seen false r o h = h
keep_or_rest seen true r o h = elim (Bool-cases (any (text_eq (key r)) seen)) [
  | inl e ↦ rw e h
  | inr e ↦ rw e e
]

report_line-IsUnseen :
    (ps : List (Text × Pattern)) (seen : List Text) (line : Text)
    → IsUnseen seen (report_line ps seen line)
unfolding report_line
report_line-IsUnseen [] seen line = tt
report_line-IsUnseen ((n, p) ∷ ps) seen line =
    keep_or_rest seen (match_line p line) (record { name = n; message = line })
      (report_line ps seen line) (report_line-IsUnseen ps seen line)

add_result-IsFresh :
    (seen : List Text) (o : Option MatchResult) (l : List MatchResult)
    → IsUnseen seen o
    → IsFresh (see o seen) l
    → IsFresh seen (add_result o l)
unfolding see
add_result-IsFresh seen none l h k = k
add_result-IsFresh seen (some r) l h k = (h, k)

unless_empty :
    (empty : Bool) (seen : List Text) (o : Option MatchResult)
    → IsUnseen seen o
    → IsUnseen seen (if empty then none else o)
unless_empty true seen o h = tt
unless_empty false seen o h = h

report_lines-IsFresh : (seen : List Text) (l : List Text) → IsFresh seen (report_lines seen l)
unfolding report_lines
report_lines-IsFresh seen [] = tt
report_lines-IsFresh seen (x ∷ l) =
    let line : Text = trim_space x in
    let found : Option MatchResult =
      if length line == 0 then none else report_line exception_patterns seen line in
    add_result-IsFresh seen found (report_lines (see found seen) l)
      (unless_empty (length line == 0) seen (report_line exception_patterns seen line)
        (report_line-IsUnseen exception_patterns seen line))
      (report_lines-IsFresh (see found seen) l)

-- No two results of a run have the same name and message.
collect_dmesg-IsFresh : (out : Option Text) → IsFresh [] (collect_dmesg out)
unfolding collect_dmesg
collect_dmesg-IsFresh none = tt
collect_dmesg-IsFresh (some out) = report_lines-IsFresh [] (split b'\n' out)
