-- ===== src/Tasks/Dmesg.antt =====
-- The kernel's messages: tasks/dmesg/dmesg.go, on ASCII text. The expressions of the table are
-- literal texts, one at the start of a line, one with dots and one of three alternatives.
pub mod Fresh
use monitorbeat.Base.{
  Bool, true, false, not, ◌&&◌, ◌||◌, Option, none, some, List, [], ◌∷◌, ◌++◌, ◌==◌, length, any,
  if◌then◌else◌,
}
use monitorbeat.Base.Float.{of_nat, of_int}
use monitorbeat.Base.Int.{ℤ, quot}
use monitorbeat.Base.Text.{Text, codes, text_eq}
use monitorbeat.Exceptionbeat.Strings.{split, trim_space, has_prefix, contains}
use monitorbeat.Tasks.Event.{Event, host_only}

pub data Pattern : Type 0 where
  holds starts : Text → Pattern
  dotted : Text → Pattern
  one_of : List Text → Pattern

-- The literal at the start of a text, a dot for any byte of a line.
unfoldable pub dots_prefix : Text → Text → Bool
dots_prefix [] s = true
dots_prefix (c ∷ p) [] = false
dots_prefix (c ∷ p) (d ∷ s) = (c == b'.' || c == d) && dots_prefix p s

unfoldable pub dots_contain : Text → Text → Bool
unfolding dots_prefix
dots_contain p [] = dots_prefix p []
dots_contain p (d ∷ s) = dots_prefix p (d ∷ s) || dots_contain p s

-- `MatchString` of a line.
unfoldable pub match_line : Pattern → Text → Bool
unfolding dots_contain contains has_prefix
match_line (holds p) s = contains p s
match_line (starts p) s = has_prefix p s
match_line (dotted p) s = dots_contain p s
match_line (one_of l) s = any (λ p. contains p s) l

-- `exceptionPatterns`.
abbrev pub exception_patterns : List (Text × Pattern)
exception_patterns =
    (codes "ext3_fs_error", holds (codes "EXT3-fs error"))
    ∷ (codes "disk_io_error", holds (codes "I/O error"))
    ∷ (codes "table_full_drop_pkg", holds (codes "table full, dropping packet"))
    ∷ (codes "out_of_socket_mem", holds (codes "Out of socket memory"))
    ∷ (codes "allocation_failed", holds (codes "allocation failed"))
    ∷ (codes "neighbour_table_overf", holds (codes "neighbour table overflow"))
    ∷ (codes "mce_error", starts (codes "MCE"))
    ∷ (codes "run_in_m_clock_mode", holds (codes "Running in modulated clock mode"))
    ∷ (codes "transmit_time_out", holds (codes "transmit timed out"))
    ∷ (codes "oom", one_of (codes "Out of Memory" ∷ codes "out_of_memory" ∷ codes "oom-kill" ∷ []))
    ∷ (codes "alloc_kernel_sgl", holds (codes "Failed to alloc kernel SGL buffer for IOCTL"))
    ∷ (codes "nmi_received", dotted (codes "Uhhuh. NMI received"))
    ∷ (codes "page_alloc_fail", holds (codes "page allocation failure"))
    ∷ (codes "nic_link_change", holds (codes "NIC Link is"))
    ∷ []

pub record MatchResult : Type 0 where
  pub name : Text
  pub message : Text

abbrev pub key_of : Text → Text → Text
key_of name line = name ++ (b':' ∷ line)

-- The inner loop: the first pattern that matches and whose report was not seen; none if there is
-- no such pattern.
unfoldable pub report_line : List (Text × Pattern) → List Text → Text → Option MatchResult
unfolding match_line text_eq
report_line [] seen line = none
report_line ((n, p) ∷ ps) seen line =
    let rest = report_line ps seen line in
    if match_line p line && not (any (text_eq (key_of n line)) seen)
    then some (record { name = n; message = line })
    else rest

-- The keys that are seen after a line.
unfoldable pub see : Option MatchResult → List Text → List Text
see none seen = seen
see (some r) seen = key_of r.name r.message ∷ seen

abbrev pub add_result : Option MatchResult → List MatchResult → List MatchResult
add_result none l = l
add_result (some r) l = r ∷ l

-- The loop over the lines; empty lines match no pattern's text and are skipped.
unfoldable pub report_lines : List Text → List Text → List MatchResult
unfolding report_line see trim_space
report_lines seen [] = []
report_lines seen (l ∷ ls) =
    let line = trim_space l in
    let found = if length line == 0 then none else report_line exception_patterns seen line in
    add_result found (report_lines (see found seen) ls)

-- `collect`; none is an error of the command, and no matches.
unfoldable pub collect_dmesg : Option Text → List MatchResult
unfolding report_lines split
collect_dmesg none = []
collect_dmesg (some out) = report_lines [] (split b'\n' out)

-- `Run`: the event that is sent unless the context is done.
unfoldable pub run_dmesg : Text → ℤ → Option Text → Event (List MatchResult)
unfolding collect_dmesg quot of_int
run_dmesg host elapsed out =
    let matches = collect_dmesg out in
    record {
      kind = codes "dmesg_event";
      dimensions = host_only host;
      metrics =
          (codes "total", of_nat (length matches))
          ∷ (codes "cost_ms", of_int (quot elapsed 1000000))
          ∷ [];
      extra = matches;
    }
