-- ===== src/Input/Harvester/Restart.antt =====
-- The offset that a harvester saves, against the lines that it has sent.
use monitorbeat.Base.{
  ℕ, zero, suc, ◌+◌, ◌<◌, ◌≡◌, true, Option, none, some, List, [], ◌∷◌, ◌++◌, length, if◌then◌else◌,
}
use monitorbeat.Base.Text.{Text}
use monitorbeat.Input.Harvester.{Harvester, Read, available, read_one}
use monitorbeat.Input.Harvester.Pieces.{join}

-- Some successive `readOne`; `none` where one of them meets the end of the file.
unfoldable pub read_times : ℕ → Harvester → Option Harvester
unfolding read_one
read_times zero h = some h
read_times (suc k) h =
    let (more, after) = read_one h in let rest = read_times k after in if more then rest else none

-- The bytes of some lines in the file.
abbrev pub unlines : List Text → Text
unlines [] = []
unlines (l ∷ ls) = l ++ b'\n' ∷ unlines ls

-- `bytes` are the lines that were sent, those in the buffer, and those the file still gives.
record Kept (start : ℕ) (bytes : Text) (h : Harvester) : Type 0 where
  content : unlines h.lines ++ (h.buffer ++ join h.chunks) ≡ bytes
  place : h.position + available h.chunks ≡ start + length bytes

abbrev IsCutOf : Text → Option (Text × Text) → Type 0
IsCutOf s none = Unit
IsCutOf s (some (l, r)) = l ++ b'\n' ∷ r ≡ s

-- A line that `ReadString` gives, its newline and what is left are the text that was to come.
abbrev IsPieceOf : Text → Read → Type 0
IsPieceOf text r = r.complete ≡ true → r.line ++ b'\n' ∷ (r.buffer ++ join r.chunks) ≡ text

-- As after a call that has sent a line.
record Sent (start : ℕ) (bytes : Text) (h : Harvester) : Type 0 where
  kept : Kept start bytes h
  tracked : h.offset ≡ h.position
  some_line : 0 < length (unlines h.lines)
