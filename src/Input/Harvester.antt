-- ===== src/Input/Harvester.antt =====
-- The tail of one file without an encoding: internal/input/file/harvester.go. `bufio.Reader` is a
-- buffer over the chunks that successive reads of the file give before its end. The registry of
-- offsets is that of Input.Offsets.
pub mod Watch
pub mod Pieces
pub mod Lines
pub mod Restart
use monitorbeat.Base.{
  ℕ, zero, suc, ◌+◌, ◌-◌, Bool, true, false, not, ◌||◌, ◌==◌, Option, none, some, List, [], ◌∷◌,
  ◌++◌, length, ltb, drop, is_some, if◌then◌else◌,
}
use monitorbeat.Base.Int.{ℤ, pos, negsuc, lt_int}
use monitorbeat.Base.Text.{Text}
use monitorbeat.Input.Offsets.{Data, set}

-- The reader's buffer, the chunks that the file still gives before its end, the position of the
-- file, `offset`, and what was sent to `lineCh`, in order.
pub record Harvester : Type 0 where
  pub buffer : Text
  pub chunks : List Text
  pub position : ℕ
  pub offset : ℕ
  pub lines : List Text

-- The bytes before the first newline, and those after it.
unfoldable pub cut : Text → Option (Text × Text)
cut [] = none
cut (c ∷ s) =
    if c == b'\n'
    then some ([], s)
    else (elim (cut s) [ none ↦ none | some (l, r) ↦ some (c ∷ l, r) ])

-- What `ReadString('\n')` gives: the line, whether it ends in a newline (else the file ended), and
-- the harvester after it.
pub record Read : Type 0 where
  pub line : Text
  pub complete : Bool
  pub buffer : Text
  pub chunks : List Text
  pub position : ℕ

-- `ReadString('\n')`: the buffer is filled by reads until it holds a newline or the file ends.
unfoldable pub read_string : Text → List Text → ℕ → Read
read_string buffer [] position = elim (cut buffer) [
  | some (l, r) ↦ record { line = l; complete = true; buffer = r; chunks = []; position = position }
  | none ↦ record { line = buffer; complete = false; buffer = []; chunks = []; position = position }
]
read_string buffer (c ∷ cs) position = elim (cut buffer) [
  | some (l, r) ↦ record {
    line = l;
    complete = true;
    buffer = r;
    chunks = c ∷ cs;
    position = position;
  }
  | none ↦ read_string (buffer ++ c) cs (position + length c)
]

-- A line is sent if `ReadString` gave any byte, and the offset is then that of the file.
unfoldable pub send : Read → Harvester → Harvester
send r h = record {
  buffer = r.buffer;
  chunks = r.chunks;
  position = r.position;
  offset = if r.complete || ltb 0 (length r.line) then r.position else h.offset;
  lines = if r.complete || ltb 0 (length r.line) then h.lines ++ r.line ∷ [] else h.lines;
}

-- `readOne`: whether it gives no error, that is, did not meet the end of the file.
unfoldable pub read_one : Harvester → Bool × Harvester
unfolding read_string send
read_one h = let r = read_string h.buffer h.chunks h.position in (r.complete, send r h)

-- `loop` up to the end of the file; `none` if the fuel runs out.
unfoldable pub drain : ℕ → Harvester → Option Harvester
unfolding read_one
drain zero h = none
drain (suc fuel) h =
    let (more, after) = read_one h in
    let rest = drain fuel after in if more then rest else some after

-- `waitMore` when the file has grown: a new reader at the position of the file.
unfoldable pub wait_more : List Text → Harvester → Harvester
wait_more chunks h = record h { buffer = []; chunks = chunks }

-- The number of bytes that are left before the end of the file.
abbrev pub available : List Text → ℕ
available [] = 0
available (c ∷ cs) = length c + available cs

-- `loop` over a file that grows from one end of the file to the next.
unfoldable pub follow : List (List Text) → Harvester → Option Harvester
unfolding drain wait_more
follow [] h = some h
follow (chunks ∷ l) h = elim (drain (suc (available chunks)) (wait_more chunks h)) [
  | none ↦ none
  | some after ↦ follow l after
]

-- Where `New` starts: `saved` is what the registry gives, if there is one, and `size` that of the
-- file. Seeking a regular file does not fail.
unfoldable pub start_offset : Bool → Option ℤ → ℕ → ℕ
start_offset true saved size = 0
start_offset false none size = size
start_offset false (some (pos zero)) size = size
start_offset false (some (pos (suc n))) size = suc n
start_offset false (some (negsuc n)) size = size

-- `New` on a file whose content is given: what is behind the start comes by the chunks.
unfoldable pub new_harvester : ℕ → List Text → Harvester
new_harvester start chunks = record {
  buffer = [];
  chunks = chunks;
  position = start;
  offset = start;
  lines = [];
}

-- The save of the offset by `Close`. Closing `done` does not end the loop at once: its goroutine
-- goes on with the lines in the buffer, without a further save of the offset here.
unfoldable pub close_harvester : Text → ℕ → Harvester → Data → Data
close_harvester path inode h known = set known path inode (pos h.offset)

-- `maybeSaveOffset`, with the instant of the last save, in nanoseconds of the monotonic clock.
unfoldable pub maybe_save_offset : ℕ → Text → ℕ → Harvester → Data × ℕ → Data × ℕ
maybe_save_offset now path inode h (known, last_save) =
    if ltb (now - last_save) 5000000000
    then (known, last_save)
    else (set known path inode (pos h.offset), now)
