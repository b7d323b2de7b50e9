-- ===== src/Output/Disk.antt =====
-- The files of an output: 0 is the file at the configured path, `suc i` its backup `<path>.<i + 1>`.
use monitorbeat.Base.{ℕ, Option, none, some, ◌==◌, ◌++◌, if◌then◌else◌, []}
use monitorbeat.Base.Text.{Text}

abbrev pub Disk : Type 0
Disk = ℕ → Option Text

abbrev pub content : Option Text → Text
content none = []
content (some t) = t

-- `os.OpenFile` with `O_CREATE` and `O_APPEND`.
unfoldable pub open_append : Disk → Disk
open_append d i = if i == 0 then some (content (d 0)) else d i

-- A write at the end of the file.
unfoldable pub append : Text → Disk → Disk
append t d i = if i == 0 then some (content (d 0) ++ t) else d i

-- `os.Rename` of a file that exists.
unfoldable pub rename : ℕ → ℕ → Disk → Disk
rename src dst d i = if i == dst then d src else if i == src then none else d i
