-- ===== src/Output/File.antt =====
-- The file output: internal/output/file.go. The handle is `none`, an open file or a closed one; the
-- line of an event is given, if it can be marshalled.
pub mod Stale
use monitorbeat.Base.{
  ℕ, ◌+◌, ◌*◌, ◌≡◌, Bool, true, false, Option, none, some, List, [], ◌∷◌, ◌++◌, length, take, leb,
  ltb, is_some, if◌then◌else◌,
}
use monitorbeat.Base.Int.{ℤ, pos, negsuc, leb_int, mul64}
use monitorbeat.Base.Text.{Text, codes, text_eq}
use monitorbeat.Output.Disk.{Disk, content, open_append, append, rename}

-- `f.f`: nil, a file that is open, or one that was closed.
pub data Handle : Type 0 where
  missing : Handle
  opened : Handle
  stale : Handle

-- `File`, with the disk.
pub record File : Type 0 where
  pub path : Text
  pub max_bytes : ℤ
  pub handle : Handle
  pub size : ℕ
  pub disk : Disk

-- What the disk does in one call: `written` is how much of a failing write reached the file.
pub record Faults : Type 0 where
  pub mkdir_fails : Bool
  pub open_fails : Bool
  pub stat_fails : Bool
  pub written : Option ℕ
  pub rename_fails : Bool
  pub reopen_fails : Bool
  pub restat_fails : Bool
  pub close_fails : Bool

-- `NewFile`.
unfoldable pub new_file : Text → Disk → File
new_file path disk = record {
  path = path;
  max_bytes = pos 104857600;
  handle = missing;
  size = 0;
  disk = disk;
}

-- `open`.
unfoldable pub open_file : Bool → Bool → File → Bool × File
open_file open_fails stat_fails f =
    if open_fails
    then (false, f)
    else (if stat_fails then (false, record f { disk = open_append f.disk }) else (
      true,
      record f { handle = opened; size = length (content (f.disk 0)); disk = open_append f.disk },
    ))

-- `max_size_mb`: an integer, or a float64 by whether it is positive and what it truncates to.
pub data Size : Type 0 where
  integer : ℤ → Size
  real : Bool → ℤ → Size

-- The entries of the configuration that `Init` reads.
unfoldable pub with_path : Option Text → File → File
with_path none f = f
with_path (some path) f = if text_eq path [] then f else record f { path = path }

unfoldable pub is_positive : ℤ → Bool
is_positive (pos n) = ltb 0 n
is_positive (negsuc n) = false

unfoldable pub with_size : Option Size → File → File
unfolding is_positive
with_size none f = f
with_size (some (integer n)) f =
    if is_positive n then record f { max_bytes = mul64 n 1048576 } else f
with_size (some (real positive n)) f =
    if positive then record f { max_bytes = mul64 n 1048576 } else f

-- `Init`.
unfoldable pub init : Faults → Option Text → Option Size → File → Bool × File
unfolding open_file with_path with_size
init faults path size f =
    let g = with_size size (with_path path f) in
    if text_eq g.path []
    then (false, g)
    else (if faults.mkdir_fails
        then (false, g)
        else open_file faults.open_fails faults.stat_fails g)

-- The handle after `Close` in `rotate`, whether or not it gives an error.
unfoldable pub closed : Handle → Handle
closed missing = missing
closed opened = stale
closed stale = stale

-- `rotate`.
unfoldable pub rotate : Faults → File → Bool × File
unfolding open_file closed
rotate faults f = open_file faults.reopen_fails faults.restat_fails (record f {
  handle = closed f.handle;
  disk =
      if faults.rename_fails
      then f.disk
      else (if is_some (f.disk 0) then rename 0 1 f.disk else f.disk);
})

-- `Publish` once the handle is not nil.
unfoldable pub write_line : Faults → Text → File → Bool × File
unfolding rotate
write_line faults line f = elim f.handle [
  | missing ↦ (false, f)
  | stale ↦ (false, f)
  | opened ↦ elim faults.written [
    | some n ↦ (false, record f { disk = append (take n line) f.disk })
    | none ↦
        let g = record f { disk = append line f.disk; size = f.size + length line } in
        (true, if leb_int g.max_bytes (pos g.size) then (rotate faults g).1 else g)
  ]
]

-- `Publish`.
unfoldable pub publish_line : Faults → Option Text → File → Bool × File
unfolding open_file write_line
publish_line faults none f = (false, f)
publish_line faults (some body) f =
    let line = body ++ codes "\n" in
    let (opens, g) = open_file faults.open_fails faults.stat_fails f in
    let written = write_line faults line g in
    let direct = write_line faults line f in
    elim f.handle [
      | missing ↦ if opens then written else (false, g)
      | opened ↦ direct
      | stale ↦ direct
    ]

-- `Close`.
unfoldable pub close_file : Faults → File → Bool × File
close_file faults f = elim f.handle [
  | missing ↦ (true, f)
  | opened ↦ (if faults.close_fails then false else true, record f { handle = missing })
  | stale ↦ (false, record f { handle = missing })
]
