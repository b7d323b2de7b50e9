-- ===== src/Input/Offsets.antt =====
-- The offset registry: internal/input/file/registry.go. The Go map is the list of its entries in
-- the order in which the runtime iterates over it; the JSON package is a parameter.
pub mod Restore
use monitorbeat.Base.{ℕ, Bool, Option, none, some, List, [], ◌∷◌, ◌++◌, if◌then◌else◌}
use monitorbeat.Base.Int.{ℤ, pos}
use monitorbeat.Base.Text.{Text, text_eq}
use monitorbeat.Input.Decimal.{decimal}

pub record OffsetEntry : Type 0 where
  pub path : Text
  pub inode : ℕ
  pub off : ℤ

-- The entries by their keys.
abbrev pub Data : Type 0
Data = List (Text × OffsetEntry)

unfoldable pub key : Text → ℕ → Text
key path inode = path ++ (b':' ∷ decimal inode)

unfoldable pub lookup : Text → Data → Option OffsetEntry
lookup k [] = none
lookup k ((j, e) ∷ l) = if text_eq j k then some e else lookup k l

-- A new key may come anywhere in the order; it comes last.
unfoldable pub put : Text → OffsetEntry → Data → Data
put k e [] = (k, e) ∷ []
put k e ((j, f) ∷ l) = if text_eq j k then (k, e) ∷ l else (j, f) ∷ put k e l

unfoldable pub get : Data → Text → ℕ → ℤ
unfolding lookup key
get known path inode = elim (lookup (key path inode) known) [ none ↦ pos 0 | some e ↦ e.off ]

unfoldable pub set : Data → Text → ℕ → ℤ → Data
unfolding put key
set known path inode off =
    put (key path inode) (record { path = path; inode = inode; off = off }) known

unfoldable pub entries : Data → List OffsetEntry
entries [] = []
entries ((k, e) ∷ l) = e ∷ entries l

-- What `load` does with the decoded entries.
unfoldable pub put_entries : List OffsetEntry → Data → Data
unfolding put key
put_entries [] known = known
put_entries (e ∷ l) known = put_entries l (put (key e.path e.inode) e known)

-- The file of the registry and its temporary file, and the system's answers to the calls.
pub record Files : Type 0 where
  pub saved : Option Text
  pub temporary : Option Text

pub data IoError : Type 0 where
  mkdir_failed : IoError
  not_exist : IoError
  read_failed : IoError
  unmarshal_failed : IoError
  marshal_failed : IoError
  write_failed : IoError
  rename_failed : IoError

pub data Result {ℓ} (A : Type ℓ) : Type ℓ where
  ok : A → Result A
  err : IoError → Result A

-- A failing `os.WriteFile` may have written `partial`, or nothing at all.
pub record Faults : Type 0 where
  pub mkdir : Bool
  pub read : Bool
  pub write : Option (Option Text)
  pub rename : Bool

module _ (marshal : List OffsetEntry → Option Text)
    (unmarshal : Text → Option (List OffsetEntry)) where
  unfoldable pub write_temporary : Faults → Text → Files → Option IoError × Files
  write_temporary faults b files = elim faults.write [
    | some partial ↦ (some write_failed, record files { temporary = partial })
    | none ↦
        if faults.rename
        then (some rename_failed, record files { temporary = some b })
        else (none, record { saved = some b; temporary = none })
  ]

  -- `Save`: the file is written beside its place and renamed.
  unfoldable pub save : Faults → Data → Files → Option IoError × Files
  unfolding write_temporary entries
  save faults known files = elim (marshal (entries known)) [
    | none ↦ (some marshal_failed, files)
    | some b ↦ write_temporary faults b files
  ]

  unfoldable pub load : Faults → Files → Data → Result Data
  unfolding put_entries
  load faults files known = elim files.saved [
    | none ↦ err not_exist
    | some b ↦ if faults.read then err read_failed else (elim (unmarshal b) [
      | none ↦ err unmarshal_failed
      | some l ↦ ok (put_entries l known)
    ])
  ]

  -- `NewOffsetRegistry`: a file that does not exist is an empty registry.
  unfoldable pub new_offset_registry : Faults → Files → Result Data
  unfolding load
  new_offset_registry faults files =
      if faults.mkdir then err mkdir_failed else (elim (load faults files []) [
        | ok known ↦ ok known
        | err not_exist ↦ ok []
        | err e ↦ err e
      ])
