-- ===== src/Input/Tests.antt =====
-- The tail of files and the registry of offsets at concrete inputs.
use monitorbeat.Base.{ℕ, ◌≡◌, refl, true, false, Option, none, some, List, [], ◌∷◌, ◌≢◌}
use monitorbeat.Base.Int.{ℤ, pos, negsuc}
use monitorbeat.Base.Text.{Text, codes, text_eq}
use monitorbeat.Input.Harvester.{Harvester, follow, new_harvester, start_offset}
use monitorbeat.Input.Harvester.Lines.{follow_lem}
use monitorbeat.Input.Decimal.{decimal}
use monitorbeat.Input.Offsets.{
  OffsetEntry, Data, Files, ok, get, set, entries, save, new_offset_registry, Faults,
}
use monitorbeat.Input.Offsets.Restore.{quiet, last_offset, set_all, restore_lem, save_lem}

-- A line that is written in two pieces, and a line in two chunks.
abbrev turns : List (List Text)
turns = (codes "one\ntw" ∷ []) ∷ (codes "o\nth" ∷ codes "ree\n" ∷ []) ∷ []

abbrev fresh : Harvester
fresh = new_harvester 10 []

follow_lem_example :
    (after : Harvester) × (follow turns fresh ≡ some after)
    × (after.lines ≡ codes "one" ∷ codes "tw" ∷ codes "o" ∷ codes "three" ∷ [])
    × (after.position ≡ 24)
unfolding new_harvester
follow_lem_example = follow_lem turns fresh

-- One line of two is sent from the chunk that holds both.
abbrev half_sent : Harvester
half_sent = record {
  buffer = codes "b\n";
  chunks = [];
  position = 11;
  offset = 11;
  lines = codes "a" ∷ [];
}

-- Entries whose paths have one byte and whose offsets are not negative, as three numbers each.
abbrev first_byte : Text → ℕ
first_byte [] = 0
first_byte (c ∷ s) = c

abbrev magnitude : ℤ → ℕ
magnitude (pos n) = n
magnitude (negsuc n) = n

abbrev encode : List OffsetEntry → Text
encode [] = []
encode (e ∷ l) = first_byte e.path ∷ e.inode ∷ magnitude e.off ∷ encode l

abbrev marshal : List OffsetEntry → Option Text
marshal l = some (encode l)

abbrev decode : Text → List OffsetEntry
decode (c ∷ i ∷ o ∷ s) = record { path = c ∷ []; inode = i; off = pos o } ∷ decode s
decode s = []

abbrev unmarshal : Text → Option (List OffsetEntry)
unmarshal b = some (decode b)

abbrev at : Text → ℕ → ℕ → OffsetEntry
at path inode off = record { path = path; inode = inode; off = pos off }

abbrev calls : List OffsetEntry
calls = at (codes "a") 1 5 ∷ at (codes "b") 1 6 ∷ at (codes "a") 1 9 ∷ []

abbrev no_files : Files
no_files = record { saved = none; temporary = none }

restore_lem_example :
    let known = set_all calls [] in
    let (error, after) = save marshal unmarshal quiet known no_files in
    (error ≡ none)
    × (restored : Data) × (new_offset_registry marshal unmarshal quiet after ≡ ok restored)
    × ((p : Text) (i : ℕ) → get restored p i ≡ last_offset p i (pos 0) calls)
unfolding set_all entries set text_eq decimal
restore_lem_example =
    restore_lem marshal unmarshal calls no_files (encode (entries (set_all calls []))) refl refl

abbrev no_rename : Faults
no_rename = record quiet { rename = true }

save_lem_example :
    let (error, after) = save marshal unmarshal no_rename (set_all calls []) no_files in
    (error ≡ none → after.saved ≡ marshal (entries (set_all calls [])))
    × (error ≢ none → after.saved ≡ none)
save_lem_example = save_lem marshal unmarshal no_rename (set_all calls []) no_files

test_tail : start_offset false (some (pos 0)) 11 ≡ 11
unfolding start_offset
test_tail = refl

test_digits : decimal 1024 ≡ codes "1024"
unfolding decimal
test_digits = refl
