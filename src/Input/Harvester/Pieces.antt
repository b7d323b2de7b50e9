-- ===== src/Input/Harvester/Pieces.antt =====
-- The lines of a text, and what one call of `ReadString` leaves of them: internal/input/file/harvester.go.
use mathlib.Core.List.{append-nil, append_assoc}
use native.Mathlib.Nat.{add_assoc}
use monitorbeat.Base.{
  ℕ, ◌+◌, ◌<◌, ◌≡◌, refl, sym, ap, subst, ◌∙◌, true, false, ◌==◌, Option, none, some, List, [], ◌∷◌,
  ◌++◌, arith, length, length-append, if◌then◌else◌, Bool-cases, inl, inr,
}
use monitorbeat.Base.Text.{Text}
use monitorbeat.Input.Harvester.{Read, cut, read_string, available}

-- A last piece that no newline ends is a line if it has a byte.
abbrev pub last_line : Text → List Text
last_line [] = []
last_line (c ∷ s) = (c ∷ s) ∷ []

-- The lines of a text, after some bytes of the first.
abbrev pub lines_from : Text → Text → List Text
lines_from acc [] = last_line acc
lines_from acc (c ∷ s) = if c == b'\n' then acc ∷ lines_from [] s else lines_from (acc ++ c ∷ []) s

abbrev pub lines_of : Text → List Text
lines_of = lines_from []

abbrev pub join : List Text → Text
join [] = []
join (c ∷ cs) = c ++ join cs

abbrev IsCut : Text → Option (Text × Text) → Type 0
IsCut s none = (acc rest : Text) → lines_from acc (s ++ rest) ≡ lines_from (acc ++ s) rest
IsCut s (some (l, r)) =
    ((acc rest : Text) → lines_from acc (s ++ rest) ≡ (acc ++ l) ∷ lines_from [] (r ++ rest))
    × (length r < length s)

IsCut-rest :
    (c : ℕ) (s : Text)
    → (c == b'\n') ≡ false
    → (o : Option (Text × Text)) → IsCut s o
    → IsCut (c ∷ s) (elim o [ none ↦ none | some (l, r) ↦ some (c ∷ l, r) ])
IsCut-rest c s e none k = λ acc rest.
    rw e (k (acc ++ c ∷ []) rest ∙ ap (λ a. lines_from a rest) (append_assoc acc (c ∷ []) s))
IsCut-rest c s e (some (l, r)) k = (
  λ acc rest. rw e (
      k.0 (acc ++ c ∷ []) rest
      ∙ ap (λ a. a ∷ lines_from [] (r ++ rest)) (append_assoc acc (c ∷ []) l)),
  omega (arith, k.1),
)

cut-IsCut : (s : Text) → IsCut s (cut s)
unfolding cut
cut-IsCut [] = λ acc rest. ap (λ a. lines_from a rest) (sym (append-nil acc))
cut-IsCut (c ∷ s) = elim (Bool-cases (c == b'\n')) [
  | inl e ↦ rw e (
    λ acc rest. rw e (ap (λ a. a ∷ lines_from [] (s ++ rest)) (sym (append-nil acc))),
    omega arith,
  )
  | inr e ↦ rw e (IsCut-rest c s e (cut s) (cut-IsCut s))
]

-- What a call of `ReadString` leaves of the text that was to come.
pub record IsRead (text : Text) (position : ℕ) (r : Read) : Type 0 where
  pub lines_eq :
      lines_of text
      ≡ (if r.complete then r.line ∷ lines_of (r.buffer ++ join r.chunks) else last_line r.line)
  pub ended : r.complete ≡ false → (r.buffer ++ join r.chunks) ≡ []
  pub place : r.position + available r.chunks ≡ position
  pub shorter : r.complete ≡ true → length (r.buffer ++ join r.chunks) < length text

complete-IsRead :
    (buffer l r : Text) (chunks : List Text) (position : ℕ)
    → IsCut buffer (some (l, r))
    → IsRead
        (buffer ++ join chunks)
        (position + available chunks)
        (record { line = l; complete = true; buffer = r; chunks = chunks; position = position })
complete-IsRead buffer l r chunks position k = record {
  lines_eq = k.0 [] (join chunks);
  ended = λ e. cc e;
  place = refl;
  shorter =
      λ e. omega (arith, k.1, length-append buffer (join chunks), length-append r (join chunks));
}

ended-IsRead :
    (buffer : Text) (position : ℕ)
    → IsCut buffer none
    → IsRead
        (buffer ++ [])
        (position + 0)
        (record { line = buffer; complete = false; buffer = []; chunks = []; position = position })
ended-IsRead buffer position k = record {
  lines_eq = k [] [];
  ended = λ e. refl;
  place = refl;
  shorter = λ e. cc e;
}

pub read_string-IsRead :
    (buffer : Text) (chunks : List Text) (position : ℕ)
    → IsRead
        (buffer ++ join chunks)
        (position + available chunks)
        (read_string buffer chunks position)
unfolding read_string
read_string-IsRead buffer [] position =
    elim (cut buffer)
        as (λ o.
          IsCut buffer o
          → IsRead (buffer ++ []) (position + 0) (elim o [
            | some (l, r) ↦ record {
              line = l;
              complete = true;
              buffer = r;
              chunks = [];
              position = position;
            }
            | none ↦ record {
              line = buffer;
              complete = false;
              buffer = [];
              chunks = [];
              position = position;
            }
          ])) [
            | none ↦ ended-IsRead buffer position
            | some (l, r) ↦ complete-IsRead buffer l r [] position
          ]
      (cut-IsCut buffer)
read_string-IsRead buffer (c ∷ cs) position =
    let later = read_string-IsRead (buffer ++ c) cs (position + length c) in
    let same =
      subst
        (λ t.
          IsRead t (position + length c + available cs)
            (read_string (buffer ++ c) cs (position + length c)))
        (append_assoc buffer c (join cs)) later in
    elim (cut buffer)
        as (λ o.
          IsCut buffer o
          → IsRead (buffer ++ (c ++ join cs)) (position + (length c + available cs)) (elim o [
            | some (l, r) ↦ record {
              line = l;
              complete = true;
              buffer = r;
              chunks = c ∷ cs;
              position = position;
            }
            | none ↦ read_string (buffer ++ c) cs (position + length c)
          ])) [
            | none ↦ λ k.
                subst
                  (λ n.
                    IsRead (buffer ++ (c ++ join cs)) n
                      (read_string (buffer ++ c) cs (position + length c)))
                  (add_assoc position (length c) (available cs)) same
            | some (l, r) ↦ complete-IsRead buffer l r (c ∷ cs) position
          ]
      (cut-IsCut buffer)
