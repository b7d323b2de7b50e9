-- ===== src/Input/Harvester/Lines.antt =====
-- The lines that a harvester sends, against the content of the file.
use mathlib.Core.List.{append-nil, append_assoc}
use monitorbeat.Base.{
  ℕ, zero, suc, ◌+◌, ◌<◌, ◌≡◌, refl, sym, ap, ◌∙◌, Bool, true, false, ◌||◌, Option, none, some,
  List, [], ◌∷◌, ◌++◌, arith, length, length-append, ltb, if◌then◌else◌, Bool-cases, inl, inr,
}
use monitorbeat.Base.Text.{Text}
use monitorbeat.Input.Harvester.{
  Harvester, Read, read_string, send, read_one, drain, wait_more, available, follow,
}
use monitorbeat.Input.Harvester.Pieces.{last_line, lines_of, join, IsRead, read_string-IsRead}

-- At the end of the file all lines have been sent.
pub record Drained (after : Harvester) (lines : List Text) (end : ℕ) : Type 0 where
  pub lines_eq : after.lines ≡ lines
  pub nothing_left : after.buffer ++ join after.chunks ≡ []
  pub end_eq : after.position + available after.chunks ≡ end

sent_lines :
    (complete : Bool) (line : Text) (lines : List Text)
    → (if complete || ltb 0 (length line) then lines ++ line ∷ [] else lines)
      ≡ lines ++ (if complete then line ∷ [] else last_line line)
sent_lines true line lines = refl
sent_lines false [] lines = sym (append-nil lines)
sent_lines false (c ∷ s) lines = ground arith

pub send-lines :
    (r : Read) (h : Harvester)
    → (send r h).lines ≡ h.lines ++ (if r.complete then r.line ∷ [] else last_line r.line)
unfolding send
send-lines r h = sent_lines r.complete r.line h.lines

Drained-step :
    (after h : Harvester) (r : Read)
    → IsRead (h.buffer ++ join h.chunks) (h.position + available h.chunks) r
    → r.complete ≡ true
    → Drained after
        ((send r h).lines ++ lines_of (r.buffer ++ join r.chunks))
        (r.position + available r.chunks)
    → Drained after
        (h.lines ++ lines_of (h.buffer ++ join h.chunks))
        (h.position + available h.chunks)
Drained-step after h r read c d =
    let branch =
      λ (b : Bool). if b then r.line ∷ lines_of (r.buffer ++ join r.chunks) else last_line r.line in
    let sent =
      send-lines r h
      ∙ ap (λ (b : Bool). h.lines ++ (if b then r.line ∷ [] else last_line r.line)) c in
    record {
      lines_eq =
          d.lines_eq
          ∙ ap (λ l. l ++ lines_of (r.buffer ++ join r.chunks)) sent
          ∙ append_assoc h.lines (r.line ∷ []) (lines_of (r.buffer ++ join r.chunks))
          ∙ ap (λ l. h.lines ++ l) (sym (read.lines_eq ∙ ap branch c));
      nothing_left = d.nothing_left;
      end_eq = d.end_eq ∙ read.place;
    }

Drained-end :
    (h : Harvester) (r : Read)
    → IsRead (h.buffer ++ join h.chunks) (h.position + available h.chunks) r
    → r.complete ≡ false
    → Drained
        (send r h)
        (h.lines ++ lines_of (h.buffer ++ join h.chunks))
        (h.position + available h.chunks)
unfolding send
Drained-end h r read e =
    let branch =
      λ (b : Bool). if b then r.line ∷ lines_of (r.buffer ++ join r.chunks) else last_line r.line in
    record {
      lines_eq =
          sent_lines r.complete r.line h.lines
          ∙ ap (λ (b : Bool). h.lines ++ (if b then r.line ∷ [] else last_line r.line)) e
          ∙ ap (λ l. h.lines ++ l) (sym (read.lines_eq ∙ ap branch e));
      nothing_left = read.ended e;
      end_eq = read.place;
    }

sent_shorter :
    (fuel : ℕ) (h : Harvester) (r : Read)
    → IsRead (h.buffer ++ join h.chunks) (h.position + available h.chunks) r
    → r.complete ≡ true
    → length (h.buffer ++ join h.chunks) < suc fuel
    → length ((send r h).buffer ++ join (send r h).chunks) < fuel
unfolding send
sent_shorter fuel h r read c f = omega (arith, read.shorter c)

drain_lem :
    (fuel : ℕ) (h : Harvester)
    → length (h.buffer ++ join h.chunks) < fuel
    → (after : Harvester) × (drain fuel h ≡ some after)
      × Drained after
          (h.lines ++ lines_of (h.buffer ++ join h.chunks))
          (h.position + available h.chunks)
unfolding drain read_one send
drain_lem zero h f = absurd (omega arith)
drain_lem (suc fuel) h f =
    let r = read_string h.buffer h.chunks h.position in
    let read = read_string-IsRead h.buffer h.chunks h.position in
    let turn = λ (b : Bool). if b then drain fuel (send r h) else some (send r h) in
    elim (Bool-cases r.complete) [
      | inl c ↦
          let (after, run, d) = drain_lem fuel (send r h) (sent_shorter fuel h r read c f) in
          (after, ap turn c ∙ run, Drained-step after h r read c d)
      | inr e ↦ (send r h, ap turn e, Drained-end h r read e)
    ]

pub length-join : (cs : List Text) → length (join cs) ≡ available cs
length-join [] = refl
length-join (c ∷ cs) = omega (arith, length-append c (join cs), length-join cs)

abbrev pub lines_of_turns : List (List Text) → List Text
lines_of_turns [] = []
lines_of_turns (chunks ∷ l) = lines_of (join chunks) ++ lines_of_turns l

abbrev pub total : List (List Text) → ℕ
total [] = 0
total (chunks ∷ l) = available chunks + total l

follow_step :
    (chunks : List Text) (l : List (List Text)) (h after : Harvester)
    → drain (suc (available chunks)) (wait_more chunks h) ≡ some after
    → follow (chunks ∷ l) h ≡ follow l after
unfolding follow
follow_step chunks l h after e =
    ap (λ o. elim o as (λ x. Option Harvester) [ none ↦ none | some next ↦ follow l next ]) e

-- However the bytes of the file come in chunks, following a file that grows ends, and sends, in
-- order and each once, the lines of what it reads up to each end of the file; the last bytes
-- before an end are sent as a line though no newline ends them. The file has then been read up to
-- its end.
pub follow_lem :
    (turns : List (List Text)) (h : Harvester)
    → (after : Harvester) × (follow turns h ≡ some after)
      × (after.lines ≡ h.lines ++ lines_of_turns turns)
      × (after.position ≡ h.position + total turns)
unfolding follow wait_more
follow_lem [] h = (h, refl, sym (append-nil h.lines), omega arith)
follow_lem (chunks ∷ l) h =
    let (drained, run, d) =
      drain_lem (suc (available chunks)) (wait_more chunks h) (omega (arith, length-join chunks)) in
    let (after, rest, sent, place) = follow_lem l drained in
    let nothing : available drained.chunks ≡ 0 = omega (
      arith,
      ap length d.nothing_left,
      length-append drained.buffer (join drained.chunks),
      length-join drained.chunks,
    ) in
    (
      after,
      follow_step chunks l h drained run ∙ rest,
      sent
          ∙ ap (λ s. s ++ lines_of_turns l) d.lines_eq
          ∙ append_assoc h.lines (lines_of (join chunks)) (lines_of_turns l),
      omega (arith, d.end_eq),
    )
