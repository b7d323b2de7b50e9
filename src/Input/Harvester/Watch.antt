-- ===== src/Input/Harvester/Watch.antt =====
-- How a harvester starts and waits: the tests of `New`, `lookupEncoding`, `waitMore` and `loop` of
-- internal/input/file/harvester.go. What the watcher and the timer give is a sequence of turns.
use monitorbeat.Base.{
  suc, ◌≡◌, refl, Bool, true, false, not, ◌||◌, Option, none, some, List, [], ◌∷◌, if◌then◌else◌,
  Bool-cases, inl, inr,
}
use monitorbeat.Base.Int.{ℤ}
use monitorbeat.Base.Text.{Text, codes, text_eq}
use monitorbeat.Alerts.Api.{is_empty}
use monitorbeat.Configs.Param.{or_default}
use monitorbeat.Input.Harvester.{Harvester, drain, wait_more, available, follow}

pub data Encoding : Type 0 where
  utf_8 gb18030 : Encoding

-- `lookupEncoding`; none is an error. The nil encoding is that of UTF-8.
unfoldable pub lookup_encoding : Text → Option Encoding
lookup_encoding name =
    if text_eq name [] || (text_eq name (codes "utf-8") || text_eq name (codes "utf8"))
    then some utf_8
    else if text_eq name (codes "gb18030")
    then some gb18030
    else none

pub data StartError : Type 0 where
  empty_path bad_encoding open_failed : StartError

-- The tests of `New`, in their order; none is no error. The flag is that of `os.Open`.
unfoldable pub start_error : Text → Text → Bool → Option StartError
unfolding lookup_encoding
start_error file encoding fails =
    if is_empty file then some empty_path else elim (lookup_encoding encoding) [
      | none ↦ some bad_encoding
      | some e ↦ if fails then some open_failed else none
    ]

-- The size of the buffer: 64 KiB if none is configured.
unfoldable pub buffer_size : ℤ → ℤ
unfolding or_default
buffer_size n = or_default 65536 n

-- What a wait sees first of the channel `done` and of the watcher's channels.
pub data Wake : Type 0 where
  closed changed events_closed errors_closed watch_error : Wake

-- Whether `waitMore` lets the loop go on; the last flag is whether `done` comes before the timer.
unfoldable pub goes_on : Bool → Wake → Bool → Bool
goes_on false wake done = not done
goes_on true closed done = false
goes_on true changed done = true
goes_on true events_closed done = false
goes_on true errors_closed done = false
goes_on true watch_error done = not done

-- A wait, and the chunks that the file has grown by when it is over.
pub record Turn : Type 0 where
  pub wake : Wake
  pub done : Bool
  pub chunks : List Text

abbrev and_then : Option Harvester → (Harvester → Option Harvester) → Option Harvester
and_then none f = none
and_then (some h) f = f h

-- `loop`, from an end of the file on, while reads have no other error; none if the fuel of the
-- reading runs out.
unfoldable pub run_loop : Bool → List Turn → Harvester → Option Harvester
unfolding goes_on
run_loop watches [] h = some h
run_loop watches (t ∷ l) h =
    if goes_on watches t.wake t.done
    then and_then (drain (suc (available t.chunks)) (wait_more t.chunks h)) (run_loop watches l)
    else some h

-- The chunks up to the wait that ends the loop.
abbrev chunks_until : Bool → List Turn → List (List Text)
chunks_until watches [] = []
chunks_until watches (t ∷ l) =
    if goes_on watches t.wake t.done then t.chunks ∷ chunks_until watches l else []

and_then-follow :
    (chunks : List Text) (l : List (List Text)) (f : Harvester → Option Harvester) (h : Harvester)
    → ((a : Harvester) → f a ≡ follow l a)
    → and_then (drain (suc (available chunks)) (wait_more chunks h)) f ≡ follow (chunks ∷ l) h
unfolding follow
and_then-follow chunks l f h k =
    elim (drain (suc (available chunks)) (wait_more chunks h))
      as (λ o. and_then o f ≡ (elim o [ none ↦ none | some after ↦ follow l after ])) [
        | none ↦ refl
        | some a ↦ k a
      ]

-- The loop follows the file up to the wait that ends it.
run_loop-follow :
    (watches : Bool) (l : List Turn) (h : Harvester)
    → run_loop watches l h ≡ follow (chunks_until watches l) h
unfolding run_loop
run_loop-follow watches [] h = unfold follow in refl
run_loop-follow watches (t ∷ l) h = elim (Bool-cases (goes_on watches t.wake t.done)) [
  | inl e ↦ rw e (
      and_then-follow t.chunks (chunks_until watches l) (run_loop watches l) h
        (run_loop-follow watches l))
  | inr e ↦ rw e (unfold follow in refl)
]
