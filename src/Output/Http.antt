-- ===== src/Output/Http.antt =====
-- The HTTP output: internal/output/http.go. The payload of an event is given; `Faults` says what the
-- server and the disk do in one call of `Publish`.
pub mod Deliver
pub mod Rotate
use monitorbeat.Base.{
  ℕ, zero, suc, ◌+◌, ◌*◌, Bool, true, false, not, ◌&&◌, ◌||◌, Option, none, some, List, [], ◌∷◌,
  ◌++◌, length, take, leb, ltb, is_some, if◌then◌else◌,
}
use monitorbeat.Base.Int.{ℤ, pos, negsuc, leb_int, mul64}
use monitorbeat.Base.Text.{Text, codes, text_eq}
use monitorbeat.Output.Disk.{Disk, content, open_append, append, rename}

-- `HTTPAuthConfig` by its `Type`.
pub data Auth : Type 0 where
  bearer : Text → Auth
  basic : Text → Text → Auth
  other : Auth

-- The fields of `HTTPOutputConfig` that the output reads; headers in the order of the visit.
pub record Config : Type 0 where
  pub url : Text
  pub method : Text
  pub headers : List (Text × Text)
  pub auth : Auth
  pub retry_max : ℤ
  pub fallback_path : Text
  pub fallback_max_size : ℤ
  pub fallback_max_backups : ℕ

-- `HTTPOutput`: whether the fallback file is open, its size, and `closed`; with the disk.
pub record Output : Type 0 where
  pub is_open : Bool
  pub fb_size : ℕ
  pub closed : Bool
  pub disk : Disk

-- The calls that set headers of a request, in order.
pub data Header : Type 0 where
  set : Text → Text → Header
  set_basic_auth : Text → Text → Header

pub record HttpRequest : Type 0 where
  pub method : Text
  pub url : Text
  pub headers : List Header
  pub body : Text

-- What comes of an attempt: the request cannot be made, the transport fails, or a status.
pub data Answer : Type 0 where
  invalid : Answer
  unreachable : Answer
  answered : ℕ → Answer

-- `cancelled n` ends the wait before attempt `n`; `written` is how much of a failing write reached
-- the file; `rename_fails i` is about the rename of file `i`.
pub record Faults : Type 0 where
  pub answer : ℕ → HttpRequest → Answer
  pub cancelled : ℕ → Bool
  pub open_fails : Bool
  pub stat_fails : Bool
  pub written : Option ℕ
  pub rename_fails : ℕ → Bool

-- `applyHTTPAuth`.
unfoldable pub apply_auth : Auth → List Header
apply_auth (bearer token) =
    if text_eq token [] then [] else set (codes "Authorization") (codes "Bearer " ++ token) ∷ []
apply_auth (basic user passwd) = if text_eq user [] then [] else set_basic_auth user passwd ∷ []
apply_auth other = []

unfoldable pub set_headers : List (Text × Text) → List Header
set_headers [] = []
set_headers ((k, v) ∷ l) = set k v ∷ set_headers l

-- The request of every attempt.
unfoldable pub request : Config → Text → Text → HttpRequest
unfolding apply_auth set_headers
request cfg body content_type = record {
  method = if text_eq cfg.method [] then codes "POST" else cfg.method;
  url = cfg.url;
  headers =
      (if text_eq content_type [] then [] else set (codes "Content-Type") content_type ∷ [])
      ++ set_headers cfg.headers
      ++ apply_auth cfg.auth;
  body = body;
}

unfoldable pub is_success : Answer → Bool
is_success invalid = false
is_success unreachable = false
is_success (answered status) = leb 200 status && ltb status 300

-- The loop of `trySend` from an attempt, with the number of attempts left.
unfoldable pub try_from : Faults → HttpRequest → ℕ → ℕ → Bool
unfolding is_success
try_from faults r zero attempt = false
try_from faults r (suc n) attempt =
    let later = try_from faults r n (suc attempt) in
    if ltb 0 attempt && faults.cancelled attempt
    then false
    else (if is_success (faults.answer attempt r) then true else later)

unfoldable pub attempts : ℤ → ℕ
attempts (pos n) = suc n
attempts (negsuc n) = 0

-- `trySend`.
unfoldable pub try_send : Config → Faults → Text → Text → Bool
unfolding try_from attempts request
try_send cfg faults body content_type =
    try_from faults (request cfg body content_type) (attempts cfg.retry_max) 0

-- The loop of `rotateFallback`: whether it ends without an error, and the disk.
unfoldable pub shift : Faults → ℕ → Disk → Bool × Disk
shift faults zero d = (true, d)
shift faults (suc i) d =
    let moved = shift faults i (rename (suc i) (suc (suc i)) d) in
    let kept = shift faults i d in
    if is_some (d (suc i))
    then (if faults.rename_fails (suc i) then (false, d) else moved)
    else kept

-- The rename of the file itself, which may be missing.
unfoldable pub retire : Faults → Disk → Bool × Disk
retire faults d =
    if faults.rename_fails 0 then (false, d) else (true, if is_some (d 0) then rename 0 1 d else d)

-- `rotateFallback`; the file is closed first.
unfoldable pub rotate_fallback : Config → Faults → Output → Bool × Output
unfolding shift retire
rotate_fallback cfg faults h =
    let (shifted, d) = shift faults cfg.fallback_max_backups h.disk in
    let (retired, e) = retire faults d in
    if shifted
    then (if retired
        then (true, record h { is_open = false; fb_size = 0; disk = e })
        else (false, record h { is_open = false; disk = e }))
    else (false, record h { is_open = false; disk = d })

-- The size is limited and reached; the limit in bytes is computed in an int64.
unfoldable pub is_full : Config → ℕ → Bool
is_full cfg size = elim cfg.fallback_max_size [
  | pos n ↦ ltb 0 n && leb_int (mul64 (pos n) 1048576) (pos size)
  | negsuc n ↦ false
]

-- `writeFallback` once the file is open.
unfoldable pub write_open : Config → Faults → Text → Output → Bool × Output
unfolding is_full rotate_fallback
write_open cfg faults body h = elim faults.written [
  | some n ↦ (false, record h { disk = append (take n (body ++ codes "\n")) h.disk })
  | none ↦
      let line = body ++ codes "\n" in
      let after = record h { disk = append line h.disk; fb_size = h.fb_size + length line } in
      if is_full cfg after.fb_size then rotate_fallback cfg faults after else (true, after)
]

-- `writeFallback`: whether it gives no error, and the output after it.
unfoldable pub write_fallback : Config → Faults → Text → Output → Bool × Output
unfolding write_open
write_fallback cfg faults body h =
    if text_eq cfg.fallback_path []
    then (false, h)
    else (if h.is_open
        then write_open cfg faults body h
        else (if faults.open_fails
            then (false, h)
            else (if faults.stat_fails
                then (false, record h { disk = open_append h.disk })
                else write_open cfg faults body (record h {
                  is_open = true;
                  fb_size = length (content (h.disk 0));
                  disk = open_append h.disk;
                }))))

-- `Publish` of an event whose body and content type are given, if it can be formatted.
unfoldable pub publish : Config → Faults → Option (Text × Text) → Output → Bool × Output
unfolding try_send write_fallback
publish cfg faults formatted h = if h.closed then (false, h) else (elim formatted [
  | none ↦ (false, h)
  | some (body, content_type) ↦
      if try_send cfg faults body content_type then (true, h) else write_fallback cfg faults body h
])

-- `Close`.
unfoldable pub close : Bool → Output → Bool × Output
close fails h =
    if h.is_open
    then (not fails, record h { closed = true; is_open = false })
    else (true, record h { closed = true })
