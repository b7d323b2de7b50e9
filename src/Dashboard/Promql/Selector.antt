-- ===== src/Dashboard/Promql/Selector.antt =====
-- The host that a query selects, read back from the query.
use mathlib.Core.List.{append_assoc}
use monitorbeat.Base.{
  ℕ, ◌≡◌, refl, sym, ap, ◌∙◌, Bool, true, false, not, ◌&&◌, ◌||◌, Option, none, some, [], ◌∷◌, ◌++◌,
  leb, ◌==◌, arith, if◌then◌else◌,
}
use monitorbeat.Base.Text.{Text, codes, text_eq}
use monitorbeat.Dashboard.Promql.{
  replace_byte, escape, label_match, host_match, selector, events_query, probe_query,
}

abbrev then_read {ℓ κ} : {A : Type ℓ} {B : Type κ} → Option A → (A → Option B) → Option B
then_read none f = none
then_read (some a) f = f a

-- A byte that a backslash may stand before.
abbrev quotable : ℕ → Bool
quotable c = c == b'"' || c == b'\\'

-- The text of a quoted string, behind its first quote, and what follows it; the flag says that a
-- backslash was read.
unfoldable pub read_quoted : Bool → Text → Option (Text × Text)
read_quoted escaped [] = none
read_quoted escaped (c ∷ s) =
    let rest = read_quoted (not escaped && c == b'\\') s in
    if escaped
    then (if quotable c then then_read rest (λ (t, u). some (c ∷ t, u)) else none)
    else if c == b'"'
    then some ([], s)
    else if c == b'\\'
    then rest
    else then_read rest (λ (t, u). some (c ∷ t, u))

-- A text behind a given one.
unfoldable pub read_text : Text → Text → Option Text
read_text [] s = some s
read_text (c ∷ p) [] = none
read_text (c ∷ p) (d ∷ s) = let rest = read_text p s in if c == d then rest else none

-- The bytes of a metric name, a type of events or a duration: letters, digits, `_` and `:`.
abbrev pub is_name_byte : ℕ → Bool
is_name_byte c =
    (leb b'a' c && leb c b'z')
    || (leb b'A' c && leb c b'Z')
    || (leb b'0' c && leb c b':')
    || c == b'_'

abbrev pub has_only : (ℕ → Bool) → Text → Bool
has_only p [] = true
has_only p (c ∷ s) = p c && has_only p s

abbrev pub is_name : Text → Bool
is_name = has_only is_name_byte

-- The text from the first byte on that fails a test.
unfoldable pub skip : (ℕ → Bool) → Text → Text
skip p [] = []
skip p (c ∷ s) = let rest = skip p s in if p c then rest else c ∷ s

abbrev is_head_byte : ℕ → Bool
is_head_byte c = is_name_byte c || c == b'('

-- What may follow the host: the end of the selector, with a range and the ends of two calls, or with
-- a type of probes and the end of one.
unfoldable pub is_end : Text → Bool
unfolding skip read_text
is_end s =
    text_eq s (codes "}")
    || (elim (read_text (codes "}[") s) [
      | none ↦ false
      | some t ↦ text_eq (skip is_name_byte t) (codes "]))")
    ])
    || (elim (read_text (codes ",probe_type=\"") s) [
      | none ↦ false
      | some t ↦ text_eq (skip is_name_byte t) (codes "\"})")
    ])

-- The host of a query that is one selector by a host, alone or in calls: names and opening
-- parentheses, a brace, the host in quotes, and an end. Any other query has none, such as one
-- with an operator or a second selector.
unfoldable pub read_host : Text → Option Text
unfolding skip read_text read_quoted is_end
read_host query =
    then_read (read_text (codes "{hostname=\"") (skip is_head_byte query))
      (λ s. then_read (read_quoted false s) (λ (h, rest). if is_end rest then some h else none))

-- One byte, escaped.
abbrev escaped_byte : ℕ → Text
escaped_byte x =
    if x == b'\\' then b'\\' ∷ b'\\' ∷ [] else if x == b'"' then b'\\' ∷ b'"' ∷ [] else x ∷ []

replace_byte-append :
    (c : ℕ) (new s t : Text)
    → replace_byte c new (s ++ t) ≡ replace_byte c new s ++ replace_byte c new t
unfolding replace_byte
replace_byte-append c new [] t = refl
replace_byte-append c new (x ∷ s) t =
    ap (λ l. (if x == c then new else x ∷ []) ++ l) (replace_byte-append c new s t)
    ∙ sym (
        append_assoc (if x == c then new else x ∷ []) (replace_byte c new s) (replace_byte c new t))

escape-cons : (x : ℕ) (s : Text) → escape (x ∷ s) ≡ escaped_byte x ++ escape s
unfolding escape replace_byte
escape-cons x s =
    replace_byte-append b'"' (b'\\' ∷ b'"' ∷ []) (if x == b'\\' then b'\\' ∷ b'\\' ∷ [] else x ∷ [])
      (replace_byte b'\\' (b'\\' ∷ b'\\' ∷ []) s)
    ∙ ap (λ l. l ++ escape s) (escaped_twice x)
  where
    escaped_twice :
        (x : ℕ)
        → replace_byte b'"' (b'\\' ∷ b'"' ∷ []) (if x == b'\\' then b'\\' ∷ b'\\' ∷ [] else x ∷ [])
          ≡ escaped_byte x
    escaped_twice x = ground arith

read_quoted-byte :
    (x : ℕ) (s t rest : Text)
    → read_quoted false s ≡ some (t, rest)
    → read_quoted false (escaped_byte x ++ s) ≡ some (x ∷ t, rest)
unfolding read_quoted
read_quoted-byte x s t rest h = ground arith

read_quoted-escape :
    (val rest : Text) → read_quoted false (escape val ++ (b'"' ∷ rest)) ≡ some (val, rest)
read_quoted-escape [] rest = unfold escape replace_byte read_quoted in refl
read_quoted-escape (x ∷ val) rest =
    rw (escape-cons x val, append_assoc (escaped_byte x) (escape val) (b'"' ∷ rest))
      (read_quoted-byte x (escape val ++ (b'"' ∷ rest)) val rest (read_quoted-escape val rest))

skip-append : (p : ℕ → Bool) (s t : Text) → has_only p s ≡ true → skip p (s ++ t) ≡ skip p t
unfolding skip
skip-append p [] t h = refl
skip-append p (c ∷ s) t h = ground (arith, skip-append p s t)

is_name-head : (s : Text) → is_name s ≡ true → has_only is_head_byte s ≡ true
is_name-head [] h = refl
is_name-head (c ∷ s) h = ground (arith, is_name-head s)

-- A selector behind names and parentheses is read.
read_host-brace :
    (p metric host rest : Text)
    → has_only is_head_byte p ≡ true
    → is_name metric ≡ true
    → is_end rest ≡ true
    → read_host (p ++ (metric ++ (b'{' ∷ (host_match host ++ rest)))) ≡ some host
unfolding read_host label_match
read_host-brace p metric host rest h n e =
    rw
      (
        skip-append is_head_byte p (metric ++ (b'{' ∷ (host_match host ++ rest))) h,
        skip-append is_head_byte metric (b'{' ∷ (host_match host ++ rest)) (is_name-head metric n),
        append_assoc (escape host) (b'"' ∷ []) rest,
      )
      (unfold skip read_text in rw (read_quoted-escape host rest, e) refl)

pub read_host-selector :
    (metric host : Text) → is_name metric ≡ true → read_host (selector metric host) ≡ some host
unfolding selector
read_host-selector metric host h =
    read_host-brace [] metric host (codes "}") refl h (unfold is_end text_eq in refl)

is_end-range :
    (step : Text) → is_name step ≡ true → is_end (codes "}[" ++ (step ++ codes "]))")) ≡ true
unfolding is_end
is_end-range step h =
    unfold read_text text_eq in
    rw (is_end, skip-append is_name_byte step (codes "]))") h) (unfold skip in refl)

pub read_host-events_query :
    (typ host step : Text)
    → is_name typ ≡ true
    → is_name step ≡ true
    → read_host (events_query typ host step) ≡ some host
unfolding events_query
read_host-events_query typ host step h k =
    read_host-brace (codes "sum(count_over_time(") typ host (codes "}[" ++ (step ++ codes "]))"))
      refl h (is_end-range step k)

is_end-probe :
    (kind : Text)
    → is_name kind ≡ true
    → is_end (codes ",probe_type=\"" ++ (kind ++ codes "\"})")) ≡ true
unfolding is_end
is_end-probe kind h =
    unfold read_text text_eq in
    rw (is_end, skip-append is_name_byte kind (codes "\"})") h) (unfold skip in refl)

pub read_host-probe_query :
    (metric host kind : Text)
    → is_name metric ≡ true
    → is_name kind ≡ true
    → read_host (probe_query metric host kind) ≡ some host
unfolding probe_query
read_host-probe_query metric host kind h k =
    read_host-brace (codes "avg(") metric host (codes ",probe_type=\"" ++ (kind ++ codes "\"})"))
      refl h (is_end-probe kind k)
