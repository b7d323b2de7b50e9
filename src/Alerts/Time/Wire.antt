-- ===== src/Alerts/Time/Wire.antt =====
-- The conversions of `Time` in web/alerts/time.go to and from JSON and SQL. `time.Format` and
-- `time.Parse` with RFC 3339 are given, and write and read the text of a second.
use monitorbeat.Base.{
  ℕ, ◌/◌, ◌≡◌, ◌≢◌, refl, ap, ◌∙◌, false, ◌||◌, Option, none, some, [], ◌∷◌, ◌++◌, ◌==◌, arith,
  if◌then◌else◌, Bool-cases, inl, inr,
}
use monitorbeat.Base.Text.{Text, codes, text_eq}
use monitorbeat.Alerts.Time.{second, format_rfc3339, parse_rfc3339}

abbrev quoted : Text → Text
quoted s = b'"' ∷ (s ++ (b'"' ∷ []))

-- The text without its last byte, if that is a quote.
unfoldable pub drop_last_quote : Text → Option Text
drop_last_quote [] = none
drop_last_quote (c ∷ []) = if c == b'"' then some [] else none
drop_last_quote (c ∷ d ∷ s) = elim (drop_last_quote (d ∷ s)) [ none ↦ none | some t ↦ some (c ∷ t) ]

abbrev or_same : Text → Option Text → Text
or_same s none = s
or_same s (some t) = t

-- The quotes round a text are dropped if both are there.
unfoldable pub trim_quotes : Text → Text
unfolding drop_last_quote
trim_quotes [] = []
trim_quotes (c ∷ s) = if c == b'"' then or_same (c ∷ s) (drop_last_quote s) else c ∷ s

drop_last_quote-append : (s : Text) → drop_last_quote (s ++ (b'"' ∷ [])) ≡ some s
unfolding drop_last_quote
drop_last_quote-append [] = refl
drop_last_quote-append (c ∷ []) = refl
drop_last_quote-append (c ∷ d ∷ s) = rw (drop_last_quote-append (d ∷ s)) refl

trim_quotes-quoted : (s : Text) → trim_quotes (quoted s) ≡ s
unfolding trim_quotes
trim_quotes-quoted s = ap (or_same (quoted s)) (drop_last_quote-append s)

not_empty_text :
    (s : Text)
    → s ≢ []
    → text_eq (quoted s) (codes "null") || text_eq (quoted s) (b'"' ∷ b'"' ∷ []) ≡ false
unfolding text_eq
not_empty_text [] h = absurd (h refl)
not_empty_text (c ∷ []) h = ground arith
not_empty_text (c ∷ d ∷ s) h = ground arith

-- What `Scan` is given.
pub data Source : Type 0 where
  nil other_type : Source
  text : Text → Source
  time : ℕ → Source

module _ (format : ℕ → Text) (parse : Text → Option ℕ) where
  -- `MarshalJSON`.
  unfoldable pub marshal_json : ℕ → Text
  unfolding format_rfc3339
  marshal_json t = if t == 0 then codes "null" else quoted (format (format_rfc3339 t))

  -- `UnmarshalJSON`; none is an error.
  unfoldable pub unmarshal_json : Text → Option ℕ
  unfolding trim_quotes text_eq
  unmarshal_json s =
      if text_eq s (codes "null") || text_eq s (b'"' ∷ b'"' ∷ [])
      then some 0
      else parse (trim_quotes s)

  -- `Scan`; none is an error.
  unfoldable pub scan : Source → Option ℕ
  scan nil = some 0
  scan (text []) = some 0
  scan (text (c ∷ s)) = parse (c ∷ s)
  scan (time t) = some t
  scan other_type = none

  -- `Value`.
  unfoldable pub value : ℕ → Source
  unfolding format_rfc3339
  value t = if t == 0 then nil else text (format (format_rfc3339 t))

  module _ (parse-format : (n : ℕ) → parse (format n) ≡ some (parse_rfc3339 n))
      (format-ne : (n : ℕ) → format n ≢ []) where
    scan-text : (s : Text) → s ≢ [] → scan (text s) ≡ parse s
    unfolding scan
    scan-text [] h = absurd (h refl)
    scan-text (c ∷ s) h = refl

    -- An instant is stored and read back as the beginning of its second.
    scan-value : (t : ℕ) → scan (value t) ≡ some (parse_rfc3339 (format_rfc3339 t))
    unfolding value scan parse_rfc3339 format_rfc3339
    scan-value t = elim (Bool-cases (t == 0)) [
      | inl e ↦ rw e (ap some (ground (arith, e)))
      | inr e ↦
          rw e
            (scan-text (format (t / second)) (format-ne (t / second)) ∙ parse-format (t / second))
    ]

    unmarshal_json-quoted : (s : Text) → s ≢ [] → unmarshal_json (quoted s) ≡ parse s
    unfolding unmarshal_json
    unmarshal_json-quoted s h = rw (not_empty_text s h) (ap parse (trim_quotes-quoted s))

    -- The same by JSON.
    unmarshal_json-marshal_json :
        (t : ℕ) → unmarshal_json (marshal_json t) ≡ some (parse_rfc3339 (format_rfc3339 t))
    unfolding marshal_json unmarshal_json parse_rfc3339 format_rfc3339
    unmarshal_json-marshal_json t = elim (Bool-cases (t == 0)) [
      | inl e ↦ rw e (ap some (ground (arith, e)))
      | inr e ↦ rw e (
          unmarshal_json-quoted (format (t / second)) (format-ne (t / second))
          ∙ parse-format (t / second))
    ]
