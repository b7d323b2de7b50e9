-- ===== src/Tasks/Basereport/Keys.antt =====
-- What `sanitizeMetricKey` of tasks/basereport/basereport.go lets into the name of a metric.
use monitorbeat.Base.{ℕ, ◌≡◌, ◌≢◌, refl, Bool, true, ◌&&◌, ◌||◌, [], ◌∷◌, ◌==◌, arith}
use monitorbeat.Base.Text.{Text}
use monitorbeat.Tasks.Basereport.{
  alphanumeric, key_bytes, trim_first, before_trimmed, trim_last, or_root, sanitize_metric_key,
}

-- A letter, a digit or an underscore.
abbrev plain_key : Text → Bool
plain_key [] = true
plain_key (c ∷ s) = (alphanumeric c || c == b'_') && plain_key s

plain_key-key_bytes : (p : Text) → plain_key (key_bytes p) ≡ true
unfolding key_bytes
plain_key-key_bytes [] = refl
plain_key-key_bytes (c ∷ p) = ground (arith, plain_key-key_bytes p)

plain_key-trim_first : (s : Text) → plain_key s ≡ true → plain_key (trim_first s) ≡ true
unfolding trim_first
plain_key-trim_first [] h = refl
plain_key-trim_first (c ∷ s) h = ground (arith, plain_key-trim_first s)

plain_key-before_trimmed :
    (c : ℕ) (s : Text)
    → (alphanumeric c || c == b'_') ≡ true
    → plain_key s ≡ true
    → plain_key (before_trimmed c s) ≡ true
unfolding before_trimmed
plain_key-before_trimmed c [] h k = ground arith
plain_key-before_trimmed c (d ∷ s) h k = ground arith

plain_key-trim_last : (s : Text) → plain_key s ≡ true → plain_key (trim_last s) ≡ true
unfolding trim_last
plain_key-trim_last [] h = refl
plain_key-trim_last (c ∷ s) h =
    plain_key-before_trimmed c (trim_last s) (ground arith) (plain_key-trim_last s (ground arith))

or_root_plain : (s : Text) → plain_key s ≡ true → plain_key (or_root s) ≡ true
unfolding or_root
or_root_plain [] h = refl
or_root_plain (c ∷ s) h = h

or_root_ne : (s : Text) → or_root s ≢ []
unfolding or_root
or_root_ne [] h = ground (arith, h)
or_root_ne (c ∷ s) h = ground (arith, h)

-- The key of a path has letters, digits and underscores only, and at least one.
sanitize_metric_key_plain :
    (p : Text) → (plain_key (sanitize_metric_key p) ≡ true) × (sanitize_metric_key p ≢ [])
unfolding sanitize_metric_key
sanitize_metric_key_plain p = (
  or_root_plain (trim_last (trim_first (key_bytes p))) (
      plain_key-trim_last (trim_first (key_bytes p))
        (plain_key-trim_first (key_bytes p) (plain_key-key_bytes p))),
  or_root_ne (trim_last (trim_first (key_bytes p))),
)
