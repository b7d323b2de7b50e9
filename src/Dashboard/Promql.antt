-- ===== src/Dashboard/Promql.antt =====
-- The queries that the handlers build: `labelMatch` and the formats of web/api/server.go.
pub mod Selector
use monitorbeat.Base.{ℕ, Bool, true, false, List, [], ◌∷◌, ◌++◌, ◌==◌, if◌then◌else◌}
use monitorbeat.Base.Text.{Text, codes}

-- `strings.ReplaceAll` of one byte by a text.
unfoldable pub replace_byte : ℕ → Text → Text → Text
replace_byte c new [] = []
replace_byte c new (x ∷ s) = (if x == c then new else x ∷ []) ++ replace_byte c new s

-- The two calls in `labelMatch`: backslashes, then quotes.
unfoldable pub escape : Text → Text
unfolding replace_byte
escape val = replace_byte b'"' (b'\\' ∷ b'"' ∷ []) (replace_byte b'\\' (b'\\' ∷ b'\\' ∷ []) val)

-- `labelMatch`.
unfoldable pub label_match : Text → Text → Text
unfolding escape
label_match name val = name ++ (b'=' ∷ b'"' ∷ (escape val ++ (b'"' ∷ [])))

abbrev pub host_match : Text → Text
host_match host = label_match (codes "hostname") host

-- `%s{%s}`.
unfoldable pub selector : Text → Text → Text
unfolding label_match
selector metric host = metric ++ (b'{' ∷ (host_match host ++ codes "}"))

-- The expression of `handleEvents`.
unfoldable pub events_query : Text → Text → Text → Text
unfolding label_match
events_query typ host step =
    codes "sum(count_over_time("
    ++ (typ ++ (b'{' ∷ (host_match host ++ (codes "}[" ++ (step ++ codes "]))")))))

-- The expressions of `probeSeries`.
unfoldable pub probe_query : Text → Text → Text → Text
unfolding label_match
probe_query metric host kind =
    codes "avg("
    ++ (metric ++ (b'{' ∷ (host_match host ++ (codes ",probe_type=\"" ++ (kind ++ codes "\"})")))))
