-- ===== src/Alerts/Labels.antt =====
-- Label sets and their two texts: web/alerts/fingerprint.go, and encodeLabels and decodeLabels of
-- web/alerts/store.go. A `map[string]string` is the list of its entries in the order in which the
-- runtime happens to iterate over it.
pub mod Order
pub mod Injective
use monitorbeat.Base.{◌≡◌, Bool, true, false, ◌||◌, List, [], ◌∷◌, ◌++◌, map, if◌then◌else◌}
use monitorbeat.Base.Text.{Text, codes, text_eq, text_lt}

abbrev pub Labels : Type 0
Labels = List (Text × Text)

-- `labels[k]`: the empty string on a missing key.
unfoldable pub label : Text → Labels → Text
label k [] = []
label k ((j, v) ∷ l) = if text_eq j k then v else label k l

unfoldable pub has_key : Text → Labels → Bool
has_key k [] = false
has_key k ((j, v) ∷ l) = text_eq j k || has_key k l

-- A map holds a key once.
abbrev pub DistinctKeys : Labels → Type 0
DistinctKeys [] = Unit
DistinctKeys ((k, v) ∷ l) = (has_key k l ≡ false) × DistinctKeys l

unfoldable pub keys : Labels → List Text
keys [] = []
keys ((k, v) ∷ l) = k ∷ keys l

unfoldable pub insert_string : Text → List Text → List Text
insert_string a [] = a ∷ []
insert_string a (b ∷ l) = if text_lt b a then b ∷ insert_string a l else a ∷ b ∷ l

-- `sort.Strings`.
unfoldable pub sort_strings : List Text → List Text
unfolding insert_string
sort_strings [] = []
sort_strings (a ∷ l) = insert_string a (sort_strings l)

-- The loop over the sorted keys that fills the hash's input, `key=value\n` for each.
unfoldable pub canonical_lines : Labels → List Text → Text
unfolding label
canonical_lines labels [] = []
canonical_lines labels (k ∷ ks) =
    k ++ (b'=' ∷ (label k labels ++ (0x0a ∷ canonical_lines labels ks)))

-- What `Fingerprint` hashes.
unfoldable pub canonical : Labels → Text
unfolding canonical_lines sort_strings keys
canonical [] = codes "{}"
canonical (e ∷ l) = canonical_lines (e ∷ l) (sort_strings (keys (e ∷ l)))

-- `Fingerprint`, over the hexadecimal SHA-256 of the standard library.
unfoldable pub fingerprint : (Text → Text) → Labels → Text
unfolding canonical
fingerprint sha256_hex labels = sha256_hex (canonical labels)

-- The members of the JSON object; `quote` is `json.Marshal` on a string.
unfoldable pub encode_members : (Text → Text) → Labels → List Text → Text
unfolding label
encode_members quote labels [] = []
encode_members quote labels (k ∷ []) = quote k ++ (b':' ∷ quote (label k labels))
encode_members quote labels (k ∷ ks) =
    quote k ++ (b':' ∷ (quote (label k labels) ++ (b',' ∷ encode_members quote labels ks)))

unfoldable pub encode_labels : (Text → Text) → Labels → Text
unfolding encode_members sort_strings keys
encode_labels quote [] = codes "{}"
encode_labels quote (e ∷ l) =
    b'{' ∷ (encode_members quote (e ∷ l) (sort_strings (keys (e ∷ l))) ++ codes "}")

-- `json.Unmarshal` into a string map is `unmarshal`; its error is ignored.
unfoldable pub decode_labels : (Text → Labels) → Text → Labels
decode_labels unmarshal [] = []
decode_labels unmarshal (c ∷ s) = unmarshal (c ∷ s)
