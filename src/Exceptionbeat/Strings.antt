-- ===== src/Exceptionbeat/Strings.antt =====
-- What the task uses of Go's `strings` and `strconv`, on ASCII text as the kernel writes it.
use monitorbeat.Base.{
  ℕ, zero, suc, ◌+◌, ◌-◌, ◌*◌, Bool, true, false, ◌&&◌, ◌||◌, ◌==◌, Option, none, some, List, [],
  ◌∷◌, ◌++◌, leb, if◌then◌else◌,
}
use monitorbeat.Base.Int.{ℤ, pos, negsuc, int64_max}
use monitorbeat.Base.Text.{Text, text_eq}

-- `strings.Split` at a byte: the pieces, after some bytes of the first.
unfoldable pub split_from : ℕ → Text → Text → List Text
split_from c acc [] = acc ∷ []
split_from c acc (x ∷ s) =
    if x == c then acc ∷ split_from c [] s else split_from c (acc ++ x ∷ []) s

unfoldable pub split : ℕ → Text → List Text
unfolding split_from
split c s = split_from c [] s

-- `strings.HasPrefix`.
unfoldable pub has_prefix : Text → Text → Bool
has_prefix [] s = true
has_prefix (x ∷ p) [] = false
has_prefix (x ∷ p) (y ∷ s) = x == y && has_prefix p s

-- `strings.Contains`.
unfoldable pub contains : Text → Text → Bool
contains needle [] = text_eq needle []
contains needle (c ∷ s) = has_prefix needle (c ∷ s) || contains needle s

-- `strings.HasSuffix`.
unfoldable pub has_suffix : Text → Text → Bool
has_suffix suffix [] = text_eq suffix []
has_suffix suffix (c ∷ s) = text_eq suffix (c ∷ s) || has_suffix suffix s

-- `\t`, `\n`, `\v`, `\f`, `\r` and the space.
unfoldable pub is_space : ℕ → Bool
is_space c = (leb 9 c && leb c 13) || c == 32

abbrev pub add_word : Text → List Text → List Text
add_word [] l = l
add_word (c ∷ s) l = (c ∷ s) ∷ l

-- `strings.Fields`, after some bytes of the first field.
unfoldable pub fields_from : Text → Text → List Text
unfolding is_space
fields_from acc [] = add_word acc []
fields_from acc (x ∷ s) =
    if is_space x then add_word acc (fields_from [] s) else fields_from (acc ++ x ∷ []) s

unfoldable pub fields : Text → List Text
unfolding fields_from
fields s = fields_from [] s

unfoldable pub trim_left : Text → Text
unfolding is_space
trim_left [] = []
trim_left (c ∷ s) = if is_space c then trim_left s else c ∷ s

unfoldable pub trim_right : Text → Text
unfolding is_space
trim_right [] = []
trim_right (c ∷ s) = elim (trim_right s) [
  | [] ↦ if is_space c then [] else c ∷ []
  | x ∷ r ↦ c ∷ x ∷ r
]

-- `strings.TrimSpace`.
unfoldable pub trim_space : Text → Text
unfolding trim_left trim_right
trim_space s = trim_right (trim_left s)

-- The number that digits stand for, behind some that stand for `acc`.
unfoldable pub digits_value : ℕ → Text → Option ℕ
digits_value acc [] = some acc
digits_value acc (c ∷ s) =
    if leb b'0' c && leb c b'9' then digits_value (acc * 10 + (c - b'0')) s else none

-- No digit at all is an error.
unfoldable pub unsigned_value : Text → Option ℕ
unfolding digits_value
unsigned_value [] = none
unsigned_value (c ∷ s) = digits_value 0 (c ∷ s)

abbrev pub positive : Option ℕ → Option ℤ
positive none = none
positive (some n) = if leb n int64_max then some (pos n) else none

abbrev pub negative : Option ℕ → Option ℤ
negative none = none
negative (some zero) = some (pos 0)
negative (some (suc n)) = if leb n int64_max then some (negsuc n) else none

-- `strconv.ParseInt` of base 10 and 64 bits.
unfoldable pub parse_int : Text → Option ℤ
unfolding unsigned_value
parse_int [] = none
parse_int (c ∷ s) =
    if c == b'-'
    then negative (unsigned_value s)
    else if c == b'+'
    then positive (unsigned_value s)
    else positive (unsigned_value (c ∷ s))
