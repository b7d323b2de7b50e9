-- ===== src/Smtp/Reader.antt =====
-- A reader of a mail's header: fields of one line each, an empty line, and the body.
use mathlib.Core.List.{append_assoc}
use monitorbeat.Base.{
  ℕ, zero, suc, ◌≤◌, ◌<◌, ◌≡◌, refl, sym, ap, ◌∙◌, Bool, true, false, not, ◌&&◌, ◌||◌, Option, none,
  some, List, [], ◌∷◌, ◌++◌, ◌==◌, length, length-append, All, arith, if◌then◌else◌,
}
use monitorbeat.Base.Text.{Text}
use monitorbeat.Alerts.Api.{is_empty}

-- The line up to CR LF, and the text behind it; a CR or an LF of its own is an error.
unfoldable pub read_line : Text → Option (Text × Text)
read_line [] = none
read_line (c ∷ []) = none
read_line (c ∷ d ∷ s) =
    let rest = read_line (d ∷ s) in
    if c == 0x0d
    then (if d == 0x0a then some ([], s) else none)
    else if c == 0x0a
    then none
    else elim rest [ none ↦ none | some (line, t) ↦ some (c ∷ line, t) ]

-- `name: value`.
unfoldable pub read_field : Text → Option (Text × Text)
read_field [] = none
read_field (c ∷ []) = none
read_field (c ∷ d ∷ s) =
    let rest = read_field (d ∷ s) in
    if c == b':'
    then (if d == b' ' then some ([], s) else none)
    else elim rest [ none ↦ none | some (name, v) ↦ some (c ∷ name, v) ]

abbrev pub Fields : Type 0
Fields = List (Text × Text)

abbrev then_read {ℓ κ} : {A : Type ℓ} {B : Type κ} → Option A → (A → Option B) → Option B
then_read none f = none
then_read (some a) f = f a

-- The fields up to an empty line, and the text behind it.
unfoldable pub read_fields : ℕ → Text → Option (Fields × Text)
unfolding read_line read_field
read_fields zero s = none
read_fields (suc fuel) s = then_read (read_line s) (λ l.
    let rest = read_fields fuel l.1 in
    if is_empty l.0
    then some ([], l.1)
    else then_read (read_field l.0) (λ f. then_read rest (λ r. some (f ∷ r.0, r.1))))

-- A message has fewer fields than bytes.
unfoldable pub read_mail : Text → Option (Fields × Text)
unfolding read_fields
read_mail s = read_fields (suc (length s)) s

-- The text is on one line.
abbrev pub one_line : Text → Bool
one_line [] = true
one_line (c ∷ s) = not (c == 0x0d || c == 0x0a) && one_line s

pub one_line-append :
    (s t : Text) → one_line s ≡ true → one_line t ≡ true → one_line (s ++ t) ≡ true
one_line-append [] t h k = k
one_line-append (c ∷ s) t h k = ground (arith, one_line-append s t)

read_line-append :
    (line rest : Text)
    → one_line line ≡ true
    → read_line (line ++ (0x0d ∷ 0x0a ∷ rest)) ≡ some (line, rest)
unfolding read_line
read_line-append [] rest h = refl
read_line-append (c ∷ []) rest h = ground (arith, read_line-append [] rest refl)
read_line-append (c ∷ d ∷ s) rest h = ground (arith, read_line-append (d ∷ s) rest)

-- A field's name has no colon and is on one line.
abbrev pub plain_name : Text → Bool
plain_name [] = true
plain_name (c ∷ n) = not (c == b':' || (c == 0x0d || c == 0x0a)) && plain_name n

abbrev pub IsName : Text → Type 0
IsName n = plain_name n ≡ true

read_field-append :
    (name value : Text)
    → IsName name
    → read_field (name ++ (b':' ∷ b' ' ∷ value)) ≡ some (name, value)
unfolding read_field
read_field-append [] value h = refl
read_field-append (c ∷ []) value h = ground (arith, read_field-append [] value refl)
read_field-append (c ∷ d ∷ s) value h = ground (arith, read_field-append (d ∷ s) value)

IsName-one_line : (n : Text) → IsName n → one_line n ≡ true
IsName-one_line [] h = refl
IsName-one_line (c ∷ n) h = ground (arith, IsName-one_line n)

abbrev pub IsField : Text × Text → Type 0
IsField f = IsName f.0 × (one_line f.1 ≡ true)

-- The fields, the empty line and the body.
unfoldable pub write_fields : Fields → Text → Text
write_fields [] body = 0x0d ∷ 0x0a ∷ body
write_fields ((n, v) ∷ l) body = n ++ (b':' ∷ b' ' ∷ (v ++ (0x0d ∷ 0x0a ∷ write_fields l body)))

read_line-field :
    (n v s : Text)
    → IsName n
    → one_line v ≡ true
    → read_line (n ++ (b':' ∷ b' ' ∷ (v ++ (0x0d ∷ 0x0a ∷ s)))) ≡ some (n ++ (b':' ∷ b' ' ∷ v), s)
read_line-field n v s h k =
    ap read_line (sym (append_assoc n (b':' ∷ b' ' ∷ v) (0x0d ∷ 0x0a ∷ s)))
    ∙ read_line-append (n ++ (b':' ∷ b' ' ∷ v)) s
        (one_line-append n (b':' ∷ b' ' ∷ v) (IsName-one_line n h) (ground (arith, k)))

is_empty-append : (s : Text) (c : ℕ) (t : Text) → is_empty (s ++ (c ∷ t)) ≡ false
is_empty-append [] c t = refl
is_empty-append (x ∷ s) c t = refl

read_fields-write_fields :
    (fuel : ℕ) (l : Fields) (body : Text)
    → length l < fuel
    → All IsField l
    → read_fields fuel (write_fields l body) ≡ some (l, body)
unfolding read_fields write_fields
read_fields-write_fields zero l body h k = absurd (omega (arith, h))
read_fields-write_fields (suc fuel) [] body h k = unfold read_line in refl
read_fields-write_fields (suc fuel) ((n, v) ∷ l) body h ((p, q), k) =
    rw
      (
        read_line-field n v (write_fields l body) p q,
        is_empty-append n b':' (b' ' ∷ v),
        read_field-append n v p,
        read_fields-write_fields fuel l body (omega (arith, h)) k,
      )
      refl

length-write_fields : (l : Fields) (body : Text) → length l ≤ length (write_fields l body)
unfolding write_fields
length-write_fields [] body = omega arith
length-write_fields ((n, v) ∷ l) body = omega (
  arith,
  length-append n (b':' ∷ b' ' ∷ (v ++ (0x0d ∷ 0x0a ∷ write_fields l body))),
  length-append v (0x0d ∷ 0x0a ∷ write_fields l body),
  length-write_fields l body,
)

-- A mail is read back as the fields and the body that it was written from.
pub read_mail-write_fields :
    (l : Fields) (body : Text) → All IsField l → read_mail (write_fields l body) ≡ some (l, body)
unfolding read_mail
read_mail-write_fields l body h =
    read_fields-write_fields (suc (length (write_fields l body))) l body
      (omega (arith, length-write_fields l body)) h
