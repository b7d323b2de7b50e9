-- ===== src/Alerts/Labels/Order.antt =====
-- The texts of a label set do not depend on the order of map iteration.
use mathlib.Core.List.{Perm, Permᴰ}
use mathlib.Core.Logic.{∥∥₁_elim}
use monitorbeat.Base.{◌≡◌, refl, sym, ap, ◌∙◌, List, [], ◌∷◌, ◌++◌, arith, length}
use monitorbeat.Base.Text.{Text, codes, text_eq_iff, text_lt_total, text_lt_trans, text_lt_irrefl}
use monitorbeat.Alerts.Labels.{
  Labels, label, has_key, DistinctKeys, keys, insert_string, sort_strings, canonical_lines,
  canonical, fingerprint, encode_members, encode_labels,
}

-- Insertions of two keys commute, so sorting forgets the order of the input.
insert_string_comm :
    (a b : Text) (l : List Text)
    → insert_string a (insert_string b l) ≡ insert_string b (insert_string a l)
unfolding insert_string
insert_string_comm a b [] = ground (arith, text_lt_total a b, text_lt_trans a b a, text_lt_irrefl a)
insert_string_comm a b (c ∷ l) = ground (
  arith,
  insert_string_comm a b l,
  text_lt_total a b,
  text_lt_trans a b a,
  text_lt_irrefl a,
  text_lt_trans c a b,
  text_lt_trans c b a,
)

sort_strings-permᴰ : {l m : List Text} → Permᴰ l m → sort_strings l ≡ sort_strings m
unfolding sort_strings
sort_strings-permᴰ Permᴰ.nil = refl
sort_strings-permᴰ (Permᴰ.cons e p) = cc (e, sort_strings-permᴰ p)
sort_strings-permᴰ (Permᴰ.swap {a} {b} {l = l} e f) =
    rw (← e, ← f) (insert_string_comm a b (sort_strings l))
sort_strings-permᴰ (Permᴰ.trans p q) = sort_strings-permᴰ p ∙ sort_strings-permᴰ q

same_length : {l m : Labels} → Permᴰ l m → length l ≡ length m
same_length Permᴰ.nil = refl
same_length (Permᴰ.cons e p) = omega (arith, same_length p)
same_length (Permᴰ.swap e f) = refl
same_length (Permᴰ.trans p q) = omega (arith, same_length p, same_length q)

nil≢cons : {e : Text × Text} {m : Labels} → Permᴰ [] (e ∷ m) → ⊥
nil≢cons p = omega (arith, same_length p)

cons≢nil : {e : Text × Text} {m : Labels} → Permᴰ (e ∷ m) [] → ⊥
cons≢nil p = omega (arith, same_length p)

keys-permᴰ : {l m : Labels} → Permᴰ l m → Permᴰ (keys l) (keys m)
unfolding keys
keys-permᴰ Permᴰ.nil = Permᴰ.nil
keys-permᴰ (Permᴰ.cons e p) = Permᴰ.cons (ap (λ (t : Text × Text). t.0) e) (keys-permᴰ p)
keys-permᴰ (Permᴰ.swap {l} e f) =
    Permᴰ.swap (ap (λ (t : Text × Text). t.0) e) (ap (λ (t : Text × Text). t.0) f)
keys-permᴰ (Permᴰ.trans p q) = Permᴰ.trans (keys-permᴰ p) (keys-permᴰ q)

has_key-permᴰ : {l m : Labels} → Permᴰ l m → (k : Text) → has_key k l ≡ has_key k m
unfolding has_key
has_key-permᴰ Permᴰ.nil k = refl
has_key-permᴰ (Permᴰ.cons e p) k = rw (e, has_key-permᴰ p k)
has_key-permᴰ (Permᴰ.swap {a} {b} {l = l} e f) k = rw (← e, ← f) (ground arith)
has_key-permᴰ (Permᴰ.trans p q) k = has_key-permᴰ p k ∙ has_key-permᴰ q k

DistinctKeys-swap :
    (a b : Text × Text) (l : Labels) → DistinctKeys (a ∷ b ∷ l) → DistinctKeys (b ∷ a ∷ l)
unfolding has_key
DistinctKeys-swap (j, v) (k, w) l (h, (i, d)) = ground (arith, text_eq_iff j k, text_eq_iff k j)

-- A permutation of a map's entries has distinct keys again.
pub DistinctKeys-permᴰ : {l m : Labels} → Permᴰ l m → DistinctKeys l → DistinctKeys m
DistinctKeys-permᴰ Permᴰ.nil h = tt
DistinctKeys-permᴰ (Permᴰ.cons {a} {b} {l₁ = l} {l₂ = m} e p) h =
    rw (← e) (sym (has_key-permᴰ p a.0) ∙ h.0, DistinctKeys-permᴰ p h.1)
DistinctKeys-permᴰ (Permᴰ.swap {a} {b} {l = l} e f) h = rw (← e, ← f) (DistinctKeys-swap a b l h)
DistinctKeys-permᴰ (Permᴰ.trans p q) h = DistinctKeys-permᴰ q (DistinctKeys-permᴰ p h)

-- With distinct keys, a lookup finds the same value in every order.
label-permᴰ : {l m : Labels} → Permᴰ l m → (k : Text) → DistinctKeys l → label k l ≡ label k m
unfolding label has_key
label-permᴰ Permᴰ.nil k h = refl
label-permᴰ (Permᴰ.cons {a} e p) k h = rw (← e, label-permᴰ p k h.1)
label-permᴰ (Permᴰ.swap {a} {b} {l = l} e f) k h =
    rw (← e, ← f) (ground (arith, text_eq_iff a.0 k, text_eq_iff b.0 k, text_eq_iff b.0 a.0))
label-permᴰ (Permᴰ.trans p q) k h = label-permᴰ p k h ∙ label-permᴰ q k (DistinctKeys-permᴰ p h)

canonical_lines-permᴰ :
    {l m : Labels}
    → Permᴰ l m
    → DistinctKeys l
    → (ks : List Text) → canonical_lines l ks ≡ canonical_lines m ks
unfolding canonical_lines
canonical_lines-permᴰ p h [] = refl
canonical_lines-permᴰ p h (k ∷ ks) = rw (label-permᴰ p k h, canonical_lines-permᴰ p h ks)

encode_members-permᴰ :
    (quote : Text → Text) {l m : Labels}
    → Permᴰ l m
    → DistinctKeys l
    → (ks : List Text) → encode_members quote l ks ≡ encode_members quote m ks
unfolding encode_members
encode_members-permᴰ quote p h [] = refl
encode_members-permᴰ quote p h (k ∷ []) = rw (label-permᴰ p k h)
encode_members-permᴰ quote p h (k ∷ j ∷ ks) =
    rw (label-permᴰ p k h, encode_members-permᴰ quote p h (j ∷ ks))

Text-set : IsSet Text
Text-set = hlevel

sorted_keys-permᴰ : {l m : Labels} → Permᴰ l m → sort_strings (keys l) ≡ sort_strings (keys m)
sorted_keys-permᴰ p = sort_strings-permᴰ (keys-permᴰ p)

canonical-permᴰ : (l m : Labels) → Permᴰ l m → DistinctKeys l → canonical l ≡ canonical m
unfolding canonical
canonical-permᴰ [] [] p h = refl
canonical-permᴰ [] (f ∷ m) p h = absurd (nil≢cons p)
canonical-permᴰ (e ∷ l) [] p h = absurd (cons≢nil p)
canonical-permᴰ (e ∷ l) (f ∷ m) p h =
    canonical_lines-permᴰ p h _ ∙ ap (canonical_lines (f ∷ m)) (sorted_keys-permᴰ p)

encode_labels-permᴰ :
    (quote : Text → Text) (l m : Labels)
    → Permᴰ l m
    → DistinctKeys l
    → encode_labels quote l ≡ encode_labels quote m
unfolding encode_labels
encode_labels-permᴰ quote [] [] p h = refl
encode_labels-permᴰ quote [] (f ∷ m) p h = absurd (nil≢cons p)
encode_labels-permᴰ quote (e ∷ l) [] p h = absurd (cons≢nil p)
encode_labels-permᴰ quote (e ∷ l) (f ∷ m) p h =
    ap (λ (s : Text). b'{' ∷ (s ++ codes "}"))
      (encode_members-permᴰ quote p h _ ∙ ap (encode_members quote (f ∷ m)) (sorted_keys-permᴰ p))

-- In whatever order the runtime iterates over a label map, the fingerprint of the map and the JSON
-- text that is stored for it are the same.
pub labels_order_free :
    (sha256_hex quote : Text → Text) (l m : Labels)
    → DistinctKeys l
    → Perm l m
    → (fingerprint sha256_hex l ≡ fingerprint sha256_hex m)
      × (encode_labels quote l ≡ encode_labels quote m)
unfolding fingerprint
labels_order_free sha256_hex quote l m h p = (
  ap sha256_hex (∥∥₁_elim p (Text-set _ _) (λ q. canonical-permᴰ l m q h)),
  ∥∥₁_elim p (Text-set _ _) (λ q. encode_labels-permᴰ quote l m q h),
)
