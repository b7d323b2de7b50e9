-- ===== src/Alerts/Labels/Injective.antt =====
-- When two label sets have the same hash input: what the `key=value\n` lines determine.
use mathlib.Core.List.{append_assoc}
use monitorbeat.Base.{
  ℕ, ◌≡◌, refl, sym, ap, ap₂, subst, ◌∙◌, Bool, true, false, not, ◌&&◌, ◌||◌, List, [], ◌∷◌, ◌++◌,
  arith, Bool-cases, inl, inr, ◌==◌, All,
}
use monitorbeat.Base.Text.{
  Text, codes, text_eq, text_eq→≡, text_eq_refl, text_lt, text_lt_asym, text_lt_ne,
}
use monitorbeat.Alerts.Labels.{
  Labels, label, has_key, keys, insert_string, sort_strings, canonical_lines, canonical,
  fingerprint,
}

-- No byte of the text is `c`.
unfoldable pub lacks : ℕ → Text → Bool
lacks c [] = true
lacks c (x ∷ s) = not (x == c) && lacks c s

-- No key holds an equals sign and no value a newline.
abbrev pub IsClean : Labels → Type 0
IsClean = All (λ (e : Text × Text). (lacks b'=' e.0 ≡ true) × (lacks 0x0a e.1 ≡ true))

-- A text is read back up to the first separator.
split_at :
    (c : ℕ) (s t r q : Text)
    → lacks c s ≡ true
    → lacks c t ≡ true
    → s ++ (c ∷ r) ≡ t ++ (c ∷ q)
    → (s ≡ t) × (r ≡ q)
unfolding lacks
split_at c [] [] r q h k e = ground arith
split_at c [] (y ∷ t) r q h k e = ground arith
split_at c (x ∷ s) [] r q h k e = ground arith
split_at c (x ∷ s) (y ∷ t) r q h k e = ground (arith, split_at c s t r q)

not-lacks : (c : ℕ) (s r : Text) → lacks c (s ++ (c ∷ r)) ≡ false
unfolding lacks
not-lacks c [] r = ground arith
not-lacks c (x ∷ s) r = ground (arith, not-lacks c s r)

not-nil : (c : ℕ) (s r : Text) → [] ≡ s ++ (c ∷ r) → ⊥
not-nil c [] r e = cc
not-nil c (x ∷ s) r e = cc

lacks-label : (k : Text) (l : Labels) → IsClean l → lacks 0x0a (label k l) ≡ true
unfolding label lacks
lacks-label k [] h = refl
lacks-label k ((j, v) ∷ l) h = ground (arith, lacks-label k l h.1)

abbrev CleanKeys : List Text → Type 0
CleanKeys = All (λ (k : Text). lacks b'=' k ≡ true)

insert_string-CleanKeys :
    (k : Text) (l : List Text) → lacks b'=' k ≡ true → CleanKeys l → CleanKeys (insert_string k l)
unfolding insert_string
insert_string-CleanKeys k [] h c = (h, tt)
insert_string-CleanKeys k (j ∷ l) h c = ground (arith, insert_string-CleanKeys k l h c.1)

sorted-CleanKeys : (l : Labels) → IsClean l → CleanKeys (sort_strings (keys l))
unfolding sort_strings keys
sorted-CleanKeys [] c = tt
sorted-CleanKeys ((k, v) ∷ l) c =
    insert_string-CleanKeys k (sort_strings (keys l)) c.0.0 (sorted-CleanKeys l c.1)

-- The lines determine the keys and the values at them.
lines_injective :
    (l m : Labels) (ks js : List Text)
    → IsClean l
    → IsClean m
    → CleanKeys ks
    → CleanKeys js
    → canonical_lines l ks ≡ canonical_lines m js
    → (ks ≡ js) × All (λ k. label k l ≡ label k m) ks
unfolding canonical_lines
lines_injective l m [] [] cl cm ck cj e = (refl, tt)
lines_injective l m [] (j ∷ js) cl cm ck cj e = absurd (not-nil _ j _ e)
lines_injective l m (k ∷ ks) [] cl cm ck cj e = absurd (not-nil _ k _ (sym e))
lines_injective l m (k ∷ ks) (j ∷ js) cl cm ck cj e =
    let (same, rest) = split_at b'=' k j _ _ ck.0 cj.0 e in
    let (value, later) =
      split_at 0x0a (label k l) (label j m) _ _ (lacks-label k l cl) (lacks-label j m cm) rest in
    let (keys_eq, values) = lines_injective l m ks js cl cm ck.1 cj.1 later in
    (ap₂ (λ a b. a ∷ b) same keys_eq, (value ∙ ap (λ (a : Text). label a m) (sym same), values))

unfoldable has_text : Text → List Text → Bool
has_text k [] = false
has_text k (j ∷ l) = text_eq j k || has_text k l

has_text-insert_string :
    (k j : Text) (l : List Text) → has_text k (insert_string j l) ≡ (text_eq j k || has_text k l)
unfolding has_text insert_string
has_text-insert_string k j [] = refl
has_text-insert_string k j (i ∷ l) = ground (arith, has_text-insert_string k j l)

has_text-sorted : (k : Text) (l : Labels) → has_text k (sort_strings (keys l)) ≡ has_key k l
unfolding has_text sort_strings keys has_key
has_text-sorted k [] = refl
has_text-sorted k ((j, v) ∷ l) =
    has_text-insert_string k j (sort_strings (keys l))
    ∙ ap (λ b. text_eq j k || b) (has_text-sorted k l)

label_missing : (k : Text) (l : Labels) → has_key k l ≡ false → label k l ≡ []
unfolding label has_key
label_missing k [] h = refl
label_missing k ((j, v) ∷ l) h = ground (arith, label_missing k l)

label_listed :
    (k : Text) (l m : Labels) (ks : List Text)
    → All (λ j. label j l ≡ label j m) ks
    → has_text k ks ≡ true
    → label k l ≡ label k m
unfolding has_text
label_listed k l m [] a h = cc
label_listed k l m (j ∷ ks) a h = elim (Bool-cases (text_eq j k)) [
  | inl hit ↦ subst (λ i. label i l ≡ label i m) (text_eq→≡ j k hit) a.0
  | inr miss ↦ label_listed k l m ks a.1 (ground arith)
]

abbrev pub SameLabels : Labels → Labels → Type 0
SameLabels l m = (k : Text) → (has_key k l ≡ has_key k m) × (label k l ≡ label k m)

same_of_lines :
    (l m : Labels)
    → IsClean l
    → IsClean m
    → canonical_lines l (sort_strings (keys l)) ≡ canonical_lines m (sort_strings (keys m))
    → SameLabels l m
same_of_lines l m cl cm e k = elim (Bool-cases (has_key k l)) [
  | inl h ↦ (has_same, label_listed k l m _ found.1 (has_text-sorted k l ∙ h))
  | inr h ↦ (has_same, label_missing k l h ∙ sym (label_missing k m (sym has_same ∙ h)))
]
  where
    found :
        (sort_strings (keys l) ≡ sort_strings (keys m))
        × All (λ j. label j l ≡ label j m) (sort_strings (keys l))
    found = lines_injective l m _ _ cl cm (sorted-CleanKeys l cl) (sorted-CleanKeys m cm) e

    has_same : has_key k l ≡ has_key k m
    has_same = sym (has_text-sorted k l) ∙ ap (has_text k) found.0 ∙ has_text-sorted k m

braces-ne-lines : (m : Labels) (ks : List Text) → codes "{}" ≡ canonical_lines m ks → ⊥
unfolding canonical_lines lacks
braces-ne-lines m [] e = cc
braces-ne-lines m (k ∷ ks) e =
    cc (ap (lacks b'=') e, not-lacks b'=' k (label k m ++ (0x0a ∷ canonical_lines m ks)))

-- Where no key holds `=` and no value a newline, two label sets with the same hash input have the
-- same keys with the same values: the lines lose nothing.
pub canonical_injective :
    (l m : Labels) → IsClean l → IsClean m → canonical l ≡ canonical m → SameLabels l m
unfolding canonical
canonical_injective [] [] cl cm e = λ k. (refl, refl)
canonical_injective [] (f ∷ m) cl cm e = absurd (braces-ne-lines (f ∷ m) _ e)
canonical_injective (f ∷ l) [] cl cm e = absurd (braces-ne-lines (f ∷ l) _ (sym e))
canonical_injective (f ∷ l) (g ∷ m) cl cm e = same_of_lines (f ∷ l) (g ∷ m) cl cm e

-- A newline in a value breaks this: for two keys in order, a set of two labels and a set of one
-- have the same fingerprint, whatever the hash.
pub fingerprint_collision :
    (sha256_hex : Text → Text) (j k v w : Text)
    → text_lt j k ≡ true
    → fingerprint sha256_hex ((j, v) ∷ (k, w) ∷ [])
      ≡ fingerprint sha256_hex ((j, v ++ (0x0a ∷ (k ++ (b'=' ∷ w)))) ∷ [])
unfolding fingerprint canonical label
fingerprint_collision sha256_hex j k v w h =
    ap sha256_hex (
      rw (text_lt_asym j k h, text_eq_refl j, text_eq_refl k, text_lt_ne j k h) (simp append_assoc))
