-- ===== src/Input/Offsets/Restore.antt =====
-- The offsets that a saved registry gives back.
use monitorbeat.Base.{
  ℕ, ◌≡◌, ◌≢◌, refl, sym, ap, subst, ◌∙◌, Bool, false, ◌&&◌, ◌==◌, Option, none, some, List, [],
  ◌∷◌, arith, if◌then◌else◌, Bool-cases, Option-cases, inl, inr,
}
use monitorbeat.Base.Int.{ℤ, pos}
use monitorbeat.Base.Text.{Text, text_eq, text_eq→≡, text_eq_refl, text_eq_iff}
use monitorbeat.Input.Decimal.{decimal, decimal_injective, lacks-decimal, split_last}
use monitorbeat.Input.Offsets.{
  OffsetEntry, Data, key, lookup, put, get, set, entries, put_entries, Files, ok, Faults,
  write_temporary, save, load, new_offset_registry,
}

key_injective : (p q : Text) (i j : ℕ) → key p i ≡ key q j → (p ≡ q) × (i ≡ j)
unfolding key
key_injective p q i j e =
    let (paths, inodes) =
      split_last b':' p q (decimal i) (decimal j) (lacks-decimal b':' i refl)
        (lacks-decimal b':' j refl) e in
    (paths, decimal_injective i j inodes)

-- Every entry is under its key, and a key has one entry.
pub IsKeyed : Data → Type 0
IsKeyed [] = Unit
IsKeyed ((j, e) ∷ l) = (j ≡ key e.path e.inode) × (lookup j l ≡ none) × IsKeyed l

lookup-put :
    (k j : Text) (e : OffsetEntry) (l : Data)
    → lookup k (put j e l) ≡ (if text_eq j k then some e else lookup k l)
unfolding lookup put
lookup-put k j e [] = refl
lookup-put k j e ((i, f) ∷ l) =
    ground (arith, lookup-put k j e l, text_eq_iff i j, text_eq_iff j k, text_eq_iff i k)

put-IsKeyed : (e : OffsetEntry) (l : Data) → IsKeyed l → IsKeyed (put (key e.path e.inode) e l)
unfolding put lookup IsKeyed
put-IsKeyed e [] h = (refl, refl, tt)
put-IsKeyed e ((j, f) ∷ l) (same, fresh, rest) =
    let k = key e.path e.inode in
    let first = λ (b : Bool). IsKeyed (if b then (k, e) ∷ l else (j, f) ∷ put k e l) in
    elim (Bool-cases (text_eq j k)) [
      | inl b ↦
          subst first (sym b) (refl, ap (λ i. lookup i l) (sym (text_eq→≡ j k b)) ∙ fresh, rest)
      | inr b ↦
          let kept : lookup j (put k e l) ≡ none =
            lookup-put j k e l ∙ ground (arith, fresh, text_eq_iff k j, text_eq_iff j k) in
          subst first (sym b) (same, kept, put-IsKeyed e l rest)
    ]

or_else : Option OffsetEntry → Option OffsetEntry → Option OffsetEntry
or_else none o = o
or_else (some e) o = some e

lookup-put_entries :
    (k : Text) (l known : Data)
    → IsKeyed l
    → lookup k (put_entries (entries l) known) ≡ or_else (lookup k l) (lookup k known)
unfolding put_entries entries lookup or_else IsKeyed
lookup-put_entries k [] known h = refl
lookup-put_entries k ((j, e) ∷ l) known (same, fresh, rest) =
    let later = lookup-put_entries k l (put (key e.path e.inode) e known) rest in
    let found = lookup-put k (key e.path e.inode) e known in
    elim (Bool-cases (text_eq j k)) [
      | inl b ↦ ground (arith, later, found, same, fresh, text_eq_iff j k)
      | inr b ↦ ground (arith, later, found, same)
    ]

key_eq : (p q : Text) (i j : ℕ) → text_eq (key q j) (key p i) ≡ (text_eq q p && (j == i))
key_eq p q i j = elim (Bool-cases (text_eq (key q j) (key p i))) [
  | inl b ↦
      let (paths, inodes) = key_injective q p j i (text_eq→≡ _ _ b) in
      b ∙ ground (arith, paths, inodes, text_eq_iff q p)
  | inr b ↦ ground (arith, b, text_eq_iff q p, text_eq_refl (key p i))
]

get-set :
    (known : Data) (p q : Text) (i j : ℕ) (off : ℤ)
    → get (set known q j off) p i ≡ (if text_eq q p && (j == i) then off else get known p i)
unfolding get set
get-set known p q i j off =
    let e : OffsetEntry = record { path = q; inode = j; off = off } in
    ground (arith, lookup-put (key p i) (key q j) e known, key_eq p q i j)

pub get-set_same : (known : Data) (p : Text) (i : ℕ) (off : ℤ) → get (set known p i off) p i ≡ off
get-set_same known p i off = get-set known p p i i off ∙ ground (arith, text_eq_refl p)

unfoldable pub set_all : List OffsetEntry → Data → Data
set_all [] known = known
set_all (e ∷ l) known = set_all l (set known e.path e.inode e.off)

-- The offset of the last call for this file, or `before` if there is none.
abbrev pub last_offset : Text → ℕ → ℤ → List OffsetEntry → ℤ
last_offset p i before [] = before
last_offset p i before (e ∷ l) =
    last_offset p i (if text_eq e.path p && (e.inode == i) then e.off else before) l

get-set_all :
    (l : List OffsetEntry) (known : Data) (p : Text) (i : ℕ)
    → get (set_all l known) p i ≡ last_offset p i (get known p i) l
unfolding set_all
get-set_all [] known p i = refl
get-set_all (e ∷ l) known p i =
    get-set_all l (set known e.path e.inode e.off) p i
    ∙ ap (λ o. last_offset p i o l) (get-set known p e.path i e.inode e.off)

set_all-IsKeyed : (l : List OffsetEntry) (known : Data) → IsKeyed known → IsKeyed (set_all l known)
unfolding set_all set
set_all-IsKeyed [] known h = h
set_all-IsKeyed (e ∷ l) known h = set_all-IsKeyed l _ (put-IsKeyed e known h)

or_else-none : (o : Option OffsetEntry) → or_else o none ≡ o
unfolding or_else
or_else-none none = refl
or_else-none (some e) = refl

-- A registry that is loaded from its own entries gives the same offsets.
get-put_entries :
    (known : Data) (p : Text) (i : ℕ)
    → IsKeyed known
    → get (put_entries (entries known) []) p i ≡ get known p i
unfolding get lookup
get-put_entries known p i h =
    ap (λ o. elim o as (λ x. ℤ) [ none ↦ pos 0 | some e ↦ e.off ])
      (lookup-put_entries (key p i) known [] h ∙ or_else-none (lookup (key p i) known))

abbrev pub quiet : Faults
quiet = record { mkdir = false; read = false; write = none; rename = false }

module _ (marshal : List OffsetEntry → Option Text)
    (unmarshal : Text → Option (List OffsetEntry)) where
  saved_then_read :
      (known : Data) (files : Files) (b : Text)
      → marshal (entries known) ≡ some b
      → unmarshal b ≡ some (entries known)
      → let (error, after) = save marshal unmarshal quiet known files in
        (error ≡ none)
        × (new_offset_registry marshal unmarshal quiet after ≡ ok (put_entries (entries known) []))
  unfolding save write_temporary new_offset_registry load
  saved_then_read known files b m u = ground (arith, m, u)

  -- Where JSON gives back the entries of the registry and no call fails: a registry that is saved
  -- after any calls of `Set`, and then read by `NewOffsetRegistry`, gives for every path and inode
  -- the offset of the last call for both, and 0 where there was none.
  pub restore_lem :
      (calls : List OffsetEntry) (files : Files) (b : Text)
      → let known = set_all calls [] in
        let (error, after) = save marshal unmarshal quiet known files in
        marshal (entries known) ≡ some b
        → unmarshal b ≡ some (entries known)
        → (error ≡ none)
          × (restored : Data) × (new_offset_registry marshal unmarshal quiet after ≡ ok restored)
          × ((p : Text) (i : ℕ) → get restored p i ≡ last_offset p i (pos 0) calls)
  unfolding get lookup IsKeyed
  restore_lem calls files b m u =
      let known = set_all calls [] in
      let (saved, read) = saved_then_read known files b m u in
      (
        saved,
        put_entries (entries known) [],
        read,
        λ p i. get-put_entries known p i (set_all-IsKeyed calls [] tt) ∙ get-set_all calls [] p i,
      )

  -- Whatever calls fail, and however much of a failing write reaches the disk: after a `Save`
  -- without an error the file holds the entries, and after one with an error what it held before.
  pub save_lem :
      (faults : Faults) (known : Data) (files : Files)
      → let (error, after) = save marshal unmarshal faults known files in
        (error ≡ none → after.saved ≡ marshal (entries known))
        × (error ≢ none → after.saved ≡ files.saved)
  unfolding save write_temporary
  save_lem faults known files = elim (Option-cases (marshal (entries known))) [
    | inl e ↦ ground (arith, e)
    | inr (b, e) ↦ elim (Option-cases faults.write) [
      | inl w ↦ ground (arith, e, w)
      | inr (partial, w) ↦ ground (arith, e, w)
    ]
  ]
