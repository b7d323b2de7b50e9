-- ===== src/Daemon/Collections.antt =====
-- The containers of github.com/emirpasic/gods that the scheduler uses, as interfaces: their
-- operations, and the documented behaviour that the scheduler relies on.
use mathlib.Core.List.{Perm}
use monitorbeat.Base.{
  ℕ, ◌≤◌, ◌≡◌, Bool, Option, none, some, List, [], ◌∷◌, ◌++◌, All, if◌then◌else◌,
}
use monitorbeat.Base.Text.{Text, text_eq}

-- A list in ascending order of its keys.
abbrev pub IsSorted : {A : Type 0} → (A → ℕ) → List A → Type 0
IsSorted key [] = Unit
IsSorted key (a ∷ l) = All (λ b. key a ≤ key b) l × IsSorted key l

abbrev pub tail : {A : Type 0} → List A → List A
tail [] = []
tail (a ∷ l) = l

-- `doublylinkedlist.List` of values with a sort key; `values` is what its iterator visits.
-- `Sort` is not stable.
pub record LinkedList (A : Type 0) (key : A → ℕ) : Type 1 where
  pub Carrier : Type 0
  pub new : Carrier
  pub add : Carrier → A → Carrier
  pub sort : Carrier → Carrier
  pub remove_first : Carrier → Carrier
  pub values : Carrier → List A
  pub values-new : values new ≡ []
  pub values-add : (c : Carrier) (a : A) → values (add c a) ≡ values c ++ a ∷ []
  pub values-sort : (c : Carrier) → Perm (values (sort c)) (values c)
  pub sort-IsSorted : (c : Carrier) → IsSorted key (values (sort c))
  pub values-remove_first : (c : Carrier) → values (remove_first c) ≡ tail (values c)

-- The value of a key among entries.
unfoldable pub entry : {V : Type 0} → Text → List (Text × V) → Option V
entry k [] = none
entry k ((j, v) ∷ l) = if text_eq j k then some v else entry k l

unfoldable pub has_entry : {V : Type 0} → Text → List (Text × V) → Bool
has_entry k l = elim (entry k l) [ none ↦ Bool.false | some v ↦ Bool.true ]

-- The values of entries, in order.
abbrev pub values_of : {V : Type 0} → List (Text × V) → List V
values_of [] = []
values_of ((k, v) ∷ l) = v ∷ values_of l

-- No key stands in two entries.
abbrev pub DistinctEntries : {V : Type 0} → List (Text × V) → Type 0
DistinctEntries [] = Unit
DistinctEntries ((k, v) ∷ l) = (entry k l ≡ none) × DistinctEntries l

-- `treemap.Map` with string keys; `entries` is what its iterator visits.
pub record TreeMap (V : Type 0) : Type 1 where
  pub Map : Type 0
  pub empty : Map
  pub put : Text → V → Map → Map
  pub remove : Text → Map → Map
  pub get : Text → Map → Option V
  pub entries : Map → List (Text × V)
  pub get-empty : (k : Text) → get k empty ≡ none
  pub get-put :
      (j k : Text) (v : V) (m : Map) → get k (put j v m) ≡ (if text_eq j k then some v else get k m)
  pub get-remove :
      (j k : Text) (m : Map) → get k (remove j m) ≡ (if text_eq j k then none else get k m)
  pub entry-entries : (k : Text) (m : Map) → entry k (entries m) ≡ get k m
  pub entries-distinct : (m : Map) → DistinctEntries (entries m)
