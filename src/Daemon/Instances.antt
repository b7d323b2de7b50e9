-- ===== src/Daemon/Instances.antt =====
-- The containers' interfaces filled by lists: insertion sort, and entries without repeated keys.
use mathlib.Core.List.{Perm}
use mathlib.Core.List.Perm
use monitorbeat.Base.{
  ℕ, ◌≤◌, ◌≡◌, refl, none, some, List, [], ◌∷◌, ◌++◌, arith, leb, All, if◌then◌else◌, Bool-cases,
  inl, inr,
}
use monitorbeat.Base.Text.{Text, text_eq, text_eq_iff, text_eq_refl}
use monitorbeat.Daemon.Collections.{LinkedList, TreeMap, IsSorted, tail, entry, DistinctEntries}

module _ {A : Type 0} (key : A → ℕ) where
  unfoldable pub insert : A → List A → List A
  insert a [] = a ∷ []
  insert a (b ∷ l) = if leb (key a) (key b) then a ∷ b ∷ l else b ∷ insert a l

  unfoldable pub sort : List A → List A
  unfolding insert
  sort [] = []
  sort (a ∷ l) = insert a (sort l)

  insert-Perm : (a : A) (l : List A) → Perm (insert a l) (a ∷ l)
  unfolding insert
  insert-Perm a [] = Perm.refl (a ∷ [])
  insert-Perm a (b ∷ l) = elim (Bool-cases (leb (key a) (key b))) [
    | inl e ↦ rw e (Perm.refl (a ∷ b ∷ l))
    | inr e ↦ rw e (Perm.trans (Perm.cons b (insert-Perm a l)) (Perm.swap a b l))
  ]

  pub sort-Perm : (l : List A) → Perm (sort l) l
  unfolding sort
  sort-Perm [] = Perm.refl []
  sort-Perm (a ∷ l) = Perm.trans (insert-Perm a (sort l)) (Perm.cons a (sort-Perm l))

  above-insert :
      (n : ℕ) (a : A) (l : List A)
      → n ≤ key a
      → All (λ b. n ≤ key b) l
      → All (λ b. n ≤ key b) (insert a l)
  unfolding insert
  above-insert n a [] h u = (h, tt)
  above-insert n a (b ∷ l) h u = elim (Bool-cases (leb (key a) (key b))) [
    | inl e ↦ rw e (h, u)
    | inr e ↦ rw e (u.0, above-insert n a l h u.1)
  ]

  above-weaken : (n m : ℕ) (l : List A) → n ≤ m → All (λ b. m ≤ key b) l → All (λ b. n ≤ key b) l
  above-weaken n m [] h u = tt
  above-weaken n m (b ∷ l) h u = (omega arith, above-weaken n m l h u.1)

  insert-IsSorted : (a : A) (l : List A) → IsSorted key l → IsSorted key (insert a l)
  unfolding insert
  insert-IsSorted a [] s = (tt, tt)
  insert-IsSorted a (b ∷ l) s = elim (Bool-cases (leb (key a) (key b))) [
    | inl e ↦
        let below : key a ≤ key b = ground arith in
        rw e ((below, above-weaken (key a) (key b) l below s.0), s)
    | inr e ↦
        let below : key b ≤ key a = ground arith in
        rw e (above-insert (key b) a l below s.0, insert-IsSorted a l s.1)
  ]

  pub sort-IsSorted : (l : List A) → IsSorted key (sort l)
  unfolding sort
  sort-IsSorted [] = tt
  sort-IsSorted (a ∷ l) = insert-IsSorted a (sort l) (sort-IsSorted l)

module _ {V : Type 0} where
  unfoldable pub remove_entry : Text → List (Text × V) → List (Text × V)
  remove_entry j [] = []
  remove_entry j ((k, v) ∷ l) = if text_eq k j then remove_entry j l else (k, v) ∷ remove_entry j l

  pub entry-remove_entry :
      (j k : Text) (l : List (Text × V))
      → entry k (remove_entry j l) ≡ (if text_eq j k then none else entry k l)
  unfolding remove_entry entry
  entry-remove_entry j k [] = ground arith
  entry-remove_entry j k ((i, v) ∷ l) =
      ground (arith, entry-remove_entry j k l, text_eq_iff i j, text_eq_iff j k, text_eq_iff i k)

  pub remove_entry-distinct :
      (j : Text) (l : List (Text × V)) → DistinctEntries l → DistinctEntries (remove_entry j l)
  unfolding remove_entry
  remove_entry-distinct j [] d = tt
  remove_entry-distinct j ((k, v) ∷ l) d = elim (Bool-cases (text_eq k j)) [
    | inl e ↦ rw e (remove_entry-distinct j l d.1)
    | inr e ↦
        let removed = entry-remove_entry j k l in
        let new = d.0 in rw e (ground arith, remove_entry-distinct j l d.1)
  ]

  pub entry_of_removed : (k : Text) (l : List (Text × V)) → entry k (remove_entry k l) ≡ none
  entry_of_removed k l = ground (arith, entry-remove_entry k k l, text_eq_refl k)

  pub entry-empty : (k : Text) → entry {V = V} k [] ≡ none
  unfolding entry
  entry-empty k = refl

  pub entry-put :
      (j k : Text) (v : V) (l : List (Text × V))
      → entry k ((j, v) ∷ remove_entry j l) ≡ (if text_eq j k then some v else entry k l)
  unfolding entry
  entry-put j k v l = ground (arith, entry-remove_entry j k l)

abbrev pub linked_list : {A : Type 0} (key : A → ℕ) → LinkedList A key
linked_list {A} key = record {
  Carrier = List A;
  new = [];
  add = λ c a. c ++ a ∷ [];
  sort = sort key;
  remove_first = tail;
  values = λ c. c;
  values-new = refl;
  values-add = λ c a. refl;
  values-sort = sort-Perm key;
  sort-IsSorted = sort-IsSorted key;
  values-remove_first = λ c. refl;
}

abbrev pub tree_map : (V : Type 0) → TreeMap V
tree_map V = record {
  Map = (l : List (Text × V)) × DistinctEntries l;
  empty = ([], tt);
  put = λ k v m.
      ((k, v) ∷ remove_entry k m.0, (entry_of_removed k m.0, remove_entry-distinct k m.0 m.1));
  remove = λ k m. (remove_entry k m.0, remove_entry-distinct k m.0 m.1);
  get = λ k m. entry k m.0;
  entries = λ m. m.0;
  get-empty = λ k. entry-empty k;
  get-put = λ j k v m. entry-put j k v m.0;
  get-remove = λ j k m. entry-remove_entry j k m.0;
  entry-entries = λ k m. refl;
  entries-distinct = λ m. m.1;
}
