-- ===== src/Alerts/Store/States.antt =====
-- The rows of `alert_state` by their primary key: what an upsert and an update do to each.
use monitorbeat.Base.{
  ℕ, ◌≡◌, refl, Bool, ◌&&◌, Option, none, some, List, [], ◌∷◌, filter, find, arith, ◌==◌,
  if◌then◌else◌,
}
use mathlib.Core.Option
use monitorbeat.Base.Text.{Text, text_eq, text_eq_iff}
use monitorbeat.Alerts.Models.{StateRow}
use monitorbeat.Alerts.Store.{same_key, excluded, upsert_row, update_key, active_rows, is_active}

-- The row of a key.
abbrev pub row : ℕ → Text → List StateRow → Option StateRow
row rule_id fp = find (same_key rule_id fp)

abbrev pub merged : StateRow → Option StateRow → StateRow
merged new none = new
merged new (some old) = excluded new old

-- After an upsert its own key has the new row, or the old row with the named columns replaced;
-- every other key is as before.
pub row-upsert_row :
    (rule_id : ℕ) (fp : Text) (new : StateRow) (l : List StateRow)
    → row rule_id fp (upsert_row new l)
      ≡ (if same_key rule_id fp new then some (merged new (row rule_id fp l)) else row rule_id fp l)
unfolding upsert_row
row-upsert_row rule_id fp new [] = ground arith
row-upsert_row rule_id fp new (s ∷ l) = ground (
  arith,
  row-upsert_row rule_id fp new l,
  text_eq_iff new.fingerprint fp,
  text_eq_iff s.fingerprint fp,
  text_eq_iff s.fingerprint new.fingerprint,
)

-- An update of a key that leaves keys alone changes the row of that key only.
pub row-update_key :
    (r : ℕ) (f : Text) (g : StateRow → StateRow)
    → ((s : StateRow) → ((g s).rule_id ≡ s.rule_id) × ((g s).fingerprint ≡ s.fingerprint))
    → (rule_id : ℕ) (fp : Text) (l : List StateRow)
    → row rule_id fp (update_key r f g l)
      ≡ (if r == rule_id && text_eq f fp then Option.map g (row rule_id fp l) else row rule_id fp l)
unfolding update_key
row-update_key r f g k rule_id fp [] = ground arith
row-update_key r f g k rule_id fp (s ∷ l) = ground (
  arith,
  row-update_key r f g k rule_id fp l,
  k s,
  text_eq_iff f fp,
  text_eq_iff s.fingerprint fp,
  text_eq_iff s.fingerprint f,
)

-- No key stands in two rows: the PRIMARY KEY constraint.
abbrev pub IsKeyed : List StateRow → Type 0
IsKeyed [] = Unit
IsKeyed (s ∷ l) = (row s.rule_id s.fingerprint l ≡ none) × IsKeyed l

pub upsert_row-IsKeyed :
    (new : StateRow) (l : List StateRow) → IsKeyed l → IsKeyed (upsert_row new l)
unfolding upsert_row
upsert_row-IsKeyed new [] h = (refl, tt)
upsert_row-IsKeyed new (s ∷ l) h = ground (
  arith,
  upsert_row-IsKeyed new l h.1,
  row-upsert_row s.rule_id s.fingerprint new l,
  text_eq_iff s.fingerprint new.fingerprint,
  text_eq_iff new.fingerprint s.fingerprint,
)

pub update_key-IsKeyed :
    (r : ℕ) (f : Text) (g : StateRow → StateRow)
    → ((s : StateRow) → ((g s).rule_id ≡ s.rule_id) × ((g s).fingerprint ≡ s.fingerprint))
    → (l : List StateRow) → IsKeyed l
    → IsKeyed (update_key r f g l)
unfolding update_key
update_key-IsKeyed r f g k [] h = tt
update_key-IsKeyed r f g k (s ∷ l) h =
    ground (
      arith,
      k s,
      update_key-IsKeyed r f g k l h.1,
      row-update_key r f g k s.rule_id s.fingerprint l,
    )

row-filter :
    (rule_id : ℕ) (fp : Text) (p : StateRow → Bool) (l : List StateRow)
    → row rule_id fp l ≡ none
    → row rule_id fp (filter p l) ≡ none
row-filter rule_id fp p [] h = refl
row-filter rule_id fp p (s ∷ l) h = ground (arith, row-filter rule_id fp p l)

pub filter-IsKeyed : (p : StateRow → Bool) (l : List StateRow) → IsKeyed l → IsKeyed (filter p l)
filter-IsKeyed p [] h = tt
filter-IsKeyed p (s ∷ l) h =
    ground (arith, filter-IsKeyed p l h.1, row-filter s.rule_id s.fingerprint p l h.0)

-- A row that the query for active states returns.
abbrev pub active_only : Option StateRow → Option StateRow
active_only none = none
active_only (some s) = if is_active s.status then some s else none

-- Where keys are distinct, the first active row of a rule with a fingerprint is the row of the key.
pub find-active_rows :
    (rule_id : ℕ) (fp : Text) (l : List StateRow)
    → IsKeyed l
    → find (λ s. text_eq s.fingerprint fp) (active_rows rule_id l) ≡ active_only (row rule_id fp l)
unfolding active_rows
find-active_rows rule_id fp [] h = refl
find-active_rows rule_id fp (s ∷ l) h =
    ground (arith, find-active_rows rule_id fp l h.1, text_eq_iff s.fingerprint fp)
