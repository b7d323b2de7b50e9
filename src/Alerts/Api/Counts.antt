-- ===== src/Alerts/Api/Counts.antt =====
-- The answer of the status endpoint.
use mathlib.Core.List.{append-nil, append_assoc}
use monitorbeat.Base.{
  ℕ, suc, ◌+◌, ◌≡◌, refl, sym, ap, ◌∙◌, List, [], ◌∷◌, ◌++◌, map, filter, length, length-append,
  Bool-cases, inl, inr, arith, if◌then◌else◌,
}
use monitorbeat.Alerts.Models.{AlertRule, AlertState, World, Env}
use monitorbeat.Alerts.Monad.{value}
use monitorbeat.Alerts.Store.Rules.{list_rules}
use monitorbeat.Alerts.Evaluator.Due.{is_firing}
use monitorbeat.Alerts.Api.{
  StatusItem, StatusResponse, status_item, count_state, count_states, count_rules, status,
  handle_status,
}

-- The items of one rule, and of all of them in order: those of the firing states.
abbrev pub rule_items : AlertRule → List AlertState → List StatusItem
rule_items r l = map (status_item r) (filter (λ s. is_firing s.status) l)

abbrev pub all_items : List AlertRule → List StatusItem
all_items [] = []
all_items (r ∷ l) = rule_items r r.states ++ all_items l

abbrev pub count_acknowledged : List StatusItem → ℕ
count_acknowledged [] = 0
count_acknowledged (i ∷ l) =
    if i.acknowledged then suc (count_acknowledged l) else count_acknowledged l

count_acknowledged-append :
    (l m : List StatusItem)
    → count_acknowledged (l ++ m) ≡ count_acknowledged l + count_acknowledged m
count_acknowledged-append [] m = omega arith
count_acknowledged-append (i ∷ l) m = ground (arith, count_acknowledged-append l m)

-- The counters of a response agree with its items.
abbrev pub Agrees : StatusResponse → Type 0
Agrees p = (p.firing_count ≡ length p.items) × (p.acknowledged_count ≡ count_acknowledged p.items)

count_state-Agrees :
    (r : AlertRule) (p : StatusResponse) (s : AlertState) → Agrees p → Agrees (count_state r p s)
unfolding count_state
count_state-Agrees r p s h = ground (
  arith,
  length-append p.items (status_item r s ∷ []),
  count_acknowledged-append p.items (status_item r s ∷ []),
)

items-count_state :
    (r : AlertRule) (p : StatusResponse) (s : AlertState)
    → (count_state r p s).items
      ≡ (if is_firing s.status then p.items ++ status_item r s ∷ [] else p.items)
unfolding count_state
items-count_state r p s = ground arith

items_cons :
    (r : AlertRule) (p : StatusResponse) (s : AlertState) (l : List AlertState)
    → (count_state r p s).items ++ rule_items r l ≡ p.items ++ rule_items r (s ∷ l)
items_cons r p s l = rw (items-count_state r p s) (elim (Bool-cases (is_firing s.status)) [
  | inl e ↦ rw e (append_assoc p.items (status_item r s ∷ []) (rule_items r l))
  | inr e ↦ rw e refl
])

count_states_lem :
    (r : AlertRule) (p : StatusResponse) (l : List AlertState)
    → Agrees p
    → ((count_states r p l).items ≡ p.items ++ rule_items r l) × Agrees (count_states r p l)
unfolding count_states
count_states_lem r p [] h = (sym (append-nil p.items), h)
count_states_lem r p (s ∷ l) h =
    let (same, agrees) = count_states_lem r (count_state r p s) l (count_state-Agrees r p s h) in
    (same ∙ items_cons r p s l, agrees)

count_rules_lem :
    (p : StatusResponse) (l : List AlertRule)
    → Agrees p
    → ((count_rules p l).items ≡ p.items ++ all_items l) × Agrees (count_rules p l)
unfolding count_rules
count_rules_lem p [] h = (sym (append-nil p.items), h)
count_rules_lem p (r ∷ l) h =
    let (same, agrees) = count_states_lem r p r.states h in
    let (later, agree) = count_rules_lem (count_states r p r.states) l agrees in
    (
      later
          ∙ ap (λ m. m ++ all_items l) same
          ∙ append_assoc p.items (rule_items r r.states) (all_items l),
      agree,
    )

-- Where the rules are read, the status endpoint answers with the firing states of all rules in
-- their order; `firing_count` is their number and `acknowledged_count` the number of those with an
-- acknowledgement.
pub handle_status_counts :
    (env : Env) (w : World) (l : List AlertRule)
    → (list_rules env w).0 ≡ value l
    → (r : StatusResponse) × ((handle_status env w).0 ≡ value (status r))
      × (r.items ≡ all_items l)
      × (r.firing_count ≡ length r.items)
      × (r.acknowledged_count ≡ count_acknowledged r.items)
unfolding handle_status
handle_status_counts env w l e =
    let start : StatusResponse = record { firing_count = 0; acknowledged_count = 0; items = [] } in
    let (same, agree) = count_rules_lem start l (refl, refl) in
    (count_rules start l, rw e refl, same, agree.0, agree.1)
