-- ===== src/Registry/Store/Rows.antt =====
-- The rows of `agents` by hostname, through an upsert, a filter and `ORDER BY hostname`.
use monitorbeat.Base.{
  ◌≡◌, refl, ap, ◌∙◌, Bool, Option, none, some, List, [], ◌∷◌, filter, find, arith, if◌then◌else◌,
  Bool-cases, inl, inr,
}
use monitorbeat.Base.Text.{Text, text_eq, text_eq_iff, text_lt_irrefl}
use monitorbeat.Registry.Store.{AgentRow, upsert_agent, insert_by_hostname, order_by_hostname}

-- The row of a host.
abbrev pub agent : Text → List AgentRow → Option AgentRow
agent host = find (λ a. text_eq a.hostname host)

-- No hostname stands in two rows: the PRIMARY KEY constraint.
abbrev pub IsKeyed : List AgentRow → Type 0
IsKeyed [] = Unit
IsKeyed (a ∷ l) = (agent a.hostname l ≡ none) × IsKeyed l

pub agent-upsert_agent :
    (host : Text) (new : AgentRow) (l : List AgentRow)
    → agent host (upsert_agent new l)
      ≡ (if text_eq new.hostname host then some new else agent host l)
unfolding upsert_agent
agent-upsert_agent host new [] = ground arith
agent-upsert_agent host new (a ∷ l) = ground (
  arith,
  agent-upsert_agent host new l,
  text_eq_iff new.hostname host,
  text_eq_iff a.hostname host,
  text_eq_iff a.hostname new.hostname,
)

pub upsert_agent-IsKeyed :
    (new : AgentRow) (l : List AgentRow) → IsKeyed l → IsKeyed (upsert_agent new l)
unfolding upsert_agent
upsert_agent-IsKeyed new [] h = (refl, tt)
upsert_agent-IsKeyed new (a ∷ l) h = ground (
  arith,
  upsert_agent-IsKeyed new l h.1,
  agent-upsert_agent a.hostname new l,
  text_eq_iff a.hostname new.hostname,
  text_eq_iff new.hostname a.hostname,
)

-- A row that passes, or none.
abbrev pub kept : (AgentRow → Bool) → Option AgentRow → Option AgentRow
kept p none = none
kept p (some a) = if p a then some a else none

pub agent-filter-none :
    (p : AgentRow → Bool) (host : Text) (l : List AgentRow)
    → agent host l ≡ none
    → agent host (filter p l) ≡ none
agent-filter-none p host [] h = refl
agent-filter-none p host (a ∷ l) h = ground (arith, agent-filter-none p host l)

pub agent-filter :
    (p : AgentRow → Bool) (host : Text) (l : List AgentRow)
    → IsKeyed l
    → agent host (filter p l) ≡ kept p (agent host l)
agent-filter p host [] k = refl
agent-filter p host (a ∷ l) k =
    ground (
      arith,
      agent-filter p host l k.1,
      agent-filter-none p host l,
      k.0,
      text_eq_iff a.hostname host,
    )

pub filter-IsKeyed : (p : AgentRow → Bool) (l : List AgentRow) → IsKeyed l → IsKeyed (filter p l)
filter-IsKeyed p [] k = tt
filter-IsKeyed p (a ∷ l) k = elim (Bool-cases (p a)) [
  | inl e ↦ rw e (agent-filter-none p a.hostname l k.0, filter-IsKeyed p l k.1)
  | inr e ↦ rw e (filter-IsKeyed p l k.1)
]

agent-insert_by_hostname :
    (host : Text) (a : AgentRow) (l : List AgentRow)
    → agent host (insert_by_hostname a l)
      ≡ (if text_eq a.hostname host then some a else agent host l)
unfolding insert_by_hostname
agent-insert_by_hostname host a [] = refl
agent-insert_by_hostname host a (b ∷ l) = ground (
  arith,
  agent-insert_by_hostname host a l,
  text_eq_iff a.hostname host,
  text_eq_iff b.hostname host,
  text_lt_irrefl host,
)

-- Sorting changes no host's row.
pub agent-order_by_hostname :
    (host : Text) (l : List AgentRow) → agent host (order_by_hostname l) ≡ agent host l
unfolding order_by_hostname
agent-order_by_hostname host [] = refl
agent-order_by_hostname host (a ∷ l) =
    agent-insert_by_hostname host a (order_by_hostname l)
    ∙ ap (λ o. if text_eq a.hostname host then some a else o) (agent-order_by_hostname host l)
