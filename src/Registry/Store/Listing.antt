-- ===== src/Registry/Store/Listing.antt =====
-- What `ListAgents` answers after heartbeats and cleaning.
use mathlib.Core.Option
use mathlib.Core.Option.{some-injective}
use monitorbeat.Base.{
  ℕ, ◌+◌, ◌≤◌, ◌≡◌, refl, sym, ap, ap₂, subst, ◌∙◌, Bool, true, false, not, Option, none, some,
  List, [], ◌∷◌, map, filter, find, arith, All, if◌then◌else◌, Bool-cases, inl, inr,
}
use monitorbeat.Base.Text.{Text, text_eq, text_eq_iff, text_lt, text_lt_trans, text_lt_total}
use monitorbeat.Registry.Store.{
  AgentInfo, AgentRow, Json, upsert_agent, heartbeat, cutoff, is_online, is_stale,
  insert_by_hostname, order_by_hostname, info_of_row, selected, list_agents, clean_stale,
  row_of_info,
}
use monitorbeat.Registry.Store.Rows.{
  agent, IsKeyed, kept, agent-upsert_agent, upsert_agent-IsKeyed, agent-filter,
  agent-order_by_hostname, filter-IsKeyed,
}

-- The agent of a host in an answer.
abbrev pub found : Text → Option (List AgentInfo) → Option AgentInfo
found host none = none
found host (some l) = find (λ i. text_eq i.hostname host) l

find-info :
    (json : Json) (ttl now : ℕ) (host : Text) (l : List AgentRow)
    → find (λ i. text_eq i.hostname host) (map (info_of_row json ttl now) l)
      ≡ Option.map (info_of_row json ttl now) (agent host l)
unfolding info_of_row
find-info json ttl now host [] = refl
find-info json ttl now host (a ∷ l) = elim (Bool-cases (text_eq a.hostname host)) [
  | inl e ↦ rw e refl
  | inr e ↦ rw e (find-info json ttl now host l)
]

-- The answer has a host's row if the row is selected.
agent-selected :
    (ttl now : ℕ) (online_only : Bool) (host : Text) (l : List AgentRow)
    → IsKeyed l
    → agent host (selected ttl now online_only l)
      ≡ kept (λ a. if online_only then is_online ttl now a else true) (agent host l)
unfolding selected
agent-selected ttl now true host l k = agent-filter (is_online ttl now) host l k
agent-selected ttl now false host l k = elim (agent host l) as (λ o. o ≡ kept (λ a. true) o) [
  | none ↦ refl
  | some a ↦ refl
]

abbrev shown : Json → ℕ → ℕ → Bool → Option AgentRow → Option AgentInfo
shown json ttl now online_only o =
    Option.map (info_of_row json ttl now)
      (kept (λ a. if online_only then is_online ttl now a else true) o)

found-list_agents :
    (json : Json) (ttl now : ℕ) (online_only : Bool) (host : Text) (l : List AgentRow)
    → IsKeyed l
    → found host (list_agents json ttl now false online_only l)
      ≡ shown json ttl now online_only (agent host l)
unfolding list_agents
found-list_agents json ttl now online_only host l k =
    find-info json ttl now host (order_by_hostname (selected ttl now online_only l))
    ∙ ap (Option.map (info_of_row json ttl now)) (
        agent-order_by_hostname host (selected ttl now online_only l)
        ∙ agent-selected ttl now online_only host l k)

-- Within the TTL an agent counts as online.
recent_online :
    (ttl now later : ℕ) (a : AgentRow)
    → a.last_seen ≡ now
    → later ≤ now + ttl
    → is_online ttl later a ≡ true
unfolding is_online cutoff
recent_online ttl now later a e h = ground arith

info-row_of_info :
    (json : Json) (ttl now later : ℕ) (info : AgentInfo) (tasks : Text)
    → json.unmarshal tasks ≡ info.tasks
    → later ≤ now + ttl
    → some (info_of_row json ttl later (row_of_info info tasks now))
      ≡ some (record info { last_seen = now; online = true })
unfolding info_of_row
info-row_of_info json ttl now later info tasks e h =
    ap₂ (λ ts b. some (record info { tasks = ts; last_seen = now; online = b })) e
      (recent_online ttl now later (row_of_info info tasks now) refl h)

shown-row_of_info :
    (json : Json) (ttl now later : ℕ) (online_only : Bool) (info : AgentInfo) (tasks : Text)
    → json.unmarshal tasks ≡ info.tasks
    → later ≤ now + ttl
    → shown json ttl later online_only (some (row_of_info info tasks now))
      ≡ some (record info { last_seen = now; online = true })
unfolding info_of_row
shown-row_of_info json ttl now later false info tasks e h =
    info-row_of_info json ttl now later info tasks e h
shown-row_of_info json ttl now later true info tasks e h =
    ap
      (λ (b : Bool).
        Option.map (info_of_row json ttl later)
          (if b then some (row_of_info info tasks now) else none))
      (recent_online ttl now later (row_of_info info tasks now) refl h)
    ∙ info-row_of_info json ttl now later info tasks e h

-- Where JSON gives back the task names: after a heartbeat, for as long as the TTL, both lists show
-- its host with the names and addresses it sent, seen at that second and online; any other host is
-- shown as it would be without the heartbeat.
pub heartbeat_listed :
    (json : Json) (ttl now later : ℕ) (online_only : Bool) (info : AgentInfo) (tasks host : Text)
    (agents : List AgentRow)
    → IsKeyed agents
    → json.marshal info.tasks ≡ some tasks
    → json.unmarshal tasks ≡ info.tasks
    → later ≤ now + ttl
    → found host
        (list_agents json ttl later false online_only (heartbeat json now false info agents).1)
      ≡ (if text_eq info.hostname host
          then some (record info { last_seen = now; online = true })
          else found host (list_agents json ttl later false online_only agents))
unfolding heartbeat
heartbeat_listed json ttl now later online_only info tasks host agents k m u h =
    let new = row_of_info info tasks now in
    rw (m, heartbeat)
      (found-list_agents json ttl later online_only host (upsert_agent new agents)
          (upsert_agent-IsKeyed new agents k)
        ∙ ap (shown json ttl later online_only) (agent-upsert_agent host new agents)
        ∙ (elim (Bool-cases (text_eq info.hostname host)) [
          | inl e ↦ rw e (shown-row_of_info json ttl now later online_only info tasks u h)
          | inr e ↦ rw e (sym (found-list_agents json ttl later online_only host agents k))
        ]))

filter-clean :
    (ttl now later : ℕ) (l : List AgentRow)
    → now ≤ later
    → filter (is_online ttl later) (filter (λ a. not (is_stale ttl now a)) l)
      ≡ filter (is_online ttl later) l
unfolding is_online is_stale cutoff
filter-clean ttl now later [] h = refl
filter-clean ttl now later (a ∷ l) h = ground (arith, filter-clean ttl now later l h)

filter-stale :
    (ttl now : ℕ) (l : List AgentRow)
    → filter (λ a. not (is_stale ttl now a)) l ≡ filter (is_online ttl now) l
unfolding is_online is_stale
filter-stale ttl now [] = refl
filter-stale ttl now (a ∷ l) = ground (arith, filter-stale ttl now l)

-- Cleaning hides no agent that counts as online then or later, and what is left just after it is
-- what counts as online.
pub clean_listed :
    (json : Json) (ttl now later : ℕ) (fails : Bool) (agents : List AgentRow)
    → now ≤ later
    → let cleaned = (clean_stale ttl now false agents).1 in
      (list_agents json ttl later fails true cleaned ≡ list_agents json ttl later fails true agents)
      × (list_agents json ttl now fails false cleaned ≡ list_agents json ttl now fails true agents)
unfolding list_agents selected clean_stale
clean_listed json ttl now later true agents h = (refl, refl)
clean_listed json ttl now later false agents h = (
  ap (λ l. some (map (info_of_row json ttl later) (order_by_hostname l)))
      (filter-clean ttl now later agents h),
  ap (λ l. some (map (info_of_row json ttl now) (order_by_hostname l)))
      (filter-stale ttl now agents),
)

-- Each hostname is before every later one.
abbrev pub IsAscending : List Text → Type 0
IsAscending [] = Unit
IsAscending (s ∷ l) = All (λ t. text_lt s t ≡ true) l × IsAscending l

abbrev pub hostnames : List AgentRow → List Text
hostnames = map (λ a. a.hostname)

below-insert :
    (s : Text) (a : AgentRow) (l : List AgentRow)
    → text_lt s a.hostname ≡ true
    → All (λ t. text_lt s t ≡ true) (hostnames l)
    → All (λ t. text_lt s t ≡ true) (hostnames (insert_by_hostname a l))
unfolding insert_by_hostname
below-insert s a [] h u = (h, tt)
below-insert s a (b ∷ l) h u = elim (Bool-cases (text_lt b.hostname a.hostname)) [
  | inl e ↦ rw e (u.0, below-insert s a l h u.1)
  | inr e ↦ rw e (h, u)
]

below_trans :
    (s t : Text) (l : List Text)
    → text_lt s t ≡ true
    → All (λ u. text_lt t u ≡ true) l
    → All (λ u. text_lt s u ≡ true) l
below_trans s t [] h u = tt
below_trans s t (v ∷ l) h u = (text_lt_trans s t v h u.0, below_trans s t l h u.1)

insert_by_hostname-IsAscending :
    (a : AgentRow) (l : List AgentRow)
    → agent a.hostname l ≡ none
    → IsAscending (hostnames l)
    → IsAscending (hostnames (insert_by_hostname a l))
unfolding insert_by_hostname
insert_by_hostname-IsAscending a [] n o = (tt, tt)
insert_by_hostname-IsAscending a (b ∷ l) n o = elim (Bool-cases (text_lt b.hostname a.hostname)) [
  | inl e ↦
      let later : agent a.hostname l ≡ none = ground arith in
      rw e (below-insert b.hostname a l e o.0, insert_by_hostname-IsAscending a l later o.1)
  | inr e ↦
      let before : text_lt a.hostname b.hostname ≡ true =
        ground (arith, text_lt_total b.hostname a.hostname, text_eq_iff b.hostname a.hostname) in
      rw e ((before, below_trans a.hostname b.hostname (hostnames l) before o.0), o)
]

order_by_hostname-IsAscending :
    (l : List AgentRow) → IsKeyed l → IsAscending (hostnames (order_by_hostname l))
unfolding order_by_hostname
order_by_hostname-IsAscending [] k = tt
order_by_hostname-IsAscending (a ∷ l) k =
    insert_by_hostname-IsAscending a (order_by_hostname l)
      (agent-order_by_hostname a.hostname l ∙ k.0) (order_by_hostname-IsAscending l k.1)

selected-IsKeyed :
    (ttl now : ℕ) (online_only : Bool) (l : List AgentRow)
    → IsKeyed l
    → IsKeyed (selected ttl now online_only l)
unfolding selected
selected-IsKeyed ttl now true l k = filter-IsKeyed (is_online ttl now) l k
selected-IsKeyed ttl now false l k = k

hostnames-info :
    (json : Json) (ttl now : ℕ) (l : List AgentRow)
    → map (λ i. i.hostname) (map (info_of_row json ttl now) l) ≡ hostnames l
unfolding info_of_row
hostnames-info json ttl now [] = refl
hostnames-info json ttl now (a ∷ l) = ap (λ r. a.hostname ∷ r) (hostnames-info json ttl now l)

pub list_agents-IsAscending :
    (json : Json) (ttl now : ℕ) (fails online_only : Bool) (agents : List AgentRow)
    (l : List AgentInfo)
    → IsKeyed agents
    → list_agents json ttl now fails online_only agents ≡ some l
    → IsAscending (map (λ i. i.hostname) l)
unfolding list_agents
list_agents-IsAscending json ttl now true online_only agents l k h = cc h
list_agents-IsAscending json ttl now false online_only agents l k h =
    subst (λ r. IsAscending (map (λ i. i.hostname) r)) (some-injective _ _ h)
      (rw (hostnames-info json ttl now (order_by_hostname (selected ttl now online_only agents))) (
        order_by_hostname-IsAscending (selected ttl now online_only agents)
          (selected-IsKeyed ttl now online_only agents k)))
