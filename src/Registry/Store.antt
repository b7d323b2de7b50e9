-- ===== src/Registry/Store.antt =====
-- The table of agents and its operations: web/registry/store.go and models.go. Each operation reads
-- the clock once (Unix seconds) and runs one statement; `fails` says that the statement fails.
pub mod Rows
pub mod Listing
use monitorbeat.Base.{
  ℕ, ◌-◌, Bool, true, false, not, Option, none, some, List, [], ◌∷◌, map, filter, leb,
  if◌then◌else◌,
}
use monitorbeat.Base.Int.{ℤ, pos, negsuc, leb_int}
use monitorbeat.Base.Text.{Text, text_eq, text_lt}

-- `AgentInfo`.
pub record AgentInfo : Type 0 where
  pub hostname : Text
  pub version : Text
  pub tasks : List Text
  pub ip : Text
  pub k8s_node : Text
  pub start_time : ℤ
  pub last_seen : ℕ
  pub online : Bool

-- A row of `agents`; `tasks` is JSON.
pub record AgentRow : Type 0 where
  pub hostname : Text
  pub version : Text
  pub tasks : Text
  pub ip : Text
  pub k8s_node : Text
  pub start_time : ℤ
  pub last_seen : ℕ

-- `encoding/json` on the task names: `unmarshal` is what it leaves in an empty slice.
pub record Json : Type 0 where
  pub marshal : List Text → Option Text
  pub unmarshal : Text → List Text

-- `INSERT … ON CONFLICT(hostname) DO UPDATE SET`, every other column from the new row.
unfoldable pub upsert_agent : AgentRow → List AgentRow → List AgentRow
upsert_agent new [] = new ∷ []
upsert_agent new (a ∷ l) =
    if text_eq a.hostname new.hostname then new ∷ l else a ∷ upsert_agent new l

abbrev pub row_of_info : AgentInfo → Text → ℕ → AgentRow
row_of_info info tasks now = record {
  hostname = info.hostname;
  version = info.version;
  tasks = tasks;
  ip = info.ip;
  k8s_node = info.k8s_node;
  start_time = info.start_time;
  last_seen = now;
}

-- `Heartbeat`: whether it succeeds, and the table after it.
unfoldable pub heartbeat : Json → ℕ → Bool → AgentInfo → List AgentRow → Bool × List AgentRow
heartbeat json now fails info agents = elim (json.marshal info.tasks) [
  | none ↦ (false, agents)
  | some tasks ↦
      if fails then (false, agents) else (true, upsert_agent (row_of_info info tasks now) agents)
]

-- `time.Now().Unix() - int64(s.ttl.Seconds())`.
unfoldable pub cutoff : ℕ → ℕ → ℤ
cutoff ttl now = if leb ttl now then pos (now - ttl) else negsuc (ttl - now - 1)

-- `last_seen >= cutoff`, as in the query and for `Online`.
unfoldable pub is_online : ℕ → ℕ → AgentRow → Bool
unfolding cutoff
is_online ttl now a = leb_int (cutoff ttl now) (pos a.last_seen)

-- `last_seen < cutoff`.
unfoldable pub is_stale : ℕ → ℕ → AgentRow → Bool
unfolding cutoff
is_stale ttl now a = not (leb_int (cutoff ttl now) (pos a.last_seen))

-- `ORDER BY hostname`.
unfoldable pub insert_by_hostname : AgentRow → List AgentRow → List AgentRow
insert_by_hostname a [] = a ∷ []
insert_by_hostname a (b ∷ l) =
    if text_lt b.hostname a.hostname then b ∷ insert_by_hostname a l else a ∷ b ∷ l

unfoldable pub order_by_hostname : List AgentRow → List AgentRow
unfolding insert_by_hostname
order_by_hostname [] = []
order_by_hostname (a ∷ l) = insert_by_hostname a (order_by_hostname l)

-- The body of the loop of `ListAgents`.
unfoldable pub info_of_row : Json → ℕ → ℕ → AgentRow → AgentInfo
unfolding is_online
info_of_row json ttl now a = record {
  hostname = a.hostname;
  version = a.version;
  tasks = json.unmarshal a.tasks;
  ip = a.ip;
  k8s_node = a.k8s_node;
  start_time = a.start_time;
  last_seen = a.last_seen;
  online = is_online ttl now a;
}

-- The rows that the query of `ListAgents` selects.
unfoldable pub selected : ℕ → ℕ → Bool → List AgentRow → List AgentRow
unfolding is_online
selected ttl now online_only agents =
    if online_only then filter (is_online ttl now) agents else agents

-- `ListAgents`.
unfoldable pub list_agents : Json → ℕ → ℕ → Bool → Bool → List AgentRow → Option (List AgentInfo)
unfolding selected order_by_hostname info_of_row
list_agents json ttl now fails online_only agents =
    if fails
    then none
    else some
        (map (info_of_row json ttl now) (order_by_hostname (selected ttl now online_only agents)))

-- `CleanStale`.
unfoldable pub clean_stale : ℕ → ℕ → Bool → List AgentRow → Bool × List AgentRow
unfolding is_stale
clean_stale ttl now fails agents =
    if fails then (false, agents) else (true, filter (λ a. not (is_stale ttl now a)) agents)
