-- ===== src/Registry/Served.antt =====
-- The registry after any events: web/registry.
use monitorbeat.Base.{
  ℕ, ◌≡◌, Bool, true, false, not, Option, none, some, List, [], ◌∷◌, map, Bool-cases, Option-cases,
  inl, inr,
}
use monitorbeat.Base.Text.{text_eq}
use monitorbeat.Registry.Store.{
  AgentInfo, AgentRow, Json, heartbeat, list_agents, clean_stale, is_stale, row_of_info,
}
use monitorbeat.Registry.Store.Rows.{IsKeyed, upsert_agent-IsKeyed, filter-IsKeyed}
use monitorbeat.Registry.Store.Listing.{IsAscending, list_agents-IsAscending}
use monitorbeat.Registry.Handler.{handle_heartbeat, Event, beat, clean, serve_all}

heartbeat-IsKeyed :
    (json : Json) (now : ℕ) (fails : Bool) (info : AgentInfo) (agents : List AgentRow)
    → IsKeyed agents
    → IsKeyed (heartbeat json now fails info agents).1
unfolding heartbeat
heartbeat-IsKeyed json now true info agents k = elim (Option-cases (json.marshal info.tasks)) [
  | inl e ↦ rw (e, heartbeat) k
  | inr (tasks, e) ↦ rw (e, heartbeat) k
]
heartbeat-IsKeyed json now false info agents k = elim (Option-cases (json.marshal info.tasks)) [
  | inl e ↦ rw (e, heartbeat) k
  | inr (tasks, e) ↦ rw (e, heartbeat) (upsert_agent-IsKeyed (row_of_info info tasks now) agents k)
]

handle_heartbeat-IsKeyed :
    (json : Json) (now : ℕ) (fails : Bool) (body : Option AgentInfo) (agents : List AgentRow)
    → IsKeyed agents
    → IsKeyed (handle_heartbeat json now fails body agents).1
unfolding handle_heartbeat
handle_heartbeat-IsKeyed json now fails none agents k = k
handle_heartbeat-IsKeyed json now fails (some info) agents k =
    elim (Bool-cases (text_eq info.hostname [])) [
      | inl e ↦ rw e k
      | inr e ↦ rw e (heartbeat-IsKeyed json now fails info agents k)
    ]

clean_stale-IsKeyed :
    (ttl now : ℕ) (fails : Bool) (agents : List AgentRow)
    → IsKeyed agents
    → IsKeyed (clean_stale ttl now fails agents).1
unfolding clean_stale
clean_stale-IsKeyed ttl now true agents k = k
clean_stale-IsKeyed ttl now false agents k = filter-IsKeyed (λ a. not (is_stale ttl now a)) agents k

serve_all-IsKeyed :
    (json : Json) (ttl : ℕ) (l : List Event) (agents : List AgentRow)
    → IsKeyed agents
    → IsKeyed (serve_all json ttl l agents)
unfolding serve_all
serve_all-IsKeyed json ttl [] agents k = k
serve_all-IsKeyed json ttl (beat now fails body ∷ l) agents k =
    serve_all-IsKeyed json ttl l _ (handle_heartbeat-IsKeyed json now fails body agents k)
serve_all-IsKeyed json ttl (clean now fails ∷ l) agents k =
    serve_all-IsKeyed json ttl l _ (clean_stale-IsKeyed ttl now fails agents k)

-- After any heartbeats, well formed or not, and any cleaning of an empty table, whatever statements
-- fail: an answer to `ListAgents` is in ascending order of hostnames, and shows each host once.
pub served-IsAscending :
    (json : Json) (ttl now : ℕ) (fails online_only : Bool) (events : List Event)
    (l : List AgentInfo)
    → list_agents json ttl now fails online_only (serve_all json ttl events []) ≡ some l
    → IsAscending (map (λ i. i.hostname) l)
served-IsAscending json ttl now fails online_only events l h =
    list_agents-IsAscending json ttl now fails online_only (serve_all json ttl events []) l
      (serve_all-IsKeyed json ttl events [] tt) h
