-- ===== src/Registry/Handler.antt =====
-- The handlers of the registry: web/registry/handler.go, from a decoded request to a response.
use monitorbeat.Base.{ℕ, Bool, Option, none, some, List, [], ◌∷◌, if◌then◌else◌}
use monitorbeat.Base.Text.{text_eq}
use monitorbeat.Registry.Store.{AgentInfo, AgentRow, Json, heartbeat, list_agents, clean_stale}

-- The status that is written, and the agents of the answer.
pub data Response : Type 0 where
  no_content : Response
  bad_request : Response
  server_error : Response
  agents_found : List AgentInfo → Response

-- `handleHeartbeat`; the body is `none` where it does not decode.
unfoldable pub handle_heartbeat :
    Json → ℕ → Bool → Option AgentInfo → List AgentRow → Response × List AgentRow
unfolding heartbeat
handle_heartbeat json now fails none agents = (bad_request, agents)
handle_heartbeat json now fails (some info) agents =
    if text_eq info.hostname []
    then (bad_request, agents)
    else (let (succeeds, after) = heartbeat json now fails info agents in
        (if succeeds then no_content else server_error, after))

-- `handleListAgents`.
unfoldable pub handle_list_agents : Json → ℕ → ℕ → Bool → Bool → List AgentRow → Response
handle_list_agents json ttl now fails online_only agents =
    elim (list_agents json ttl now fails online_only agents) [
      | none ↦ server_error
      | some found ↦ agents_found found
    ]

-- What reaches the registry: a request, or a turn of `CleanLoop`.
pub data Event : Type 0 where
  beat : ℕ → Bool → Option AgentInfo → Event
  clean : ℕ → Bool → Event

-- The table after events, in order.
unfoldable pub serve_all : Json → ℕ → List Event → List AgentRow → List AgentRow
unfolding handle_heartbeat clean_stale
serve_all json ttl [] agents = agents
serve_all json ttl (beat now fails body ∷ l) agents =
    serve_all json ttl l (handle_heartbeat json now fails body agents).1
serve_all json ttl (clean now fails ∷ l) agents =
    serve_all json ttl l (clean_stale ttl now fails agents).1
