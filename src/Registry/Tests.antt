-- ===== src/Registry/Tests.antt =====
-- The registry at concrete inputs.
use monitorbeat.Base.{◌≡◌, refl, true, false, none, some, List, [], ◌∷◌, map, arith}
use monitorbeat.Base.Int.{pos}
use monitorbeat.Base.Text.{Text, codes, text_eq, text_lt}
use monitorbeat.Registry.Store.{
  AgentInfo, AgentRow, Json, heartbeat, list_agents, clean_stale, is_stale, is_online, cutoff,
  row_of_info, upsert_agent, selected, order_by_hostname, insert_by_hostname, info_of_row,
}
use monitorbeat.Registry.Store.Listing.{found, heartbeat_listed, clean_listed, IsAscending}
use monitorbeat.Registry.Handler.{handle_heartbeat, Event, beat, clean, serve_all}
use monitorbeat.Registry.Served.{served-IsAscending}

-- One name at most, as a text of its own.
abbrev joined : List Text → Text
joined [] = []
joined (t ∷ l) = t

abbrev json : Json
json = record { marshal = λ l. some (joined l); unmarshal = λ t. t ∷ [] }

abbrev info : Text → AgentInfo
info host = record {
  hostname = host;
  version = codes "1.0";
  tasks = codes "ping" ∷ [];
  ip = codes "10.0.0.1";
  k8s_node = [];
  start_time = pos 50;
  last_seen = 0;
  online = false;
}

abbrev events : List Event
events =
    beat 100 false (some (info (codes "b")))
    ∷ beat 110 false none
    ∷ beat 120 false (some (info (codes "a")))
    ∷ clean 130 false
    ∷ []

served : map (λ a. a.hostname) (serve_all json 60 events []) ≡ codes "b" ∷ codes "a" ∷ []
unfolding serve_all handle_heartbeat heartbeat upsert_agent text_eq clean_stale is_stale cutoff
served = refl

heartbeat_listed_example :
    found
      (codes "a")
      (list_agents json 60 150 false true (heartbeat json 100 false (info (codes "a")) []).1)
    ≡ some (record (info (codes "a")) { last_seen = 100; online = true })
unfolding text_eq
heartbeat_listed_example =
    heartbeat_listed json 60 100 150 true (info (codes "a")) (codes "ping") (codes "a") [] tt refl
      refl (omega arith)

abbrev two_agents : List AgentRow
two_agents =
    row_of_info (info (codes "b")) (codes "ping") 10
    ∷ row_of_info (info (codes "a")) (codes "ping") 90
    ∷ []

clean_listed_example :
    (list_agents json 60 110 false true (clean_stale 60 100 false two_agents).1
      ≡ list_agents json 60 110 false true two_agents)
    × (list_agents json 60 100 false false (clean_stale 60 100 false two_agents).1
        ≡ list_agents json 60 100 false true two_agents)
clean_listed_example = clean_listed json 60 100 110 false two_agents (omega arith)

abbrev listed : List AgentInfo
listed =
    record (info (codes "a")) { last_seen = 120; online = true }
    ∷ record (info (codes "b")) { last_seen = 100; online = true }
    ∷ []

served-IsAscending_example : IsAscending (codes "a" ∷ codes "b" ∷ [])
unfolding serve_all handle_heartbeat heartbeat upsert_agent text_eq clean_stale is_stale cutoff
    list_agents selected order_by_hostname insert_by_hostname text_lt info_of_row is_online
served-IsAscending_example = served-IsAscending json 60 150 false true events listed refl
