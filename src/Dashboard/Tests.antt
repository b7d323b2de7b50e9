-- ===== src/Dashboard/Tests.antt =====
-- The dashboard at concrete inputs.
use monitorbeat.Base.{◌≡◌, refl, sym, ap, ◌∙◌, Option, none, some, List, [], ◌∷◌, if◌then◌else◌}
use monitorbeat.Base.Int.{pos}
use monitorbeat.Base.Text.{Text, codes, text_eq}
use monitorbeat.Dashboard.Vm.{
  Series, Vector, Result, ok, err, request_failed, Params, query, replied, Json, http_status,
}
use monitorbeat.Dashboard.Promql.{selector}
use monitorbeat.Dashboard.Promql.Selector.{read_host}
use monitorbeat.Dashboard.Replies.{Client, hosts, not_found, get_param, get_params}
use monitorbeat.Dashboard.Handlers.{handle_host, handle_hosts}
use monitorbeat.Dashboard.Handlers.Isolation.{AgreesOn, range_of, serve_host, serve_host_lem}

abbrev host : Text
host = codes "web\"1"

-- One series for a query that asks for the host.
abbrev answer_host : Option Text → Result (List Series)
answer_host none = err request_failed
answer_host (some h) =
    if text_eq h host
    then ok (record { metric = []; values = record { time = 3; value = 5 } ∷ [] } ∷ [])
    else ok []

abbrev answer_all : Option Text → Result (List Series)
answer_all h = ok (record { metric = []; values = record { time = 3; value = 5 } ∷ [] } ∷ [])

abbrev client : (Option Text → Result (List Series)) → Client
client answer = record {
  query = λ q. err request_failed;
  query_range = λ q from to step. answer (read_host q);
  label_values = λ l. ok [];
}

abbrev agree : AgreesOn host (client answer_host) (client answer_all)
unfolding text_eq
agree = record {
  queries = λ q e. refl;
  ranges = λ q from to step e. ap (λ h. answer_host h) e ∙ sym (ap (λ h. answer_all h) e);
}

abbrev params : Params
params =
    (codes "host", host)
    ∷ (codes "metric", codes "mem_used_percent")
    ∷ (codes "metric", codes "load1")
    ∷ (codes "from", codes "1")
    ∷ (codes "to", codes "2")
    ∷ []

serve_host_lem_example :
    serve_host 9 (client answer_host) (range_of params)
    ≡ serve_host 9 (client answer_all) (range_of params)
unfolding get_param text_eq get_params
serve_host_lem_example =
    serve_host_lem 9 (range_of params) (client answer_host) (client answer_all) agree
      (refl, (refl, tt))

abbrev named : Text → Vector
named h = record { metric = (codes "hostname", h) ∷ []; value = record { time = 1; value = 7 } }

-- A host with no name is not listed.
test_hosts :
    handle_hosts pos (record (client answer_host) { query = λ q. ok (named host ∷ named [] ∷ []) })
    ≡ hosts (record { hostname = host; last_seen = pos 7 } ∷ [])
unfolding handle_hosts text_eq
test_hosts = refl

test_path : handle_host 9 (client answer_host) (codes "h/cpu") ≡ not_found
unfolding handle_host text_eq
test_path = refl

-- A query with an operator in the place of the name is not one selector of the host.
test_operator : read_host (selector (codes "cpu_usage or m") host) ≡ none
unfolding read_host selector
test_operator = refl

-- Nor is one with a selector in the place of the name.
test_brace : read_host (selector (codes "m{} or cpu_usage") host) ≡ none
unfolding read_host selector
test_brace = refl

abbrev no_json : Json
no_json = record {
  response = λ s. none;
  query_data = λ s. none;
  vectors = λ s. none;
  series = λ s. none;
  strings = λ s. none;
}

test_status :
    query (codes "http://vm") (λ url. replied 503 []) (λ q. []) no_json (codes "up")
    ≡ err (http_status 503)
unfolding query
test_status = refl
