-- ===== src/Alerts/Tests.antt =====
-- The alerting service at concrete inputs.
use mathlib.Core.List.Perm
use monitorbeat.Base.{
  ◌+◌, ◌*◌, ◌≡◌, refl, true, false, none, some, List, [], ◌∷◌, ◌++◌, inl, length, arith,
}
use monitorbeat.Base.Int.{pos, mul64}
use monitorbeat.Base.Text.{codes, text_lt, text_eq}
use monitorbeat.Alerts.Time.{
  second, format_ptr, format_rfc3339, parse_ptr, parse_rfc3339, is_set, set_or,
}
use monitorbeat.Alerts.Labels.{
  Labels, label, decode_labels, fingerprint, encode_labels, canonical, has_key,
}
use monitorbeat.Alerts.Labels.Order.{labels_order_free}
use monitorbeat.Alerts.Labels.Injective.{
  lacks, SameLabels, canonical_injective, fingerprint_collision,
}
use monitorbeat.Alerts.Models.{firing, AlertRule, Vector, StateRow, World, Env}
use monitorbeat.Alerts.Monad.{value, exec, time_now, query}
use monitorbeat.Alerts.Store.{
  state_of_row, active_rows, get_active_states, upsert_state, set_acknowledged, set_last_notified,
  add_history, clear_ack, update_key, upsert_row, new_row, get_states_for_rule,
}
use monitorbeat.Alerts.Store.Rules.{list_rules, with_states, get_enabled_rules, create_rule}
use monitorbeat.Alerts.Store.States.{row, IsKeyed}
use monitorbeat.Alerts.Evaluator.{evaluate, evaluate_rule, collect, fire, recover}
use monitorbeat.Alerts.Evaluator.Phase.{phase, next_phase}
use monitorbeat.Alerts.Evaluator.Refinement.{reported, evaluate_rule-next_phase}
use monitorbeat.Alerts.Evaluator.Due.{fired_mails, recovered_mails}
use monitorbeat.Alerts.Evaluator.Mails.{evaluate_rule-mails}
use monitorbeat.Alerts.Evaluator.Frame.{SameTables, evaluate_rule-other_rules, evaluate_rule-fails}
use monitorbeat.Alerts.Api.{
  handle_acknowledge, handle_create_rule, StatusResponse, handle_status, status,
}
use monitorbeat.Alerts.Api.Reach.{Request, tick, create, acknowledge, serve_all, fresh}
use monitorbeat.Alerts.Api.Silence.{serve_all-IsKeyed}
use monitorbeat.Alerts.Api.Counts.{all_items, count_acknowledged, handle_status_counts}

abbrev host : Labels
host = (codes "hostname", codes "a") ∷ (codes "job", codes "b") ∷ []

abbrev host_swapped : Labels
host_swapped = (codes "job", codes "b") ∷ (codes "hostname", codes "a") ∷ []

labels_order_free_example :
    (fingerprint (λ s. s) host ≡ fingerprint (λ s. s) host_swapped)
    × (encode_labels (λ s. s) host ≡ encode_labels (λ s. s) host_swapped)
unfolding has_key text_eq
labels_order_free_example =
    labels_order_free (λ s. s) (λ s. s) host host_swapped (refl, (refl, tt)) (Perm.swap _ _ _)

canonical_injective_example : SameLabels host host_swapped
unfolding lacks canonical text_lt text_eq
canonical_injective_example =
    canonical_injective host host_swapped ((refl, refl), ((refl, refl), tt))
      ((refl, refl), ((refl, refl), tt)) refl

fingerprint_collision_example :
    fingerprint (λ s. s) ((codes "a", codes "1") ∷ (codes "b", codes "2") ∷ [])
    ≡ fingerprint
        (λ s. s)
        ((codes "a", codes "1" ++ (0x0a ∷ (codes "b" ++ (b'=' ∷ codes "2")))) ∷ [])
unfolding text_lt
fingerprint_collision_example =
    fingerprint_collision (λ s. s) (codes "a") (codes "b") (codes "1") (codes "2") refl

abbrev series : Vector
series = record { metric = some host; value = 7 }

-- One series at every query, a clock that steps by a minute, and no failures.
abbrev demo : Env
demo = record {
  sha256_hex = λ s. s;
  quote = λ s. s;
  unmarshal = λ s. host;
  fails = λ k. false;
  clock = λ k. (1000 + 60 * k) * second;
  vm = λ k expr. some (series ∷ []);
  range = λ l. l;
  email = true;
}

-- The query client fails.
abbrev offline : Env
offline = record demo { vm = λ k expr. none }

abbrev cpu_rule : AlertRule
cpu_rule = record {
  id = 1;
  name = codes "cpu";
  enabled = true;
  expr = codes "up == 0";
  duration = pos 0;
  description = [];
  created_at = 0;
  updated_at = 0;
  states = [];
}

evaluate_rule-next_phase_example :
    phase (row 1 (fingerprint (λ s. s) host) (evaluate_rule demo cpu_rule fresh).1.states)
    ≡ next_phase 0
        (1000 * second)
        (reported demo (fingerprint (λ s. s) host) (series ∷ []))
        (phase none)
evaluate_rule-next_phase_example =
    evaluate_rule-next_phase demo cpu_rule 0 (series ∷ []) fresh (λ k. refl) (λ l. Perm.refl l) refl
      (omega arith) tt refl (fingerprint (λ s. s) host)

evaluate_rule-mails_example :
    (evaluate_rule demo cpu_rule fresh).1.mails
    ≡ []
      ++ (fired_mails cpu_rule 0 (1000 * second) [] (collect demo [] (series ∷ []))
          ++ recovered_mails cpu_rule (collect demo [] (series ∷ [])) [])
unfolding active_rows
evaluate_rule-mails_example =
    evaluate_rule-mails demo cpu_rule 0 (series ∷ []) fresh refl refl (omega arith) refl refl

evaluate_rule-other_rules_example :
    row 2 (codes "x") (evaluate_rule demo cpu_rule fresh).1.states ≡ none
evaluate_rule-other_rules_example =
    evaluate_rule-other_rules demo cpu_rule 2 (codes "x") fresh (omega arith)

evaluate_rule-fails_example : SameTables (evaluate_rule offline cpu_rule fresh).1 fresh
evaluate_rule-fails_example = evaluate_rule-fails offline cpu_rule fresh (inl refl)

abbrev create_cpu : Request
create_cpu = create (
    some (record {
      name = codes "cpu";
      enabled = none;
      expr = codes "up == 0";
      duration = pos 0;
      description = [];
    }))

-- An hour of silence for the instance.
abbrev silence_cpu : Request
silence_cpu = acknowledge (
    some
      (record { rule_id = pos 1; fingerprint = fingerprint (λ s. s) host; silence_hours = pos 1 }))

abbrev story : List Request
story = create_cpu ∷ tick ∷ silence_cpu ∷ []

serve_all-IsKeyed_example : IsKeyed (serve_all demo story fresh).states
serve_all-IsKeyed_example = serve_all-IsKeyed demo story

-- Unfolds what a request and a tick compute with.
served : Env → List Request → World
unfolding serve_all evaluate get_enabled_rules query exec time_now get_active_states upsert_state
    set_acknowledged set_last_notified add_history clear_ack update_key upsert_row new_row fire
    recover fingerprint encode_labels decode_labels label text_eq text_lt handle_acknowledge
    handle_create_rule create_rule list_rules with_states get_states_for_rule state_of_row
    format_ptr format_rfc3339 parse_ptr parse_rfc3339 is_set set_or mul64
served env l = serve_all env l fresh

abbrev muted_row : StateRow
muted_row = record {
  rule_id = 1;
  fingerprint = codes "hostname=a" ++ (0x0a ∷ (codes "job=b" ++ (0x0a ∷ [])));
  labels_json = codes "{hostname:a,job:b}";
  status = firing;
  last_value = 7;
  pending_since = none;
  firing_since = some 1060;
  acknowledged_at = some 1300;
  silence_until = some 4840;
  last_notified_at = some 1180;
}

abbrev listed : AlertRule
listed = record cpu_rule {
  created_at = 1000 * second;
  updated_at = 1000 * second;
  states = state_of_row demo muted_row ∷ [];
}

handle_status_counts_example :
    (r : StatusResponse) × ((handle_status demo (serve_all demo story fresh)).0 ≡ value (status r))
    × (r.items ≡ all_items (listed ∷ []))
    × (r.firing_count ≡ length r.items)
    × (r.acknowledged_count ≡ count_acknowledged r.items)
unfolding served
handle_status_counts_example =
    handle_status_counts demo (serve_all demo story fresh) (listed ∷ []) refl
