-- ===== src/Dashboard/Routes.antt =====
-- The routes of the alert rules: the two closures of `NewServer` in web/api/server.go. A body is
-- given as in Alerts/Api.
use monitorbeat.Base.{ℕ, Option, none, some}
use monitorbeat.Base.Text.{Text}
use monitorbeat.Alerts.Models.{CreateRuleRequest, Env}
use monitorbeat.Alerts.Monad.{M, ◌>>=◌, done}
use monitorbeat.Alerts.Api.{
  Response, handle_list_rules, handle_create_rule, handle_update_rule, handle_delete_rule, to_ℕ,
}
use monitorbeat.Exceptionbeat.Strings.{parse_int}

pub data Method : Type 0 where
  get post put delete other : Method

pub data Routed : Type 0 where
  method_not_allowed invalid_id : Routed
  answered : Response → Routed

abbrev answer : M Response → M Routed
answer m = m >>= λ r. done (answered r)

-- `/api/v1/alerts/rules`.
unfoldable pub route_rules : Env → Method → Option CreateRuleRequest → M Routed
route_rules env get body = answer (handle_list_rules env)
route_rules env post body = answer (handle_create_rule env body)
route_rules env put body = done method_not_allowed
route_rules env delete body = done method_not_allowed
route_rules env other body = done method_not_allowed

-- The switch on the method, for a rule whose id was read. No rule has an id below 1.
unfoldable pub route_rule_id : Env → Method → ℕ → Option CreateRuleRequest → M Routed
route_rule_id env put id body = answer (handle_update_rule env id body)
route_rule_id env delete id body = answer (handle_delete_rule env id)
route_rule_id env get id body = done method_not_allowed
route_rule_id env post id body = done method_not_allowed
route_rule_id env other id body = done method_not_allowed

-- `/api/v1/alerts/rules/`, given the path behind it.
unfoldable pub route_rule : Env → Method → Text → Option CreateRuleRequest → M Routed
unfolding route_rule_id parse_int
route_rule env method id body = elim (parse_int id) [
  | none ↦ done invalid_id
  | some n ↦ route_rule_id env method (to_ℕ n) body
]
