-- ===== src/Alerts/Api/Reach.antt =====
-- The alerting service as a whole: requests and ticks in any order, from a fresh database, and what
-- all of them keep of the table of states. A tick and a request do not overlap here; each of them
-- keeps the property statement by statement.
use monitorbeat.Base.{
  ℕ, ◌≡◌, refl, sym, subst, Bool, not, ◌||◌, Option, none, some, List, [], ◌∷◌, filter, any,
  Bool-cases, inl, inr, ◌==◌,
}
use monitorbeat.Base.Int.{ℤ, pos, leb_int}
use monitorbeat.Base.Text.{Text, text_eq}
use monitorbeat.Alerts.Time.{format_rfc3339, format_ptr}
use monitorbeat.Alerts.Models.{AlertRule, CreateRuleRequest, RuleRow, StateRow, World, Env}
use monitorbeat.Alerts.Monad.{Result, done, attempt, exec, time_now}
use monitorbeat.Alerts.Monad.Keeps.{Keeps, bind, branch, exec-Keeps, time_now-Keeps, query-Keeps}
use monitorbeat.Alerts.Store.{update_key, acked, get_states_for_rule, or_nil}
use monitorbeat.Alerts.Store.Rules.{
  create_rule, update_rule, delete_rule, list_rules, get_rule, delete_states, with_states,
  rule_of_row, name_taken, insert_rule, change_rule, remove_rule, delete_history, select_rules,
  found_rule,
}
use monitorbeat.Alerts.Store.History.{list_history, count_history, select_history}
use monitorbeat.Alerts.Store.Keeps.{On, set_acknowledged-Keeps}
use monitorbeat.Alerts.Evaluator.{evaluate}
use monitorbeat.Alerts.Evaluator.Keeps.{KeepsEdits, evaluate-Keeps}
use monitorbeat.Alerts.Api.{
  AckRequest, handle_list_rules, handle_create_rule, handle_update_rule, handle_delete_rule,
  handle_acknowledge, handle_list_history, handle_test_query, handle_status, silence_until,
  acknowledge_until, rule_of_request, page_limit, is_empty, to_ℕ,
}

-- One request, or one tick of the evaluator.
pub data Request : Type 0 where
  tick list_rules_request status_request : Request
  create : Option CreateRuleRequest → Request
  update : ℕ → Option CreateRuleRequest → Request
  delete : ℕ → Request
  acknowledge : Option AckRequest → Request
  history_request : ℤ → Text → Text → ℤ → ℤ → Request
  test_query : Bool → Option (Text × Bool) → Request

unfoldable pub serve : Env → Request → World → World
serve env tick w = (evaluate env w).1
serve env list_rules_request w = (handle_list_rules env w).1
serve env status_request w = (handle_status env w).1
serve env (create req) w = (handle_create_rule env req w).1
serve env (update id req) w = (handle_update_rule env id req w).1
serve env (delete id) w = (handle_delete_rule env id w).1
serve env (acknowledge req) w = (handle_acknowledge env req w).1
serve env (history_request id fp state limit offset) w =
    (handle_list_history env id fp state limit offset w).1
serve env (test_query vm req) w = (handle_test_query env vm req w).1

unfoldable pub serve_all : Env → List Request → World → World
unfolding serve
serve_all env [] w = w
serve_all env (r ∷ l) w = serve_all env l (serve env r w)

-- The database after `migrate`: the old tables are dropped.
abbrev pub fresh : World
fresh = record {
  rules = [];
  states = [];
  history = [];
  next_rule = 1;
  next_history = 1;
  mails = [];
  statements = 0;
  readings = 0;
  queries = 0;
}

-- A property that the edits of the table keep: those of the evaluator, an acknowledgement, and the
-- deletion of a rule's rows.
pub record KeepsTable (S : List StateRow → Type 0) (env : Env) : Type 0 where
  pub edits : (id : ℕ) (fp : Text) → KeepsEdits S env id fp
  pub ack :
      (k id : ℕ) (fp : Text) (until : Option ℕ) (l : List StateRow)
      → S l
      → S (update_key id fp (acked (format_rfc3339 (env.clock k)) until) l)
  pub delete_rows : (id : ℕ) (l : List StateRow) → S l → S (filter (λ s. not (s.rule_id == id)) l)

module _ (S : List StateRow → Type 0) (env : Env) (k : KeepsTable S env) where
  -- A statement that leaves the table of states alone.
  other-Keeps :
      {A : Type 0} (f : World → Result A × World)
      → ((w : World) → (f w).1.states ≡ w.states)
      → Keeps (On S) (exec env f)
  other-Keeps f same = exec-Keeps (On S) env f (λ w h. h) (λ w h. subst S (sym (same w)) h)

  now-Keeps : Keeps (On S) (time_now env)
  now-Keeps = time_now-Keeps (On S) env (λ w h. h)

  insert_rule-Keeps : (now : ℕ) (r : AlertRule) → Keeps (On S) (insert_rule env now r)
  unfolding insert_rule
  insert_rule-Keeps now r = other-Keeps _ (λ w.
      elim (Bool-cases (any (λ s. text_eq s.name r.name) w.rules)) [
        | inl e ↦ rw e refl
        | inr e ↦ rw e refl
      ])

  create_rule-Keeps : (r : AlertRule) → Keeps (On S) (create_rule env r)
  unfolding create_rule time_now
  create_rule-Keeps r w h = insert_rule-Keeps _ r (time_now env w).1 h

  change_rule-Keeps :
      (id now : ℕ) (req : CreateRuleRequest) → Keeps (On S) (change_rule env id now req)
  unfolding change_rule
  change_rule-Keeps id now req = other-Keeps _ (λ w.
      elim (Bool-cases (name_taken id req.name w.rules)) [ inl e ↦ rw e refl | inr e ↦ rw e refl ])

  get_rule-Keeps : (id : ℕ) → Keeps (On S) (get_rule env id)
  unfolding get_rule found_rule
  get_rule-Keeps id = exec-Keeps (On S) env _ (λ w h. h) (λ w h. h)

  delete_states-Keeps : (id : ℕ) → Keeps (On S) (delete_states env id)
  unfolding delete_states
  delete_states-Keeps id = exec-Keeps (On S) env _ (λ w h. h) (λ w h. k.delete_rows id w.states h)

  update_rule-Keeps : (id : ℕ) (req : CreateRuleRequest) → Keeps (On S) (update_rule env id req)
  unfolding update_rule time_now
  update_rule-Keeps id req w h =
      bind (On S) (change_rule env id (format_rfc3339 (env.clock w.readings)) req)
        (λ _ v. get_rule env id (delete_states env id v).1)
        (change_rule-Keeps id (format_rfc3339 (env.clock w.readings)) req)
        (λ _ v s. get_rule-Keeps id _ (delete_states-Keeps id v s)) (time_now env w).1 h

  delete_rule-Keeps : (id : ℕ) → Keeps (On S) (delete_rule env id)
  unfolding delete_rule remove_rule delete_history
  delete_rule-Keeps id =
      bind (On S) (remove_rule env id)
        (λ _ v. attempt (delete_history env id) (delete_states env id v).1)
        (exec-Keeps (On S) env _ (λ w h. h) (λ w h. h))
        (λ _ v s.
          exec-Keeps (On S) env _ (λ w h. h) (λ w h. h) (delete_states env id v).1
            (delete_states-Keeps id v s))

  with_states-Keeps : (l : List RuleRow) → Keeps (On S) (with_states env l)
  unfolding with_states get_states_for_rule
  with_states-Keeps [] w h = h
  with_states-Keeps (r ∷ l) w h =
      bind (On S) (with_states env l)
        (λ rest.
          done
            (record (rule_of_row r) { states = or_nil (get_states_for_rule env r.id w).0 } ∷ rest))
        (with_states-Keeps l) (λ rest v s. s) (get_states_for_rule env r.id w).1
        (exec-Keeps (On S) env _ (λ v s. s) (λ v s. s) w h)

  list_rules-Keeps : Keeps (On S) (list_rules env)
  unfolding list_rules select_rules
  list_rules-Keeps =
      bind (On S) (select_rules env) (with_states env)
        (exec-Keeps (On S) env _ (λ w h. h) (λ w h. h)) with_states-Keeps

  silence_until-Keeps : (hours : ℤ) → Keeps (On S) (silence_until env hours)
  unfolding silence_until time_now
  silence_until-Keeps hours = branch (On S) (leb_int hours (pos 0)) _ _ (λ w h. h) (λ w h. h)

  acknowledge-Keeps : (req : Option AckRequest) → Keeps (On S) (handle_acknowledge env req)
  unfolding handle_acknowledge
  acknowledge-Keeps none = λ w h. h
  acknowledge-Keeps (some req) =
      branch (On S) (leb_int req.rule_id (pos 0) || is_empty req.fingerprint) _ _ (λ w h. h)
        (bind (On S) (silence_until env req.silence_hours) (acknowledge_until env req)
          (silence_until-Keeps req.silence_hours)
          (λ until.
            set_acknowledged-Keeps S env (to_ℕ req.rule_id) req.fingerprint until
              (λ i. k.ack i (to_ℕ req.rule_id) req.fingerprint (format_ptr until))))

  list_history-Keeps :
      (id : ℤ) (fp state : Text) (limit offset : ℤ)
      → Keeps (On S) (list_history env id fp state limit offset)
  unfolding list_history count_history select_history
  list_history-Keeps id fp state limit offset =
      bind (On S) (count_history env id fp state) _ (exec-Keeps (On S) env _ (λ w h. h) (λ w h. h))
        (λ total.
          bind (On S) (select_history env id fp state limit offset) _
            (exec-Keeps (On S) env _ (λ w h. h) (λ w h. h)) (λ rows w h. h))

  create-Keeps : (req : Option CreateRuleRequest) → Keeps (On S) (handle_create_rule env req)
  unfolding handle_create_rule
  create-Keeps none = λ w h. h
  create-Keeps (some req) =
      branch (On S) (is_empty req.name || is_empty req.expr) _ _ (λ w h. h)
        (create_rule-Keeps (rule_of_request req))

  update-Keeps :
      (id : ℕ) (req : Option CreateRuleRequest) → Keeps (On S) (handle_update_rule env id req)
  unfolding handle_update_rule
  update-Keeps id none = λ w h. h
  update-Keeps id (some req) =
      branch (On S) (is_empty req.name || is_empty req.expr) _ _ (λ w h. h)
        (update_rule-Keeps id req)

  test_query-Keeps :
      (vm : Bool) (req : Option (Text × Bool)) → Keeps (On S) (handle_test_query env vm req)
  unfolding handle_test_query
  test_query-Keeps vm none = branch (On S) (not vm) _ _ (λ w h. h) (λ w h. h)
  test_query-Keeps vm (some (expr, blank)) =
      branch (On S) (not vm) _ _ (λ w h. h)
        (branch (On S) blank _ _ (λ w h. h) (query-Keeps (On S) env expr (λ w h. h)))

  serve-Keeps : (r : Request) (w : World) → S w.states → S (serve env r w).states
  unfolding serve handle_list_rules handle_status handle_delete_rule handle_list_history
  serve-Keeps tick w h = evaluate-Keeps S env k.edits w h
  serve-Keeps list_rules_request w h = list_rules-Keeps w h
  serve-Keeps status_request w h = list_rules-Keeps w h
  serve-Keeps (create req) w h = create-Keeps req w h
  serve-Keeps (update id req) w h = update-Keeps id req w h
  serve-Keeps (delete id) w h = delete_rule-Keeps id w h
  serve-Keeps (acknowledge req) w h = acknowledge-Keeps req w h
  serve-Keeps (history_request id fp state limit offset) w h =
      list_history-Keeps id fp state (page_limit limit) offset w h
  serve-Keeps (test_query vm req) w h = test_query-Keeps vm req w h

  pub serve_all-Keeps : (l : List Request) (w : World) → S w.states → S (serve_all env l w).states
  unfolding serve_all
  serve_all-Keeps [] w h = h
  serve_all-Keeps (r ∷ l) w h = serve_all-Keeps l (serve env r w) (serve-Keeps r w h)
