-- ===== src/Alerts/Api/Silence.antt =====
-- What holds of the table of states after any requests and ticks, and what follows for a silence.
use monitorbeat.Base.{◌≡◌, refl, Bool, true, not, ◌||◌, List, [], ◌∷◌, is_some, ◌==◌}
use monitorbeat.Base.Text.{Text}
use monitorbeat.Alerts.Time.{is_set, parse_ptr, format_rfc3339}
use monitorbeat.Alerts.Models.{StateRow, Env}
use monitorbeat.Alerts.Store.{acked, unacked, notified}
use monitorbeat.Alerts.Store.States.{
  IsKeyed, upsert_row-IsKeyed, update_key-IsKeyed, filter-IsKeyed,
}
use monitorbeat.Alerts.Api.Reach.{Request, serve_all, fresh, KeepsTable, serve_all-Keeps}

IsKeyed-table : (env : Env) → KeepsTable IsKeyed env
IsKeyed-table env = record {
  edits = λ id fp. record {
    upsert = λ labels status val p f l. upsert_row-IsKeyed _ l;
    clear = update_key-IsKeyed id fp unacked (λ s. (refl, refl));
    notify = λ s. update_key-IsKeyed id fp (notified s) (λ s. (refl, refl));
  };
  ack = λ k id fp until.
      update_key-IsKeyed id fp (acked (format_rfc3339 (env.clock k)) until) (λ s. (refl, refl));
  delete_rows = λ id. filter-IsKeyed (λ s. not (s.rule_id == id));
}

-- Whatever statements fail, any requests and ticks from a fresh database leave at most one row for
-- each rule and fingerprint.
pub serve_all-IsKeyed : (env : Env) (l : List Request) → IsKeyed (serve_all env l fresh).states
serve_all-IsKeyed env l = serve_all-Keeps IsKeyed env (IsKeyed-table env) l fresh tt

-- A row with a silence has an acknowledgement, which the code reads as set.
abbrev pub is_acked : StateRow → Bool
is_acked s = not (is_some s.silence_until) || is_set (parse_ptr s.acknowledged_at)

abbrev pub AllAcked : List StateRow → Type 0
AllAcked [] = Unit
AllAcked (s ∷ l) = (is_acked s ≡ true) × AllAcked l
