-- ===== src/Smtp/Tests.antt =====
-- The mail of an alert at concrete inputs.
use monitorbeat.Base.{◌≡◌, refl, true, false, Option, some, [], ◌∷◌}
use monitorbeat.Base.Int.{pos}
use monitorbeat.Base.Text.{Text, codes, text_eq}
use monitorbeat.Alerts.Models.{AlertRule}
use monitorbeat.Smtp.{
  Config, EmailData, Outgoing, called, new, resolve_password, subject, send_alert,
}
use monitorbeat.Smtp.Reader.{read_mail}
use monitorbeat.Smtp.Headers.{mail_fields, send_alert_lem}

abbrev config : Config
config = record {
  host = codes "mx";
  port = pos 25;
  username = [];
  password = codes "${SMTP_PW}";
  from = codes "mb@x";
  to = codes "a@x" ∷ codes "b@x" ∷ [];
  insecure = false;
}

abbrev getenv : Text → Text
getenv k = codes "secret"

abbrev rule : AlertRule
rule = record {
  id = 1;
  name = codes "cpu";
  enabled = true;
  expr = codes "up == 0";
  duration = pos 0;
  description = [];
  created_at = 0;
  updated_at = 0;
  states = [];
}

abbrev render : EmailData → Option Text
render d = some (codes "<h2>\r\n.\r\n")

abbrev refused : Outgoing → Option Text
refused out = some (codes "refused")

send_alert_lem_example :
    (out : Outgoing) × (send_alert refused render
        (new getenv config)
        rule
        []
        []
        7
        (codes "recovered")
        []
      ≡ called out (some (codes "refused")))
    × (out.to ≡ config.to)
    × (read_mail out.msg
        ≡ some (
          mail_fields config.from config.to (subject (codes "recovered") (codes "cpu") []),
          codes "<h2>\r\n.\r\n",
        ))
unfolding new
send_alert_lem_example =
    send_alert_lem refused render (new getenv config) rule [] [] 7 (codes "recovered") []
      (codes "<h2>\r\n.\r\n") refl refl refl (refl, (refl, tt)) refl refl refl

test_password : resolve_password getenv (codes "${SMTP_PW}") ≡ codes "secret"
unfolding resolve_password text_eq
test_password = refl

test_key : resolve_password (λ k. k) (codes "${SMTP_PW}") ≡ codes "SMTP_PW"
unfolding resolve_password text_eq
test_key = refl

test_subject : subject (codes "firing") (codes "cpu") [] ≡ codes "[MONITOR] FIRING: cpu @ (unknown)"
unfolding subject text_eq
test_subject = refl
