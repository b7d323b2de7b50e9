-- ===== src/Smtp.antt =====
-- The mail of an alert: web/smtp/sender.go. The template, the environment, the clock's text and the
-- connection are parameters.
pub mod Reader
pub mod Headers
mod Tests
use monitorbeat.Base.{
  ℕ, suc, ◌-◌, Bool, true, false, ◌&&◌, ◌||◌, Option, none, some, List, [], ◌∷◌, ◌++◌, length, take,
  drop, if◌then◌else◌,
}
use monitorbeat.Base.Int.{ℤ}
use monitorbeat.Base.Text.{Text, codes, text_eq}
use monitorbeat.Alerts.Api.{is_empty}
use monitorbeat.Alerts.Labels.{Labels, label, keys, sort_strings}
use monitorbeat.Alerts.Models.{AlertRule}
use monitorbeat.Configs.Param.{print_int}
use monitorbeat.Exceptionbeat.Strings.{has_prefix, has_suffix}

pub record Config : Type 0 where
  pub host : Text
  pub port : ℤ
  pub username : Text
  pub password : Text
  pub from : Text
  pub to : List Text
  pub insecure : Bool

pub record Sender : Type 0 where
  pub cfg : Config
  pub web_url : Text

-- `resolvePassword`; an unset variable reads as the empty text.
unfoldable pub resolve_password : (Text → Text) → Text → Text
unfolding has_prefix has_suffix
resolve_password getenv pw =
    let v = getenv (take (length pw - 3) (drop 2 pw)) in
    if has_prefix (codes "${") pw && has_suffix (codes "}") pw
    then (if is_empty v then pw else v)
    else pw

-- `New`, which leaves the URL of the console empty.
unfoldable pub new : (Text → Text) → Config → Sender
unfolding resolve_password
new getenv cfg = record {
  cfg = record cfg { password = resolve_password getenv cfg.password };
  web_url = [];
}

-- `hostnameOrUnknown`.
unfoldable pub hostname_or_unknown : Text → Text
hostname_or_unknown host = if is_empty host then codes "(unknown)" else host

pub record LabelKv : Type 0 where
  pub key : Text
  pub val : Text

pub record EmailData : Type 0 where
  pub rule_name : Text
  pub hostname : Text
  pub expr : Text
  pub labels : List LabelKv
  pub value : ℕ
  pub state_label : Text
  pub time : Text
  pub web_url : Text

unfoldable pub label_list : Labels → List Text → List LabelKv
label_list labels [] = []
label_list labels (k ∷ ks) = record { key = k; val = label k labels } ∷ label_list labels ks

-- The two words of the body, in UTF-8: recovered, and alerting.
unfoldable pub body_state : Text → Text
body_state state =
    if text_eq state (codes "recovered")
    then 0xe5 ∷ 0xb7 ∷ 0xb2 ∷ 0xe6 ∷ 0x81 ∷ 0xa2 ∷ 0xe5 ∷ 0xa4 ∷ 0x8d ∷ []
    else 0xe5 ∷ 0x91 ∷ 0x8a ∷ 0xe8 ∷ 0xad ∷ 0xa6 ∷ 0xe4 ∷ 0xb8 ∷ 0xad ∷ []

-- The data that `renderBody` gives to the template.
unfoldable pub email_data : Sender → AlertRule → Text → Labels → ℕ → Text → Text → EmailData
unfolding label_list body_state hostname_or_unknown sort_strings keys
email_data s rule hostname labels value state time = record {
  rule_name = rule.name;
  hostname = hostname_or_unknown hostname;
  expr = rule.expr;
  labels = label_list labels (sort_strings (keys labels));
  value = value;
  state_label = body_state state;
  time = time;
  web_url = s.web_url;
}

-- The subject of `SendAlert`.
unfoldable pub subject : Text → Text → Text → Text
unfolding hostname_or_unknown
subject state name hostname =
    codes "[MONITOR] "
    ++ ((if text_eq state (codes "recovered") then codes "RECOVERED" else codes "FIRING")
        ++ (codes ": " ++ (name ++ (codes " @ " ++ hostname_or_unknown hostname))))

-- `strings.Join(_, ",")`.
unfoldable pub join_comma : List Text → Text
join_comma [] = []
join_comma (a ∷ []) = a
join_comma (a ∷ b ∷ l) = a ++ (b',' ∷ join_comma (b ∷ l))

-- The message of `SendAlert`.
unfoldable pub message : Text → List Text → Text → Text → Text
unfolding join_comma
message from to subject body =
    codes "From: "
    ++ (from
        ++ (codes "\r\nTo: "
            ++ (join_comma to
                ++ (codes "\r\nSubject: "
                    ++ (subject
                        ++ (codes
                              "\r\nMIME-Version: 1.0\r\nContent-Type: text/html; charset=UTF-8\r\n\r\n"
                            ++ body))))))

-- The arguments of `smtp.PlainAuth` and `smtp.SendMail`.
pub record Outgoing : Type 0 where
  pub addr : Text
  pub username : Text
  pub password : Text
  pub auth_host : Text
  pub from : Text
  pub to : List Text
  pub msg : Text

-- What `SendAlert` comes to: nothing to do, no body, or the result of the call that sends.
pub data Sent (E : Type 0) : Type 0 where
  not_configured render_failed : Sent E
  called : Outgoing → Option E → Sent E

unfoldable pub outgoing : Sender → Text → Text → Outgoing
unfolding message print_int
outgoing s subject body = record {
  addr = s.cfg.host ++ (b':' ∷ print_int s.cfg.port);
  username = s.cfg.username;
  password = s.cfg.password;
  auth_host = s.cfg.host;
  from = s.cfg.from;
  to = s.cfg.to;
  msg = message s.cfg.from s.cfg.to subject body;
}

abbrev pub no_recipient : List Text → Bool
no_recipient [] = true
no_recipient (a ∷ l) = false

-- `SendAlert`.
module _ {E : Type 0} (send_mail : Outgoing → Option E) (render : EmailData → Option Text) where
  unfoldable pub send_rendered : Sender → Text → Option Text → Sent E
  unfolding outgoing
  send_rendered s subject none = render_failed
  send_rendered s subject (some body) =
      called (outgoing s subject body) (send_mail (outgoing s subject body))

  unfoldable pub send_alert : Sender → AlertRule → Text → Labels → ℕ → Text → Text → Sent E
  unfolding send_rendered subject email_data
  send_alert s rule hostname labels value state time =
      if is_empty s.cfg.host || no_recipient s.cfg.to
      then not_configured
      else send_rendered s (subject state rule.name hostname)
          (render (email_data s rule hostname labels value state time))
