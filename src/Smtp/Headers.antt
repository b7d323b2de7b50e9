-- ===== src/Smtp/Headers.antt =====
-- What a reader of a mail's header makes of the message of `SendAlert` in web/smtp/sender.go.
use monitorbeat.Base.{
  ℕ, ◌≡◌, refl, ap, ◌∙◌, true, false, Option, some, List, [], ◌∷◌, ◌++◌, All, arith, Bool-cases,
  inl, inr,
}
use monitorbeat.Base.Text.{Text, codes, text_eq}
use monitorbeat.Alerts.Api.{is_empty}
use monitorbeat.Alerts.Labels.{Labels}
use monitorbeat.Alerts.Models.{AlertRule}
use monitorbeat.Smtp.Reader.{
  Fields, IsField, one_line, one_line-append, read_mail, write_fields, read_mail-write_fields,
}
use monitorbeat.Smtp.{
  Sender, EmailData, Outgoing, called, email_data, hostname_or_unknown, subject, no_recipient,
  join_comma, message, outgoing, send_rendered, send_alert,
}

-- The fields of an alert's mail.
abbrev pub mail_fields : Text → List Text → Text → Fields
mail_fields from to subject =
    (codes "From", from)
    ∷ (codes "To", join_comma to)
    ∷ (codes "Subject", subject)
    ∷ (codes "MIME-Version", codes "1.0")
    ∷ (codes "Content-Type", codes "text/html; charset=UTF-8")
    ∷ []

mail_fields-IsField :
    (from : Text) (to : List Text) (subject : Text)
    → one_line from ≡ true
    → one_line (join_comma to) ≡ true
    → one_line subject ≡ true
    → All IsField (mail_fields from to subject)
mail_fields-IsField from to subject h1 h2 h3 =
    ((refl, h1), ((refl, h2), ((refl, h3), ((refl, refl), ((refl, refl), tt)))))

message-write_fields :
    (from : Text) (to : List Text) (subject body : Text)
    → message from to subject body ≡ write_fields (mail_fields from to subject) body
unfolding message write_fields
message-write_fields from to subject body = refl

join_comma-one_line :
    (l : List Text) → All (λ a. one_line a ≡ true) l → one_line (join_comma l) ≡ true
unfolding join_comma
join_comma-one_line [] h = refl
join_comma-one_line (a ∷ []) (h, k) = h
join_comma-one_line (a ∷ b ∷ l) (h, k) =
    one_line-append a (b',' ∷ join_comma (b ∷ l)) h (ground (arith, join_comma-one_line (b ∷ l) k))

host_line :
    (hostname : Text) → one_line hostname ≡ true → one_line (hostname_or_unknown hostname) ≡ true
unfolding hostname_or_unknown
host_line [] k = refl
host_line (c ∷ s) k = k

subject-one_line :
    (state name hostname : Text)
    → one_line name ≡ true
    → one_line hostname ≡ true
    → one_line (subject state name hostname) ≡ true
unfolding subject hostname_or_unknown
subject-one_line state name hostname h k = elim (Bool-cases (text_eq state (codes "recovered"))) [
  | inl e ↦ rw e tail
  | inr e ↦ rw e tail
]
  where
    tail : one_line (name ++ (codes " @ " ++ hostname_or_unknown hostname)) ≡ true
    tail =
        one_line-append name (codes " @ " ++ hostname_or_unknown hostname) h (host_line hostname k)

module _ {E : Type 0} (send_mail : Outgoing → Option E) (render : EmailData → Option Text) where
  -- With a server and a recipient, and with a sender's address, recipients, a rule's name and a host
  -- name of one line each: when the body is rendered, one mail is handed over for the recipients, its
  -- result is returned, and the mail is read back as the fields From, To, Subject, MIME-Version and
  -- Content-Type with their values and the rendered body.
  pub send_alert_lem :
      (s : Sender) (rule : AlertRule) (hostname : Text) (labels : Labels) (value : ℕ)
      (state time body : Text)
      → is_empty s.cfg.host ≡ false
      → no_recipient s.cfg.to ≡ false
      → one_line s.cfg.from ≡ true
      → All (λ a. one_line a ≡ true) s.cfg.to
      → one_line rule.name ≡ true
      → one_line hostname ≡ true
      → render (email_data s rule hostname labels value state time) ≡ some body
      → (out : Outgoing) × (send_alert send_mail render s rule hostname labels value state time
          ≡ called out (send_mail out))
        × (out.to ≡ s.cfg.to)
        × (read_mail out.msg
            ≡ some (mail_fields s.cfg.from s.cfg.to (subject state rule.name hostname), body))
  unfolding send_alert send_rendered outgoing
  send_alert_lem s rule hostname labels value state time body h1 h2 h3 h4 h5 h6 h7 =
      let title : Text = subject state rule.name hostname in
      (
        outgoing s title body,
        rw (h1, h2, h7) refl,
        refl,
        ap read_mail (message-write_fields s.cfg.from s.cfg.to title body)
            ∙ read_mail-write_fields (mail_fields s.cfg.from s.cfg.to title) body (
                mail_fields-IsField s.cfg.from s.cfg.to title h3 (join_comma-one_line s.cfg.to h4)
                  (subject-one_line state rule.name hostname h5 h6)),
      )
