-- ===== src/Alerts/Evaluator/Mails.antt =====
-- Which mails one evaluation sends, under any failures of the database.
use mathlib.Core.List.{append-nil, append_assoc}
use monitorbeat.Base.{
  ℕ, ◌+◌, ◌*◌, ◌≤◌, ◌≡◌, refl, sym, ap, ◌∙◌, Bool, true, false, not, ◌&&◌, ◌||◌, Option, none, some,
  List, [], ◌∷◌, ◌++◌, map, filter, is_some, arith, leb, ◌==◌, if◌then◌else◌, Bool-cases, inl, inr,
}
use monitorbeat.Base.Text.{Text}
use monitorbeat.Base.Int.{pos}
use monitorbeat.Alerts.Labels.{Labels}
use monitorbeat.Alerts.Time.{second, is_set, set_or}
use monitorbeat.Alerts.Models.{
  Status, firing, Notice, fired, recovered, AlertState, AlertRule, Instance, Mail, Vector, World,
  Env,
}
use monitorbeat.Alerts.Monad.{◌>>◌, exec, time_now, query}
use monitorbeat.Alerts.Store.{
  upsert_state, clear_ack, set_last_notified, add_history, state_of_row, active_rows,
  get_active_states,
}
use monitorbeat.Alerts.Evaluator.{
  send_alert, fire, recover, put_state, observe_new, observe_pending, observe_firing, notify_again,
  end_silence, refresh, observe_found, observe, observe_all, clear_state, resolve_absent, resolve,
  resolve_all, reconcile_with, reconcile, evaluate_rule, is_limited, silence_over, is_silent,
  find_state, find_instance, collect, Status-cases,
}
use monitorbeat.Alerts.Evaluator.Phase.{is_due_exact, is_zero_exact}
use monitorbeat.Alerts.Evaluator.Due.{
  mail_of, is_mail_due, fired_mails, is_firing, recovered_mails, loud_exact,
}

-- A list of mails, grown by one where the test passes.
abbrev grown : Bool → Mail → List Mail → List Mail
grown b m l = if b then l ++ m ∷ [] else l

-- A loop that grows the mails by one element's mail and goes on to the rest.
grown_cons :
    {A : Type 0} (p : A → Bool) (m : A → Mail) (a : A) (l : List A) (mails : List Mail)
    → grown (p a) (m a) mails ++ map m (filter p l) ≡ mails ++ map m (filter p (a ∷ l))
grown_cons p m a l mails = elim (Bool-cases (p a)) [
  | inl e ↦ rw e (append_assoc mails (m a ∷ []) (map m (filter p l)))
  | inr e ↦ rw e refl
]

module _ (env : Env) (on : env.email ≡ true) (rule : AlertRule) where
  mails-upsert_state :
      (fp : Text) (labels : Labels) (status : Status) (val : ℕ) (p f : Option ℕ) (w : World)
      → (upsert_state env rule.id fp labels status val p f w).1.mails ≡ w.mails
  unfolding upsert_state exec
  mails-upsert_state fp labels status val p f w = ground arith

  mails-clear_ack : (fp : Text) (w : World) → (clear_ack env rule.id fp w).1.mails ≡ w.mails
  unfolding clear_ack exec
  mails-clear_ack fp w = ground arith

  mails-set_last_notified :
      (fp : Text) (t : ℕ) (w : World) → (set_last_notified env rule.id fp t w).1.mails ≡ w.mails
  unfolding set_last_notified exec
  mails-set_last_notified fp t w = ground arith

  mails-add_history :
      (name fp : Text) (labels : Labels) (expr : Text) (val : ℕ) (n : Notice) (w : World)
      → (add_history env rule.id name fp labels expr val n w).1.mails ≡ w.mails
  unfolding add_history time_now exec
  mails-add_history name fp labels expr val n w = ground arith

  mails-send_alert :
      (labels : Labels) (val : ℕ) (n : Notice) (w : World)
      → (send_alert env rule labels val n w).1.mails ≡ w.mails ++ mail_of rule labels val n ∷ []
  unfolding send_alert
  mails-send_alert labels val n w = rw on

  mails-fire :
      (i : Instance) (w : World)
      → (fire env rule i w).1.mails ≡ w.mails ++ mail_of rule i.labels i.value fired ∷ []
  unfolding fire time_now
  mails-fire i w =
      mails-send_alert i.labels i.value fired _
      ∙ ap (λ l. l ++ mail_of rule i.labels i.value fired ∷ [])
          (mails-set_last_notified i.fingerprint _ _
            ∙ mails-add_history rule.name i.fingerprint i.labels rule.expr i.value fired w)

  mails-recover :
      (labels : Labels) (val : ℕ) (w : World)
      → (recover env rule labels val w).1.mails ≡ w.mails ++ mail_of rule labels val recovered ∷ []
  unfolding recover
  mails-recover labels val w =
      mails-send_alert labels val recovered _
      ∙ ap (λ l. l ++ mail_of rule labels val recovered ∷ []) (mails-add_history _ _ _ _ _ _ w)

  module _ (n : ℕ) (dur : rule.duration ≡ pos n) (small : n ≤ 9223372036) where
    mails-put_fire :
        (i : Instance) (t : Option ℕ) (w : World)
        → ((put_state env rule i firing none t >> fire env rule i) w).1.mails
          ≡ w.mails ++ mail_of rule i.labels i.value fired ∷ []
    mails-put_fire i t w =
        mails-fire i _
        ∙ ap (λ l. l ++ mail_of rule i.labels i.value fired ∷ []) (mails-upsert_state _ _ _ _ _ _ w)

    mails-observe_new :
        (now : ℕ) (i : Instance) (w : World)
        → (observe_new env rule now i w).1.mails
          ≡ grown (n == 0) (mail_of rule i.labels i.value fired) w.mails
    unfolding observe_new
    mails-observe_new now i w = rw (is_zero_exact rule n dur) (elim (Bool-cases (n == 0)) [
      | inl e ↦ rw e (mails-put_fire i (some now) w)
      | inr e ↦ rw e (mails-upsert_state _ _ _ _ _ _ w)
    ])

    mails-observe_pending :
        (now : ℕ) (i : Instance) (h : AlertState) (w : World)
        → (observe_pending env rule now i h w).1.mails
          ≡ grown
              (leb (set_or h.pending_since now + n * second) now)
              (mail_of rule i.labels i.value fired)
              w.mails
    unfolding observe_pending
    mails-observe_pending now i h w =
        rw (is_due_exact rule n now (set_or h.pending_since now) dur small)
          (elim (Bool-cases (leb (set_or h.pending_since now + n * second) now)) [
            | inl e ↦ rw e (mails-put_fire i (some now) w)
            | inr e ↦ rw e (mails-upsert_state _ _ _ _ _ _ w)
          ])

    mails-refresh :
        (now : ℕ) (i : Instance) (h : AlertState) (w : World)
        → (refresh env rule now i h w).1.mails ≡ w.mails
    unfolding refresh
    mails-refresh now i h w = mails-upsert_state _ _ _ _ _ _ w

    mails-notify_again :
        (now : ℕ) (i : Instance) (h : AlertState) (w : World)
        → (notify_again env rule now i h w).1.mails
          ≡ grown (not (is_limited h now)) (mail_of rule i.labels i.value fired) w.mails
    unfolding notify_again
    mails-notify_again now i h w = elim (Bool-cases (is_limited h now)) [
      | inl e ↦ rw e (mails-refresh now i h w)
      | inr e ↦ rw e (
          mails-fire i _
          ∙ ap (λ l. l ++ mail_of rule i.labels i.value fired ∷ []) (mails-refresh now i h w))
    ]

    mails-observe_firing :
        (now : ℕ) (i : Instance) (h : AlertState) (w : World)
        → (observe_firing env rule now i h w).1.mails
          ≡ grown
              (not (is_set h.acknowledged_at || is_silent h now) && not (is_limited h now))
              (mail_of rule i.labels i.value fired)
              w.mails
    unfolding observe_firing end_silence
    mails-observe_firing now i h w =
        elim (Bool-cases (is_set h.acknowledged_at || is_silent h now)) [
          | inl e ↦ rw e (mails-refresh now i h w)
          | inr e ↦ rw e (elim (Bool-cases (silence_over h now)) [
            | inl over ↦ rw over (
                mails-notify_again now i h _
                ∙ ap (grown (not (is_limited h now)) (mail_of rule i.labels i.value fired))
                    (mails-clear_ack i.fingerprint w))
            | inr no_silence ↦ rw no_silence (mails-notify_again now i h w)
          ])
        ]

    mails-observe_found :
        (now : ℕ) (i : Instance) (o : Option AlertState) (w : World)
        → (observe_found env rule now i o w).1.mails
          ≡ grown (is_mail_due n now o) (mail_of rule i.labels i.value fired) w.mails
    unfolding observe_found is_mail_due
    mails-observe_found now i none w = mails-observe_new now i w
    mails-observe_found now i (some h) w = elim (Status-cases h.status) [
      | inl e ↦ rw (e, observe_found, is_mail_due) refl
      | inr (inl e) ↦ rw (e, observe_found, is_mail_due) (mails-observe_pending now i h w)
      | inr (inr e) ↦
          rw (e, observe_found, is_mail_due)
            (mails-observe_firing now i h w
              ∙ ap (λ b. grown b (mail_of rule i.labels i.value fired) w.mails) (loud_exact h now))
    ]

    pub mails-observe_all :
        (now : ℕ) (historical : List AlertState) (l : List Instance) (w : World)
        → (observe_all env rule now historical l w).1.mails
          ≡ w.mails ++ fired_mails rule n now historical l
    unfolding observe_all observe fired_mails
    mails-observe_all now historical [] w = sym (append-nil w.mails)
    mails-observe_all now historical (i ∷ l) w =
        mails-observe_all now historical l (observe env rule now historical i w).1
        ∙ ap (λ m. m ++ fired_mails rule n now historical l)
            (mails-observe_found now i (find_state historical i.fingerprint) w)
        ∙ grown_cons (λ j. is_mail_due n now (find_state historical j.fingerprint))
            (λ j. mail_of rule j.labels j.value fired) i l w.mails

    mails-resolve :
        (current : List Instance) (h : AlertState) (w : World)
        → (resolve env rule current h w).1.mails
          ≡ grown
              (is_firing h.status && not (is_some (find_instance current h.fingerprint)))
              (mail_of rule h.labels h.last_value recovered)
              w.mails
    unfolding resolve clear_state resolve_absent
    mails-resolve current h w = elim (Bool-cases (is_some (find_instance current h.fingerprint))) [
      | inl there ↦ rw there (ground arith)
      | inr gone ↦ rw gone (elim (Status-cases h.status) [
        | inl e ↦ rw (e, resolve_absent) refl
        | inr (inl e) ↦ rw (e, resolve_absent) (mails-upsert_state _ _ _ _ _ _ w)
        | inr (inr e) ↦
            rw (e, resolve_absent)
              (mails-recover h.labels h.last_value _
                ∙ ap (λ l. l ++ mail_of rule h.labels h.last_value recovered ∷ [])
                    (mails-clear_ack h.fingerprint _ ∙ mails-upsert_state _ _ _ _ _ _ w))
      ])
    ]

    pub mails-resolve_all :
        (current : List Instance) (l : List AlertState) (w : World)
        → (resolve_all env rule current l w).1.mails ≡ w.mails ++ recovered_mails rule current l
    unfolding resolve_all recovered_mails
    mails-resolve_all current [] w = sym (append-nil w.mails)
    mails-resolve_all current (h ∷ l) w =
        mails-resolve_all current l (resolve env rule current h w).1
        ∙ ap (λ m. m ++ recovered_mails rule current l) (mails-resolve current h w)
        ∙ grown_cons
            (λ s. is_firing s.status && not (is_some (find_instance current s.fingerprint)))
            (λ s. mail_of rule s.labels s.last_value recovered) h l w.mails

-- With a sender, and the query answered and the states read: whatever other statements fail, one
-- evaluation of a rule (of a duration up to 292 years) sends a mail for exactly the reported
-- instances that are due one, in the order of iteration, and then one for each firing state whose
-- series is gone.
pub evaluate_rule-mails :
    (env : Env) (rule : AlertRule) (n : ℕ) (vs : List Vector) (w : World)
    → env.email ≡ true
    → rule.duration ≡ pos n
    → n ≤ 9223372036
    → env.vm w.queries rule.expr ≡ some vs
    → env.fails w.statements ≡ false
    → let historical = map (state_of_row env) (active_rows rule.id w.states) in
      let current = collect env [] vs in
      (evaluate_rule env rule w).1.mails
      ≡ w.mails
        ++ (fired_mails rule n (env.clock w.readings) historical (env.range current)
            ++ recovered_mails rule current historical)
unfolding evaluate_rule reconcile reconcile_with get_active_states query exec time_now
evaluate_rule-mails env rule n vs w on dur small answer read =
    let historical = map (state_of_row env) (active_rows rule.id w.states) in
    let current = collect env [] vs in
    rw (answer, query, read)
      (mails-resolve_all env on rule n dur small current historical _
        ∙ ap (λ m. m ++ recovered_mails rule current historical)
            (mails-observe_all env on rule n dur small (env.clock w.readings) historical
              (env.range current) _)
        ∙ append_assoc w.mails
            (fired_mails rule n (env.clock w.readings) historical (env.range current))
            (recovered_mails rule current historical))
