-- ===== src/Alerts/Evaluator/Reconcile.antt =====
-- One current instance in `evaluateRule`: its row takes the step of the abstract life, where the
-- database does not fail, and the rows of other keys stay.
use monitorbeat.Base.{
  ℕ, ◌+◌, ◌*◌, ◌/◌, ◌≤◌, ◌≡◌, refl, false, ◌&&◌, ◌||◌, Option, none, some, List, arith, leb, ◌==◌,
  Bool-cases, inl, inr,
}
use mathlib.Core.Option
use monitorbeat.Base.Text.{Text, text_eq, text_eq_refl}
use monitorbeat.Base.Int.{pos}
use monitorbeat.Alerts.Labels.{Labels}
use monitorbeat.Alerts.Time.{second, format_ptr, format_rfc3339, set_or, is_set}
use monitorbeat.Alerts.Models.{
  Status, pending, firing, AlertState, AlertRule, Instance, StateRow, World, Env,
}
use monitorbeat.Alerts.Monad.{◌>>◌, exec}
use monitorbeat.Alerts.Store.{
  update_key, new_row, unacked, notified, upsert_state, state_of_row, is_active,
}
use monitorbeat.Alerts.Store.States.{row, merged, row-upsert_row, row-update_key, active_only}
use monitorbeat.Alerts.Store.Keeps.{On}
use monitorbeat.Alerts.Monad.Keeps.{Keeps}
use monitorbeat.Alerts.Evaluator.{
  fire, put_state, observe_new, observe_pending, observe_firing, notify_again, end_silence, refresh,
  observe_found, is_limited, silence_over, is_silent, Status-cases,
}
use monitorbeat.Alerts.Evaluator.Keeps.{KeepsEdits, fire-Keeps}
use monitorbeat.Alerts.Evaluator.Phase.{
  Phase, inactive, waiting, alerting, status_phase, phase, origin, seen, is_due_exact,
  is_zero_exact, origin_exact,
}

-- The phase of a key is kept by edits of other keys, and by what `fire` and `ClearAck` write.
abbrev pub PhaseAt : ℕ → Text → Phase → List StateRow → Type 0
PhaseAt id fp p l = phase (row id fp l) ≡ p

phase-map :
    (g : StateRow → StateRow) (o : Option StateRow)
    → ((s : StateRow) → phase (some (g s)) ≡ phase (some s))
    → phase (Option.map g o) ≡ phase o
phase-map g none h = refl
phase-map g (some s) h = h s

pub unacked-PhaseAt :
    (id : ℕ) (fp : Text) (p : Phase) (r : ℕ) (f : Text) (l : List StateRow)
    → PhaseAt id fp p l
    → PhaseAt id fp p (update_key r f unacked l)
unacked-PhaseAt id fp p r f l h = ground (
  arith,
  row-update_key r f unacked (λ s. (refl, refl)) id fp l,
  phase-map unacked (row id fp l) (λ s. refl),
)

notified-PhaseAt :
    (id : ℕ) (fp : Text) (p : Phase) (r : ℕ) (f : Text) (t : ℕ) (l : List StateRow)
    → PhaseAt id fp p l
    → PhaseAt id fp p (update_key r f (notified t) l)
notified-PhaseAt id fp p r f t l h = ground (
  arith,
  row-update_key r f (notified t) (λ s. (refl, refl)) id fp l,
  phase-map (notified t) (row id fp l) (λ s. refl),
)

pub other-PhaseAt :
    (env : Env) (id : ℕ) (fp : Text) (p : Phase) (r : ℕ) (f : Text)
    → (r == id && text_eq f fp) ≡ false
    → KeepsEdits (PhaseAt id fp p) env r f
unfolding new_row
other-PhaseAt env id fp p r f ne = record {
  upsert = λ labels status val ps fs l h.
      ground (arith, row-upsert_row id fp (new_row env r f labels status val ps fs) l);
  clear = unacked-PhaseAt id fp p r f;
  notify = λ s l h. notified-PhaseAt id fp p r f s l h;
}

merged-phase :
    (new : StateRow) (o : Option StateRow) → phase (some (merged new o)) ≡ phase (some new)
merged-phase new none = refl
merged-phase new (some old) = refl

module _ (env : Env) (reliable : (k : ℕ) → env.fails k ≡ false) (rule : AlertRule) where
  -- The write of a row.
  pub upsert_state-PhaseAt :
      (fp : Text) (labels : Labels) (status : Status) (val : ℕ) (p f : Option ℕ) (w : World)
      → PhaseAt rule.id fp
          (status_phase status (format_ptr p) (format_ptr f))
          (upsert_state env rule.id fp labels status val p f w).1.states
  unfolding upsert_state exec new_row
  upsert_state-PhaseAt fp labels status val p f w = rw (reliable w.statements) (
      ground (
        arith,
        row-upsert_row rule.id fp (new_row env rule.id fp labels status val p f) w.states,
        text_eq_refl fp,
        merged-phase (new_row env rule.id fp labels status val p f) (row rule.id fp w.states),
      ))

  fire-PhaseAt :
      (inst : Instance) (p : Phase)
      → Keeps (On (PhaseAt rule.id inst.fingerprint p)) (fire env rule inst)
  fire-PhaseAt inst p =
      fire-Keeps (PhaseAt rule.id inst.fingerprint p) env rule inst
        (λ s l h. notified-PhaseAt rule.id inst.fingerprint p rule.id inst.fingerprint s l h)

  module _ (n : ℕ) (dur : rule.duration ≡ pos n) (small : n ≤ 9223372036) (inst : Instance)
      (now : ℕ) where
    Self : Phase → World → Type 0
    Self p = On (PhaseAt rule.id inst.fingerprint p)

    start_firing :
        (w : World)
        → PhaseAt rule.id inst.fingerprint
            (alerting (some (now / second)))
            ((put_state env rule inst firing none (some now) >> fire env rule inst) w).1.states
    unfolding format_ptr format_rfc3339
    start_firing w =
        fire-PhaseAt inst (alerting (some (now / second))) _
          (upsert_state-PhaseAt inst.fingerprint inst.labels firing inst.value none (some now) w)

    observe_new-PhaseAt :
        (w : World)
        → PhaseAt rule.id inst.fingerprint
            (seen n now inactive)
            (observe_new env rule now inst w).1.states
    unfolding observe_new seen format_ptr format_rfc3339
    observe_new-PhaseAt w = rw (is_zero_exact rule n dur) (elim (Bool-cases (n == 0)) [
      | inl e ↦ rw e (start_firing w)
      | inr e ↦
          rw e
            (upsert_state-PhaseAt inst.fingerprint inst.labels pending inst.value (some now) none w)
    ])

    observe_pending-PhaseAt :
        (h : AlertState) (since : Option ℕ)
        → set_or h.pending_since now ≡ origin now since
        → (w : World)
        → PhaseAt rule.id inst.fingerprint
            (seen n now (waiting since))
            (observe_pending env rule now inst h w).1.states
    unfolding observe_pending seen format_ptr format_rfc3339
    observe_pending-PhaseAt h since e w =
        rw (e, is_due_exact rule n now (origin now since) dur small)
          (elim (Bool-cases (leb (origin now since + n * second) now)) [
            | inl t ↦ rw t (start_firing w)
            | inr t ↦ rw t (
                upsert_state-PhaseAt inst.fingerprint inst.labels pending inst.value
                  (some (origin now since)) none w)
          ])

    refresh-PhaseAt :
        (h : AlertState) (since : Option ℕ)
        → set_or h.firing_since now ≡ origin now since
        → (w : World)
        → PhaseAt rule.id inst.fingerprint
            (seen n now (alerting since))
            (refresh env rule now inst h w).1.states
    unfolding refresh seen format_ptr format_rfc3339
    refresh-PhaseAt h since e w = rw e (
        upsert_state-PhaseAt inst.fingerprint inst.labels firing inst.value none
          (some (origin now since)) w)

    notify_again-PhaseAt :
        (h : AlertState) (since : Option ℕ)
        → set_or h.firing_since now ≡ origin now since
        → (w : World)
        → PhaseAt rule.id inst.fingerprint
            (seen n now (alerting since))
            (notify_again env rule now inst h w).1.states
    unfolding notify_again
    notify_again-PhaseAt h since e w = elim (Bool-cases (is_limited h now)) [
      | inl t ↦ rw t (refresh-PhaseAt h since e w)
      | inr t ↦ rw t (
          fire-PhaseAt inst (seen n now (alerting since)) (refresh env rule now inst h w).1
            (refresh-PhaseAt h since e w))
    ]

    observe_firing-PhaseAt :
        (h : AlertState) (since : Option ℕ)
        → set_or h.firing_since now ≡ origin now since
        → (w : World)
        → PhaseAt rule.id inst.fingerprint
            (seen n now (alerting since))
            (observe_firing env rule now inst h w).1.states
    unfolding observe_firing end_silence
    observe_firing-PhaseAt h since e w =
        elim (Bool-cases (is_set h.acknowledged_at || is_silent h now)) [
          | inl quiet ↦ rw quiet (refresh-PhaseAt h since e w)
          | inr loud ↦ rw loud (elim (Bool-cases (silence_over h now)) [
            | inl over ↦ rw over (notify_again-PhaseAt h since e _)
            | inr no_silence ↦ rw no_silence (notify_again-PhaseAt h since e w)
          ])
        ]

    -- The phase that a historical state stands for, and whether it is one that the query returns.
    pub observe_found-PhaseAt :
        (o : Option StateRow) (w : World)
        → PhaseAt rule.id inst.fingerprint
            (seen n now (phase o))
            (observe_found env rule now inst
              (Option.map (state_of_row env) (active_only o))
              w).1.states
    unfolding observe_found state_of_row is_active
    observe_found-PhaseAt none w = observe_new-PhaseAt w
    observe_found-PhaseAt (some s) w = elim (Status-cases s.status) [
      | inl e ↦ rw (e, active_only, observe_found) (observe_new-PhaseAt w)
      | inr (inl e) ↦
          rw (e, active_only, observe_found, state_of_row)
            (observe_pending-PhaseAt (state_of_row env (record s { status = pending }))
              s.pending_since (origin_exact now s.pending_since) w)
      | inr (inr e) ↦
          rw (e, active_only, observe_found, state_of_row)
            (observe_firing-PhaseAt (state_of_row env (record s { status = firing })) s.firing_since
              (origin_exact now s.firing_since) w)
    ]
