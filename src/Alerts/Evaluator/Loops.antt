-- ===== src/Alerts/Evaluator/Loops.antt =====
-- The two loops of `evaluateRule` over all instances and states, where the database does not fail.
use monitorbeat.Base.{
  ℕ, ◌≤◌, ◌≡◌, refl, ap, ◌∙◌, subst, Bool, true, false, Option, none, List, [], ◌∷◌, any, is_some,
  arith, if◌then◌else◌, Bool-cases, inl, inr,
}
use mathlib.Core.Option
use mathlib.Core.List.{Perm, Permᴰ}
use mathlib.Core.Logic.{∥∥₁_elim}
use monitorbeat.Base.Text.{Text, text_eq, text_eq→≡}
use monitorbeat.Base.Int.{pos}
use monitorbeat.Alerts.Models.{ok, AlertState, AlertRule, Instance, StateRow, World, Env}
use monitorbeat.Alerts.Store.{state_of_row, is_active}
use monitorbeat.Alerts.Store.States.{active_only}
use monitorbeat.Alerts.Store.Keeps.{clear_ack-Keeps}
use monitorbeat.Alerts.Evaluator.{
  observe, observe_all, resolve_absent, resolve, resolve_all, find_state, find_instance,
  Status-cases, clear_state,
}
use monitorbeat.Alerts.Evaluator.Keeps.{observe-Keeps, resolve-Keeps, recover-Keeps}
use monitorbeat.Alerts.Evaluator.Phase.{Phase, inactive, phase, seen}
use monitorbeat.Alerts.Evaluator.Reconcile.{
  PhaseAt, unacked-PhaseAt, other-PhaseAt, upsert_state-PhaseAt, observe_found-PhaseAt,
}

-- A series with the fingerprint is among the instances; a state with it is among the historical.
abbrev pub has_instance : Text → List Instance → Bool
has_instance fp = any (λ i. text_eq i.fingerprint fp)

abbrev pub has_state : Text → List AlertState → Bool
has_state fp = any (λ h. text_eq h.fingerprint fp)

pub find_instance-any :
    (fp : Text) (l : List Instance) → is_some (find_instance l fp) ≡ has_instance fp l
unfolding find_instance
find_instance-any fp [] = refl
find_instance-any fp (i ∷ l) = ground (arith, find_instance-any fp l)

pub find_state-any : (fp : Text) (l : List AlertState) → is_some (find_state l fp) ≡ has_state fp l
unfolding find_state
find_state-any fp [] = refl
find_state-any fp (h ∷ l) = ground (arith, find_state-any fp l)

has_instance-permᴰ :
    (fp : Text) {l m : List Instance} → Permᴰ l m → has_instance fp l ≡ has_instance fp m
has_instance-permᴰ fp Permᴰ.nil = refl
has_instance-permᴰ fp (Permᴰ.cons e p) = rw (e, has_instance-permᴰ fp p)
has_instance-permᴰ fp (Permᴰ.swap e f) = rw (← e, ← f) (ground arith)
has_instance-permᴰ fp (Permᴰ.trans p q) = has_instance-permᴰ fp p ∙ has_instance-permᴰ fp q

Bool-set : IsSet Bool
Bool-set = hlevel

pub has_instance-perm :
    (fp : Text) {l m : List Instance} → Perm l m → has_instance fp l ≡ has_instance fp m
has_instance-perm fp p = ∥∥₁_elim p (Bool-set _ _) (has_instance-permᴰ fp)

-- The states that the query for active states returns.
abbrev pub AllActive : List AlertState → Type 0
AllActive [] = Unit
AllActive (h ∷ l) = (is_active h.status ≡ true) × AllActive l

pub if_same {ℓ} : {A : Type ℓ} (b : Bool) (a : A) → (if b then a else a) ≡ a
if_same true a = refl
if_same false a = refl

module _ (env : Env) (reliable : (k : ℕ) → env.fails k ≡ false) (rule : AlertRule) (n : ℕ)
    (dur : rule.duration ≡ pos n) (small : n ≤ 9223372036) (fp : Text) where
  observe-PhaseAt :
      (inst : Instance) (now : ℕ) (historical : List AlertState) (o : Option StateRow)
      → inst.fingerprint ≡ fp
      → find_state historical fp ≡ Option.map (state_of_row env) (active_only o)
      → (w : World)
      → PhaseAt rule.id fp (seen n now (phase o)) (observe env rule now historical inst w).1.states
  unfolding observe
  observe-PhaseAt inst now historical o same e w =
      subst
        (λ f.
          PhaseAt rule.id f (seen n now (phase o))
            (observe env rule now historical inst w).1.states)
        same
        (rw (ap (find_state historical) same ∙ e)
          (observe_found-PhaseAt env reliable rule n dur small inst now o w))

  -- The first loop: a reported fingerprint takes its step, the others stay.
  pub observe_all-PhaseAt :
      (now : ℕ) (historical : List AlertState) (o : Option StateRow)
      → find_state historical fp ≡ Option.map (state_of_row env) (active_only o)
      → (l : List Instance) (p : Phase) (w : World) → PhaseAt rule.id fp p w.states
      → PhaseAt rule.id fp
          (if has_instance fp l then seen n now (phase o) else p)
          (observe_all env rule now historical l w).1.states
  unfolding observe_all
  observe_all-PhaseAt now historical o e [] p w h = h
  observe_all-PhaseAt now historical o e (i ∷ l) p w h =
      elim (Bool-cases (text_eq i.fingerprint fp)) [
        | inl hit ↦ rw hit (
            rw (if_same (has_instance fp l) (seen n now (phase o))) at (
              observe_all-PhaseAt now historical o e l (seen n now (phase o))
                (observe env rule now historical i w).1
                (observe-PhaseAt i now historical o (text_eq→≡ i.fingerprint fp hit) e w)))
        | inr miss ↦ rw miss (
            observe_all-PhaseAt now historical o e l p _ (
              observe-Keeps (PhaseAt rule.id fp p) env rule i
                (other-PhaseAt env rule.id fp p rule.id i.fingerprint (ground (arith, miss))) now
                historical w h))
      ]

  resolve_absent-PhaseAt :
      (h : AlertState)
      → h.fingerprint ≡ fp
      → is_active h.status ≡ true
      → (w : World) → PhaseAt rule.id fp inactive (resolve_absent env rule h w).1.states
  unfolding resolve_absent clear_state is_active
  resolve_absent-PhaseAt h same a w = elim (Status-cases h.status) [
    | inl e ↦ cc (ap is_active e)
    | inr (inl e) ↦ rw (e, resolve_absent) cleared
    | inr (inr e) ↦
        rw (e, resolve_absent)
          (recover-Keeps (PhaseAt rule.id fp inactive) env rule h.labels h.last_value _ (
            clear_ack-Keeps (PhaseAt rule.id fp inactive) env rule.id h.fingerprint
              (unacked-PhaseAt rule.id fp inactive rule.id h.fingerprint) _ cleared))
  ]
    where
      cleared : PhaseAt rule.id fp inactive (clear_state env rule h w).1.states
      cleared =
          subst (λ f. PhaseAt rule.id f inactive (clear_state env rule h w).1.states) same
            (upsert_state-PhaseAt env reliable rule h.fingerprint h.labels ok h.last_value none none
              w)

  resolve-there :
      (current : List Instance) (s : AlertState) (p : Phase) (w : World)
      → s.fingerprint ≡ fp
      → has_instance fp current ≡ true
      → PhaseAt rule.id fp p w.states
      → PhaseAt rule.id fp p (resolve env rule current s w).1.states
  unfolding resolve
  resolve-there current s p w same there h =
      rw (ap (λ f. is_some (find_instance current f)) same ∙ find_instance-any fp current ∙ there) h

  resolve-gone :
      (current : List Instance) (s : AlertState) (w : World)
      → s.fingerprint ≡ fp
      → is_active s.status ≡ true
      → has_instance fp current ≡ false
      → PhaseAt rule.id fp inactive (resolve env rule current s w).1.states
  unfolding resolve
  resolve-gone current s w same a gone =
      rw (ap (λ f. is_some (find_instance current f)) same ∙ find_instance-any fp current ∙ gone)
        (resolve_absent-PhaseAt s same a w)

  -- The second loop: a fingerprint that is not reported any more becomes inactive.
  pub resolve_all-PhaseAt :
      (current : List Instance) (l : List AlertState) (p : Phase) (w : World)
      → AllActive l
      → PhaseAt rule.id fp p w.states
      → PhaseAt rule.id fp
          (if has_instance fp current then p else (if has_state fp l then inactive else p))
          (resolve_all env rule current l w).1.states
  unfolding resolve_all
  resolve_all-PhaseAt current [] p w a h = rw (if_same (has_instance fp current) p) h
  resolve_all-PhaseAt current (s ∷ l) p w a h = elim (Bool-cases (text_eq s.fingerprint fp)) [
    | inl hit ↦ elim (Bool-cases (has_instance fp current)) [
      | inl there ↦ rw there (
          rw there at (
            resolve_all-PhaseAt current l p (resolve env rule current s w).1 a.1
              (resolve-there current s p w (text_eq→≡ s.fingerprint fp hit) there h)))
      | inr gone ↦
          rw (gone, hit)
            (rw (gone, if_same (has_state fp l) inactive) at
              (resolve_all-PhaseAt current l inactive (resolve env rule current s w).1 a.1
                (resolve-gone current s w (text_eq→≡ s.fingerprint fp hit) a.0 gone)))
    ]
    | inr miss ↦ rw miss (
        resolve_all-PhaseAt current l p (resolve env rule current s w).1 a.1 (
          resolve-Keeps (PhaseAt rule.id fp p) env rule current s
            (other-PhaseAt env rule.id fp p rule.id s.fingerprint (ground (arith, miss))) w h))
  ]
