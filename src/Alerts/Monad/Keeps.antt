-- ===== src/Alerts/Monad/Keeps.antt =====
-- Properties of the world that a call keeps, whether or not its statements fail: the rules for
-- composed calls.
use monitorbeat.Base.{suc, Bool, true, false, if◌then◌else◌, Bool-cases, Option-cases, inl, inr}
use monitorbeat.Base.Text.{Text}
use monitorbeat.Alerts.Models.{World, Env}
use monitorbeat.Alerts.Monad.{Result, value, error, M, next, ◌>>=◌, exec, time_now, query}

abbrev pub Keeps : {A : Type 0} → (World → Type 0) → M A → Type 0
Keeps I m = (w : World) → I w → I (m w).1

module _ (I : World → Type 0) where
  pub next-Keeps :
      {A B : Type 0} (r : Result A) (w : World) (f : A → M B)
      → ((a : A) → Keeps I (f a))
      → I w
      → I (next r w f).1
  next-Keeps (value a) w f k h = k a w h
  next-Keeps (error e) w f k h = h

  pub bind :
      {A B : Type 0} (m : M A) (f : A → M B)
      → Keeps I m
      → ((a : A) → Keeps I (f a))
      → Keeps I (m >>= f)
  bind m f km kf w h = next-Keeps (m w).0 (m w).1 f kf (km w h)

  pub branch :
      {A : Type 0} (b : Bool) (m n : M A) → Keeps I m → Keeps I n → Keeps I (if b then m else n)
  branch true m n km kn = km
  branch false m n km kn = kn

-- The calls of the world outside keep what does not speak of their counters.
module _ (I : World → Type 0) (env : Env) where
  pub exec-Keeps :
      {A : Type 0} (f : World → Result A × World)
      → ((w : World) → I w → I (record w { statements = suc w.statements }))
      → Keeps I f
      → Keeps I (exec env f)
  unfolding exec
  exec-Keeps f counter k w h = elim (Bool-cases (env.fails w.statements)) [
    | inl e ↦ rw e (counter w h)
    | inr e ↦ rw e (k _ (counter w h))
  ]

  pub time_now-Keeps :
      ((w : World) → I w → I (record w { readings = suc w.readings })) → Keeps I (time_now env)
  unfolding time_now
  time_now-Keeps counter w h = counter w h

  pub query-Keeps :
      (expr : Text)
      → ((w : World) → I w → I (record w { queries = suc w.queries }))
      → Keeps I (query env expr)
  unfolding query
  query-Keeps expr counter w h = elim (Option-cases (env.vm w.queries expr)) [
    | inl e ↦ rw (e, query) (counter w h)
    | inr (vs, e) ↦ rw (e, query) (counter w h)
  ]
