-- ===== src/Alerts/Monad.antt =====
-- Calls that read and change the world and may return an error. An error stops a `do` block, as the
-- early returns of the source do; `attempt` stands where the source only logs or drops it.
pub mod Keeps
use monitorbeat.Base.{ℕ, suc, ◌≡◌, refl, Bool, true, false, Option, none, some, if◌then◌else◌}
use monitorbeat.Base.Text.{Text}
use monitorbeat.Base.{List}
use monitorbeat.Alerts.Models.{World, Env, Vector}

-- A driver error, a violated UNIQUE constraint, `sql.ErrNoRows`, an error of the query client.
pub data Error : Type 0 where
  driver unique no_rows upstream : Error

pub data Result {ℓ} (A : Type ℓ) : Type ℓ where
  value : A → Result A
  error : Error → Result A

abbrev pub M : Type 0 → Type 0
M A = World → Result A × World

abbrev pub next : {A B : Type 0} → Result A → World → (A → M B) → Result B × World
next (value a) w f = f a w
next (error e) w f = (error e, w)

infixl 5 ◌>>=◌ ◌>>◌
abbrev pub ◌>>=◌ : {A B : Type 0} → M A → (A → M B) → M B
◌>>=◌ m f w = next (m w).0 (m w).1 f

abbrev pub ◌>>◌ : {A B : Type 0} → M A → M B → M B
m >> k = m >>= λ _. k

abbrev pub done : {A : Type 0} → A → M A
done a w = (value a, w)

abbrev pub skip : M (Unit {0})
skip w = (value tt, w)

abbrev pub attempt : {A : Type 0} → M A → M (Unit {0})
attempt m w = (value tt, (m w).1)

-- One SQL statement: it may fail and then changes nothing.
unfoldable pub exec : {A : Type 0} → Env → (World → Result A × World) → M A
exec env f w =
    let w' = record w { statements = suc w.statements } in
    if env.fails w.statements then (error driver, w') else f w'

-- `time.Now()`.
unfoldable pub time_now : Env → M ℕ
time_now env w = (value (env.clock w.readings), record w { readings = suc w.readings })

-- `VMQuerier.Query`.
unfoldable pub query : Env → Text → M (List Vector)
query env expr w =
    let w' = record w { queries = suc w.queries } in
    elim (env.vm w.queries expr) [ none ↦ (error upstream, w') | some vs ↦ (value vs, w') ]
