-- ===== src/Configs/Param.antt =====
-- What all task configurations share: configs/basetaskparam.go, and the defaults of define/config.go.
use monitorbeat.Base.{ℕ, zero, suc, ◌<◌, ◌≡◌, refl, Bool, List, [], ◌∷◌, ◌++◌, arith}
use monitorbeat.Base.Int.{ℤ, pos, negsuc}
use monitorbeat.Base.Text.{Text}
use monitorbeat.Input.Decimal.{decimal}

pub record BaseTaskParam : Type 0 where
  pub task_id : ℤ
  pub ident : Text
  pub period : ℤ
  pub timeout : ℤ
  pub enabled : Bool
  pub labels : List (List (Text × Text))

abbrev pub second : ℕ
second = 1000000000

-- `define.DefaultTimeout` and `define.DefaultPeriod`.
abbrev pub default_timeout : ℕ
default_timeout = 3000000000

abbrev pub default_period : ℕ
default_period = 10000000000

-- A number that is not positive is not configured.
unfoldable pub or_default : ℕ → ℤ → ℤ
or_default d (pos zero) = pos d
or_default d (pos (suc n)) = pos (suc n)
or_default d (negsuc n) = pos d

-- An empty text is not configured.
unfoldable pub or_text : Text → Text → Text
or_text d [] = d
or_text d (c ∷ s) = c ∷ s

-- `%d` of an int32.
unfoldable pub print_int : ℤ → Text
print_int (pos n) = decimal n
print_int (negsuc n) = b'-' ∷ decimal (suc n)

unfoldable pub default_task_id : ℤ → ℤ
default_task_id (pos zero) = pos 1
default_task_id (pos (suc n)) = pos (suc n)
default_task_id (negsuc n) = negsuc n

-- `fillDefaults` of a configuration of the given type.
unfoldable pub fill_defaults : Text → BaseTaskParam → BaseTaskParam
unfolding default_task_id or_text print_int
fill_defaults typ b =
    let id = default_task_id b.task_id in
    record b { task_id = id; ident = or_text (typ ++ (b':' ∷ print_int id)) b.ident }

unfoldable pub get_timeout : BaseTaskParam → ℤ
unfolding or_default
get_timeout b = or_default default_timeout b.timeout

unfoldable pub get_period : BaseTaskParam → ℤ
unfolding or_default
get_period b = or_default default_period b.period

unfoldable pub with_period : ℕ → BaseTaskParam → BaseTaskParam
unfolding or_default
with_period d b = record b { period = or_default d b.period }

unfoldable pub with_timeout : ℕ → BaseTaskParam → BaseTaskParam
unfolding or_default
with_timeout d b = record b { timeout = or_default d b.timeout }

pub or_default_idem : (d : ℕ) (n : ℤ) → 0 < d → or_default d (or_default d n) ≡ or_default d n
unfolding or_default
or_default_idem zero n h = absurd (omega arith)
or_default_idem (suc d) (pos zero) h = refl
or_default_idem (suc d) (pos (suc n)) h = refl
or_default_idem (suc d) (negsuc n) h = refl

pub or_text_idem : (d s : Text) → or_text d (or_text d s) ≡ or_text d s
unfolding or_text
or_text_idem [] [] = refl
or_text_idem (c ∷ d) [] = refl
or_text_idem d (c ∷ s) = refl

default_task_id_idem : (n : ℤ) → default_task_id (default_task_id n) ≡ default_task_id n
unfolding default_task_id
default_task_id_idem (pos zero) = refl
default_task_id_idem (pos (suc n)) = refl
default_task_id_idem (negsuc n) = refl

pub fill_defaults_idem :
    (typ : Text) (b : BaseTaskParam) → fill_defaults typ (fill_defaults typ b) ≡ fill_defaults typ b
unfolding fill_defaults
fill_defaults_idem typ b = simp (
  default_task_id_idem b.task_id,
  or_text_idem (typ ++ (b':' ∷ print_int (default_task_id b.task_id))) b.ident,
)

pub period_idem :
    (typ : Text) (d : ℕ) (b : BaseTaskParam)
    → 0 < d
    → let fill = λ (x : BaseTaskParam). with_period d (fill_defaults typ x) in
      fill (fill b) ≡ fill b
unfolding with_period fill_defaults
period_idem typ d b h =
    let id = default_task_id b.task_id in
    simp (
      default_task_id_idem b.task_id,
      or_text_idem (typ ++ (b':' ∷ print_int id)) b.ident,
      or_default_idem d b.period h,
    )

pub timeout_idem :
    (typ : Text) (d : ℕ) (b : BaseTaskParam)
    → 0 < d
    → let fill = λ (x : BaseTaskParam). with_timeout d (fill_defaults typ x) in
      fill (fill b) ≡ fill b
unfolding with_timeout fill_defaults
timeout_idem typ d b h =
    let id = default_task_id b.task_id in
    simp (
      default_task_id_idem b.task_id,
      or_text_idem (typ ++ (b':' ∷ print_int id)) b.ident,
      or_default_idem d b.timeout h,
    )

pub both_idem :
    (typ : Text) (d e : ℕ) (b : BaseTaskParam)
    → 0 < d
    → 0 < e
    → let fill = λ (x : BaseTaskParam). with_timeout e (with_period d (fill_defaults typ x)) in
      fill (fill b) ≡ fill b
unfolding with_period with_timeout fill_defaults
both_idem typ d e b h k =
    let id = default_task_id b.task_id in
    simp (
      default_task_id_idem b.task_id,
      or_text_idem (typ ++ (b':' ∷ print_int id)) b.ident,
      or_default_idem d b.period h,
      or_default_idem e b.timeout k,
    )
