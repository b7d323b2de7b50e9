-- ===== src/Engine.antt =====
-- The engine of the agent: internal/engine/engine.go, and internal/reloader/reloader.go. What each
-- output does with an event is given; the outputs' states are passed on.
use monitorbeat.Base.{
  ℕ, zero, suc, Bool, true, false, Option, none, some, List, [], ◌∷◌, ◌++◌, if◌then◌else◌,
}
use monitorbeat.Base.Int.{ℤ, pos, negsuc}
use monitorbeat.Base.Text.{Text, codes}
use monitorbeat.Configs.Param.{or_default}
mod Tests

-- What the engine waits for: the context, the ticker of the heartbeat, or the channel.
pub data Signal {ℓ} (E : Type ℓ) : Type ℓ where
  cancelled heartbeat_due closed : Signal E
  received : E → Signal E

-- How `Run` ends; `waiting` is a run that waits on.
pub data Ended : Type 0 where
  by_context by_channel waiting : Ended

pub record Engine (S : Type 0) : Type 0 where
  pub outputs : List S
  pub buffer : ℤ
  pub version : Text
  pub heartbeat_interval : ℤ
  pub start_time : ℕ

-- `New`.
unfoldable pub new_engine : {S : Type 0} → ℤ → Text → ℤ → ℕ → Engine S
unfolding or_default
new_engine buf version interval now = record {
  outputs = [];
  buffer = or_default 1024 buf;
  version = version;
  heartbeat_interval = interval;
  start_time = now;
}

-- `AddOutput`.
unfoldable pub add_output : {S : Type 0} → S → Engine S → Engine S
add_output o e = record e { outputs = e.outputs ++ o ∷ [] }

-- No ticker is made for an interval that is not positive.
unfoldable pub has_heartbeat : {S : Type 0} → Engine S → Bool
has_heartbeat e = elim e.heartbeat_interval [
  | pos zero ↦ false
  | pos (suc n) ↦ true
  | negsuc n ↦ false
]

module _ {S E : Type 0} (publish : E → S → Bool × S) (heartbeat : Engine S → E) where
  -- The loop over the outputs: an error is logged, and the next output is next.
  unfoldable pub publish_to : E → List S → List S
  publish_to ev [] = []
  publish_to ev (o ∷ l) = (publish ev o).1 ∷ publish_to ev l

  -- `publishHeartbeat`.
  unfoldable pub publish_heartbeat : Engine S → Engine S
  unfolding publish_to
  publish_heartbeat e = record e { outputs = publish_to (heartbeat e) e.outputs }

  -- `Run`.
  unfoldable pub run_engine : List (Signal E) → Engine S → Ended × Engine S
  unfolding publish_to publish_heartbeat has_heartbeat
  run_engine [] e = (waiting, e)
  run_engine (cancelled ∷ l) e = (by_context, e)
  run_engine (heartbeat_due ∷ l) e =
      run_engine l (if has_heartbeat e then publish_heartbeat e else e)
  run_engine (closed ∷ l) e = (by_channel, e)
  run_engine (received ev ∷ l) e = run_engine l (record e { outputs = publish_to ev e.outputs })

-- What the reloader waits for: the context, or the signal.
pub data Turn : Type 0 where
  done signalled : Turn

-- `Reloader.Run`, where each reload ends before the next signal; without a function it returns at once.
unfoldable pub run_reloader : {S : Type 0} → Option (S → Bool × S) → List Turn → S → S
run_reloader none l s = s
run_reloader (some reload) [] s = s
run_reloader (some reload) (done ∷ l) s = s
run_reloader (some reload) (signalled ∷ l) s = run_reloader (some reload) l (reload s).1
