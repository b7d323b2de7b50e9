-- ===== src/Engine/Tests.antt =====
-- The engine at concrete inputs.
use monitorbeat.Base.{ℕ, ◌≡◌, refl, Bool, false, List, [], ◌∷◌, ◌++◌}
use monitorbeat.Base.Int.{pos}
use monitorbeat.Engine.{
  cancelled, heartbeat_due, received, by_context, Engine, new_engine, add_output, run_engine,
}

-- An output that keeps the events and fails at each.
abbrev publish : ℕ → List ℕ → Bool × List ℕ
publish ev l = (false, l ++ ev ∷ [])

abbrev engine : Engine (List ℕ)
engine = add_output [] (add_output (9 ∷ []) (new_engine (pos 0) [] (pos 60) 0))

test_run :
    run_engine publish
      (λ e. 0)
      (received 1 ∷ heartbeat_due ∷ received 2 ∷ cancelled ∷ received 3 ∷ [])
      engine
    ≡ (by_context, record engine { outputs = (9 ∷ 1 ∷ 0 ∷ 2 ∷ []) ∷ (1 ∷ 0 ∷ 2 ∷ []) ∷ [] })
unfolding run_engine new_engine add_output
test_run = refl
