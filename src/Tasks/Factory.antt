-- ===== src/Tasks/Factory.antt =====
-- How tasks are built from their configurations: tasks/factory.go, and `buildAllTasks` of
-- cmd/monitorbeat/main.go. The builders are given, each with none for its error.
use monitorbeat.Base.{Option, none, some, is_some, List, [], ◌∷◌, if◌then◌else◌}
use monitorbeat.Base.Text.{Text, text_eq}
use monitorbeat.Configs.Root.{TaskConfig, get_type}

module _ {ℓ} (Task : Type ℓ) where
  abbrev pub Builder : Type ℓ
  Builder = TaskConfig → Option Task

  -- The map from types to builders.
  abbrev pub Builders : Type ℓ
  Builders = List (Text × Builder)

  unfoldable pub builder_of : Text → Builders → Option Builder
  unfolding text_eq
  builder_of typ [] = none
  builder_of typ ((k, b) ∷ l) =
      let rest = builder_of typ l in if text_eq k typ then some b else rest

  -- `RegisterBuilder`; none is its panic at a type that has a builder.
  unfoldable pub register_builder : Text → Builder → Builders → Option Builders
  unfolding builder_of
  register_builder typ b l = if is_some (builder_of typ l) then none else some ((typ, b) ∷ l)

  -- `Build`; a type without a builder is an error.
  unfoldable pub build : Builders → TaskConfig → Option Task
  unfolding builder_of get_type
  build l tc = elim (builder_of (get_type tc) l) [ none ↦ none | some b ↦ b tc ]

  -- `RegisteredTypes`.
  unfoldable pub registered_types : Builders → List Text
  registered_types [] = []
  registered_types ((k, b) ∷ l) = k ∷ registered_types l

  abbrev keep_task : Text → Option Task → List Task × List Text → List Task × List Text
  keep_task typ none (out, skipped) = (out, typ ∷ skipped)
  keep_task typ (some t) (out, skipped) = (t ∷ out, skipped)

  -- The loop of `buildAllTasks`: the tasks, and the types of those that were not built.
  unfoldable pub build_all_tasks : Builders → List TaskConfig → List Task × List Text
  unfolding build
  build_all_tasks l [] = ([], [])
  build_all_tasks l (tc ∷ tcs) = keep_task (get_type tc) (build l tc) (build_all_tasks l tcs)
