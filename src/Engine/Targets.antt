-- ===== src/Engine/Targets.antt =====
-- cmd/build.go: the targets of a command. What a target does is an `Action`.
pub mod Resolve
use engine_ci.Base.{
  String, ◌⧺◌, Bool, true, false, ◌||◌, Option, none, some, List, [], ◌∷◌, ◌==◌, if◌then◌else◌,
  Dict, lookup, insert,
}
use engine_ci.Container.Build.{Build}
use engine_ci.Pipeline.Step.{Context}
use engine_ci.Pipeline.Run.{BuildResult, continue}

pub data Action : Type 0 where
  run_step : String → Action
  run_all github_actions docker_load docker_save list_targets : Action

-- `AddTarget`: a name that is taken keeps its action.
pub add_target : String → Action → Dict Action → Dict Action
add_target name act targets = elim (lookup name targets) [
  | none ↦ insert name act targets
  | some old ↦ targets
]

-- A step of no build type, or of the build's own.
abbrev pub fits : String → Context → Bool
fits type c = elim c.step.build_type [ none ↦ true | some t ↦ t == type ]

-- The loop of `Run` over the pipeline.
register : String → List Context → Dict Action → Dict Action
register type [] targets = targets
register type (c ∷ cs) targets =
    register type cs
      (if fits type c then add_target c.step.alias (run_step c.step.name) targets else targets)

register_fixed : Dict Action → Dict Action
register_fixed targets = add_target "list" list_targets (
    add_target "docker_save" docker_save (
      add_target "docker_load" docker_load
        (add_target "github_actions" github_actions (add_target "all" run_all targets))))

-- The targets of a new command once `Run` has registered them.
unfoldable pub targets_of : String → List Context → Dict Action
unfolding register register_fixed
targets_of type steps = register_fixed (register type steps [])

-- An error is logged, and is passed on with the identifiers.
abbrev pub with_error : BuildResult → BuildResult
with_error r = elim r.error [
  | none ↦ r
  | some e ↦ record { ids = r.ids; loop = continue; error = some e }
]

-- The end of `Run`, with what an action answers as an argument: an unknown target is no error.
unfoldable pub run_target : (Action → BuildResult) → Dict Action → String → BuildResult
run_target perform targets target = elim (lookup target targets) [
  | none ↦ record { ids = []; loop = continue; error = none }
  | some act ↦ with_error (perform act)
]
