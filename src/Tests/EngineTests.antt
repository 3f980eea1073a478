-- ===== src/Tests/EngineTests.antt =====
-- The engine, its targets and its images on concrete pipelines.
use engine_ci.Base.{String, none, some, List, [], ◌∷◌, ◌≡◌, ◌↔◌, inl, refl, SameTexts}
use engine_ci.Container.Build.{Build}
use engine_ci.Pipeline.Step.{BuildStep}
use engine_ci.Pipeline.Run.{BuildResult, stop, continue}
use engine_ci.Engine.Registration.{Package}
use engine_ci.Engine.Targets.{Action, run_step, targets_of, run_target, with_error}
use engine_ci.Engine.Targets.Resolve.{resolve, run_target_lem}
use engine_ci.Engine.Groups.{
  EngineState, initial, after_run, start_group, end_build, Reach, here, next,
}
use engine_ci.Engine.Groups.Outcome.{all_ending, all_ids, engine_normal, engine-ids}
use engine_ci.Tests.Samples.{build, compile, pipeline}

abbrev every : Package → BuildStep
every p = compile

abbrev perform : Action → BuildResult
perform (run_step name) = record { ids = name ∷ []; loop = stop; error = some "failed" }
perform act = record { ids = []; loop = stop; error = none }

run_target_example :
    run_target perform (targets_of "GoLang" pipeline) "lint"
    ≡ (elim (resolve "GoLang" "lint" pipeline) [
      | none ↦ record { ids = []; loop = continue; error = none }
      | some act ↦ with_error (perform act)
    ])
run_target_example = run_target_lem perform "GoLang" "lint" pipeline

lint_target :
    run_target perform (targets_of "GoLang" pipeline) "lint"
    ≡ record { ids = "lint" ∷ []; loop = continue; error = some "failed" }
lint_target = run_target_example

abbrev fine : Build → BuildResult
fine b = record { ids = b.app ∷ []; loop = continue; error = none }

abbrev groups : List (List Build)
groups = (build ∷ []) ∷ []

abbrev going : EngineState
going = record { waiting = []; running = build ∷ []; ids = []; exited = none }

abbrev gone : EngineState
gone = record { waiting = []; running = []; ids = "app" ∷ []; exited = none }

engine_run : Reach fine (initial groups) gone
unfolding initial after_run
engine_run =
    next (next here (start_group (initial groups) (build ∷ []) [] refl refl refl))
      (end_build going [] build [] refl refl)

engine_normal_example : (gone.exited ≡ none) ↔ (all_ending fine groups ≡ 0)
engine_normal_example = engine_normal fine groups engine_run (inl (refl, refl))

engine-ids_example : SameTexts gone.ids (all_ids fine groups)
engine-ids_example = engine-ids fine groups engine_run (refl, refl) refl

abbrev golang_image : String
golang_image = "containifyci/golang:abc"

abbrev with_image : BuildStep
with_image = record compile {
  intermediate_images = λ b.
      record { uri = golang_image; dockerfile = "golang/Dockerfile" }
      ∷ record { uri = golang_image; dockerfile = "golang/Dockerfile" }
      ∷ [];
}
