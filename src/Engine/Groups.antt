-- ===== src/Engine/Groups.antt =====
-- cmd/engine.go: Engine, executeBuildGroup and executeBuild. The groups run one after the other, the
-- builds of a group in parallel; `outcome` is what `Command.Run` answers for a build. A build that
-- fails ends the process.
pub mod Outcome
use engine_ci.Base.{ℕ, String, Option, none, some, List, [], ◌∷◌, ◌++◌, ◌≡◌, length}
use engine_ci.Container.Build.{Build}
use engine_ci.Pipeline.Run.{BuildResult, BuildLoop, stop, continue}

pub record EngineState : Type 0 where
  pub waiting : List (List Build)
  pub running : List Build
  pub ids : List String
  pub exited : Option ℕ

unfoldable pub initial : List (List Build) → EngineState
initial groups = record { waiting = groups; running = []; ids = []; exited = none }

-- The end of `executeBuild`, given the builds of the group that are still running.
unfoldable pub after_run : BuildResult → List Build → EngineState → EngineState
after_run r others s = elim r.error [
  | some e ↦ record s { exited = some 1 }
  | none ↦ elim r.loop [
    | stop ↦ record s { exited = some 0 }
    | continue ↦ record s { running = others; ids = s.ids ++ r.ids }
  ]
]

module _ (outcome : Build → BuildResult) where
  pub data Step : EngineState → EngineState → Type 0 where
    -- the next group starts once the one before has been waited for
    start_group :
        (s : EngineState) (g : List Build) (gs : List (List Build))
        → s.exited ≡ none
        → s.running ≡ []
        → s.waiting ≡ g ∷ gs
        → Step s (record s { waiting = gs; running = g })
    -- some build of the group ends
    end_build :
        (s : EngineState) (xs : List Build) (b : Build) (ys : List Build)
        → s.exited ≡ none
        → s.running ≡ xs ++ b ∷ ys
        → Step s (after_run (outcome b) (xs ++ ys) s)

  pub data Reach (s : EngineState) : EngineState → Type 0 where
    here : Reach s s
    next : {t u : EngineState} → Reach s t → Step t u → Reach s u

-- Every group was started and waited for.
abbrev pub IsDone : EngineState → Type 0
IsDone s = (s.waiting ≡ []) × (s.running ≡ [])
