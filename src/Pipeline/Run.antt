-- ===== src/Pipeline/Run.antt =====
-- pkg/build/build.go: `Run` and `runAllMatchingBuilds`. The loop runs the synchronous steps in
-- order and starts a goroutine for each asynchronous one; a state is what the loop and the
-- goroutines share, and a transition is one atomic piece of either. A goroutine adds its identifier
-- and then sends its error, if any, as two transitions.
pub mod Counts
pub mod Results
pub mod Progress
use engine_ci.Base.{
  ℕ, ◌<◌, String, Bool, true, false, ◌&&◌, Option, none, some, List, [], ◌∷◌, ◌++◌, ◌==◌, ◌≡◌,
  if◌then◌else◌, length,
}
use engine_ci.Container.Build.{Build}
use engine_ci.Pipeline.Step.{BuildStep, Context}

pub data BuildLoop : Type 0 where
  stop continue : BuildLoop

pub record BuildResult : Type 0 where
  pub ids : List String
  pub loop : BuildLoop
  pub error : Option String

-- A goroutine before `ids.Add`, and one that still has to send its error.
pub data Task : Type 0 where
  started : String → Option String → Task
  sending : String → Task

pub record RunState : Type 0 where
  pub rest : List Context
  pub running : List Task
  pub ids : List String
  pub err_ch : List String
  pub build_err : Option String

-- `Run(arg, step...)`: the variadic argument is nil if no name is given.
abbrev pub is_named : List String → Context → Bool
is_named [] c = true
is_named (name ∷ names) c = c.step.name == name

-- The two tests with which an iteration of the loop begins.
unfoldable pub is_selected : Build → List String → Context → Bool
is_selected arg names c = c.step.matches arg && is_named names c

-- `if err != nil { buildErr = err }`
abbrev pub latest : Option String → Option String → Option String
latest old none = old
latest old (some e) = some e

-- What is left of a goroutine once it has added its identifier.
abbrev pub after_add : Option String → List Task
after_add none = []
after_add (some e) = sending e ∷ []

module _ (arg : Build) (names : List String) (capacity : ℕ) where
  pub data Step : RunState → RunState → Type 0 where
    -- `continue` past a step that is not selected
    skip :
        (s : RunState) (c : Context) (cs : List Context)
        → s.rest ≡ c ∷ cs
        → is_selected arg names c ≡ false
        → Step s (record s { rest = cs })
    -- a synchronous step: its error does not stop the loop
    sync :
        (s : RunState) (c : Context) (cs : List Context) (id : String) (err : Option String)
        → s.rest ≡ c ∷ cs
        → is_selected arg names c ≡ true
        → c.step.is_async ≡ false
        → c.step.run_with_build arg ≡ (id, err)
        → Step s
            (record s { rest = cs; ids = s.ids ++ id ∷ []; build_err = latest s.build_err err })
    -- `go func(...)`
    launch :
        (s : RunState) (c : Context) (cs : List Context) (id : String) (err : Option String)
        → s.rest ≡ c ∷ cs
        → is_selected arg names c ≡ true
        → c.step.is_async ≡ true
        → c.step.run_with_build arg ≡ (id, err)
        → Step s (record s { rest = cs; running = started id err ∷ s.running })
    -- `ids.Add(id)` in a goroutine
    report :
        (s : RunState) (xs ys : List Task) (id : String) (err : Option String)
        → s.running ≡ xs ++ started id err ∷ ys
        → Step s (record s { running = xs ++ (after_add err ++ ys); ids = s.ids ++ id ∷ [] })
    -- `errCh <- err`, which waits while the channel is full
    send :
        (s : RunState) (xs ys : List Task) (e : String)
        → s.running ≡ xs ++ sending e ∷ ys
        → length s.err_ch < capacity
        → Step s (record s { running = xs ++ ys; err_ch = s.err_ch ++ e ∷ [] })

  pub data Reach (s : RunState) : RunState → Type 0 where
    here : Reach s s
    next : {t u : RunState} → Reach s t → Step t u → Reach s u

unfoldable pub initial : List Context → RunState
initial steps = record { rest = steps; running = []; ids = []; err_ch = []; build_err = none }

-- `wg.Wait()` has returned after the loop.
abbrev pub IsFinal : RunState → Type 0
IsFinal s = (s.rest ≡ []) × (s.running ≡ [])

-- The first error of the channel, which stands in only if no synchronous step failed.
abbrev pub first_async : List String → Option String
first_async [] = none
first_async (e ∷ es) = some e

abbrev or_async : Option String → List String → Option String
or_async none errs = first_async errs
or_async (some e) errs = some e

-- The code behind `close(errCh)`.
unfoldable pub finish : RunState → BuildResult
finish s = record { ids = s.ids; loop = continue; error = or_async s.build_err s.err_ch }
