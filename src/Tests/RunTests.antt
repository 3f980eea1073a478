-- ===== src/Tests/RunTests.antt =====
-- A run of a synchronous step and an asynchronous one that fails.
use engine_ci.Base.{none, some, List, [], ◌∷◌, ◌≡◌, ◌↔◌, ◌⊎◌, refl, arith, SameTexts}
use engine_ci.Pipeline.Step.{Context}
use engine_ci.Pipeline.Run.{
  started, sending, RunState, Step, sync, launch, report, send, Reach, here, next, initial, IsFinal,
  finish, is_selected,
}
use engine_ci.Pipeline.Run.Counts.{selected_ids, async_errors, sync_errors, last_of}
use engine_ci.Pipeline.Run.Results.{finish-ids, finish-sync_error, finish-no_error}
use engine_ci.Pipeline.Run.Progress.{run_progress, run_ends}
use engine_ci.Tests.Samples.{build, compile, lint, scan, in_category, pipeline}

abbrev s1 : RunState
s1 = record {
  rest = in_category "quality" lint ∷ [];
  running = [];
  ids = "compile" ∷ [];
  err_ch = [];
  build_err = none;
}

abbrev s2 : RunState
s2 = record s1 { rest = []; running = started "lint" (some "lint failed") ∷ [] }

abbrev s3 : RunState
s3 = record s2 { running = sending "lint failed" ∷ []; ids = "compile" ∷ "lint" ∷ [] }

abbrev s4 : RunState
s4 = record s3 { running = []; err_ch = "lint failed" ∷ [] }

compile_runs : Step build [] 2 (initial pipeline) s1
unfolding initial is_selected
compile_runs =
    sync (initial pipeline) (in_category "build" compile) (in_category "quality" lint ∷ [])
      "compile" none refl refl refl refl

lint_starts : Step build [] 2 s1 s2
unfolding is_selected
lint_starts =
    launch s1 (in_category "quality" lint) [] "lint" (some "lint failed") refl refl refl refl

lint_reports : Step build [] 2 s2 s3
lint_reports = report s2 [] [] "lint" (some "lint failed") refl

lint_sends : Step build [] 2 s3 s4
lint_sends = send s3 [] [] "lint failed" refl (omega arith)

started_run : Reach build [] 2 (initial pipeline) s2
started_run = next (next here compile_runs) lint_starts

whole_run : Reach build [] 2 (initial pipeline) s4
whole_run = next (next started_run lint_reports) lint_sends

run_progress_example : IsFinal s2 ⊎ ((u : RunState) × Step build [] 2 s2 u)
run_progress_example = run_progress build [] pipeline s2 started_run

run_ends_example : (u : RunState) × Reach build [] 2 s2 u × IsFinal u
run_ends_example = run_ends build [] pipeline s2 started_run

finish-ids_example : SameTexts (finish s4).ids (selected_ids build [] pipeline)
finish-ids_example = finish-ids build [] 2 pipeline whole_run (refl, refl)

finish-no_error_example :
    ((finish s4).error ≡ none)
    ↔ ((sync_errors build [] pipeline ≡ []) × (async_errors build [] pipeline ≡ []))
finish-no_error_example = finish-no_error build [] 2 pipeline whole_run (refl, refl)

quiet : sync_errors build [] pipeline ≡ []
unfolding is_selected
quiet = refl

answer : (finish s4).error ≡ some "lint failed"
unfolding finish
answer = refl

-- A pipeline whose only step is synchronous and fails.
abbrev failing : List Context
failing = in_category "quality" scan ∷ []

abbrev failed : RunState
failed = record {
  rest = [];
  running = [];
  ids = "scan" ∷ [];
  err_ch = [];
  build_err = some "scan failed";
}

failing_run : Reach build [] 1 (initial failing) failed
unfolding initial is_selected
failing_run = next here (
    sync (initial failing) (in_category "quality" scan) [] "scan" (some "scan failed") refl refl
      refl refl)

loud : last_of (sync_errors build [] failing) ≡ some "scan failed"
unfolding is_selected
loud = refl

finish-sync_error_example : (finish failed).error ≡ some "scan failed"
finish-sync_error_example =
    finish-sync_error build [] 1 failing failing_run (refl, refl) "scan failed" loud
