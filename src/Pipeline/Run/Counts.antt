-- ===== src/Pipeline/Run/Counts.antt =====
-- What a run conserves, whatever its schedule: the identifiers, the errors of the goroutines and
-- the last error of the loop, each taken from what is done and what is still to do.
use engine_ci.Base.{
  ℕ, ◌+◌, String, Option, none, some, List, [], ◌∷◌, ◌++◌, ◌≡◌, refl, ap, ◌∙◌, arith, if◌then◌else◌,
  count, count-append,
}
use engine_ci.Container.Build.{Build}
use engine_ci.Pipeline.Step.{Context}
use engine_ci.Pipeline.Run.{
  Task, started, sending, RunState, is_selected, latest, after_add, Step, skip, sync, launch,
  report, send, Reach, here, next,
}

abbrev pub option_list : Option String → List String
option_list none = []
option_list (some e) = e ∷ []

-- The last text of a list.
abbrev pub last_of : List String → Option String
last_of [] = none
last_of (e ∷ []) = some e
last_of (e ∷ f ∷ es) = last_of (f ∷ es)

last_of-drop :
    (b : Option String) (e : String) (es : List String)
    → last_of (option_list b ++ e ∷ es) ≡ last_of (e ∷ es)
last_of-drop none e es = refl
last_of-drop (some b) e es = refl

pub last_of-option_list : (b : Option String) → last_of (option_list b ++ []) ≡ b
last_of-option_list none = refl
last_of-option_list (some e) = refl

last_of-latest :
    (b err : Option String) (es : List String)
    → last_of (option_list b ++ (option_list err ++ es))
      ≡ last_of (option_list (latest b err) ++ es)
last_of-latest b none es = refl
last_of-latest b (some e) es = last_of-drop b e es

module _ (arg : Build) (names : List String) where
  -- The identifiers of the selected steps.
  abbrev pub selected_ids : List Context → List String
  selected_ids [] = []
  selected_ids (c ∷ cs) =
      let rest = selected_ids cs in
      if is_selected arg names c then (c.step.run_with_build arg).0 ∷ rest else rest

  -- The errors of the selected asynchronous steps.
  abbrev pub async_errors : List Context → List String
  async_errors [] = []
  async_errors (c ∷ cs) =
      let rest = async_errors cs in
      if is_selected arg names c
      then (if c.step.is_async then option_list (c.step.run_with_build arg).1 ++ rest else rest)
      else rest

  -- The errors of the selected synchronous steps.
  abbrev pub sync_errors : List Context → List String
  sync_errors [] = []
  sync_errors (c ∷ cs) =
      let rest = sync_errors cs in
      if is_selected arg names c
      then (if c.step.is_async then rest else option_list (c.step.run_with_build arg).1 ++ rest)
      else rest

abbrev task_ids : List Task → List String
task_ids [] = []
task_ids (started id e ∷ ts) = id ∷ task_ids ts
task_ids (sending e ∷ ts) = task_ids ts

abbrev task_errors : List Task → List String
task_errors [] = []
task_errors (started id e ∷ ts) = option_list e ++ task_errors ts
task_errors (sending e ∷ ts) = e ∷ task_errors ts

task_ids-append : (xs ys : List Task) → task_ids (xs ++ ys) ≡ task_ids xs ++ task_ids ys
task_ids-append [] ys = refl
task_ids-append (started id e ∷ xs) ys = ap (◌∷◌ id) (task_ids-append xs ys)
task_ids-append (sending e ∷ xs) ys = task_ids-append xs ys

task_errors-append : (xs ys : List Task) → task_errors (xs ++ ys) ≡ task_errors xs ++ task_errors ys
task_errors-append [] ys = refl
task_errors-append (started id none ∷ xs) ys = task_errors-append xs ys
task_errors-append (started id (some e) ∷ xs) ys = ap (◌∷◌ e) (task_errors-append xs ys)
task_errors-append (sending e ∷ xs) ys = ap (◌∷◌ e) (task_errors-append xs ys)

module _ (arg : Build) (names : List String) (capacity : ℕ) where
  abbrev all_ids : RunState → String → ℕ
  all_ids s a =
      count a s.ids + count a (task_ids s.running) + count a (selected_ids arg names s.rest)

  abbrev all_errors : RunState → String → ℕ
  all_errors s a =
      count a s.err_ch + count a (task_errors s.running) + count a (async_errors arg names s.rest)

  -- The error that the loop leaves behind in the end: the last of those still to come, or the one it has.
  abbrev last_error : RunState → Option String
  last_error s = last_of (option_list s.build_err ++ sync_errors arg names s.rest)

  pub record Conserved (s t : RunState) : Type 0 where
    pub ids : (a : String) → all_ids s a ≡ all_ids t a
    pub errors : (a : String) → all_errors s a ≡ all_errors t a
    pub sync_error : last_error s ≡ last_error t

  Step-Conserved : {s t : RunState} → Step arg names capacity s t → Conserved s t
  unfolding count
  Step-Conserved (skip s c cs r n) = record {
    ids = λ a. rw (r, n);
    errors = λ a. rw (r, n);
    sync_error = rw (r, n);
  }
  Step-Conserved (sync s c cs id err r y n o) = record {
    ids = λ a. ground (arith, count-append a s.ids (id ∷ []));
    errors = λ a. ground arith;
    sync_error = rw (r, y, n, o) (last_of-latest s.build_err err (sync_errors arg names cs));
  }
  Step-Conserved (launch s c cs id err r y n o) = record {
    ids = λ a. ground arith;
    errors = λ a. ground (
      arith,
      count-append a (option_list err) (task_errors s.running),
      count-append a (option_list err) (async_errors arg names cs),
    );
    sync_error = ground arith;
  }
  Step-Conserved (report s xs ys id err r) = record {
    ids = λ a. ground (
      arith,
      task_ids-append xs (started id err ∷ ys),
      task_ids-append xs (after_add err ++ ys),
      count-append a (task_ids xs) (id ∷ task_ids ys),
      count-append a (task_ids xs) (task_ids ys),
      count-append a s.ids (id ∷ []),
    );
    errors = λ a. ground (
      arith,
      task_errors-append xs (started id err ∷ ys),
      task_errors-append xs (after_add err ++ ys),
    );
    sync_error = refl;
  }
  Step-Conserved (send s xs ys e r room) = record {
    ids = λ a. ground (arith, task_ids-append xs (sending e ∷ ys), task_ids-append xs ys);
    errors = λ a. ground (
      arith,
      task_errors-append xs (sending e ∷ ys),
      task_errors-append xs ys,
      count-append a (task_errors xs) (e ∷ task_errors ys),
      count-append a (task_errors xs) (task_errors ys),
      count-append a s.err_ch (e ∷ []),
    );
    sync_error = refl;
  }

  pub Reach-Conserved : {s t : RunState} → Reach arg names capacity s t → Conserved s t
  Reach-Conserved here = record { ids = λ a. refl; errors = λ a. refl; sync_error = refl }
  Reach-Conserved (next r st) =
      let before = Reach-Conserved r in
      let last = Step-Conserved st in
      record {
        ids = λ a. before.ids a ∙ last.ids a;
        errors = λ a. before.errors a ∙ last.errors a;
        sync_error = before.sync_error ∙ last.sync_error;
      }
