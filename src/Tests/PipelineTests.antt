-- ===== src/Tests/PipelineTests.antt =====
-- The order of a pipeline and its images.
use engine_ci.Base.{String, true, false, none, some, List, [], ◌∷◌, ◌≡◌, refl, if◌then◌else◌, count}
use engine_ci.Pipeline.Step.{BuildStep, to_step, category_order}
use engine_ci.Pipeline.Insert.{new_build_steps, add, add_step, add_steps, insert_relative_to_step}
use engine_ci.Pipeline.Insert.Filed.{flatten_by}
use engine_ci.Pipeline.Insert.Order.{filed, add_steps_lem}
use engine_ci.Pipeline.Insert.Relative.{beside, insert_relative-first}
use engine_ci.Pipeline.Images.{images}
use engine_ci.Pipeline.Images.Unique.{asked, images-count}
use engine_ci.Tests.Samples.{build, compile, lint, scan, in_category, pipeline}

abbrev requests : List (String × BuildStep)
requests = ("quality", lint) ∷ ("deploy", scan) ∷ ("build", compile) ∷ ("quality", scan) ∷ []

built :
    add_steps [] requests
    ≡ in_category "build" compile ∷ in_category "quality" lint ∷ in_category "quality" scan ∷ []
unfolding add_steps add_step
built = refl

-- `Add` puts a step behind later categories.
added_last :
    (add
      (record { steps = in_category "publish" scan ∷ []; initialized = true })
      compile
      false).steps
    ≡ in_category "publish" scan ∷ in_category "build" compile ∷ []
unfolding add
added_last = refl

started : (new_build_steps (compile ∷ [])).steps ≡ in_category "build" compile ∷ []
unfolding new_build_steps
started = refl

-- A stepper without functions matches nothing.
bare_stepper :
    (to_step (record {
      run_fn = λ b. ("", none);
      matched_fn = none;
      images_fn = none;
      intermediate_images_fn = none;
      build_type_ = "";
      name_ = "bare";
      alias_ = "bare";
      async_ = false;
    })).matches
      build
    ≡ false
unfolding to_step
bare_stepper = refl

add_steps_lem_example : add_steps [] requests ≡ flatten_by category_order (filed requests)
add_steps_lem_example = add_steps_lem requests

insert_relative-first_example :
    insert_relative_to_step "lint" scan false true pipeline
    ≡ some (
        in_category "build" compile
        ∷ beside (in_category "quality" lint) scan false
        ∷ in_category "quality" lint
        ∷ [])
insert_relative-first_example =
    insert_relative-first "lint" scan false true (in_category "build" compile ∷ [])
      (in_category "quality" lint) [] (refl, tt) refl

images-count_example :
    count "alpine" (images ((build ∷ []) ∷ []) pipeline)
    ≡ (if asked ((build ∷ []) ∷ []) "alpine" pipeline then 1 else 0)
images-count_example = images-count ((build ∷ []) ∷ []) pipeline "alpine"
