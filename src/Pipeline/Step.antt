-- ===== src/Pipeline/Step.antt =====
-- pkg/build/build.go and wrapper.go: a build step, and a step with its category in a pipeline.
-- What a step does in its containers is the field `run_with_build`: the identifier and the error,
-- if any, that it answers for a build.
use engine_ci.Base.{String, Bool, false, Option, none, some, List, [], ◌∷◌, ◌==◌, if◌then◌else◌}
use engine_ci.Container.Build.{Build}

pub record IntermediateImage : Type 0 where
  pub uri : String
  pub dockerfile : String

-- `BuildStep`; `build_type` is nil for a step of every type.
pub record BuildStep : Type 0 where
  pub alias : String
  pub build_type : Option String
  pub name : String
  pub images : Build → List String
  pub intermediate_images : Build → List IntermediateImage
  pub is_async : Bool
  pub matches : Build → Bool
  pub run_with_build : Build → String × Option String

-- The function fields of `Stepper` may be nil.
pub record Stepper : Type 0 where
  pub run_fn : Build → String × Option String
  pub matched_fn : Option (Build → Bool)
  pub images_fn : Option (Build → List String)
  pub intermediate_images_fn : Option (Build → List IntermediateImage)
  pub build_type_ : String
  pub name_ : String
  pub alias_ : String
  pub async_ : Bool

-- The methods of `Stepper`, as the interface that they implement.
unfoldable pub to_step : Stepper → BuildStep
to_step g = record {
  alias = g.alias_;
  build_type = if g.build_type_ == "" then none else some g.build_type_;
  name = g.name_;
  images = λ b. elim g.images_fn [ none ↦ [] | some f ↦ f b ];
  intermediate_images = λ b. elim g.intermediate_images_fn [ none ↦ [] | some f ↦ f b ];
  is_async = g.async_;
  matches = λ b. elim g.matched_fn [ none ↦ false | some f ↦ f b ];
  run_with_build = g.run_fn;
}

-- `BuildContext`
pub record Context : Type 0 where
  pub step : BuildStep
  pub category : String
  pub async : Bool

-- `BuildSteps`
pub record BuildSteps : Type 0 where
  pub steps : List Context
  pub initialized : Bool

-- The constants of `BuildCategory` in the order of insertAtCategoryEnd.
abbrev pub category_order : List String
category_order =
    "auth" ∷ "prebuild" ∷ "build" ∷ "postbuild" ∷ "quality" ∷ "apply" ∷ "prepublish" ∷ "publish"
    ∷ []
