-- ===== src/Engine/Registration.antt =====
-- cmd/engine.go: InitBuildSteps. The steps themselves are made by other packages; `new` stands for
-- their constructors.
use engine_ci.Base.{String, true, false, List, [], ◌∷◌, ◌≡◌, refl, map, if◌then◌else◌}
use engine_ci.Pipeline.Step.{BuildStep, BuildSteps}
use engine_ci.Pipeline.Insert.{add_steps}
use engine_ci.Pipeline.Insert.Grouped.{context_of}
use engine_ci.Pipeline.Insert.Order.{add_steps_lem}

pub data Package : Type 0 where
  gcloud copier protobuf packer golang golang_debian golang_cgo maven python zig : Package
  golang_prod golang_prod_debian maven_prod python_prod zig_prod : Package
  golang_linter sonarcloud trivy pulumi goreleaser github dummy : Package

-- The calls of `addStep`, in their order.
abbrev pub registrations : List (String × Package)
registrations =
    ("auth", gcloud)
    ∷ ("prebuild", copier)
    ∷ ("prebuild", protobuf)
    ∷ ("prebuild", packer)
    ∷ ("build", golang)
    ∷ ("build", golang_debian)
    ∷ ("build", golang_cgo)
    ∷ ("build", maven)
    ∷ ("build", python)
    ∷ ("build", zig)
    ∷ ("postbuild", golang_prod)
    ∷ ("postbuild", golang_prod_debian)
    ∷ ("postbuild", maven_prod)
    ∷ ("postbuild", python_prod)
    ∷ ("postbuild", zig_prod)
    ∷ ("quality", golang_linter)
    ∷ ("quality", sonarcloud)
    ∷ ("quality", trivy)
    ∷ ("apply", pulumi)
    ∷ ("publish", goreleaser)
    ∷ ("publish", github)
    ∷ ("publish", dummy)
    ∷ []

abbrev pub made {ℓ} : {A : Type ℓ} → (Package → A) → String × Package → String × A
made new (category, p) = (category, new p)

unfoldable pub init_build_steps : (Package → BuildStep) → BuildSteps → BuildSteps
init_build_steps new bs =
    if bs.initialized
    then bs
    else record { steps = add_steps bs.steps (map (made new) registrations); initialized = true }

abbrev pub empty : BuildSteps
empty = record { steps = []; initialized = false }

-- However the registered steps are made, they stand in the pipeline in the order of the calls, each
-- under its category and asynchronous exactly if it says so itself; a second call adds nothing.
pub init_build_steps_lem :
    (new : Package → BuildStep)
    → ((init_build_steps new empty).steps
        ≡ map (λ (r : String × Package). context_of r.0 (new r.1)) registrations)
      × (init_build_steps new (init_build_steps new empty) ≡ init_build_steps new empty)
unfolding init_build_steps
init_build_steps_lem new = (add_steps_lem (map (made new) registrations), refl)
