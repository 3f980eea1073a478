-- ===== src/Pipeline/Images.antt =====
-- pkg/build/build.go: the images that the steps of a pipeline need, without repetitions, and the
-- categories that occur in it.
pub mod Unique
pub mod Categories
use engine_ci.Base.{String, Bool, List, [], ◌∷◌, ◌++◌, map, contains, if◌then◌else◌}
use engine_ci.Container.Build.{Build}
use engine_ci.Pipeline.Step.{Context}

-- The loop of `uniqueStrings`, with the keys of its map `seen`; also that of GetCategoryOrder.
pub unique_from : List String → List String → List String
unique_from seen [] = []
unique_from seen (x ∷ xs) =
    let old = unique_from seen xs in
    let new = unique_from (x ∷ seen) xs in if contains seen x then old else x ∷ new

-- `uniqueStrings`
unfoldable pub unique_strings : List String → List String
unfolding unique_from
unique_strings = unique_from []

-- `GetCategoryOrder`
unfoldable pub get_category_order : List Context → List String
unfolding unique_from
get_category_order steps = unique_from [] (map (λ (c : Context). c.category) steps)

-- The images of the matching steps, for one build.
images_of : Build → List Context → List String
images_of b [] = []
images_of b (c ∷ cs) =
    let rest = images_of b cs in if c.step.matches b then c.step.images b ++ rest else rest

images_of_all : List Build → List Context → List String
unfolding images_of
images_of_all [] steps = []
images_of_all (b ∷ bs) steps = images_of b steps ++ images_of_all bs steps

images_of_groups : List (List Build) → List Context → List String
unfolding images_of_all
images_of_groups [] steps = []
images_of_groups (g ∷ gs) steps = images_of_all g steps ++ images_of_groups gs steps

-- `BuildSteps.Images`
unfoldable pub images : List (List Build) → List Context → List String
unfolding images_of_groups unique_strings
images groups steps = unique_strings (images_of_groups groups steps)
