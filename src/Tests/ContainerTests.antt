-- ===== src/Tests/ContainerTests.antt =====
-- Build parameters.
use engine_ci.Base.{true, false, some, [], ◌∷◌, ◌≡◌, refl, lookup}
use engine_ci.Container.Build.{set_build_type, set_env_type, image_uri}
use engine_ci.Tests.Samples.{build}

-- The names of the help text are refused.
help_text :
    (set_build_type "GoLang" "maven" ≡ ("GoLang", false))
    × (set_build_type "GoLang" "Maven" ≡ ("Maven", true))
    × (set_env_type "" "local" ≡ ("local", true))
unfolding set_build_type set_env_type
help_text = (refl, refl, refl)

uri : image_uri build ≡ "app:v1"
unfolding image_uri
uri = refl

tags : lookup "tags" build.custom ≡ some ("netgo" ∷ [])
unfolding lookup
tags = refl
