-- ===== src/Tests/ImageTests.antt =====
-- Images: which are pulled, which are found, and which the Go steps use.
use engine_ci.Base.{
  true, false, none, some, [], ◌∷◌, ◌==◌, ◌≡◌, ◌≢◌, refl, lookup, insert, erase, split, cut,
  has_char, join, has_text, trim_suffix,
}
use engine_ci.Cri.Platform.{spec, parse_platform, to_string}
use engine_ci.Cri.Manager.{ok, no_platform, ImageInfo}
use engine_ci.Cri.Image.{parse_docker_image, match_from, name_and_tag}
use engine_ci.Cri.Mock.{MockRuntime, new_mock, mock_list_image, mock_inspect_image}
use engine_ci.Cri.Mock.Runtime.{mock_manager, mock_build, mock_pull}
use engine_ci.Logger.Message.{copy, copy_lines, scan_lines}
use engine_ci.Container.Action.{Outside, State, returned}
use engine_ci.Container.Lifecycle.{registry_auth_base64}
use engine_ci.Container.Images.{image_exists}
use engine_ci.Container.Images.Existing.{image_exists-two_platforms}
use engine_ci.Container.Intermediate.{build_intermediate}
use engine_ci.Container.Intermediate.Decision.{NeverFails, build_intermediate-NeverFails}
use engine_ci.Golang.Script.{new_build_script, script}
use engine_ci.Golang.Script.Artifacts.{script-artifacts}
use engine_ci.Tests.Samples.{outside, ids, idle}

-- The image app was built for linux/amd64.
abbrev runtime : MockRuntime
runtime = mock_build ids "FROM scratch" "app" "linux/amd64" new_mock

abbrev state : State MockRuntime
state = record idle { runtime = runtime }

abbrev app_info : ImageInfo
app_info = record { platform = some (spec "linux" "amd64"); id = "abcdef" }

abbrev pulled : MockRuntime
pulled = (mock_pull ids "app" runtime).1

app_found :
    (mock_list_image "app" runtime.images ≡ "app" ∷ [])
    × (mock_inspect_image "app" runtime ≡ (ok app_info, runtime))
    × (mock_pull ids "app" runtime ≡ (ok "app pulled", pulled))
    × (registry_auth_base64 outside "app" state ≡ (returned "", state))
    × (to_string (spec "linux" "amd64") == "linux/arm64" ≡ false)
    × ((copy "app pulled").1 ≡ none)
unfolding mock_list_image mock_build mock_inspect_image mock_pull registry_auth_base64
    parse_docker_image match_from name_and_tag parse_platform insert erase lookup split cut has_char
    join copy copy_lines scan_lines to_string has_text trim_suffix
app_found = (refl, refl, refl, refl, refl, refl)

-- The second image of the list is still missing.
other_is_missing : lookup "other" pulled.images ≡ none
unfolding mock_pull mock_build insert erase lookup
other_is_missing = refl

-- A runtime in which an image is shown with one platform, whatever happens.
abbrev steady : Outside MockRuntime
steady = record outside {
  manager = record (mock_manager ids no_platform) {
    list_image = λ image m. (ok (image ∷ []), m);
    inspect_image = λ image m. (ok app_info, m);
  };
}

app_exists : (image_exists steady "app" ("linux/amd64" ∷ []) state).0 ≡ returned true
unfolding image_exists to_string
app_exists = refl

image_exists-two_platforms_example :
    (image_exists steady "app" ("linux/amd64" ∷ "linux/arm64" ∷ []) state).0 ≢ returned true
image_exists-two_platforms_example =
    image_exists-two_platforms steady "app" (ok app_info) (λ w. refl)
      ("linux/amd64" ∷ "linux/arm64" ∷ []) state "linux/amd64" "linux/arm64" refl refl refl

build_intermediate-NeverFails_example :
    NeverFails (build_intermediate outside none "app" "FROM scratch" ("linux/amd64" ∷ []))
build_intermediate-NeverFails_example =
    build_intermediate-NeverFails outside none "app" "FROM scratch" ("linux/amd64" ∷ [])

script-artifacts_example :
    (script (
      new_build_script
        (λ f. false)
        "app"
        "/src/main.go"
        ""
        []
        false
        false
        ""
        "auto"
        (spec "linux" "amd64" ∷ spec "darwin" "arm64" ∷ []))).1.artifacts
    ≡ "app-linux-amd64" ∷ "app-darwin-arm64" ∷ []
script-artifacts_example =
    script-artifacts (λ f. false) "app" "/src/main.go" "" [] false false "" "auto"
      (spec "linux" "amd64" ∷ spec "darwin" "arm64" ∷ [])
