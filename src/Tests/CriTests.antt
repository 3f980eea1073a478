-- ===== src/Tests/CriTests.antt =====
-- Platforms.
use engine_ci.Base.{none, some, [], ◌∷◌, ◌≡◌, refl, false, has_char, split}
use engine_ci.Cri.Platform.{
  Platform, spec, to_string, parse_platform, parse_platforms, get_container_platform, new_platform,
  get_platform_spec,
}
use engine_ci.Cri.Platform.Parse.{to_string-parse_platform}

-- The cases of platform_test.go.
container_platforms :
    (get_container_platform (spec "darwin" "arm64") ≡ spec "linux" "arm64")
    × (get_container_platform (spec "darwin" "amd64") ≡ spec "linux" "amd64")
    × (get_container_platform (spec "linux" "amd64") ≡ spec "linux" "amd64")
unfolding get_container_platform
container_platforms = (refl, refl, refl)

-- A platform with a variant is printed in three parts, and those are not read back.
variant_lost :
    parse_platform (to_string (record { os = "linux"; architecture = "arm"; variant = "v7" }))
    ≡ none
unfolding parse_platform to_string split
variant_lost = refl

list_read : parse_platforms ("linux/amd64" ∷ "linux" ∷ "" ∷ []) ≡ spec "linux" "amd64" ∷ []
unfolding parse_platforms parse_platform split
list_read = refl

detected :
    get_platform_spec "darwin" "arm64"
    ≡ record { host = some (spec "darwin" "arm64"); container = some (spec "linux" "arm64") }
unfolding get_platform_spec
detected = refl

same_twice : (new_platform "linux" "arm" "v7").host ≡ (new_platform "linux" "arm" "v7").container
unfolding new_platform
same_twice = refl

amd64_read : parse_platform "linux/amd64" ≡ some (spec "linux" "amd64")
unfolding parse_platform split
amd64_read = refl

to_string-parse_platform_example :
    (to_string (spec "linux" "amd64") ≡ "linux/amd64")
    × ((spec "linux" "amd64").variant ≡ "")
    × (has_char b'/' "linux" ≡ false)
    × (has_char b'/' "amd64" ≡ false)
to_string-parse_platform_example =
    to_string-parse_platform "linux/amd64" (spec "linux" "amd64") amd64_read

abbrev mac : Platform
mac = record { host = some (spec "darwin" "arm64"); container = none }
