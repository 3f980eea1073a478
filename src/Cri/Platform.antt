-- ===== src/Cri/Platform.antt =====
-- pkg/cri/types/platform.go. Of `ocispec.Platform` the program uses three fields. A pointer is an
-- `Option`; following a nil pointer is `none` in the result.
pub mod Conversion
pub mod Parse
use engine_ci.Base.{
  ℕ, String, ◌⧺◌, Bool, ◌&&◌, not, Option, none, some, List, [], ◌∷◌, ◌++◌, ◌==◌, if◌then◌else◌,
  split,
}

pub record PlatformSpec : Type 0 where
  pub os : String
  pub architecture : String
  pub variant : String

abbrev pub spec : String → String → PlatformSpec
spec os arch = record { os = os; architecture = arch; variant = "" }

-- `(*PlatformSpec).String`
unfoldable pub to_string : PlatformSpec → String
to_string p =
    if not (p.variant == "")
    then p.os ⧺ "/" ⧺ p.architecture ⧺ "/" ⧺ p.variant
    else p.os ⧺ "/" ⧺ p.architecture

pub record Platform : Type 0 where
  pub host : Option PlatformSpec
  pub container : Option PlatformSpec

-- `types.Platform{}`
abbrev pub unset : Platform
unset = record { host = none; container = none }

unfoldable pub new_platform : String → String → String → Platform
new_platform os arch variant = record { host = some p; container = some p }
  where
    p : PlatformSpec
    p = record { os = os; architecture = arch; variant = variant }

-- `Same` on two specifications.
unfoldable pub same : PlatformSpec → PlatformSpec → Bool
same host container = host.os == container.os && host.architecture == container.architecture

-- The `switch` of GetContainerPlatform is on `host.OS + "/" + host.Architecture`.
unfoldable pub get_container_platform : PlatformSpec → PlatformSpec
get_container_platform host =
    let key = host.os ⧺ "/" ⧺ host.architecture in
    if key == "darwin/amd64"
    then spec "linux" "amd64"
    else if key == "darwin/arm64"
    then spec "linux" "arm64"
    else host

unfoldable pub get_image_platform : PlatformSpec → PlatformSpec
get_image_platform host = if host.os == "darwin" then spec "linux" host.architecture else host

unfoldable pub get_container_platform2 : PlatformSpec → PlatformSpec
get_container_platform2 host =
    let key = host.os ⧺ "/" ⧺ host.architecture in
    if key == "darwin/arm64"
    then spec "linux" "amd64"
    else if key == "darwin/amd64"
    then spec "linux" "arm64"
    else host

-- GetPlatformSpec, with `runtime.GOOS` and `runtime.GOARCH` as arguments.
unfoldable pub get_platform_spec : String → String → Platform
unfolding get_container_platform
get_platform_spec go_os go_arch = record {
  host = some (spec go_os go_arch);
  container = some (get_container_platform (spec go_os go_arch));
}

-- GetPlatforms overwrites the container's platform, so that only the host's is read.
get_platforms_of : PlatformSpec → List String
unfolding get_image_platform get_container_platform2 same to_string
get_platforms_of host =
    let image = get_image_platform host in
    let platforms = to_string image ∷ [] in
    if not (same host image)
    then platforms ++ to_string (get_container_platform2 host) ∷ []
    else platforms

unfoldable pub get_platforms : Platform → Option (List String)
unfolding get_platforms_of
get_platforms p = elim p.host [ none ↦ none | some host ↦ some (get_platforms_of host) ]

-- The test `len(parts) != 2` is the pattern.
of_parts : List String → Option PlatformSpec
of_parts (os ∷ arch ∷ []) = some (spec os arch)
of_parts _ = none

unfoldable pub parse_platform : String → Option PlatformSpec
unfolding of_parts
parse_platform platform = if platform == "" then none else of_parts (split b'/' platform)

unfoldable pub parse_platforms : List String → List PlatformSpec
parse_platforms [] = []
parse_platforms (p ∷ ps) =
    let rest = parse_platforms ps in elim (parse_platform p) [ none ↦ rest | some s ↦ s ∷ rest ]
