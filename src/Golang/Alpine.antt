-- ===== src/Golang/Alpine.antt =====
-- pkg/golang/alpine/golang.go and golangcilint.go, and pkg/utils/srcfile.go. A step answers the identifier
-- of its container or an error. Not in the model: the file artifacts.txt that Build appends to, the folder
-- that it makes for the cache, and what is only logged.
pub mod Lint
pub mod Prod
pub mod Images
use engine_ci.Base.{
  ℕ, String, ◌⧺◌, Bool, true, false, not, ◌&&◌, Option, none, some, List, [], ◌∷◌, ◌++◌, ◌==◌,
  if◌then◌else◌, join, lookup, trim_suffix,
}
use engine_ci.Cri.Platform.{PlatformSpec, Platform, spec, same, get_platforms}
use engine_ci.Cri.Manager.{
  Result, ok, err, crash, Volume, ContainerConfig, blank, PlatformChoice, no_platform,
  auto_platform, this_platform,
}
use engine_ci.Cri.Image.{image_uri_of}
use engine_ci.Container.Build.{
  Build, ContainerFile, custom_string, custom_strings, custom_bool, build_custom_string,
}
use engine_ci.Network.SshForward.{ssh_forward, apply}
use engine_ci.Golang.Script.{BuildScript, new_build_script, script}
use engine_ci.Container.Action.{
  Outside, Action, ◌>>=◌, ◌>>◌, pure, fail, exit, panic, gets, or_panic, or_exit, or_end, or_fail,
  attempt,
}
use engine_ci.Container.Lifecycle.{
  get_build, get_id, create, start, stop, wait, exec, inspect, commit, copy_content_to,
  copy_file_to,
}
use engine_ci.Container.Images.{pull, push}
use engine_ci.Container.Intermediate.{
  build_intermediate, building_container, build_custom_prod_image, wrapped,
}

-- The local Go installation, the file system, the generated constants of the Dockerfiles, and the parser
-- for Dockerfiles.
pub record Toolchain : Type 0 where
  -- the versions of the FROM instructions of a Dockerfile, if it can be parsed
  pub base_versions : String → Option (List String)
  -- version and content of the Dockerfile of a variant
  pub metadata : String → String × String
  pub checksum : String → String
  pub absolute : String → String
  pub join_path : String → String → String
  -- `go env GOMODCACHE`
  pub cache_folder : Option String
  pub detect : String → Bool
  pub file_exists : String → Bool
  -- destination and name in a .custom-gcl.yml, if it can be read
  pub custom_gcl : String → Option (String × String)
  -- the archive of a source that goes with a Dockerfile, if there is one
  pub source : Option (Result String)

-- `SrcFile.Container`
unfoldable pub in_container : String → String
in_container s = if not (s == "/src/main.go") && not (s == "") then "/src/" ⧺ s else s

abbrev from_matches : Bool → String → Option (List String) → Bool
from_matches default variant none = default
from_matches default variant (some []) = default
from_matches default variant (some (from ∷ rest)) = from == variant

-- `Matches`; the step without a `from` property is this one.
unfoldable pub matches : Build → Bool
matches b =
    if not (b.build_type == "GoLang")
    then false
    else from_matches true "alpine" (lookup "from" b.custom)

-- `Matches` of the other two variants, pkg/golang/debian and pkg/golang/debiancgo.
unfoldable pub matches_variant : String → Build → Bool
matches_variant variant b =
    if not (b.build_type == "GoLang")
    then false
    else from_matches false variant (lookup "from" b.custom)

abbrev or_same : Bool → List PlatformSpec → List PlatformSpec
or_same is_same ps = if is_same then ps else spec "darwin" "arm64" ∷ spec "linux" "arm64" ∷ []

-- The platforms of `new`; a platform that is nil ends in a panic.
unfoldable pub platforms_of : Platform → Option (List PlatformSpec)
platforms_of p = elim p.host [
  | none ↦ none
  | some host ↦ elim p.container [
    | none ↦ none
    | some container ↦ some (or_same (same host container) (container ∷ []))
  ]
]

abbrev pub first_version : List String → Option String
first_version [] = none
first_version (v ∷ vs) = some v

abbrev pub bind_mount : String → String → Volume
bind_mount source target = record { type = "bind"; source = source; target = target }

abbrev or_empty : Option (List String) → List String
or_empty none = []
or_empty (some l) = l

module _ (t : Toolchain) where
  -- The file and the version of `dockerFile`; none ends the process.
  unfoldable pub docker_file : Build → Option (ContainerFile × String)
  docker_file b = elim (lookup "build" b.container_files) [
    | some file ↦ elim (t.base_versions file.content) [
      | none ↦ none
      | some vs ↦ elim (first_version vs) [ none ↦ none | some v ↦ some (file, v) ]
    ]
    | none ↦
        let typ = build_custom_string b.custom "go_type" in
        let (version, content) = t.metadata typ in
        let name = if typ == "" then "golang-" ⧺ version else "golang-" ⧺ version ⧺ "-" ⧺ typ in
        some (record { name = name; content = content }, version)
  ]

  abbrev uri_of : Build → ContainerFile → String
  uri_of b file = image_uri_of b.containify_registry file.name (t.checksum file.content)

  -- `GoImage`
  unfoldable pub go_image : Build → Option String
  unfolding docker_file
  go_image b = elim (docker_file b) [ none ↦ none | some f ↦ some (uri_of b f.0) ]

  -- `GoImages`
  unfoldable pub go_images : Build → Option (List String)
  unfolding docker_file
  go_images b = elim (docker_file b) [
    | none ↦ none
    | some f ↦ some (("golang:" ⧺ f.1) ∷ "alpine:latest" ∷ uri_of b f.0 ∷ [])
  ]

  abbrev pub build_opts : String → String → ContainerConfig
  build_opts image cache_dir = record blank {
    image = image;
    platform = auto_platform;
    env = "GOMODCACHE=/go/pkg/" ∷ "GOCACHE=/go/pkg/build-cache" ∷ [];
    working_dir = "/src";
    volumes = bind_mount (t.absolute ".") "/src" ∷ bind_mount cache_dir "/go/pkg" ∷ [];
  }

module _ {W : Type 0} (o : Outside W) (t : Toolchain) where
  -- `Pull`
  unfoldable pub pull_images : Action W (Unit {0})
  pull_images = do
    b ← get_build o
    f ← or_exit (docker_file t b)
    pull o (("golang:" ⧺ f.1) ∷ "alpine:latest" ∷ [])

  -- `BuildGoImage`
  unfoldable pub build_go_image : Action W (Unit {0})
  build_go_image = do
    b ← get_build o
    image ← or_exit (go_image t b)
    f ← or_exit (docker_file t b)
    platforms ← or_panic (get_platforms b.platform)
    build_intermediate o t.source image f.0.content platforms

  -- SSHForward and Apply
  unfoldable pub forward : ContainerConfig → Action W ContainerConfig
  forward opts = do
    b ← get_build o
    f ← or_exit (ssh_forward o.world.env b.runtime b.platform)
    pure (apply f opts)

  -- `CacheFolder`, or a folder of the project.
  unfoldable pub cache : Action W String
  cache = do
    folder ← or_exit t.cache_folder
    pure (if folder == "" then t.absolute ".tmp/go" else folder)

  -- `BuildScript`
  unfoldable pub build_script : Action W BuildScript
  build_script = do
    b ← get_build o
    platforms ← or_panic (platforms_of b.platform)
    no_coverage ← or_panic (custom_bool b.custom "nocoverage" false)
    let generate = custom_string b.custom "generate"
    pure (
        new_build_script t.detect b.app (in_container (t.join_path b.folder b.file)) b.folder
          (custom_strings b.custom "tags") b.verbose no_coverage
          (custom_string b.custom "coverage_mode") (if generate == "" then "auto" else generate)
          platforms)

  -- `Build`
  unfoldable pub build : Action W (Unit {0})
  build = do
    b ← get_build o
    image ← or_exit (go_image t b)
    folder ← cache
    opts ← forward (build_opts t image folder)
    s ← build_script
    wrapped o "failed to build container: "
        (← attempt (building_container o (record opts { script = (script s).0 })))

  -- `Run`
  unfoldable pub run : Action W String
  run = do pull_images; build_go_image; build; get_id o
