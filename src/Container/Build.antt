-- ===== src/Container/Build.antt =====
-- pkg/container/build.go: the parameters of one build. The fields that hold a function or an
-- interface (`Leader`, `RuntimeClient`) are left out. A nil map
-- and an empty one differ in `Registries` and `Secrets` alone, each of which is an `Option`.
pub mod Defaulted
pub mod Flags
pub mod Properties
use engine_ci.Base.{
  ℕ, String, ◌⧺◌, Bool, true, false, Option, none, some, List, [], ◌∷◌, ◌++◌, ◌==◌, if◌then◌else◌,
  contains, join, Dict, lookup, ℤ, pos,
}
use engine_ci.Container.Secret.{BuildSecret}
use engine_ci.Cri.Platform.{PlatformSpec, Platform, unset, get_platform_spec}

-- `BuildType.Set` on the nine known names.
abbrev build_types : List String
build_types =
    "GoLang" ∷ "Maven" ∷ "Python" ∷ "Generic" ∷ "NodeJS" ∷ "Typescript" ∷ "Zig" ∷ "Rust" ∷ "AI" ∷ []

-- A variable of type BuildType after `Set`, and whether `Set` returned an error.
unfoldable pub set_build_type : String → String → String × Bool
set_build_type old v = if contains build_types v then (v, true) else (old, false)

-- `EnvType.Set` (pkg/container/container.go).
unfoldable pub set_env_type : String → String → String × Bool
set_env_type old v =
    if contains ("local" ∷ "build" ∷ "production" ∷ []) v then (v, true) else (old, false)

abbrev pub Custom : Type 0
Custom = Dict (List String)

-- `Custom.String`
unfoldable pub custom_string : Custom → String → String
custom_string c key = elim (lookup key c) [
  | none ↦ ""
  | some v ↦ elim v [ [] ↦ "" | x ∷ xs ↦ join "\n" (x ∷ xs) ]
]

-- `Custom.Strings`; nil is the empty list.
unfoldable pub custom_strings : Custom → String → List String
custom_strings c key = elim (lookup key c) [ none ↦ [] | some v ↦ v ]

-- `Custom.Bool`; `none` is the panic of `v[0]` on an empty list.
unfoldable pub custom_bool : Custom → String → Bool → Option Bool
custom_bool c key value = elim (lookup key c) [
  | none ↦ some value
  | some v ↦ elim v [ [] ↦ none | x ∷ xs ↦ some (x == "true") ]
]

-- `Custom.Int`, which `Custom.UInt` converts; `parse` is `strconv.Atoi`, and none the panic of `v[0]`.
unfoldable pub custom_int : (String → Option ℤ) → Custom → String → Option ℤ
custom_int parse c key = elim (lookup key c) [
  | none ↦ some (pos 0)
  | some v ↦ elim v [
    | [] ↦ none
    | x ∷ xs ↦ elim (parse x) [ none ↦ some (pos 0) | some i ↦ some i ]
  ]
]

-- `Build.CustomString`
unfoldable pub build_custom_string : Custom → String → String
build_custom_string c key = elim (lookup key c) [
  | none ↦ ""
  | some v ↦ elim v [ [] ↦ "" | x ∷ xs ↦ x ]
]

pub record Credentials : Type 0 where
  pub username : String
  pub password : String

-- `protos2.ContainerFile`
pub record ContainerFile : Type 0 where
  pub name : String
  pub content : String

pub record Build : Type 0 where
  pub platform : Platform
  pub custom : Custom
  pub registries : Option (Dict Credentials)
  pub secret : Dict String
  pub secrets : Option (Dict BuildSecret)
  pub container_files : Dict ContainerFile
  pub containify_registry : String
  pub runtime : String
  pub image : String
  pub image_tag : String
  pub file : String
  pub env : String
  pub folder : String
  pub repository : String
  pub organization : String
  pub app : String
  pub build_type : String
  pub builder_function : String
  pub registry : String
  pub source_packages : List String
  pub source_files : List String
  pub verbose : Bool
  pub defaults : Bool

-- `Build.ImageURI`
unfoldable pub image_uri : Build → String
image_uri b = b.image ⧺ ":" ⧺ b.image_tag

-- `if s == "" { s = d }`
abbrev or_default : String → String → String
or_default s d = if s == "" then d else s

-- What the process's environment and Go's `runtime` constants answer.
pub record Host : Type 0 where
  pub getenv : String → String
  pub go_os : String
  pub go_arch : String

module _ (h : Host) where
  docker_login : Dict Credentials
  docker_login =
      (
        "docker.io",
        record { username = h.getenv "DOCKER_USERNAME"; password = h.getenv "DOCKER_PASSWORD" },
      )
      ∷ []

  -- `(b.Platform == types.Platform{})` compares two pointers with nil.
  or_host_platform : Platform → Platform
  or_host_platform p =
      let detected = get_platform_spec h.go_os h.go_arch in
      elim p.host [ some s ↦ p | none ↦ elim p.container [ some s ↦ p | none ↦ detected ] ]

  -- The body of `Defaults` past its early return.
  fill : Build → Build
  unfolding docker_login or_host_platform
  fill b = record b {
    env = or_default b.env "build";
    folder = or_default b.folder ".";
    repository = or_default b.repository b.image;
    registry = or_default b.registry "containifyci";
    containify_registry = or_default b.containify_registry "containifyci";
    organization = or_default b.organization "containifyci";
    registries = elim b.registries [ none ↦ some docker_login | some r ↦ some r ];
    platform = or_host_platform b.platform;
    secrets = elim b.secrets [ none ↦ some [] | some m ↦ some m ];
    defaults = true;
  }

  -- `Build.Defaults`
  unfoldable pub set_defaults : Build → Build
  unfolding fill
  set_defaults b = if b.defaults then b else fill b

-- The loops that append a flag and its value for each entry.
flag_each : String → List String → List String
flag_each flag [] = []
flag_each flag (x ∷ xs) = flag ∷ x ∷ flag_each flag xs

base_flags : Build → List String
base_flags b =
    "--app" ∷ b.app ∷ "--env" ∷ b.env ∷ "--image" ∷ b.image ∷ "--tag" ∷ b.image_tag ∷ "--repo"
    ∷ b.registry ∷ "--file" ∷ b.file ∷ "--folder" ∷ b.folder ∷ "--type" ∷ b.build_type ∷ []

-- `Build.AsFlags`
unfoldable pub as_flags : Build → List String
unfolding base_flags flag_each
as_flags b =
    base_flags b
    ++ ((if b.verbose then "--verbose" ∷ [] else [])
        ++ (flag_each "--protobuf-packages" b.source_packages
            ++ flag_each "--protobuf-files" b.source_files))
