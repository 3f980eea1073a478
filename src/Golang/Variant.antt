-- ===== src/Golang/Variant.antt =====
-- pkg/golang/debian/golang.go and pkg/golang/debiancgo/golang.go: the steps for a `from` property of debian
-- or debiancgo. What they share with pkg/golang/alpine is the part of Prod that packs the program.
use engine_ci.Base.{
  String, ◌⧺◌, Bool, false, Option, none, some, List, [], ◌∷◌, ◌==◌, if◌then◌else◌, lookup,
}
use engine_ci.Cri.Platform.{PlatformSpec, get_platforms, parse_platforms}
use engine_ci.Cri.Manager.{blank, PlatformChoice, no_platform, auto_platform}
use engine_ci.Cri.Image.{image_uri_of}
use engine_ci.Container.Build.{Build, custom_string, custom_strings, custom_bool}
use engine_ci.Golang.Script.{BuildScript, new_build_script, script}
use engine_ci.Container.Action.{Outside, Action, ◌>>=◌, ◌>>◌, pure, or_panic, or_end, attempt}
use engine_ci.Container.Lifecycle.{get_build, get_id}
use engine_ci.Container.Images.{pull, push}
use engine_ci.Container.Intermediate.{
  build_intermediate, building_container, build_custom_prod_image, wrapped, apply_envs,
}
use engine_ci.Golang.Alpine.{Toolchain, platforms_of, in_container, bind_mount, forward, cache}
use engine_ci.Golang.Alpine.Prod.{pack, unless}

-- The generated constants of a variant.
pub record Dockerfile : Type 0 where
  pub version : String
  pub checksum : String
  pub content : String

-- `GoImage`; `suffix` is "-cgo" for debiancgo.
unfoldable pub variant_image : Dockerfile → String → Build → String
variant_image d suffix b =
    image_uri_of b.containify_registry ("golang-" ⧺ d.version ⧺ suffix) d.checksum

-- `Images`
unfoldable pub variant_images : Dockerfile → String → Build → List String
variant_images d suffix b =
    ("golang:" ⧺ d.version) ∷ "alpine:latest" ∷ variant_image d suffix b ∷ []

abbrev one : Option PlatformSpec → Option (List PlatformSpec)
one none = none
one (some p) = some (p ∷ [])

-- The platforms of debiancgo: those of a property, or that of the container.
unfoldable pub cgo_platforms : Build → Option (List PlatformSpec)
cgo_platforms b = elim (lookup "platforms" b.custom) [
  | none ↦ one b.platform.container
  | some names ↦ some (parse_platforms names)
]

module _ {W : Type 0} (o : Outside W) (t : Toolchain) (d : Dockerfile) where
  -- `Pull`
  unfoldable pub variant_pull : Action W (Unit {0})
  variant_pull = pull o (("golang:" ⧺ d.version) ∷ "alpine:latest" ∷ [])

  -- `BuildGoImage`
  unfoldable pub variant_build_image : String → Action W (Unit {0})
  variant_build_image suffix = do
    b ← get_build o
    platforms ← or_panic (get_platforms b.platform)
    build_intermediate o t.source (variant_image d suffix b) d.content platforms

  abbrev variant_script : Build → List PlatformSpec → Bool → BuildScript
  variant_script b platforms no_coverage =
      let generate = custom_string b.custom "generate" in
      new_build_script t.detect b.app (in_container (t.join_path b.folder b.file)) b.folder
        (custom_strings b.custom "tags") b.verbose no_coverage
        (custom_string b.custom "coverage_mode") (if generate == "" then "auto" else generate)
        platforms

  -- `Build`, for the platform of its container and the platforms of the program.
  unfoldable pub variant_build :
      String → PlatformChoice → Option (List PlatformSpec) → Action W (Unit {0})
  variant_build suffix platform targets = do
    b ← get_build o
    opts ← apply_envs o (record blank {
      image = variant_image d suffix b;
      platform = platform;
      env = "GOMODCACHE=/go/pkg/" ∷ "GOCACHE=/go/pkg/build-cache" ∷ [];
      working_dir = "/src";
    })
    folder ← cache o t
    forwarded ← forward o t (record opts {
      volumes = bind_mount (t.absolute ".") "/src" ∷ bind_mount folder "/go/pkg" ∷ [];
    })
    platforms ← or_panic targets
    no_coverage ← or_panic (custom_bool b.custom "nocoverage" false)
    wrapped o "failed to build container: "
        (← attempt (
          building_container o
            (record forwarded { script = (script (variant_script b platforms no_coverage)).0 })))

  -- `Run` of pkg/golang/debian
  unfoldable pub debian_run : Action W String
  debian_run = do
    variant_pull
    variant_build_image ""
    b ← get_build o
    variant_build "" no_platform (platforms_of b.platform)
    get_id o

  -- `Run` of pkg/golang/debiancgo
  unfoldable pub cgo_run : Action W String
  cgo_run = do
    variant_pull
    variant_build_image "-cgo"
    b ← get_build o
    variant_build "-cgo" auto_platform (cgo_platforms b)
    get_id o

  abbrev debian_push : Action W String
  debian_push = do
    id ← pack o t
    b ← get_build o
    or_end (← attempt (push o id (image_uri_of b.registry b.image b.image_tag) (some false)))
    get_id o

  abbrev or_debian_push : String → Action W String
  or_debian_push image = if image == "" then debian_push else pure image

  -- `Prod` of pkg/golang/debian, which pushes whatever the property `push` is.
  unfoldable pub debian_prod : Action W String
  debian_prod = do
    b ← get_build o
    unless o t (b.env == "local")
        (unless o t (b.image == "") (build_custom_prod_image o t.source >>= or_debian_push))
