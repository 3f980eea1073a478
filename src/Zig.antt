-- ===== src/Zig.antt =====
-- pkg/zig: the steps that build and package Zig programs. What the templates of text/template write is
-- written out. Not in the model: the Platforms and HasBuildZon of a BuildScript, which nothing reads, and
-- making the folder of the cache; `new`, which panics if a platform of the build is nil.
pub mod Script
use engine_ci.Base.{
  String, ◌⧺◌, Bool, true, false, Option, none, some, List, [], ◌∷◌, ◌++◌, ◌==◌, if◌then◌else◌,
  lookup,
}
use engine_ci.Cri.Platform.{get_platforms}
use engine_ci.Cri.Manager.{
  Result, ok, err, crash, ContainerConfig, blank, PlatformChoice, auto_platform,
}
use engine_ci.Cri.Image.{image_uri_of}
use engine_ci.Container.Build.{Build, ContainerFile, custom_string}
use engine_ci.Network.SshForward.{ssh_forward, apply}
use engine_ci.Utils.Environment.{get_envs}
use engine_ci.Container.Action.{
  Outside, Action, ◌>>=◌, ◌>>◌, pure, or_panic, or_exit, or_end, attempt,
}
use engine_ci.Container.Lifecycle.{
  get_build, get_id, create, start, stop, exec, commit, copy_directory_to,
}
use engine_ci.Container.Images.{pull, push, tag}
use engine_ci.Container.Intermediate.{
  build_intermediate, building_container, build_custom_prod_image, wrapped,
}
use engine_ci.Golang.Alpine.{Toolchain, bind_mount, first_version}
use engine_ci.Zig.Script.{script}

-- The generated version, and the default folder of the cache.
pub record ZigProject : Type 0 where
  pub version : String
  pub temp_cache : String

abbrev pub base_image : String
base_image = "alpine:latest"

abbrev pub cache_location : String
cache_location = "/root/.cache/zig"

-- `Matches`
unfoldable pub matches : Build → Bool
matches b = b.build_type == "Zig"

-- The name of the program, with its default.
abbrev pub app_command : String → String
app_command app = if app == "" then "app" else app

module _ (t : Toolchain) (z : ZigProject) where
  -- `dockerFile`, without the version, which no caller takes; a custom file must have one.
  unfoldable pub docker_file : Build → Option ContainerFile
  docker_file b = elim (lookup "build" b.container_files) [
    | none ↦ some (record { name = "zig-" ⧺ z.version; content = (t.metadata "").1 })
    | some file ↦ elim (t.base_versions file.content) [
      | none ↦ none
      | some vs ↦ elim (first_version vs) [ none ↦ none | some v ↦ some file ]
    ]
  ]

  -- `ZigImage`
  unfoldable pub zig_image : Build → Option String
  unfolding docker_file
  zig_image b = elim (docker_file b) [
    | none ↦ none
    | some f ↦ some (image_uri_of b.containify_registry f.name (t.checksum f.content))
  ]

  -- `Images`
  unfoldable pub zig_images : Build → Option (List String)
  zig_images b = elim (zig_image b) [ none ↦ none | some i ↦ some (i ∷ base_image ∷ []) ]

module _ {W : Type 0} (o : Outside W) (t : Toolchain) (z : ZigProject) where
  -- `CacheFolder`
  unfoldable pub cache_folder : String
  cache_folder =
      let given = get_envs o.world ("ZIG_GLOBAL_CACHE_DIR" ∷ "CONTAINIFYCI_CACHE" ∷ []) "build" in
      if given == "" then z.temp_cache else given

  -- `BuildZigImage`
  unfoldable pub build_zig_image : Action W (Unit {0})
  build_zig_image = do
    b ← get_build o
    image ← or_exit (zig_image t z b)
    f ← or_exit (docker_file t z b)
    platforms ← or_panic (get_platforms b.platform)
    build_intermediate o t.source image f.content platforms

  abbrev pub build_opts : Build → String → ContainerConfig
  build_opts b image = record blank {
    image = image;
    secrets = b.secret;
    env = ("ZIG_GLOBAL_CACHE_DIR=" ⧺ cache_location) ∷ [];
    platform = auto_platform;
    working_dir = "/src";
    volumes = bind_mount (t.absolute ".") "/src" ∷ bind_mount cache_folder cache_location ∷ [];
  }

  abbrev commit_built : Build → Action W (String × String)
  commit_built b = do
    image_id ←
        or_end
          (← attempt (
            commit o (b.image ⧺ ":" ⧺ b.image_tag) "Created from Zig build"
              (("CMD [\"/src/zig-out/bin/" ⧺ app_command b.app ⧺ "\"]") ∷ [])))
    id ← get_id o
    pure (id, image_id)

  abbrev no_image : Action W (String × String)
  no_image = do id ← get_id o; pure (id, "")

  -- `Build`: the identifiers of the container and of its image.
  unfoldable pub build : Action W (String × String)
  build = do
    b ← get_build o
    image ← or_exit (zig_image t z b)
    f ← or_exit (ssh_forward o.world.env b.runtime b.platform)
    let opts = apply f (build_opts b image)
    let text =
        script b.folder (custom_string b.custom "optimize") (custom_string b.custom "target")
          b.verbose cache_location
    wrapped o "failed to build container: "
        (← attempt (building_container o (record opts { script = text })))
    if b.image == "" then no_image else commit_built b

  abbrev pub prod_opts : Build → ContainerConfig
  prod_opts b = record blank {
    image = base_image;
    secrets = b.secret;
    platform = auto_platform;
    cmd = "sleep" ∷ "300" ∷ [];
    working_dir = "/app";
  }

  -- The part of `Prod` without a custom Dockerfile.
  unfoldable pub pack : Action W String
  pack = do
    b ← get_build o
    or_end (← attempt (create o (prod_opts b)))
    or_end (← attempt (start o))
    or_end (← attempt (exec o ("mkdir" ∷ "-p" ∷ "/app/bin" ∷ [])))
    or_end (← attempt (copy_directory_to o "zig-out/bin/" "/app/bin"))
    image_id ←
        or_end
          (← attempt (
            commit o (b.image ⧺ ":" ⧺ b.image_tag) "Created from Zig production build"
              (("CMD [\"/app/bin/" ⧺ app_command b.app ⧺ "\"]") ∷ "WORKDIR /app" ∷ [])))
    or_end (← attempt (stop o))
    or_end (← attempt (push o image_id (image_uri_of b.registry b.image b.image_tag) (some false)))
    get_id o

  abbrev or_pack : String → Action W String
  or_pack image = if image == "" then pack else pure image

  -- `Prod`
  unfoldable pub prod : Action W String
  prod = do
    b ← get_build o
    if b.image == "" then pure "" else (build_custom_prod_image o t.source >>= or_pack)

  abbrev tag_built : Build → String × String → Action W String
  tag_built b ids = do tag o ids.1 (b.image ⧺ ":" ⧺ b.image_tag); pure ids.0

  -- `Run`
  unfoldable pub run : Action W String
  run = do
    b ← get_build o
    pull o (base_image ∷ [])
    build_zig_image
    ids ← build
    if b.image == "" then pure ids.0 else tag_built b ids
