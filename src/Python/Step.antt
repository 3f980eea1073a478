-- ===== src/Python/Step.antt =====
-- pkg/python/python.go: Build, Prod and Run over the operations of a container. Not in the model: making
-- the folder of the cache, and what is only logged.
use engine_ci.Base.{
  String, ◌⧺◌, Bool, false, Option, none, some, List, [], ◌∷◌, ◌==◌, if◌then◌else◌, lookup,
}
use engine_ci.Cri.Platform.{get_platforms}
use engine_ci.Cri.Manager.{Result, ok, err, crash, Volume, ContainerConfig, blank, auto_platform}
use engine_ci.Cri.Image.{image_uri_of}
use engine_ci.Container.Build.{Build, ContainerFile, custom_string}
use engine_ci.Network.SshForward.{ssh_forward, apply}
use engine_ci.Utils.Environment.{get_envs}
use engine_ci.Container.Action.{
  Outside, Action, ◌>>=◌, ◌>>◌, pure, fail, panic, or_panic, or_exit, or_end, attempt,
}
use engine_ci.Container.Lifecycle.{
  get_build, get_id, create, start, stop, exec, commit, copy_directory_to,
}
use engine_ci.Container.Images.{pull, push, tag}
use engine_ci.Container.Intermediate.{
  build_intermediate, building_container, build_custom_prod_image, wrapped,
}
use engine_ci.Python.Builder.{
  Files, analyze, build_plan, install_plan, Commands, build_script, index_username,
}

-- The project, the temporary folder, and what is taken from outside of the package.
pub record Project : Type 0 where
  pub files : Files
  pub upper : String → String
  pub checksum : String → String
  pub absolute : String → String
  pub temp_dir : String
  -- the content of Dockerfile.python
  pub dockerfile : String
  pub source : Option (Result String)

abbrev pub base_image : String
base_image = "python:3.14-slim-bookworm"

abbrev pub cache_location : String
cache_location = "/root/.cache/pip"

-- `Matches`
unfoldable pub matches : Build → Bool
matches b = b.build_type == "Python"

abbrev pub bind_mount : String → String → Volume
bind_mount source target = record { type = "bind"; source = source; target = target }

abbrev non_empty : String → List String
non_empty s = if s == "" then [] else s ∷ []

module _ (p : Project) where
  -- `dockerFile`
  unfoldable pub docker_file : Build → ContainerFile
  docker_file b = elim (lookup "build" b.container_files) [
    | some file ↦ file
    | none ↦ record { name = "python-3.14-slim-bookworm"; content = p.dockerfile }
  ]

  -- `PythonImage`
  unfoldable pub python_image : Build → String
  unfolding docker_file
  python_image b =
      let file = docker_file b in
      image_uri_of b.containify_registry file.name (p.checksum file.content)

  -- `Images`
  unfoldable pub python_images : Build → List String
  python_images b = python_image b ∷ base_image ∷ []

module _ {W : Type 0} (o : Outside W) (p : Project) where
  -- `CacheFolder`; no separator is put behind the temporary folder.
  unfoldable pub cache_folder : String
  cache_folder =
      let given = get_envs o.world ("PIP_CACHE_DIR" ∷ "CONTAINIFYCI_CACHE" ∷ []) "build" in
      if given == "" then p.temp_dir ⧺ ".pip" else given

  -- `BuildPythonImage`
  unfoldable pub build_python_image : Action W (Unit {0})
  build_python_image = do
    b ← get_build o
    platforms ← or_panic (get_platforms b.platform)
    build_intermediate o p.source (python_image p b) (docker_file p b).content platforms

  abbrev pub build_opts : Build → String → ContainerConfig
  build_opts b private_index = record blank {
    image = python_image p b;
    secrets = b.secret;
    env =
        "_PIP_USE_IMPORTLIB_METADATA=0"
        ∷ "UV_CACHE_DIR=/root/.cache/pip"
        ∷ non_empty (index_username p.upper private_index);
    platform = auto_platform;
    working_dir = "/src";
    volumes = bind_mount (p.absolute ".") "/src" ∷ bind_mount cache_folder cache_location ∷ [];
  }

  -- `BuildScript`: the plans for building and installing.
  unfoldable pub plans : Action W (Commands × Commands)
  plans = do
    let tool = analyze p.files
    build ← or_exit (build_plan tool p.files)
    install ← or_exit (install_plan tool)
    pure (build, install)

  abbrev commit_built : Build → Action W (String × String)
  commit_built b = do
    image_id ←
        wrapped_id
          (← attempt (
            commit o (b.image ⧺ ":" ⧺ b.image_tag) "Created from container"
              ("CMD [\"python\", \"/src/main.py\"]" ∷ [])))
    id ← get_id o
    pure (id, image_id)
    where
      wrapped_id : Result String → Action W String
      wrapped_id (ok id) = pure id
      wrapped_id (err e) = fail ("failed to commit container: " ⧺ e)
      wrapped_id crash = panic

  -- `Build`: the identifiers of the container and of its image.
  unfoldable pub build : Action W (String × String)
  build = do
    b ← get_build o
    f ← or_exit (ssh_forward o.world.env b.runtime b.platform)
    let private_index = custom_string b.custom "private_index"
    commands ← plans
    let opts = apply f (build_opts b private_index)
    wrapped o "failed to build container: "
        (← attempt (
          building_container o
            (record opts { script = build_script p.upper b.folder private_index commands.0 })))
    if b.image == "" then pure ("", "") else commit_built b

  abbrev pub prod_opts : Build → ContainerConfig
  prod_opts b = record blank {
    image = base_image;
    secrets = b.secret;
    platform = auto_platform;
    cmd = "sleep" ∷ "300" ∷ [];
    working_dir = "/app";
    volumes = bind_mount cache_folder cache_location ∷ [];
  }

  -- The loop that runs the install commands.
  unfoldable pub exec_all : Commands → Action W (Unit {0})
  exec_all [] = pure tt
  exec_all (cmd ∷ cmds) = do or_end (← attempt (exec o cmd)); exec_all cmds

  unfoldable pub pack : Action W String
  pack = do
    b ← get_build o
    or_end (← attempt (create o (prod_opts b)))
    or_end (← attempt (start o))
    or_end (← attempt (exec o ("mkdir" ∷ "-p" ∷ "/app/dist" ∷ [])))
    or_end (← attempt (copy_directory_to o (b.folder ⧺ "/dist/") "/app/dist"))
    commands ← plans
    exec_all commands.1
    image_id ←
        or_end
          (← attempt (
            commit o (b.image ⧺ ":" ⧺ b.image_tag) "Created from container"
              (("CMD [\"python\", \"-m\", \"" ⧺ b.file ⧺ "\"]") ∷ "WORKDIR /app" ∷ [])))
    or_end (← attempt (stop o))
    or_end (← attempt (push o image_id (image_uri_of b.registry b.image b.image_tag) (some false)))
    get_id o

  abbrev or_pack : String → Action W String
  or_pack image = if image == "" then pack else pure image

  -- `Prod`
  unfoldable pub prod : Action W String
  prod = build_custom_prod_image o p.source >>= or_pack

  abbrev tag_built : Build → String × String → Action W String
  tag_built b ids = do tag o ids.1 (b.image ⧺ ":" ⧺ b.image_tag); pure ids.0

  -- `Run`
  unfoldable pub run : Action W String
  run = do
    b ← get_build o
    pull o (base_image ∷ [])
    build_python_image
    ids ← build
    if b.image == "" then pure ids.0 else tag_built b ids
