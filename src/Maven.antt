-- ===== src/Maven.antt =====
-- pkg/maven: the steps that build and package Maven projects. Not in the model: `new`, and the values of
-- build.Stepper.
use engine_ci.Base.{
  String, ◌⧺◌, Bool, Option, none, some, List, [], ◌∷◌, ◌++◌, ◌==◌, if◌then◌else◌, lookup,
}
use engine_ci.Cri.Platform.{PlatformSpec, get_platforms}
use engine_ci.Cri.Manager.{Result, ContainerConfig, blank, auto_platform}
use engine_ci.Cri.Image.{image_uri_of}
use engine_ci.Cri.Socket.{apply_socket}
use engine_ci.Container.Build.{Build, ContainerFile}
use engine_ci.Network.Address.{for_container_default}
use engine_ci.Network.SshForward.{Forward, ssh_forward, apply}
use engine_ci.Utils.Environment.{World, get_env, get_envs}
use engine_ci.Container.Action.{
  Outside, Action, ◌>>=◌, ◌>>◌, pure, or_panic, or_exit, or_end, attempt,
}
use engine_ci.Container.Lifecycle.{
  get_build, get_id, create, start, stop, exec, commit, copy_directory_to,
}
use engine_ci.Container.Images.{pull, push}
use engine_ci.Container.Intermediate.{
  build_intermediate, building_container, build_custom_prod_image, wrapped,
}
use engine_ci.Golang.Alpine.{bind_mount}

-- The content of Dockerfile.maven, SHA-256 in hexadecimal, the folder of the user if it is known and
-- .m2 can be made in it, absolute paths, `url.Parse`, what `podman info` prints, and the archive of a
-- source that goes with a Dockerfile, if there is one.
pub record MavenProject : Type 0 where
  pub dockerfile : String
  pub checksum : String → String
  pub home : Option String
  pub absolute : String → String
  pub parse_url : String → Option (String × String)
  pub podman_info : Option String
  pub source : Option (Result String)

abbrev pub prod_image : String
prod_image = "registry.access.redhat.com/ubi8/openjdk-17:latest"

abbrev pub cache_location : String
cache_location = "/root/.m2/"

-- `Matches`
unfoldable pub matches : Build → Bool
matches b = b.build_type == "Maven"

-- `Script`
unfoldable pub script : Bool → String
script verbose =
    if verbose
    then "#!/bin/sh\nset -xe\n./mvnw --batch-mode package -X\n"
    else "#!/bin/sh\nset -xe\n./mvnw --batch-mode package\n"

module _ (p : MavenProject) where
  -- `dockerFile`
  unfoldable pub docker_file : Build → ContainerFile
  docker_file b = elim (lookup "build" b.container_files) [
    | some file ↦ file
    | none ↦ record { name = "maven-3-eclipse-temurin-17-alpine"; content = p.dockerfile }
  ]

  -- `MavenImage`
  unfoldable pub maven_image : Build → String
  unfolding docker_file
  maven_image b =
      image_uri_of b.containify_registry (docker_file b).name (p.checksum (docker_file b).content)

  -- `Images`
  unfoldable pub maven_images : Build → List String
  unfolding maven_image
  maven_images b = maven_image b ∷ prod_image ∷ []

  -- `CacheFolder`; none is the end of the process.
  unfoldable pub cache_folder : World → Option String
  cache_folder w =
      let given = get_envs w ("MAVEN_HOME" ∷ "CONTAINIFYCI_CACHE" ∷ []) "build" in
      if given == ""
      then elim p.home [ none ↦ none | some home ↦ some (home ⧺ "/.m2") ]
      else some given

  -- `Address().ForContainerDefault`
  abbrev pub container_host : String → String → String
  container_host go_os runtime =
      (for_container_default p.parse_url go_os runtime
        (record { host = "localhost"; internal_host = ""; secret = ""; port = 0 })).0

  -- On MacOS the containers of a test reach the host by its name.
  abbrev host_env : String → String → PlatformSpec → List String
  host_env go_os runtime host =
      if host.os == "darwin"
      then ("TC_HOST=" ⧺ container_host go_os runtime)
        ∷ ("TESTCONTAINERS_HOST_OVERRIDE=" ⧺ container_host go_os runtime)
        ∷ []
      else []

  abbrev base_opts : String → Build → PlatformSpec → String → ContainerConfig
  base_opts go_os b host cache = record blank {
    image = maven_image b;
    env =
        "MAVEN_OPTS=-Xms512m -Xmx512m -XX:MaxDirectMemorySize=512m" ∷ host_env go_os b.runtime host;
    working_dir = "/src";
    volumes = bind_mount (p.absolute ".") "/src" ∷ bind_mount cache cache_location ∷ [];
    memory = 4073741824;
    cpu = 2048;
  }

  abbrev podman_env : String → List String
  podman_env runtime =
      if runtime == "podman"
      then "DOCKER_HOST=unix://var/run/podman.sock" ∷ "TESTCONTAINERS_RYUK_DISABLED=true" ∷ []
      else []

  abbrev privileged_env : String → List String
  privileged_env value =
      if value == "false"
      then "TESTCONTAINERS_RYUK_DISABLED=true" ∷ "TESTCONTAINERS_RYUK_PRIVILEGED=false" ∷ []
      else []

  abbrev with_env : List String → ContainerConfig → ContainerConfig
  with_env lines opts = record opts { env = opts.env ++ lines }

  -- The configuration of `Build`, given the forwarded socket, the host's platform, the cache and the
  -- value of CONTAINER_PRIVILGED.
  unfoldable pub build_opts :
      String → Build → Option Forward → PlatformSpec → String → String → ContainerConfig
  unfolding maven_image apply apply_socket script
  build_opts go_os b forward host cache privileged =
      record (with_env (privileged_env privileged) (
        with_env (podman_env b.runtime)
          (apply_socket p.podman_info b.runtime (apply forward (base_opts go_os b host cache))))) {
            script = script b.verbose;
          }

module _ {W : Type 0} (o : Outside W) (p : MavenProject) where
  -- `BuildMavenImage`
  unfoldable pub build_maven_image : Action W (Unit {0})
  build_maven_image = do
    b ← get_build o
    platforms ← or_panic (get_platforms b.platform)
    or_end
        (← attempt
          (build_intermediate o p.source (maven_image p b) (docker_file p b).content platforms))

  -- `Build`
  unfoldable pub build : Action W String
  build = do
    b ← get_build o
    forward ← or_exit (ssh_forward o.world.env b.runtime b.platform)
    host ← or_panic b.platform.host
    cache ← or_exit (cache_folder p o.world)
    privileged ← or_exit (get_env o.world "CONTAINER_PRIVILGED" "build")
    wrapped o "failed to build container: "
        (← attempt (building_container o (build_opts p o.go_os b forward host cache privileged)))
    get_id o

  abbrev pub prod_opts : ContainerConfig
  prod_opts = record blank {
    image = prod_image;
    env =
        "JAVA_OPTS=-javaagent:/deployments/dd-java-agent.jar -Dquarkus.http.host=0.0.0.0 -Djava.util.logging.manager=org.jboss.logmanager.LogManager"
        ∷ "JAVA_APP_JAR=/deployments/quarkus-run.jar" ∷ [];
    platform = auto_platform;
    cmd = "sleep" ∷ "300" ∷ [];
    user = "185";
    working_dir = "/src";
  }

  -- The part of `Prod` without a custom Dockerfile.
  unfoldable pub pack : Action W String
  pack = do
    b ← get_build o
    or_end (← attempt (create o prod_opts))
    or_end (← attempt (start o))
    or_end
        (← attempt (
          exec o (
            "curl" ∷ "-Lo" ∷ "/deployments/dd-java-agent.jar" ∷ "https://dtdg.co/latest-java-tracer"
            ∷ [])))
    or_end (← attempt (copy_directory_to o b.folder "/deployments"))
    image_id ←
        or_end
          (← attempt (
            commit o (b.image ⧺ ":" ⧺ b.image_tag) "Created from container"
              ("CMD [\"/usr/local/s2i/run\"]" ∷ "USER 185" ∷ [])))
    or_end (← attempt (stop o))
    or_end (← attempt (push o image_id (image_uri_of b.registry b.image b.image_tag) none))
    get_id o

  abbrev or_pack : String → Action W String
  or_pack image = if image == "" then pack else pure image

  -- `Prod`
  unfoldable pub prod : Action W String
  prod = build_custom_prod_image o p.source >>= or_pack

  -- `Run`
  unfoldable pub run : Action W String
  run = do pull o (prod_image ∷ []); build_maven_image; build
