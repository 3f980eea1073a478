-- ===== src/Container/Service.antt =====
-- pkg/container/build.go: NewServiceBuild, the description of a build that the program makes itself.
use engine_ci.Base.{String, false, none, List, [], ◌∷◌, ◌==◌, if◌then◌else◌, contains, dir}
use engine_ci.Cri.Platform.{unset}
use engine_ci.Container.Action.{Outcome, returned}
use engine_ci.Container.Build.{Build}
use engine_ci.Utils.Files.{FileSystem, find_files, ◌>>=◌, or_exit}

-- The loop that collects the directories of files; `seen` are those collected so far.
unfoldable pub packages_from : List String → List String → List String
unfolding dir
packages_from seen [] = []
packages_from seen (file ∷ files) =
    let pkg = dir file in
    let known = contains seen pkg in
    let rest = packages_from (if known then seen else pkg ∷ seen) files in
    if known then rest else pkg ∷ rest

-- `getEnv`
unfoldable pub get_env_type : FileSystem → String
get_env_type fs = if fs.env "ENV" == "local" then "local" else "build"

abbrev pub empty_build : Build
empty_build = record {
  platform = unset;
  custom = [];
  registries = none;
  secret = [];
  secrets = none;
  container_files = [];
  containify_registry = "";
  runtime = "";
  image = "";
  image_tag = "";
  file = "";
  env = "";
  folder = "";
  repository = "";
  organization = "";
  app = "";
  build_type = "";
  builder_function = "";
  registry = "";
  source_packages = [];
  source_files = [];
  verbose = false;
  defaults = false;
}

-- The build for an application, given the protobuf files that were found.
unfoldable pub service_build_of : FileSystem → String → String → List String → Build
unfolding packages_from get_env_type
service_build_of fs app_name type_ files = record empty_build {
  app = app_name;
  env = get_env_type fs;
  image = app_name;
  image_tag = if fs.env "COMMIT_SHA" == "" then "local" else fs.env "COMMIT_SHA";
  build_type = type_;
  source_packages = packages_from [] files;
  source_files = files;
}

-- `NewServiceBuild`
unfoldable pub new_service_build : FileSystem → String → String → Outcome Build
unfolding find_files service_build_of
new_service_build fs app_name type_ =
    or_exit (find_files fs "file_cache.yaml" "." ".proto") >>= λ files.
    returned (service_build_of fs app_name type_ files)

-- `NewGoServiceBuild`, `NewMavenServiceBuild` and `NewPythonServiceBuild`
unfoldable pub new_go_service_build : FileSystem → String → Outcome Build
unfolding new_service_build
new_go_service_build fs app_name = new_service_build fs app_name "GoLang"

unfoldable pub new_maven_service_build : FileSystem → String → Outcome Build
unfolding new_service_build
new_maven_service_build fs app_name = new_service_build fs app_name "Maven"

unfoldable pub new_python_service_build : FileSystem → String → Outcome Build
unfolding new_service_build
new_python_service_build fs app_name = new_service_build fs app_name "Python"
