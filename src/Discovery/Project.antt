-- ===== src/Discovery/Project.antt =====
-- pkg/autodiscovery: the data of golang.go and types.go, and the conversions of a project to a build.
use engine_ci.Base.{ℕ, String, Bool, ◌&&◌, List, [], ◌++◌, ◌==◌, if◌then◌else◌, eqb, length}
use engine_ci.Container.Action.{Outcome, returned, panicked}
use engine_ci.Container.Build.{Build}
use engine_ci.Container.Service.{
  packages_from, new_go_service_build, new_maven_service_build, new_python_service_build,
  empty_build,
}
use engine_ci.Utils.Files.{FileSystem, ◌>>=◌}

-- `protos2.BuildType`
pub data ProtoBuildType : Type 0 where
  go_lang : ProtoBuildType
  maven : ProtoBuildType
  python : ProtoBuildType
  generic : ProtoBuildType
  node_js : ProtoBuildType
  typescript : ProtoBuildType
  zig : ProtoBuildType
  rust : ProtoBuildType
  ai : ProtoBuildType
  packer : ProtoBuildType

-- `Project`
pub record Project : Type 0 where
  pub main_file : String
  pub module_path : String
  pub module_name : String
  pub app_name : String
  pub source_files : List String
  pub proto_files : List String
  pub is_service : Bool
  pub build_type : ProtoBuildType

-- `Project.BuilderFunction`
unfoldable pub builder_function_of : Project → Outcome String
builder_function_of p = elim p.build_type [
  | go_lang ↦ returned (if p.is_service then "NewGoServiceBuild" else "NewGoLibraryBuild")
  | python ↦ returned (if p.is_service then "NewPythonServiceBuild" else "NewPythonLibraryBuild")
  | maven ↦ returned (if p.is_service then "NewMavenServiceBuild" else "NewMavenLibraryBuild")
  | _ ↦ panicked
]

-- `extractPackagesFromFiles`
unfoldable pub extract_packages_from_files : List String → List String
unfolding packages_from
extract_packages_from_files files = packages_from [] files

abbrev pub or_value : String → String → String
or_value s other = if s == "" then other else s

-- What the three conversions set alike.
abbrev pub described : Project → String → Build → Build
described p function b = record b {
  builder_function = function;
  image = if p.is_service then b.image else "";
  folder = or_value p.module_path b.folder;
}

abbrev pub with_main : Project → Build → Build
with_main p b = record b { file = or_value p.main_file b.file }

abbrev pub with_sources : List String → Build → Build
with_sources files b = record b {
  source_files = if eqb (length files) 0 then b.source_files else files;
  source_packages =
      if eqb (length files) 0 then b.source_packages else extract_packages_from_files files;
}

-- `GoProjectToBuild`
unfoldable pub go_project_to_build : FileSystem → Project → Outcome Build
unfolding new_go_service_build builder_function_of
go_project_to_build fs p = new_go_service_build fs p.app_name >>= λ b.
    builder_function_of p >>= λ f.
    returned (with_sources p.proto_files (with_main p (described p f b)))

-- `PythonProjectToBuild`
unfoldable pub python_project_to_build : FileSystem → Project → Outcome Build
unfolding new_python_service_build builder_function_of
python_project_to_build fs p = new_python_service_build fs p.app_name >>= λ b.
    builder_function_of p >>= λ f.
    returned (with_sources p.source_files (with_main p (described p f b)))

-- `JavaProjectToBuild`
unfoldable pub java_project_to_build : FileSystem → Project → Outcome Build
unfolding new_maven_service_build builder_function_of
java_project_to_build fs p = new_maven_service_build fs p.app_name >>= λ b.
    builder_function_of p >>= λ f. returned (described p f b)

-- `Project.ToBuild`
unfoldable pub to_build : FileSystem → Project → Outcome Build
unfolding go_project_to_build python_project_to_build java_project_to_build
to_build fs p = elim p.build_type [
  | go_lang ↦ go_project_to_build fs p
  | python ↦ python_project_to_build fs p
  | maven ↦ java_project_to_build fs p
  | _ ↦ returned empty_build
]

-- `ProjectCollection`
pub record ProjectCollection : Type 0 where
  pub go_projects : List Project
  pub python_projects : List Project
  pub java_projects : List Project

-- `ProjectCollection.AllProjects`
unfoldable pub all_projects : ProjectCollection → List Project
all_projects c = c.go_projects ++ (c.python_projects ++ c.java_projects)

-- `ProjectCollection.CountByType`: the entries for Go, Python and Java.
unfoldable pub count_by_type : ProjectCollection → ℕ × (ℕ × ℕ)
count_by_type c = (length c.go_projects, (length c.python_projects, length c.java_projects))

-- `ProjectCollection.IsEmpty`
unfoldable pub is_empty : ProjectCollection → Bool
is_empty c =
    eqb (length c.go_projects) 0
    && (eqb (length c.python_projects) 0 && eqb (length c.java_projects) 0)
