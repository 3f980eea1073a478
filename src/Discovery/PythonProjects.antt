-- ===== src/Discovery/PythonProjects.antt =====
-- pkg/autodiscovery/python.go: the search for Python projects.
pub mod Separate
pub mod Covered
use engine_ci.Base.{
  String, ◌⧺◌, ◌++◌, Bool, true, false, ◌&&◌, ◌||◌, not, Option, none, some, List, [], ◌∷◌, ◌==◌,
  if◌then◌else◌, contains, has_prefix, dir, base, rel, abs, Dict, leb, ℕ, count_char,
}
use engine_ci.Container.Action.{Outcome, returned, failed, exited, panicked}
use engine_ci.Discovery.Project.{Project, python}
use engine_ci.Utils.Files.{FileSystem, find_files, in_context, or_else, ◌>>=◌}

-- `isSubproject`, and `isJavaSubproject`.
unfoldable pub is_subproject : String → List Project → Bool
unfolding rel has_prefix
is_subproject path [] = false
is_subproject path (p ∷ ps) =
    let rest = is_subproject path ps in
    elim (rel p.module_path path) [
      | none ↦ rest
      | some steps ↦ if not (has_prefix steps "..") && not (steps == ".") then true else rest
    ]

-- A `__main__.py` in the project's directory or one below it.
unfoldable pub main_module : String → List String → Option String
unfolding base rel dir count_char
main_module project_dir [] = none
main_module project_dir (file ∷ files) =
    let rest = main_module project_dir files in
    if base file == "__main__.py"
    then elim (rel project_dir file) [
      | none ↦ rest
      | some path ↦ if dir path == "." || leb (count_char b'/' path) 1 then some file else rest
    ]
    else rest

abbrev pub service_files : List String
service_files = "app.py" ∷ "main.py" ∷ "server.py" ∷ "run.py" ∷ "wsgi.py" ∷ "asgi.py" ∷ []

-- A file in the project's directory with the name of a service.
unfoldable pub service_file : String → List String → Option String
unfolding base dir
service_file project_dir [] = none
service_file project_dir (file ∷ files) =
    let rest = service_file project_dir files in
    if contains service_files (base file) && dir file == project_dir then some file else rest

-- `determineServiceType`
unfoldable pub determine_service_type : String → List String → Bool × String
unfolding main_module service_file
determine_service_type project_dir files = elim (main_module project_dir files) [
  | some file ↦ (true, file)
  | none ↦ elim (service_file project_dir files) [ some file ↦ (true, file) | none ↦ (false, "") ]
]

-- The name of a project: that of its directory.
unfoldable pub name_of_dir : FileSystem → String → Outcome String
unfolding base abs
name_of_dir fs project_dir =
    if base project_dir == "."
    then elim (abs fs.working_dir project_dir) [
      | none ↦ failed "failed to get absolute path"
      | some path ↦ returned (base path)
    ]
    else returned (base project_dir)

-- `analyzePythonProject`, which does not read the configuration files.
unfoldable pub analyze_python_project : FileSystem → String → Outcome Project
unfolding name_of_dir find_files determine_service_type
analyze_python_project fs project_dir = name_of_dir fs project_dir >>= λ name.
    in_context "failed to find .py files"
      (find_files fs "python_files_cache.yaml" project_dir ".py")
    >>= λ files. returned (record {
      main_file = (determine_service_type project_dir files).1;
      module_path = project_dir;
      module_name = "";
      app_name = name;
      source_files = files;
      proto_files = [];
      is_service = (determine_service_type project_dir files).0;
      build_type = python;
    })

-- `projectDirs[dir] = append(projectDirs[dir], configFile)`
unfoldable pub add_config : String → String → Dict (List String) → Dict (List String)
add_config folder file [] = (folder, file ∷ []) ∷ []
add_config folder file (entry ∷ dict) =
    let rest = add_config folder file dict in
    if entry.0 == folder then (folder, entry.1 ++ file ∷ []) ∷ dict else entry ∷ rest

unfoldable pub group_configs : Dict (List String) → List String → Dict (List String)
unfolding add_config dir
group_configs dict [] = dict
group_configs dict (file ∷ files) = group_configs (add_config (dir file) file dict) files

-- A project that was analysed joins those found, unless it is left out.
abbrev pub add_found : Bool → Outcome Project → List Project → List Project
add_found left_out (returned project) found = if left_out then found else found ++ project ∷ []
add_found left_out (failed e) found = found
add_found left_out (exited n) found = found
add_found left_out panicked found = found

-- The loop of `DiscoverPythonProjects` over the directories, given the projects found so far.
unfoldable pub python_projects_of : FileSystem → List Project → Dict (List String) → List Project
unfolding analyze_python_project is_subproject
python_projects_of fs found [] = found
python_projects_of fs found (entry ∷ dict) =
    python_projects_of fs
      (add_found (is_subproject entry.0 found) (analyze_python_project fs entry.0) found) dict

-- The configuration files; a search that fails finds none.
unfoldable pub python_configs : FileSystem → String → Outcome (List String)
unfolding find_files
python_configs fs root =
    or_else [] (find_files fs "python_cache.yaml" root "requirements.txt") >>= λ requirements.
    or_else [] (find_files fs "python_cache.yaml" root "pyproject.toml") >>= λ pyprojects.
    returned (requirements ++ pyprojects)

-- `DiscoverPythonProjects`. Go leaves open in which order it ranges over the map of directories:
-- `order` puts them in the order of one run.
unfoldable pub discover_python_projects :
    FileSystem → (Dict (List String) → Dict (List String)) → String → Outcome (List Project)
unfolding python_configs group_configs python_projects_of
discover_python_projects fs order root = python_configs fs root >>= λ files.
    returned (python_projects_of fs [] (order (group_configs [] files)))
