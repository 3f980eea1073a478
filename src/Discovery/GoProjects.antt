-- ===== src/Discovery/GoProjects.antt =====
-- pkg/autodiscovery/golang.go: the search for Go modules.
pub mod Ended
use engine_ci.Base.{
  String, ◌⧺◌, Bool, true, false, ◌||◌, Option, none, some, List, [], ◌∷◌, ◌==◌, if◌then◌else◌,
  contains, has_prefix, strip_prefix?, or_same, split, trim_space, fields, dir, base, get_elem?,
}
use engine_ci.Container.Action.{Outcome, returned, failed}
use engine_ci.Discovery.Project.{Project, go_lang}
use engine_ci.Utils.Files.{FileSystem, opened, not_opened, find_files, in_context, or_else, ◌>>=◌}

-- The scan of a go.mod file for its module; the name is there if the trimmed line has the prefix.
unfoldable pub module_of : List String → Option String
unfolding has_prefix fields trim_space
module_of [] = none
module_of (l ∷ ls) =
    let rest = module_of ls in
    let line = trim_space l in
    if has_prefix line "module "
    then elim (get_elem? (fields line) 1) [ some name ↦ some name | none ↦ rest ]
    else rest

-- `parseGoMod`
unfoldable pub parse_go_mod : FileSystem → String → Outcome String
unfolding module_of
parse_go_mod fs path = elim (fs.open_file path) [
  | not_opened e ↦ failed ("failed to open go.mod: " ⧺ e)
  | opened file ↦ elim (module_of file.lines) [
    | some name ↦ returned name
    | none ↦ elim file.scan_error [
      | some e ↦ failed ("error reading go.mod: " ⧺ e)
      | none ↦ failed "module declaration not found in go.mod"
    ]
  ]
]

abbrev last_or_empty : List String → String
last_or_empty [] = ""
last_or_empty (x ∷ []) = x
last_or_empty (x ∷ y ∷ ys) = last_or_empty (y ∷ ys)

-- `deriveAppName`
unfoldable pub derive_app_name : String → String → String
unfolding split base strip_prefix?
derive_app_name module_name module_path =
    let name =
      if module_name == "" then base module_path else last_or_empty (split b'/' module_name) in
    or_same name (strip_prefix? "." name)

-- Comments and empty lines.
abbrev pub is_skipped : String → Bool
is_skipped line = has_prefix line "//" || (has_prefix line "/*" || line == "")

-- The scan for the package clause: whether it names main, and none if there is no clause.
unfoldable pub main_clause : List String → Option Bool
unfolding has_prefix fields trim_space
main_clause [] = none
main_clause (l ∷ ls) =
    let rest = main_clause ls in
    let line = trim_space l in
    if is_skipped line
    then rest
    else if has_prefix line "package "
    then elim (get_elem? (fields line) 1) [ some name ↦ some (name == "main") | none ↦ some false ]
    else rest

-- `isMainPackageFile`
unfoldable pub is_main_package_file : FileSystem → String → Outcome Bool
unfolding main_clause
is_main_package_file fs path = elim (fs.open_file path) [
  | not_opened e ↦ failed ("failed to open " ⧺ path ⧺ ": " ⧺ e)
  | opened file ↦ elim (main_clause file.lines) [
    | some b ↦ returned b
    | none ↦ elim file.scan_error [
      | some e ↦ failed ("error reading " ⧺ path ⧺ ": " ⧺ e)
      | none ↦ returned false
    ]
  ]
]

-- `hasMainPackage`: whether there is a main package, and the file that declares it.
unfoldable pub has_main_package : FileSystem → String → List String → Outcome (Bool × String)
unfolding is_main_package_file dir
has_main_package fs module_path [] = returned (false, "")
has_main_package fs module_path (file ∷ files) =
    let rest = has_main_package fs module_path files in
    if dir file == module_path
    then (in_context ("failed to check file " ⧺ file) (is_main_package_file fs file) >>= λ is_main.
        if is_main then returned (true, file) else rest)
    else rest

-- `analyzeGoProject`, without the module path that it answers beside an error.
unfoldable pub analyze_go_project : FileSystem → String → Outcome Project
unfolding parse_go_mod derive_app_name find_files has_main_package
analyze_go_project fs go_mod_path =
    let module_path = dir go_mod_path in
    in_context "failed to parse go.mod" (parse_go_mod fs go_mod_path) >>= λ name.
    in_context "failed to find .go files" (find_files fs "go_files_cache.yaml" module_path ".go")
    >>= λ go_files.
        or_else [] (find_files fs "go_files_cache.yaml" module_path ".proto") >>= λ proto_files.
        in_context "failed to check for main package" (has_main_package fs module_path go_files)
        >>= λ main. returned (record {
          main_file = main.1;
          module_path = module_path;
          module_name = name;
          app_name = derive_app_name name module_path;
          source_files = go_files;
          proto_files = proto_files;
          is_service = main.0;
          build_type = go_lang;
        })

-- The directories of the program's own configuration.
unfoldable pub is_own_folder : String → String → Bool
unfolding strip_prefix? base
is_own_folder root module_path =
    contains ("containifyci" ∷ "dagger" ∷ ".containifyci" ∷ ".dagger" ∷ [])
      (base (or_same module_path (strip_prefix? root module_path)))

-- The loop of `DiscoverGoProjects`, which an error ends unless the directory is left out.
unfoldable pub go_projects_of : FileSystem → String → List String → Outcome (List Project)
unfolding analyze_go_project is_own_folder
go_projects_of fs root [] = returned []
go_projects_of fs root (path ∷ paths) =
    let rest = go_projects_of fs root paths in
    if is_own_folder root (dir path)
    then rest
    else (in_context ("failed to analyze project at " ⧺ path) (analyze_go_project fs path)
        >>= λ project. rest >>= λ projects. returned (project ∷ projects))

-- `DiscoverGoProjects`
unfoldable pub discover_go_projects : FileSystem → String → Outcome (List Project)
unfolding find_files go_projects_of
discover_go_projects fs root =
    in_context "failed to find go.mod files" (find_files fs "go_mod_cache.yaml" root "go.mod")
    >>= λ paths. go_projects_of fs root paths
