-- ===== src/Discovery/JavaProjects.antt =====
-- pkg/autodiscovery/java.go: the search for Java projects.
pub mod Covered
pub mod Pom
use engine_ci.Base.{
  String, ◌⧺◌, ◌++◌, Bool, true, false, ◌&&◌, ◌||◌, not, Option, none, some, List, [], ◌∷◌, ◌==◌,
  eqb, if◌then◌else◌, has_prefix, has_text, strip_prefix?, strip_suffix?, trim_suffix, trim_left,
  trim_right, trim_space, cut, dir, base,
}
use Prim.Native.Char.{Char, code}
use engine_ci.Container.Action.{Outcome, returned, failed, exited, panicked}
use engine_ci.Discovery.Project.{Project, maven}
use engine_ci.Discovery.PythonProjects.{is_subproject, add_found}
use engine_ci.Utils.Files.{
  FileSystem, Scanned, opened, not_opened, has_suffix, find_files, in_context, or_else, ◌>>=◌,
}

-- `extractXmlContent`; the two tags of a name do not overlap, since each has one `>`, at its end.
unfoldable pub extract_xml_content : String → String → String
unfolding strip_prefix? strip_suffix? trim_space
extract_xml_content line tag_name = elim (strip_prefix? ("<" ⧺ tag_name ⧺ ">") line) [
  | none ↦ ""
  | some rest ↦ elim (strip_suffix? ("</" ⧺ tag_name ⧺ ">") rest) [
    | none ↦ ""
    | some content ↦ trim_space content
  ]
]

-- The name that one line of a pom.xml gives, or the empty text.
unfoldable pub artifact_of : String → String
unfolding extract_xml_content has_prefix has_suffix
artifact_of line =
    if has_prefix line "<artifactId>" && has_suffix line "</artifactId>"
    then extract_xml_content line "artifactId"
    else ""

-- The scan of a pom.xml: the name found so far, and whether the project has begun.
unfoldable pub pom_name : String → Bool → List String → String
unfolding trim_space artifact_of has_prefix
pom_name name in_project [] = name
pom_name name in_project (l ∷ ls) =
    let line = trim_space l in
    let begins = has_prefix line "<project" in
    pom_name
      (if begins || (not in_project || artifact_of line == "") then name else artifact_of line)
      (begins || in_project) ls

abbrev is_quote : Char → Bool
is_quote c = eqb (code c) b'"' || eqb (code c) 39

-- The scan of a build.gradle: the name found so far.
unfoldable pub gradle_name : String → List String → String
unfolding trim_space trim_left trim_right cut has_prefix
gradle_name name [] = name
gradle_name name (l ∷ ls) =
    let line = trim_space l in
    gradle_name
      (if has_prefix line "rootProject.name" || has_prefix line "project.name"
        then elim (cut b'=' line) [
          | none ↦ name
          | some (key, value) ↦ trim_right is_quote (trim_left is_quote (trim_space value))
        ]
        else name)
      ls

abbrev scanned_name : (List String → String) → Scanned → Outcome String
scanned_name f file = elim file.scan_error [ some e ↦ failed e | none ↦ returned (f file.lines) ]

-- `parsePomXml`: the name of the application, empty if the file has none.
unfoldable pub parse_pom_xml : FileSystem → String → Outcome String
unfolding pom_name
parse_pom_xml fs path = elim (fs.open_file path) [
  | not_opened e ↦ failed ("failed to open pom.xml: " ⧺ e)
  | opened file ↦ scanned_name (pom_name "" false) file
]

-- `parseBuildGradle`
unfoldable pub parse_build_gradle : FileSystem → String → Outcome String
unfolding gradle_name
parse_build_gradle fs path = elim (fs.open_file path) [
  | not_opened e ↦ failed ("failed to open build.gradle: " ⧺ e)
  | opened file ↦ scanned_name (gradle_name "") file
]

-- `parseJavaConfig`
unfoldable pub parse_java_config : FileSystem → String → Outcome String
unfolding parse_pom_xml parse_build_gradle has_suffix
parse_java_config fs path =
    if has_suffix path "pom.xml"
    then parse_pom_xml fs path
    else if has_suffix path "build.gradle" || has_suffix path "build.gradle.kts"
    then parse_build_gradle fs path
    else failed ("unsupported Java config file: " ⧺ path)

abbrev some_line : String → List String → Bool
some_line text [] = false
some_line text (l ∷ ls) = has_text (trim_space l) text || some_line text ls

abbrev file_holds : FileSystem → String → String → Bool
file_holds fs text path = elim (fs.open_file path) [
  | not_opened e ↦ false
  | opened file ↦ some_line text file.lines
]

-- `hasMainMethod`
unfoldable pub has_main_method : FileSystem → String → Bool
unfolding has_text trim_space
has_main_method fs path = file_holds fs "public static void main" path

-- `isJavaService`
unfoldable pub is_java_service : FileSystem → List String → Bool
unfolding has_main_method
is_java_service fs [] = false
is_java_service fs (file ∷ files) = has_main_method fs file || is_java_service fs files

-- `hasSpringBootIndicators`
unfoldable pub has_spring_boot_indicators : FileSystem → List String → Bool
unfolding has_text trim_space
has_spring_boot_indicators fs [] = false
has_spring_boot_indicators fs (file ∷ files) =
    file_holds fs "@SpringBootApplication" file || has_spring_boot_indicators fs files

-- `findMainClass`
unfoldable pub find_main_class : FileSystem → List String → String
unfolding has_main_method base trim_suffix
find_main_class fs [] = ""
find_main_class fs (file ∷ files) =
    let rest = find_main_class fs files in
    if has_main_method fs file then trim_suffix (base file) ".java" else rest

-- `analyzeJavaProject`
unfoldable pub analyze_java_project : FileSystem → String → String → Outcome Project
unfolding parse_java_config base find_files is_java_service find_main_class
analyze_java_project fs project_dir config_file =
    in_context "failed to parse config file" (parse_java_config fs config_file) >>= λ name.
    in_context "failed to find .java files"
      (find_files fs "java_files_cache.yaml" project_dir ".java")
    >>= λ files. returned (record {
      main_file = if is_java_service fs files then find_main_class fs files else "";
      module_path = project_dir;
      module_name = "";
      app_name = if name == "" then base project_dir else name;
      source_files = files;
      proto_files = [];
      is_service = is_java_service fs files;
      build_type = maven;
    })

-- The loop of `DiscoverJavaProjects`, given the projects found so far.
unfoldable pub java_projects_of : FileSystem → List Project → List String → List Project
unfolding is_subproject analyze_java_project dir
java_projects_of fs found [] = found
java_projects_of fs found (file ∷ files) =
    java_projects_of fs
      (add_found (is_subproject (dir file) found) (analyze_java_project fs (dir file) file) found)
      files

-- The configuration files; a search that fails finds none.
unfoldable pub java_configs : FileSystem → String → Outcome (List String)
unfolding find_files
java_configs fs root = or_else [] (find_files fs "java_cache.yaml" root "pom.xml") >>= λ poms.
    or_else [] (find_files fs "java_cache.yaml" root "build.gradle") >>= λ gradles.
    or_else [] (find_files fs "java_cache.yaml" root "build.gradle.kts") >>= λ kotlins.
    returned (poms ++ (gradles ++ kotlins))

-- `DiscoverJavaProjects`
unfoldable pub discover_java_projects : FileSystem → String → Outcome (List Project)
unfolding java_configs java_projects_of
discover_java_projects fs root =
    java_configs fs root >>= λ files. returned (java_projects_of fs [] files)
