-- ===== src/Tests/DiscoveryTests.antt =====
-- A directory with a Go service, a Python project within a Python project, and a Java service.
use engine_ci.Base.{
  String, false, none, some, List, [], ◌∷◌, ◌++◌, ◌==◌, ◌≡◌, ◌≢◌, refl, ◌⊎◌, if◌then◌else◌, Dict,
  dir, base, clean, rel, fields, trim_space, has_prefix, arith, eq_iff,
}
use engine_ci.Container.Action.{Outcome, returned, failed}
use engine_ci.Container.Build.{Build}
use engine_ci.Discovery.Project.{ProjectCollection, all_projects, extract_packages_from_files}
use engine_ci.Discovery.GoProjects.{derive_app_name}
use engine_ci.Discovery.PythonProjects.{python_projects_of}
use engine_ci.Discovery.PythonProjects.Separate.{paths_of}
use engine_ci.Discovery.JavaProjects.{artifact_of, gradle_name, parse_pom_xml}
use engine_ci.Discovery.JavaProjects.Pom.{parse_pom_xml-last}
use engine_ci.Discovery.Collection.{
  all_languages, discover_projects_with_filter, discover_and_generate_with_filter,
}
use engine_ci.Discovery.Collection.Groups.{AreGroupsFor}
use engine_ci.Discovery.Collection.Generated.{discover_and_generate_lem}
use engine_ci.Utils.Files.{FileSystem, Visited, Opened, opened, not_opened, find_files}
use engine_ci.Tests.Samples.{host}

abbrev entry : String → String → Visited
entry path name = record { path = path; name = name; is_dir = false; walk_error = none }

abbrev go_files : List Visited
go_files = entry "svc/go.mod" "go.mod" ∷ entry "svc/main.go" "main.go" ∷ []

abbrev python_files : List Visited
python_files =
    entry "py/app.py" "app.py"
    ∷ entry "py/requirements.txt" "requirements.txt"
    ∷ entry "py/sub/requirements.txt" "requirements.txt"
    ∷ []

abbrev java_files : List Visited
java_files = entry "java/Main.java" "Main.java" ∷ entry "java/pom.xml" "pom.xml" ∷ []

abbrev content : List String → Opened
content lines = opened (record { lines = lines; scan_error = none })

abbrev before_last : List String
before_last =
    "<?xml version=\"1.0\"?>" ∷ "<project>" ∷ "  <artifactId>shop</artifactId>" ∷ "<dependency>"
    ∷ []

abbrev last_artifact : String
last_artifact = "  <artifactId>junit</artifactId>"

abbrev pub files : FileSystem
files = record {
  open_file = λ path.
      if path == "svc/go.mod"
      then content ("module example.com/svc" ∷ [])
      else if path == "svc/main.go"
      then content ("// the service" ∷ "package main" ∷ [])
      else if path == "java/pom.xml"
      then content (before_last ++ last_artifact ∷ "</project>" ∷ [])
      else if path == "java/Main.java"
      then content ("  public static void main(String[] args) {" ∷ [])
      else not_opened "no such file";
  walk = λ root.
      if root == "."
      then java_files ++ (python_files ++ go_files)
      else if root == "svc"
      then go_files
      else if root == "py"
      then python_files
      else if root == "java"
      then java_files
      else [];
  working_dir = some "/work";
  env = λ name. "";
  temp_dir = "/tmp";
  write = λ name results. none;
}

paths_test :
    (dir "a/b/../c" ≡ "a")
    × (dir "main.go" ≡ ".")
    × (base "/a/b/" ≡ "b")
    × (clean "/../a/./b" ≡ "/a/b")
    × (rel "a" "a/b/c" ≡ some "b/c")
    × (rel "a/b" "a/c" ≡ some "../c")
unfolding dir base clean rel
paths_test = (refl, refl, refl, refl, refl, refl)

words_test :
    (fields " module  example.com/svc " ≡ "module" ∷ "example.com/svc" ∷ [])
    × (derive_app_name "" "/work/.tools" ≡ "tools")
unfolding fields derive_app_name
words_test = (refl, refl)

packages_test :
    extract_packages_from_files ("a/x.proto" ∷ "b/y.proto" ∷ "a/z.proto" ∷ []) ≡ "a" ∷ "b" ∷ []
unfolding extract_packages_from_files
packages_test = refl

gradle_test : gradle_name "" ("rootProject.name = 'shop'" ∷ []) ≡ "shop"
unfolding gradle_name
gradle_test = refl

-- The dependency names the application, not the project.
pom_test : parse_pom_xml files "java/pom.xml" ≡ returned "junit"
unfolding parse_pom_xml
pom_test = refl

apart : (s : String) → (s == "") ≡ false → s ≢ ""
apart s h = ground (arith, eq_iff s "")

parse_pom_xml-last_example : parse_pom_xml files "java/pom.xml" ≡ returned "junit"
unfolding artifact_of trim_space has_prefix
parse_pom_xml-last_example =
    parse_pom_xml-last files "java/pom.xml" before_last last_artifact ("</project>" ∷ []) refl refl
      refl (apart "junit" refl) (refl, tt)

abbrev both : Dict (List String)
both = ("py", "py/requirements.txt" ∷ []) ∷ ("py/sub", "py/sub/requirements.txt" ∷ []) ∷ []

abbrev swapped : Dict (List String)
swapped = ("py/sub", "py/sub/requirements.txt" ∷ []) ∷ ("py", "py/requirements.txt" ∷ []) ∷ []

-- The order in which Go visits the directories decides whether the inner project is found.
order_test :
    (paths_of (python_projects_of files [] both) ≡ "py" ∷ [])
    × (paths_of (python_projects_of files [] swapped) ≡ "py/sub" ∷ "py" ∷ [])
unfolding python_projects_of
order_test = (refl, refl)

discover_and_generate_example :
    (c : ProjectCollection) × (discover_projects_with_filter files (λ d. d) "." all_languages
      ≡ returned c)
    × (((all_projects c ≡ [])
          × (discover_and_generate_with_filter host files (λ d. d) "." all_languages
              ≡ failed "no projects found in ."))
        ⊎ ((all_projects c ≢ [])
            × (gs : List (List Build)) × (discover_and_generate_with_filter host files
                  (λ d. d)
                  "."
                  all_languages
                ≡ returned gs)
            × AreGroupsFor (all_projects c) gs))
unfolding find_files
discover_and_generate_example =
    discover_and_generate_lem host files [] (λ d. d) "." all_languages refl

abbrev names_in : Outcome ProjectCollection → List String
unfolding all_projects
names_in (returned c) = paths_of (all_projects c)
names_in o = []

discover_test :
    names_in (discover_projects_with_filter files (λ d. d) "." all_languages)
    ≡ "svc" ∷ "py" ∷ "java" ∷ []
unfolding discover_projects_with_filter names_in
discover_test = refl
