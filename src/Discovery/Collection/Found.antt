-- ===== src/Discovery/Collection/Found.antt =====
-- The searches for projects, whatever the file system holds.
use engine_ci.Base.{
  String, Bool, true, false, List, [], ◌∷◌, ◌≡◌, refl, Dict, All, All-append, dir, arith,
}
use engine_ci.Container.Action.{Outcome, returned, failed, exited, panicked}
use engine_ci.Discovery.Project.{Project, ProtoBuildType, go_lang, maven, python, ProjectCollection}
use engine_ci.Discovery.PythonProjects.{
  discover_python_projects, python_projects_of, add_found, python_configs, group_configs,
  analyze_python_project, name_of_dir, is_subproject,
}
use engine_ci.Discovery.JavaProjects.{
  discover_java_projects, java_projects_of, java_configs, analyze_java_project, parse_java_config,
  parse_pom_xml, parse_build_gradle,
}
use engine_ci.Discovery.Collection.{LanguageFilter, discover_all_projects, if_wanted}
use engine_ci.Utils.Files.{FileSystem}
use engine_ci.Utils.Files.Search.{Yields, Yields-bind, Yields-in_context, Yields-map, Anything}
use engine_ci.Discovery.Language.{IsOf, IsAt, YieldsAll, found_or, found_some}
use engine_ci.Discovery.GoProjects.Ended.{discover_go-Yields}

name_of_dir-Yields : (fs : FileSystem) (path : String) → Yields Anything (name_of_dir fs path)
unfolding name_of_dir
name_of_dir-Yields fs path = ground arith

pub analyze_python_project-Yields :
    (fs : FileSystem) (path : String) → Yields (IsAt python path) (analyze_python_project fs path)
unfolding analyze_python_project
analyze_python_project-Yields fs path =
    Yields-bind Anything (IsAt python path) _ _ (name_of_dir-Yields fs path) (λ name h.
      Yields-bind Anything (IsAt python path) _ _
        (found_or "failed to find .py files" fs "python_files_cache.yaml" path ".py")
        (λ files h. (refl, refl)))

add_found-All :
    (t : ProtoBuildType) (out : Bool) (o : Outcome Project) (found : List Project)
    → Yields (IsOf t) o
    → All (IsOf t) found
    → All (IsOf t) (add_found out o found)
add_found-All t true (returned p) found h k = k
add_found-All t false (returned p) found h k = All-append (IsOf t) found (p ∷ []) k (h, tt)
add_found-All t out (failed e) found h k = k
add_found-All t out (exited n) found h k = k
add_found-All t out panicked found h k = k

python_projects_of-All :
    (fs : FileSystem) (found : List Project) (dict : Dict (List String))
    → All (IsOf python) found
    → All (IsOf python) (python_projects_of fs found dict)
unfolding python_projects_of
python_projects_of-All fs found [] h = h
python_projects_of-All fs found (entry ∷ dict) h =
    python_projects_of-All fs
      (add_found (is_subproject entry.0 found) (analyze_python_project fs entry.0) found) dict
      (add_found-All python _ _ found
        (Yields-map (IsAt python entry.0) (IsOf python) _ (λ p h. h.0)
          (analyze_python_project-Yields fs entry.0))
        h)

discover_python-Yields :
    (fs : FileSystem) (order : Dict (List String) → Dict (List String)) (root : String)
    → YieldsAll python (discover_python_projects fs order root)
unfolding discover_python_projects python_configs
discover_python-Yields fs order root =
    Yields-bind Anything (All (IsOf python)) _ _
      (Yields-bind Anything Anything _ _ (found_some fs "python_cache.yaml" root "requirements.txt")
        (λ xs h.
          Yields-bind Anything Anything _ _
            (found_some fs "python_cache.yaml" root "pyproject.toml") (λ ys h. tt)))
      (λ files h. python_projects_of-All fs [] (order (group_configs [] files)) tt)

parse_java_config-Yields :
    (fs : FileSystem) (path : String) → Yields Anything (parse_java_config fs path)
unfolding parse_java_config parse_pom_xml parse_build_gradle
parse_java_config-Yields fs path = ground arith

pub analyze_java_project-Yields :
    (fs : FileSystem) (path file : String)
    → Yields (IsAt maven path) (analyze_java_project fs path file)
unfolding analyze_java_project
analyze_java_project-Yields fs path file =
    Yields-bind Anything (IsAt maven path) _ _
      (Yields-in_context Anything _ _ (parse_java_config-Yields fs file))
      (λ name h.
        Yields-bind Anything (IsAt maven path) _ _
          (found_or "failed to find .java files" fs "java_files_cache.yaml" path ".java")
          (λ files h. (refl, refl)))

java_projects_of-All :
    (fs : FileSystem) (found : List Project) (files : List String)
    → All (IsOf maven) found
    → All (IsOf maven) (java_projects_of fs found files)
unfolding java_projects_of
java_projects_of-All fs found [] h = h
java_projects_of-All fs found (file ∷ files) h =
    java_projects_of-All fs
      (add_found (is_subproject (dir file) found) (analyze_java_project fs (dir file) file) found)
      files
      (add_found-All maven _ _ found
        (Yields-map (IsAt maven (dir file)) (IsOf maven) _ (λ p h. h.0)
          (analyze_java_project-Yields fs (dir file) file))
        h)

discover_java-Yields :
    (fs : FileSystem) (root : String) → YieldsAll maven (discover_java_projects fs root)
unfolding discover_java_projects java_configs
discover_java-Yields fs root =
    Yields-bind Anything (All (IsOf maven)) _ _
      (Yields-bind Anything Anything _ _ (found_some fs "java_cache.yaml" root "pom.xml") (λ xs h.
        Yields-bind Anything Anything _ _ (found_some fs "java_cache.yaml" root "build.gradle")
          (λ ys h.
            Yields-bind Anything Anything _ _
              (found_some fs "java_cache.yaml" root "build.gradle.kts") (λ zs h. tt))))
      (λ files h. java_projects_of-All fs [] files tt)

-- The projects of each language are where they belong.
pub record IsSorted (c : ProjectCollection) : Type 0 where
  pub go : All (IsOf go_lang) c.go_projects
  pub python : All (IsOf python) c.python_projects
  pub java : All (IsOf maven) c.java_projects

-- A search that failed finds nothing; one that did not is not changed.
wanted_returns :
    (t : ProtoBuildType) (wanted : Bool) (o : Outcome (List Project))
    → YieldsAll t o
    → (ps : List Project) × (if_wanted wanted o ≡ returned ps) × All (IsOf t) ps
wanted_returns t true (returned ps) h = (ps, refl, h)
wanted_returns t true (failed e) h = ([], refl, tt)
wanted_returns t true (exited n) h = absurd h
wanted_returns t true panicked h = absurd h
wanted_returns t false o h = ([], refl, tt)

-- DiscoverAllProjects always returns a collection, whatever the file system holds, whichever languages
-- are wanted and in whichever order the directories are visited, and each of its three lists holds
-- projects of its own language only.
pub discover_all_projects-IsSorted :
    (fs : FileSystem) (order : Dict (List String) → Dict (List String)) (filter : LanguageFilter)
    (root : String)
    → (c : ProjectCollection) × (discover_all_projects fs order filter root ≡ returned c)
      × IsSorted c
unfolding discover_all_projects
discover_all_projects-IsSorted fs order filter root =
    let (gos, eg, hg) = wanted_returns go_lang filter.go _ (discover_go-Yields fs root) in
    let (pys, ep, hp) =
      wanted_returns python filter.python _ (discover_python-Yields fs order root) in
    let (jvs, ej, hj) = wanted_returns maven filter.java _ (discover_java-Yields fs root) in
    (_, rw (eg, ep, ej) refl, record { go = hg; python = hp; java = hj })
