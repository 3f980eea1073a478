-- ===== src/Discovery/JavaProjects/Covered.antt =====
-- Which of the directories become Java projects.
use engine_ci.Base.{String, List, [], ◌∷◌, ◌≡◌, refl, sym, subst, All, dir}
use engine_ci.Discovery.Project.{Project, maven}
use engine_ci.Discovery.PythonProjects.{is_subproject, add_found}
use engine_ci.Discovery.JavaProjects.{java_projects_of, analyze_java_project}
use engine_ci.Discovery.PythonProjects.Separate.{
  Analysed, add_all, IsInPlace, IsSeparateFrom, AllSettled, add_all-IsSeparateFrom,
  add_all-AllSettled,
}
use engine_ci.Discovery.Language.{IsAt}
use engine_ci.Discovery.Collection.Found.{analyze_java_project-Yields}
use engine_ci.Utils.Files.{FileSystem}
use engine_ci.Utils.Files.Search.{Yields-map}

-- The directories of the configuration files, each with what its analysis answers.
abbrev pub analysed_java : FileSystem → List String → List Analysed
analysed_java fs [] = []
analysed_java fs (file ∷ files) =
    (dir file, analyze_java_project fs (dir file) file) ∷ analysed_java fs files

java_projects_of-add_all :
    (fs : FileSystem) (found : List Project) (files : List String)
    → java_projects_of fs found files ≡ add_all found (analysed_java fs files)
unfolding java_projects_of
java_projects_of-add_all fs found [] = refl
java_projects_of-add_all fs found (file ∷ files) =
    java_projects_of-add_all fs
      (add_found (is_subproject (dir file) found) (analyze_java_project fs (dir file) file) found)
      files

analysed_java-IsInPlace :
    (fs : FileSystem) (files : List String) → All IsInPlace (analysed_java fs files)
analysed_java-IsInPlace fs [] = tt
analysed_java-IsInPlace fs (file ∷ files) = (
  Yields-map (IsAt maven (dir file)) (λ p. p.module_path ≡ dir file) _ (λ p h. h.1)
      (analyze_java_project-Yields fs (dir file) file),
  analysed_java-IsInPlace fs files,
)

-- The loop of DiscoverJavaProjects finds projects of which none lies below one that it found before,
-- and every directory that could be analysed is that of one of them or lies below one of them.
pub java_projects_of_lem :
    (fs : FileSystem) (files : List String)
    → IsSeparateFrom [] (java_projects_of fs [] files)
      × AllSettled (java_projects_of fs [] files) (analysed_java fs files)
java_projects_of_lem fs files =
    let same = sym (java_projects_of-add_all fs [] files) in
    let at = analysed_java-IsInPlace fs files in
    let xs = analysed_java fs files in
    (
      subst (IsSeparateFrom []) same (add_all-IsSeparateFrom [] xs at tt),
      subst (λ ps. AllSettled ps xs) same (add_all-AllSettled [] xs at),
    )
