-- ===== src/Discovery/PythonProjects/Covered.antt =====
-- Which of the directories become Python projects.
use engine_ci.Base.{String, List, [], ◌∷◌, ◌≡◌, refl, sym, subst, Dict, All}
use engine_ci.Discovery.Project.{Project, python}
use engine_ci.Discovery.PythonProjects.{
  is_subproject, add_found, python_projects_of, analyze_python_project,
}
use engine_ci.Discovery.PythonProjects.Separate.{
  Analysed, add_all, IsInPlace, IsSeparateFrom, AllSettled, add_all-IsSeparateFrom,
  add_all-AllSettled,
}
use engine_ci.Discovery.Language.{IsAt}
use engine_ci.Discovery.Collection.Found.{analyze_python_project-Yields}
use engine_ci.Utils.Files.{FileSystem}
use engine_ci.Utils.Files.Search.{Yields-map}

-- The directories in the order of a run, each with what its analysis answers.
abbrev pub analysed_python : FileSystem → Dict (List String) → List Analysed
analysed_python fs [] = []
analysed_python fs (entry ∷ dict) =
    (entry.0, analyze_python_project fs entry.0) ∷ analysed_python fs dict

python_projects_of-add_all :
    (fs : FileSystem) (found : List Project) (dict : Dict (List String))
    → python_projects_of fs found dict ≡ add_all found (analysed_python fs dict)
unfolding python_projects_of
python_projects_of-add_all fs found [] = refl
python_projects_of-add_all fs found (entry ∷ dict) =
    python_projects_of-add_all fs
      (add_found (is_subproject entry.0 found) (analyze_python_project fs entry.0) found) dict

analysed_python-IsInPlace :
    (fs : FileSystem) (dict : Dict (List String)) → All IsInPlace (analysed_python fs dict)
analysed_python-IsInPlace fs [] = tt
analysed_python-IsInPlace fs (entry ∷ dict) = (
  Yields-map (IsAt python entry.0) (λ p. p.module_path ≡ entry.0) _ (λ p h. h.1)
      (analyze_python_project-Yields fs entry.0),
  analysed_python-IsInPlace fs dict,
)

-- The loop of DiscoverPythonProjects, over the directories in any order, finds projects of which none
-- lies below one that it found before, and every directory that could be analysed is that of one of
-- them or lies below one of them.
pub python_projects_of_lem :
    (fs : FileSystem) (dict : Dict (List String))
    → IsSeparateFrom [] (python_projects_of fs [] dict)
      × AllSettled (python_projects_of fs [] dict) (analysed_python fs dict)
python_projects_of_lem fs dict =
    let same = sym (python_projects_of-add_all fs [] dict) in
    let at = analysed_python-IsInPlace fs dict in
    let xs = analysed_python fs dict in
    (
      subst (IsSeparateFrom []) same (add_all-IsSeparateFrom [] xs at tt),
      subst (λ ps. AllSettled ps xs) same (add_all-AllSettled [] xs at),
    )
