-- ===== src/Discovery/GoProjects/Ended.antt =====
-- The search for Go modules ends with Go projects or an error.
use engine_ci.Base.{
  String, Bool, true, false, List, [], ◌∷◌, ◌==◌, refl, All, inl, inr, Bool-cases, if◌then◌else◌,
  dir, arith,
}
use engine_ci.Container.Action.{Outcome, returned}
use engine_ci.Discovery.Project.{go_lang}
use engine_ci.Discovery.GoProjects.{
  discover_go_projects, go_projects_of, analyze_go_project, parse_go_mod, has_main_package,
  is_main_package_file, is_own_folder,
}
use engine_ci.Utils.Files.{FileSystem}
use engine_ci.Utils.Files.Search.{
  Yields, Yields-bind, Yields-in_context, Yields-or_else, Anything, find_files-Yields,
}
use engine_ci.Discovery.Language.{IsOf, YieldsAll, found_or}

parse_go_mod-Yields : (fs : FileSystem) (path : String) → Yields Anything (parse_go_mod fs path)
unfolding parse_go_mod
parse_go_mod-Yields fs path = ground arith

is_main_package_file-Yields :
    (fs : FileSystem) (path : String) → Yields Anything (is_main_package_file fs path)
unfolding is_main_package_file
is_main_package_file-Yields fs path = ground arith

if_main :
    {A : Type 0} (b : Bool) (a : A) (o : Outcome A)
    → Yields Anything o
    → Yields Anything (if b then returned a else o)
if_main true a o h = tt
if_main false a o h = h

has_main_package-Yields :
    (fs : FileSystem) (path : String) (files : List String)
    → Yields Anything (has_main_package fs path files)
unfolding has_main_package
has_main_package-Yields fs path [] = tt
has_main_package-Yields fs path (file ∷ files) =
    let rest = has_main_package-Yields fs path files in
    elim (Bool-cases (dir file == path)) [
      | inl e ↦ rw e (
          Yields-bind Anything Anything _ _
            (Yields-in_context Anything _ _ (is_main_package_file-Yields fs file))
            (λ b h. if_main b _ _ rest))
      | inr e ↦ rw e rest
    ]

analyze_go_project-Yields :
    (fs : FileSystem) (path : String) → Yields (IsOf go_lang) (analyze_go_project fs path)
unfolding analyze_go_project
analyze_go_project-Yields fs path =
    Yields-bind Anything (IsOf go_lang) _ _
      (Yields-in_context Anything _ _ (parse_go_mod-Yields fs path))
      (λ name h.
        Yields-bind Anything (IsOf go_lang) _ _
          (found_or "failed to find .go files" fs "go_files_cache.yaml" (dir path) ".go")
          (λ gos h.
            Yields-bind Anything (IsOf go_lang) _ _
              (Yields-or_else Anything [] _ tt
                (find_files-Yields fs "go_files_cache.yaml" (dir path) ".proto"))
              (λ protos h.
                Yields-bind Anything (IsOf go_lang) _ _
                  (Yields-in_context Anything _ _ (has_main_package-Yields fs (dir path) gos))
                  (λ main h. refl))))

go_projects_of-Yields :
    (fs : FileSystem) (root : String) (paths : List String)
    → YieldsAll go_lang (go_projects_of fs root paths)
unfolding go_projects_of
go_projects_of-Yields fs root [] = tt
go_projects_of-Yields fs root (path ∷ paths) =
    let rest = go_projects_of-Yields fs root paths in
    elim (Bool-cases (is_own_folder root (dir path))) [
      | inl e ↦ rw e rest
      | inr e ↦ rw e (
          Yields-bind (IsOf go_lang) (All (IsOf go_lang)) _ _
            (Yields-in_context (IsOf go_lang) _ _ (analyze_go_project-Yields fs path))
            (λ p h.
              Yields-bind (All (IsOf go_lang)) (All (IsOf go_lang)) _ _ rest (λ ps hs. (h, hs))))
    ]

pub discover_go-Yields :
    (fs : FileSystem) (root : String) → YieldsAll go_lang (discover_go_projects fs root)
unfolding discover_go_projects
discover_go-Yields fs root =
    Yields-bind Anything (All (IsOf go_lang)) _ _
      (found_or "failed to find go.mod files" fs "go_mod_cache.yaml" root "go.mod")
      (λ paths h. go_projects_of-Yields fs root paths)
