-- ===== src/Discovery/Collection/Generated.antt =====
-- From the file system to the groups of builds.
use engine_ci.Base.{
  String, Bool, true, false, List, [], ◌∷◌, ◌++◌, ◌≡◌, ◌≢◌, refl, All, All-append, arith, Dict, ◌⧺◌,
  inl, inr, eqb, length, ◌⊎◌, ◌&&◌,
}
use engine_ci.Container.Action.{returned, failed}
use engine_ci.Container.Build.{Build, Host}
use engine_ci.Discovery.Project.{
  Project, ProtoBuildType, go_lang, maven, python, ProjectCollection, all_projects, is_empty,
}
use engine_ci.Discovery.Collection.{
  LanguageFilter, generate_build_groups_from_collection, groups_or_empty,
  discover_projects_with_filter, discover_and_generate_with_filter,
}
use engine_ci.Discovery.Collection.Groups.{
  HasLanguage, AreGroupsFor, groups_of-returns, IsSupported, supports_go, supports_maven,
  supports_python,
}
use engine_ci.Discovery.Language.{IsOf}
use engine_ci.Discovery.Collection.Found.{IsSorted, discover_all_projects-IsSorted}
use engine_ci.Utils.Files.{FileSystem, find_files}

IsOf-HasLanguage :
    (t : ProtoBuildType) (name : String)
    → IsSupported t name
    → (ps : List Project) → All (IsOf t) ps
    → All HasLanguage ps
IsOf-HasLanguage t name s [] h = tt
IsOf-HasLanguage t name s (p ∷ ps) h = ((name, rw h.0 s), IsOf-HasLanguage t name s ps h.1)

IsSorted-HasLanguage : (c : ProjectCollection) → IsSorted c → All HasLanguage (all_projects c)
unfolding all_projects
IsSorted-HasLanguage c s =
    All-append HasLanguage c.go_projects _
      (IsOf-HasLanguage go_lang "GoLang" supports_go c.go_projects s.go)
      (All-append HasLanguage c.python_projects c.java_projects
        (IsOf-HasLanguage python "Python" supports_python c.python_projects s.python)
        (IsOf-HasLanguage maven "Maven" supports_maven c.java_projects s.java))

abbrev none_of : List Project → List Project → List Project → Bool
none_of xs ys zs = eqb (length xs) 0 && (eqb (length ys) 0 && eqb (length zs) 0)

none_cases :
    (xs ys zs : List Project)
    → ((none_of xs ys zs ≡ true) × (xs ++ (ys ++ zs) ≡ []))
      ⊎ ((none_of xs ys zs ≡ false) × (xs ++ (ys ++ zs) ≢ []))
none_cases [] [] [] = inl (ground arith, refl)
none_cases [] [] (z ∷ zs) = inr (ground arith, λ e. cc)
none_cases [] (y ∷ ys) zs = inr (ground arith, λ e. cc)
none_cases (x ∷ xs) ys zs = inr (ground arith, λ e. cc)

-- Whether nothing was found.
is_empty_cases :
    (c : ProjectCollection)
    → ((is_empty c ≡ true) × (all_projects c ≡ [])) ⊎ ((is_empty c ≡ false) × (all_projects c ≢ []))
unfolding is_empty all_projects
is_empty_cases c = none_cases c.go_projects c.python_projects c.java_projects

-- The search of DiscoverAndGenerateBuildGroupsWithFilter always ends with a collection of projects.
-- If NewServiceBuild can find the protobuf files, the function then answers an error exactly if no
-- project was found, and otherwise one group for each project, in the order of AllProjects, with one
-- build: named after the project, with its language and its builder function, in its directory, with
-- an image exactly if the project is a service, and with all defaults set.
pub discover_and_generate_lem :
    (h : Host) (fs : FileSystem) (protos : List String)
    (order : Dict (List String) → Dict (List String)) (root : String) (filter : LanguageFilter)
    → find_files fs "file_cache.yaml" "." ".proto" ≡ returned protos
    → (c : ProjectCollection) × (discover_projects_with_filter fs order root filter ≡ returned c)
      × (((all_projects c ≡ [])
            × (discover_and_generate_with_filter h fs order root filter
                ≡ failed ("no projects found in " ⧺ root)))
          ⊎ ((all_projects c ≢ [])
              × (gs : List (List Build)) × (discover_and_generate_with_filter h fs order root filter
                  ≡ returned gs)
              × AreGroupsFor (all_projects c) gs))
unfolding discover_and_generate_with_filter discover_projects_with_filter groups_or_empty
    generate_build_groups_from_collection
discover_and_generate_lem h fs protos order root filter found =
    let (c, e, s) = discover_all_projects-IsSorted fs order filter root in
    (
      c,
      e,
      elim (is_empty_cases c) [
        | inl (t, none) ↦ inl (none, rw (e, t) refl)
        | inr (t, ne) ↦
            let (gs, eg, k) =
              groups_of-returns h fs protos (all_projects c) (IsSorted-HasLanguage c s) found in
            inr (ne, gs, rw (e, t) eg, k)
      ],
    )
