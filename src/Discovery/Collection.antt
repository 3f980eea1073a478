-- ===== src/Discovery/Collection.antt =====
-- pkg/autodiscovery/discovery.go: the projects of all languages, and the groups of builds for them.
pub mod Groups
pub mod Found
pub mod Generated
use engine_ci.Base.{
  String, ◌⧺◌, Bool, true, false, List, [], ◌∷◌, ◌++◌, if◌then◌else◌, Dict, eqb, length,
}
use engine_ci.Container.Action.{Outcome, returned, failed, exited, panicked}
use engine_ci.Container.Build.{Build, Host, set_defaults}
use engine_ci.Discovery.Project.{
  Project, ProjectCollection, all_projects, is_empty, to_build, go_project_to_build,
}
use engine_ci.Discovery.GoProjects.{discover_go_projects}
use engine_ci.Discovery.PythonProjects.{discover_python_projects}
use engine_ci.Discovery.JavaProjects.{discover_java_projects}
use engine_ci.Utils.Files.{FileSystem, in_context, ◌>>=◌, or_else}

pub record LanguageFilter : Type 0 where
  pub go : Bool
  pub python : Bool
  pub java : Bool

-- `AllLanguages` and `OnlyGo`
abbrev pub all_languages : LanguageFilter
all_languages = record { go = true; python = true; java = true }

abbrev pub only_go : LanguageFilter
only_go = record { go = true; python = false; java = false }

abbrev if_wanted : Bool → Outcome (List Project) → Outcome (List Project)
if_wanted wanted found = if wanted then or_else [] found else returned []

-- `convertGoProjectsToCollection`
unfoldable pub convert_go_projects_to_collection : List Project → ProjectCollection
convert_go_projects_to_collection projects = record {
  go_projects = projects;
  python_projects = [];
  java_projects = [];
}

module _ (fs : FileSystem) (order : Dict (List String) → Dict (List String)) where
  -- `DiscoverAllProjects`: a language whose search fails is left out.
  unfoldable pub discover_all_projects : LanguageFilter → String → Outcome ProjectCollection
  unfolding discover_go_projects discover_python_projects discover_java_projects
  discover_all_projects filter root = if_wanted filter.go (discover_go_projects fs root) >>= λ gos.
      if_wanted filter.python (discover_python_projects fs order root) >>= λ pythons.
      if_wanted filter.java (discover_java_projects fs root) >>= λ javas.
      returned (record { go_projects = gos; python_projects = pythons; java_projects = javas })

  -- `DiscoverProjects`
  unfoldable pub discover_projects : String → Outcome ProjectCollection
  unfolding discover_all_projects
  discover_projects root = discover_all_projects all_languages root

  -- `DiscoverProjectsWithFilter`
  unfoldable pub discover_projects_with_filter : String → LanguageFilter → Outcome ProjectCollection
  unfolding discover_all_projects
  discover_projects_with_filter root filter = discover_all_projects filter root

module _ (h : Host) (fs : FileSystem) where
  -- One group of one build for each project, with a conversion given.
  unfoldable pub groups_of : (Project → Outcome Build) → List Project → Outcome (List (List Build))
  unfolding set_defaults
  groups_of convert [] = returned []
  groups_of convert (p ∷ ps) =
      let rest = groups_of convert ps in
      convert p >>= λ b. rest >>= λ groups. returned ((set_defaults h b ∷ []) ∷ groups)

  -- `GenerateBuildGroupsFromCollection`
  unfoldable pub generate_build_groups_from_collection :
      ProjectCollection → Outcome (List (List Build))
  unfolding groups_of to_build all_projects
  generate_build_groups_from_collection c = groups_of (to_build fs) (all_projects c)

  -- `GenerateBuildGroups`
  unfoldable pub generate_build_groups : List Project → Outcome (List (List Build))
  unfolding groups_of go_project_to_build
  generate_build_groups projects = groups_of (go_project_to_build fs) projects

  -- `DiscoverAndGenerateBuildGroups`
  unfoldable pub discover_and_generate_build_groups : String → Outcome (List (List Build))
  unfolding discover_go_projects generate_build_groups
  discover_and_generate_build_groups root =
      in_context "failed to discover Go projects" (discover_go_projects fs root) >>= λ projects.
      if eqb (length projects) 0
      then failed ("no Go projects found in " ⧺ root)
      else generate_build_groups projects

  -- `DiscoverGoProjectsAndGenerateBuildGroups`
  unfoldable pub discover_go_projects_and_generate_build_groups :
      String → Outcome (List (List Build))
  unfolding discover_and_generate_build_groups
  discover_go_projects_and_generate_build_groups root = discover_and_generate_build_groups root

  unfoldable pub groups_or_empty : String → Outcome ProjectCollection → Outcome (List (List Build))
  unfolding is_empty generate_build_groups_from_collection
  groups_or_empty root found = in_context "failed to discover projects" found >>= λ c.
      if is_empty c
      then failed ("no projects found in " ⧺ root)
      else generate_build_groups_from_collection c

  module _ (order : Dict (List String) → Dict (List String)) where
    -- `DiscoverAndGenerateBuildGroupsMultiLang`
    unfoldable pub discover_and_generate_multi_lang : String → Outcome (List (List Build))
    unfolding groups_or_empty discover_projects
    discover_and_generate_multi_lang root = groups_or_empty root (discover_projects fs order root)

    -- `DiscoverAndGenerateBuildGroupsWithFilter`
    unfoldable pub discover_and_generate_with_filter :
        String → LanguageFilter → Outcome (List (List Build))
    unfolding groups_or_empty discover_projects_with_filter
    discover_and_generate_with_filter root filter =
        groups_or_empty root (discover_projects_with_filter fs order root filter)
