-- ===== src/Discovery/Language.antt =====
-- Projects of one language, and searches for files that always go on.
use engine_ci.Base.{String, List, [], ◌≡◌, All}
use engine_ci.Container.Action.{Outcome}
use engine_ci.Discovery.Project.{Project, ProtoBuildType}
use engine_ci.Utils.Files.{FileSystem, find_files, in_context, or_else}
use engine_ci.Utils.Files.Search.{
  Yields, Yields-in_context, Yields-or_else, Anything, find_files-Yields,
}

-- A project of one language.
abbrev pub IsOf : ProtoBuildType → Project → Type 0
IsOf t p = p.build_type ≡ t

-- A project of one language in a given directory.
abbrev pub IsAt : ProtoBuildType → String → Project → Type 0
IsAt t path p = (p.build_type ≡ t) × (p.module_path ≡ path)

abbrev pub YieldsAll : ProtoBuildType → Outcome (List Project) → Type 0
YieldsAll t = Yields (All (IsOf t))

pub found_or :
    (context : String) (fs : FileSystem) (name root suffix : String)
    → Yields Anything (in_context context (find_files fs name root suffix))
found_or context fs name root suffix =
    Yields-in_context Anything context _ (find_files-Yields fs name root suffix)

-- A search whose failure counts as finding nothing.
pub found_some :
    (fs : FileSystem) (name root suffix : String)
    → Yields Anything (or_else [] (find_files fs name root suffix))
found_some fs name root suffix =
    Yields-or_else Anything [] _ tt (find_files-Yields fs name root suffix)
