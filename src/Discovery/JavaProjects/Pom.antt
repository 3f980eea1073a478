-- ===== src/Discovery/JavaProjects/Pom.antt =====
-- Which line of a pom.xml names the application.
use engine_ci.Base.{
  String, Bool, true, false, ◌||◌, List, [], ◌∷◌, ◌++◌, ◌==◌, ◌≡◌, ◌≢◌, refl, ap, ◌∙◌, All, arith,
  trim_space, has_prefix, if◌then◌else◌, eq_iff, none, not,
}
use engine_ci.Container.Action.{returned}
use engine_ci.Discovery.JavaProjects.{artifact_of, pom_name, parse_pom_xml}
use engine_ci.Utils.Files.{FileSystem, opened}

-- A line that opens the project.
abbrev pub opens_project : String → Bool
opens_project line = has_prefix (trim_space line) "<project"

-- A line without a name, which the scan passes over.
abbrev pub IsNameless : String → Type 0
IsNameless line = (opens_project line || artifact_of (trim_space line) == "") ≡ true

pom_name-nameless :
    (name : String) (in_project : Bool) (lines : List String)
    → All IsNameless lines
    → pom_name name in_project lines ≡ name
unfolding pom_name
pom_name-nameless name b [] h = refl
pom_name-nameless name b (l ∷ ls) h =
    ap (λ n. pom_name n (opens_project l || b) ls) (ground (arith, h.0))
    ∙ pom_name-nameless name (opens_project l || b) ls h.1

-- Some line opens the project.
abbrev pub some_opens : List String → Bool
some_opens [] = false
some_opens (l ∷ ls) = opens_project l || some_opens ls

pom_name-last :
    (name : String) (in_project : Bool) (before : List String) (line : String) (after : List String)
    → (in_project || some_opens before) ≡ true
    → opens_project line ≡ false
    → artifact_of (trim_space line) ≢ ""
    → All IsNameless after
    → pom_name name in_project (before ++ line ∷ after) ≡ artifact_of (trim_space line)
unfolding pom_name
pom_name-last name b [] line after t o ne h =
    ap (λ n. pom_name n (opens_project line || b) after)
      (ground (arith, eq_iff (artifact_of (trim_space line)) ""))
    ∙ pom_name-nameless _ (opens_project line || b) after h
pom_name-last name b (x ∷ xs) line after t o ne h =
    pom_name-last
      (if opens_project x || (not b || artifact_of (trim_space x) == "")
        then name
        else artifact_of (trim_space x))
      (opens_project x || b) xs line after (ground arith) o ne h

-- In a pom.xml that can be read to its end, the last line that gives an artifact identifier behind a
-- line that opens the project names the application, whatever else stands before it.
pub parse_pom_xml-last :
    (fs : FileSystem) (path : String) (before : List String) (line : String) (after : List String)
    → fs.open_file path ≡ opened (record { lines = before ++ line ∷ after; scan_error = none })
    → some_opens before ≡ true
    → opens_project line ≡ false
    → artifact_of (trim_space line) ≢ ""
    → All IsNameless after
    → parse_pom_xml fs path ≡ returned (artifact_of (trim_space line))
unfolding parse_pom_xml
parse_pom_xml-last fs path before line after e t o ne h =
    ground (arith, e, pom_name-last "" false before line after t o ne h)
