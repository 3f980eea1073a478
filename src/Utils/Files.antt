-- ===== src/Utils/Files.antt =====
-- pkg/filesystem/file.go over a file system that is a parameter. An operation here ends as one of
-- Container/Action does: with a value, an error, the end of the process, or a panic.
pub mod Search
use engine_ci.Base.{
  String, ◌⧺◌, Bool, true, false, ◌&&◌, not, Option, none, some, List, [], ◌∷◌, ◌==◌, if◌then◌else◌,
  strip_suffix?, Dict, lookup, insert,
}
use engine_ci.Container.Action.{Outcome, returned, failed, exited, panicked}

infixl 5 ◌>>=◌
abbrev pub ◌>>=◌ : {A B : Type 0} → Outcome A → (A → Outcome B) → Outcome B
returned a >>= f = f a
failed e >>= f = failed e
exited n >>= f = exited n
panicked >>= f = panicked

module _ {A : Type 0} where
  -- `fmt.Errorf("context: %w", err)`
  abbrev pub in_context : String → Outcome A → Outcome A
  in_context context (returned a) = returned a
  in_context context (failed e) = failed (context ⧺ ": " ⧺ e)
  in_context context (exited n) = exited n
  in_context context panicked = panicked

  -- `if err != nil { os.Exit(1) }`
  abbrev pub or_exit : Outcome A → Outcome A
  or_exit (returned a) = returned a
  or_exit (failed e) = exited 1
  or_exit (exited n) = exited n
  or_exit panicked = panicked

  -- A value that takes the place of one that an error left out.
  abbrev pub or_else : A → Outcome A → Outcome A
  or_else other (returned a) = returned a
  or_else other (failed e) = returned other
  or_else other (exited n) = exited n
  or_else other panicked = panicked

-- What `filepath.Walk` hands to its function for one file or directory, in lexical order.
pub record Visited : Type 0 where
  pub path : String
  pub name : String
  pub is_dir : Bool
  pub walk_error : Option String

-- A file read through a `bufio.Scanner`: its lines, and the error that ended the scan, if any.
pub record Scanned : Type 0 where
  pub lines : List String
  pub scan_error : Option String

-- What `os.Open` answers.
pub data Opened : Type 0 where
  opened : Scanned → Opened
  not_opened : String → Opened

-- `working_dir` is none if `os.Getwd` fails; `env` is the process environment; `write` answers the
-- error of `os.WriteFile` of the given results as YAML, if any.
pub record FileSystem : Type 0 where
  pub open_file : String → Opened
  pub walk : String → List Visited
  pub working_dir : Option String
  pub env : String → String
  pub temp_dir : String
  pub write : String → Dict (List String) → Option String

-- `FileCache`; a result repeats its key as the query.
pub record FileCache : Type 0 where
  pub file_results : Dict (List String)
  pub file_name : String
  pub cache : Bool

-- `NewFileCache`, whose caches are off.
unfoldable pub new_file_cache : FileSystem → String → FileCache
new_file_cache fs name = record { file_results = []; file_name = fs.temp_dir ⧺ name; cache = false }

unfoldable pub has_suffix : String → String → Bool
unfolding strip_suffix?
has_suffix s suffix = elim (strip_suffix? suffix s) [ none ↦ false | some front ↦ true ]

-- The walk of `FindFilesBySuffix`, which the first error ends.
unfoldable pub collect_files : String → List Visited → Outcome (List String)
unfolding has_suffix
collect_files suffix [] = returned []
collect_files suffix (v ∷ vs) =
    let rest = collect_files suffix vs in
    elim v.walk_error [
      | some e ↦ failed e
      | none ↦ rest >>= λ files.
          returned (if not v.is_dir && has_suffix v.name suffix then v.path ∷ files else files)
    ]

-- `SaveResultsAsYAML`
unfoldable pub save_results :
    FileSystem → FileCache → String → List String → Outcome (Unit {0}) × FileCache
unfolding insert
save_results fs fc suffix files =
    let saved = record fc { file_results = insert suffix files fc.file_results } in
    elim (fs.write fc.file_name saved.file_results) [
      | some e ↦ (failed e, saved)
      | none ↦ (returned tt, saved)
    ]

abbrev with_saved : List String → Outcome (Unit {0}) × FileCache → Outcome (List String) × FileCache
with_saved files (o, fc) = (o >>= λ _. returned files, fc)

-- What a walk has found is saved if the cache is on.
unfoldable pub or_save :
    FileSystem → FileCache → String → Outcome (List String) → Outcome (List String) × FileCache
unfolding save_results
or_save fs fc suffix (returned files) =
    if fc.cache then with_saved files (save_results fs fc suffix files) else (returned files, fc)
or_save fs fc suffix (failed e) = (failed e, fc)
or_save fs fc suffix (exited n) = (exited n, fc)
or_save fs fc suffix panicked = (panicked, fc)

-- `FindFilesBySuffix`
unfoldable pub find_files_by_suffix :
    FileSystem → FileCache → String → String → Outcome (List String) × FileCache
unfolding lookup collect_files or_save
find_files_by_suffix fs fc root suffix = elim (lookup suffix fc.file_results) [
  | some paths ↦ (returned paths, fc)
  | none ↦ or_save fs fc suffix (collect_files suffix (fs.walk root))
]

-- A search through a cache that was made for it.
unfoldable pub find_files : FileSystem → String → String → String → Outcome (List String)
unfolding find_files_by_suffix new_file_cache
find_files fs name root suffix = (find_files_by_suffix fs (new_file_cache fs name) root suffix).0
