-- ===== src/Base/Paths.antt =====
-- Go's path/filepath on Unix: `Clean`, `Dir`, `Base` and `Rel`.
use Prim.Native.Char.{code}
use Prim.Native.String.{String}
use mathlib.Core.Bool.{Bool, true, false}
use mathlib.Core.Option.{Option, none, some}
use mathlib.Core.List.{List, [], ◌∷◌, ◌++◌}
use text.Mathlib.Text.{◌==◌}
use engine_ci.Base.Tests.{eqb, if◌then◌else◌}
use engine_ci.Base.Texts.{◌⧺◌, split, join}
use engine_ci.Base.Cuts.{cut_last, has_prefix}
use engine_ci.Base.Spaces.{trim_right}

-- `filepath.IsAbs`
unfoldable pub is_abs : String → Bool
unfolding has_prefix
is_abs path = has_prefix path "/"

-- One `..` against the names kept so far, of which the last comes first.
unfoldable pub go_up : Bool → List String → List String
go_up rooted [] = if rooted then [] else ".." ∷ []
go_up rooted (p ∷ ps) = if p == ".." then ".." ∷ p ∷ ps else ps

-- The names of a path after `Clean`, given those kept so far, of which the last comes first.
unfoldable pub clean_names : Bool → List String → List String → List String
unfolding go_up
clean_names rooted kept [] = kept
clean_names rooted kept (p ∷ ps) =
    let next =
      if p == ""
      then kept
      else if p == "."
      then kept
      else if p == ".."
      then go_up rooted kept
      else p ∷ kept in
    clean_names rooted next ps

abbrev reverse_onto : List String → List String → List String
reverse_onto acc [] = acc
reverse_onto acc (x ∷ xs) = reverse_onto (x ∷ acc) xs

-- The names of a path, in order.
unfoldable pub names_of : String → List String
unfolding clean_names is_abs split
names_of path = reverse_onto [] (clean_names (is_abs path) [] (split b'/' path))

abbrev pub path_of : Bool → List String → String
path_of true names = "/" ⧺ join "/" names
path_of false [] = "."
path_of false (n ∷ ns) = join "/" (n ∷ ns)

-- `filepath.Clean`
unfoldable pub clean : String → String
unfolding names_of is_abs join
clean path = path_of (is_abs path) (names_of path)

-- `filepath.Dir`
unfoldable pub dir : String → String
unfolding clean cut_last
dir path = elim (cut_last b'/' path) [ none ↦ "." | some (front, name) ↦ clean (front ⧺ "/") ]

abbrev slash_or : String → String
slash_or name = if name == "" then "/" else name

-- `filepath.Base`
unfoldable pub base : String → String
unfolding cut_last trim_right
base path =
    if path == ""
    then "."
    else (let stripped = trim_right (λ c. eqb (code c) b'/') path in
        elim (cut_last b'/' stripped) [
          | none ↦ slash_or stripped
          | some (front, name) ↦ slash_or name
        ])

abbrev ups : List String → List String
ups [] = []
ups (x ∷ xs) = ".." ∷ ups xs

-- The steps from one list of names to another.
unfoldable pub rel_names : List String → List String → Option (List String)
rel_names [] ts = some ts
rel_names (b ∷ bs) [] = some (ups (b ∷ bs))
rel_names (b ∷ bs) (t ∷ ts) =
    let behind = rel_names bs ts in
    if b == t then behind else if b == ".." then none else some (ups (b ∷ bs) ++ t ∷ ts)

-- `filepath.Rel`; none is its error.
unfoldable pub rel : String → String → Option String
unfolding clean names_of rel_names is_abs join
rel from to =
    if clean to == clean from
    then some "."
    else if clean from == "."
    then (if is_abs to then none else some (clean to))
    else elim (is_abs from) [
      | true ↦
          if is_abs to
          then elim (rel_names (names_of from) (names_of to)) [
            | none ↦ none
            | some names ↦ some (join "/" names)
          ]
          else none
      | false ↦
          if is_abs to
          then none
          else elim (rel_names (names_of from)
              (if clean to == "." then "." ∷ [] else names_of to)) [
                | none ↦ none
                | some names ↦ some (join "/" names)
              ]
    ]

-- `filepath.Abs`, given the working directory; none if that cannot be found.
unfoldable pub abs : Option String → String → Option String
unfolding clean is_abs
abs wd path = elim (is_abs path) [
  | true ↦ some (clean path)
  | false ↦ elim wd [
    | none ↦ none
    | some d ↦ some (clean (if path == "" then d else d ⧺ "/" ⧺ path))
  ]
]
