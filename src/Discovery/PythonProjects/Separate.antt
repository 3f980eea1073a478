-- ===== src/Discovery/PythonProjects/Separate.antt =====
-- Which of the directories become projects: what the searches for Python and Java share.
use engine_ci.Base.{
  String, Bool, true, false, ◌||◌, List, [], ◌∷◌, ◌++◌, ◌≡◌, refl, sym, ap, ◌∙◌, subst, arith, All,
  inl, inr, Bool-cases, eq_refl, append-nil, append_assoc, contains, contains-append,
}
use engine_ci.Container.Action.{Outcome, returned, failed, exited, panicked}
use engine_ci.Discovery.Project.{Project}
use engine_ci.Discovery.PythonProjects.{is_subproject, add_found}
use engine_ci.Utils.Files.Search.{Yields}

-- No project lies below one that was found before it.
abbrev pub IsSeparateFrom : List Project → List Project → Type 0
IsSeparateFrom seen [] = Unit
IsSeparateFrom seen (p ∷ ps) =
    (is_subproject p.module_path seen ≡ false) × IsSeparateFrom (seen ++ p ∷ []) ps

IsSeparateFrom-snoc :
    (seen ps : List Project) (p : Project)
    → IsSeparateFrom seen ps
    → is_subproject p.module_path (seen ++ ps) ≡ false
    → IsSeparateFrom seen (ps ++ p ∷ [])
IsSeparateFrom-snoc seen [] p h e =
    (ap (is_subproject p.module_path) (sym (append-nil seen)) ∙ e, tt)
IsSeparateFrom-snoc seen (q ∷ qs) p h e = (
  h.0,
  IsSeparateFrom-snoc (seen ++ q ∷ []) qs p h.1
      (ap (is_subproject p.module_path) (append_assoc seen (q ∷ []) qs) ∙ e),
)

add_found-IsSeparateFrom :
    (path : String) (o : Outcome Project) (found : List Project)
    → Yields (λ p. p.module_path ≡ path) o
    → IsSeparateFrom [] found
    → IsSeparateFrom [] (add_found (is_subproject path found) o found)
add_found-IsSeparateFrom path (returned p) found e h =
    elim (Bool-cases (is_subproject path found)) [
      | inl b ↦ rw b h
      | inr b ↦ rw b (IsSeparateFrom-snoc [] found p h (ap (λ s. is_subproject s found) e ∙ b))
    ]
add_found-IsSeparateFrom path (failed e) found k h = h
add_found-IsSeparateFrom path (exited n) found k h = h
add_found-IsSeparateFrom path panicked found k h = h

abbrev pub paths_of : List Project → List String
paths_of [] = []
paths_of (p ∷ ps) = p.module_path ∷ paths_of ps

paths_of-append : (ps qs : List Project) → paths_of (ps ++ qs) ≡ paths_of ps ++ paths_of qs
paths_of-append [] qs = refl
paths_of-append (p ∷ ps) qs = ap (◌∷◌ p.module_path) (paths_of-append ps qs)

-- Whether a directory is that of a project, or lies below one.
abbrev pub is_covered : List Project → String → Bool
is_covered ps path = contains (paths_of ps) path || is_subproject path ps

is_subproject-append :
    (path : String) (ps qs : List Project)
    → is_subproject path (ps ++ qs) ≡ (is_subproject path ps || is_subproject path qs)
unfolding is_subproject
is_subproject-append path [] qs = refl
is_subproject-append path (p ∷ ps) qs = ground (arith, is_subproject-append path ps qs)

is_covered-append :
    (path : String) (ps qs : List Project)
    → is_covered (ps ++ qs) path ≡ (is_covered ps path || is_covered qs path)
is_covered-append path ps qs =
    rw (paths_of-append ps qs, contains-append, is_subproject-append path ps qs) (ground arith)

-- A directory that could be analysed is covered; the others are left out.
abbrev pub IsSettled : List Project → String → Outcome Project → Type 0
IsSettled ps path (returned p) = is_covered ps path ≡ true
IsSettled ps path (failed e) = Unit
IsSettled ps path (exited n) = Unit
IsSettled ps path panicked = Unit

add_found-IsSettled :
    (path : String) (o : Outcome Project) (found : List Project)
    → Yields (λ p. p.module_path ≡ path) o
    → IsSettled (add_found (is_subproject path found) o found) path o
add_found-IsSettled path (returned p) found e = elim (Bool-cases (is_subproject path found)) [
  | inl b ↦ rw b (ground arith)
  | inr b ↦ rw (b, is_covered-append path found (p ∷ []), e, eq_refl path) (ground arith)
]
add_found-IsSettled path (failed e) found k = tt
add_found-IsSettled path (exited n) found k = tt
add_found-IsSettled path panicked found k = tt

IsSettled-append :
    (path : String) (o : Outcome Project) (ps qs : List Project)
    → IsSettled ps path o
    → IsSettled (ps ++ qs) path o
IsSettled-append path (returned p) ps qs h = rw (is_covered-append path ps qs, h) (ground arith)
IsSettled-append path (failed e) ps qs h = tt
IsSettled-append path (exited n) ps qs h = tt
IsSettled-append path panicked ps qs h = tt

-- Both searches go through analysed directories in this way.
abbrev pub Analysed : Type 0
Analysed = String × Outcome Project

abbrev pub add_all : List Project → List Analysed → List Project
add_all found [] = found
add_all found (x ∷ xs) = add_all (add_found (is_subproject x.0 found) x.1 found) xs

abbrev pub IsInPlace : Analysed → Type 0
IsInPlace x = Yields (λ p. p.module_path ≡ x.0) x.1

pub add_all-IsSeparateFrom :
    (found : List Project) (xs : List Analysed)
    → All IsInPlace xs
    → IsSeparateFrom [] found
    → IsSeparateFrom [] (add_all found xs)
add_all-IsSeparateFrom found [] h k = k
add_all-IsSeparateFrom found (x ∷ xs) h k =
    add_all-IsSeparateFrom (add_found (is_subproject x.0 found) x.1 found) xs h.1
      (add_found-IsSeparateFrom x.0 x.1 found h.0 k)

add_found-extends :
    (out : Bool) (o : Outcome Project) (found : List Project)
    → (more : List Project) × (add_found out o found ≡ found ++ more)
add_found-extends true (returned p) found = ([], sym (append-nil found))
add_found-extends false (returned p) found = (p ∷ [], refl)
add_found-extends out (failed e) found = ([], sym (append-nil found))
add_found-extends out (exited n) found = ([], sym (append-nil found))
add_found-extends out panicked found = ([], sym (append-nil found))

add_all-extends :
    (found : List Project) (xs : List Analysed)
    → (more : List Project) × (add_all found xs ≡ found ++ more)
add_all-extends found [] = ([], sym (append-nil found))
add_all-extends found (x ∷ xs) =
    let (new, e) = add_found-extends (is_subproject x.0 found) x.1 found in
    let (more, k) = add_all-extends (add_found (is_subproject x.0 found) x.1 found) xs in
    (new ++ more, k ∙ ap (λ ps. ps ++ more) e ∙ append_assoc found new more)

abbrev pub AllSettled : List Project → List Analysed → Type 0
AllSettled ps = All (λ x. IsSettled ps x.0 x.1)

pub add_all-AllSettled :
    (found : List Project) (xs : List Analysed)
    → All IsInPlace xs
    → AllSettled (add_all found xs) xs
add_all-AllSettled found [] h = tt
add_all-AllSettled found (x ∷ xs) h =
    let now = add_found (is_subproject x.0 found) x.1 found in
    let (more, e) = add_all-extends now xs in
    (
      subst (λ ps. IsSettled ps x.0 x.1) (sym e)
          (IsSettled-append x.0 x.1 now more (add_found-IsSettled x.0 x.1 found h.0)),
      add_all-AllSettled now xs h.1,
    )
