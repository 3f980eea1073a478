-- ===== src/Utils/Files/Search.antt =====
-- What a search for files ends with.
use engine_ci.Base.{String, List, [], ◌∷◌, Option-cases, inl, inr, ◌≡◌, refl, subst, sym}
use engine_ci.Container.Action.{Outcome, returned, failed, exited, panicked}
use engine_ci.Utils.Files.{
  Visited, FileSystem, collect_files, find_files, or_save, new_file_cache, ◌>>=◌, in_context,
  or_else,
}

-- An outcome with which the process goes on: an error, or a value that satisfies a predicate.
abbrev pub Yields : {A : Type 0} → (A → Type 0) → Outcome A → Type 0
Yields P (returned a) = P a
Yields P (failed e) = Unit
Yields P (exited n) = ⊥
Yields P panicked = ⊥

module _ {A B : Type 0} (P : A → Type 0) (Q : B → Type 0) where
  pub Yields-bind :
      (o : Outcome A) (f : A → Outcome B)
      → Yields P o
      → ((a : A) → P a → Yields Q (f a))
      → Yields Q (o >>= f)
  Yields-bind (returned a) f h k = k a h
  Yields-bind (failed e) f h k = tt
  Yields-bind (exited n) f h k = h
  Yields-bind panicked f h k = h

module _ {A : Type 0} (P : A → Type 0) where
  pub Yields-in_context :
      (context : String) (o : Outcome A) → Yields P o → Yields P (in_context context o)
  Yields-in_context context (returned a) h = h
  Yields-in_context context (failed e) h = tt
  Yields-in_context context (exited n) h = h
  Yields-in_context context panicked h = h

  pub Yields-or_else :
      (other : A) (o : Outcome A) → P other → Yields P o → Yields P (or_else other o)
  Yields-or_else other (returned a) h k = k
  Yields-or_else other (failed e) h k = h
  Yields-or_else other (exited n) h k = k
  Yields-or_else other panicked h k = k

pub Yields-map :
    {A : Type 0} (P Q : A → Type 0) (o : Outcome A)
    → ((a : A) → P a → Q a)
    → Yields P o
    → Yields Q o
Yields-map P Q (returned a) f h = f a h
Yields-map P Q (failed e) f h = tt
Yields-map P Q (exited n) f h = h
Yields-map P Q panicked f h = h

abbrev pub Anything : {A : Type 0} → A → Type 0
Anything a = Unit

pub collect_files-Yields :
    (suffix : String) (visits : List Visited) → Yields Anything (collect_files suffix visits)
unfolding collect_files
collect_files-Yields suffix [] = tt
collect_files-Yields suffix (v ∷ vs) = elim (Option-cases v.walk_error) [
  | inl n ↦
      rw n (Yields-bind Anything Anything _ _ (collect_files-Yields suffix vs) (λ files h. tt))
  | inr (e, h) ↦ rw h tt
]

-- A search through a cache that is off answers what the walk collects.
pub find_files_lem :
    (fs : FileSystem) (name root suffix : String)
    → find_files fs name root suffix ≡ collect_files suffix (fs.walk root)
unfolding find_files or_save
find_files_lem fs name root suffix =
    elim (collect_files suffix (fs.walk root))
      as (λ o. (or_save fs (new_file_cache fs name) suffix o).0 ≡ o) [
        | returned files ↦ refl
        | failed e ↦ refl
        | exited n ↦ refl
        | panicked ↦ refl
      ]

pub find_files-Yields :
    (fs : FileSystem) (name root suffix : String) → Yields Anything (find_files fs name root suffix)
find_files-Yields fs name root suffix =
    subst (Yields Anything) (sym (find_files_lem fs name root suffix))
      (collect_files-Yields suffix (fs.walk root))
