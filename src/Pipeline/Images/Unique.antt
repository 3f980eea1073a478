-- ===== src/Pipeline/Images/Unique.antt =====
-- `uniqueStrings` keeps the first occurrence of every text, and `Images` is what the matching steps
-- ask for.
use engine_ci.Base.{
  String, Bool, true, false, ◌&&◌, ◌||◌, not, List, [], ◌∷◌, ◌==◌, ◌≡◌, inl, inr, refl, ap, ◌∙◌,
  arith, contains, contains-append, if◌then◌else◌, keep, eq_iff, Bool-cases, count,
}
use engine_ci.Container.Build.{Build}
use engine_ci.Pipeline.Step.{Context}
use engine_ci.Pipeline.Images.{
  unique_from, unique_strings, images_of, images_of_all, images_of_groups, images,
}

-- The first occurrences by another recursion: the head, and the rest without it.
abbrev pub first_occurrences : List String → List String
first_occurrences [] = []
first_occurrences (x ∷ xs) = x ∷ keep (λ y. not (x == y)) (first_occurrences xs)

abbrev pub unseen : List String → List String → List String
unseen seen = keep (λ y. not (contains seen y))

unseen-cons :
    (seen : List String) (x : String) (xs : List String)
    → unseen (x ∷ seen) xs ≡ unseen seen (keep (λ y. not (x == y)) xs)
unseen-cons seen x [] = refl
unseen-cons seen x (y ∷ ys) = ground (arith, unseen-cons seen x ys)

-- A text that was seen may as well be dropped first.
unseen-seen :
    (seen : List String) (x : String) (xs : List String)
    → contains seen x ≡ true
    → unseen seen (keep (λ y. not (x == y)) xs) ≡ unseen seen xs
unseen-seen seen x [] h = refl
unseen-seen seen x (y ∷ ys) h = ground (arith, eq_iff x y, unseen-seen seen x ys h)

unique_from_lem : (seen xs : List String) → unique_from seen xs ≡ unseen seen (first_occurrences xs)
unfolding unique_from
unique_from_lem seen [] = refl
unique_from_lem seen (x ∷ xs) = elim (Bool-cases (contains seen x)) [
  | inl e ↦ rw (e, unseen-seen seen x (first_occurrences xs) e) (unique_from_lem seen xs)
  | inr e ↦
      rw (e, ← unseen-cons seen x (first_occurrences xs))
        (ap (◌∷◌ x) (unique_from_lem (x ∷ seen) xs))
]

unseen-nil : (xs : List String) → unseen [] xs ≡ xs
unseen-nil [] = refl
unseen-nil (x ∷ xs) = ap (◌∷◌ x) (unseen-nil xs)

-- uniqueStrings answers the list of first occurrences, in their order.
pub unique_strings-first_occurrences : (xs : List String) → unique_strings xs ≡ first_occurrences xs
unfolding unique_strings
unique_strings-first_occurrences xs = unique_from_lem [] xs ∙ unseen-nil (first_occurrences xs)

count-keep_other :
    (s x : String) (ys : List String)
    → count s (keep (λ y. not (x == y)) ys) ≡ (if x == s then 0 else count s ys)
unfolding count
count-keep_other s x [] = ground arith
count-keep_other s x (y ∷ ys) =
    ground (arith, eq_iff x y, eq_iff y s, eq_iff x s, count-keep_other s x ys)

count-first_occurrences :
    (s : String) (xs : List String)
    → count s (first_occurrences xs) ≡ (if contains xs s then 1 else 0)
unfolding count
count-first_occurrences s [] = refl
count-first_occurrences s (x ∷ xs) =
    ground (arith, count-keep_other s x (first_occurrences xs), count-first_occurrences s xs)

-- Some step of the pipeline matches some build and names the image for it.
abbrev pub asked_by : Build → String → List Context → Bool
asked_by b s [] = false
asked_by b s (c ∷ cs) = (c.step.matches b && contains (c.step.images b) s) || asked_by b s cs

abbrev pub asked_in : List Build → String → List Context → Bool
asked_in [] s steps = false
asked_in (b ∷ bs) s steps = asked_by b s steps || asked_in bs s steps

abbrev pub asked : List (List Build) → String → List Context → Bool
asked [] s steps = false
asked (g ∷ gs) s steps = asked_in g s steps || asked gs s steps

contains-images_of :
    (b : Build) (s : String) (cs : List Context) → contains (images_of b cs) s ≡ asked_by b s cs
unfolding images_of
contains-images_of b s [] = refl
contains-images_of b s (c ∷ cs) =
    ground (arith, contains-append (c.step.images b) (images_of b cs) s, contains-images_of b s cs)

contains-images_of_all :
    (bs : List Build) (s : String) (cs : List Context)
    → contains (images_of_all bs cs) s ≡ asked_in bs s cs
unfolding images_of_all
contains-images_of_all [] s cs = refl
contains-images_of_all (b ∷ bs) s cs =
    rw (contains-append (images_of b cs) (images_of_all bs cs) s, contains-images_of b s cs)
      (ap (◌||◌ (asked_by b s cs)) (contains-images_of_all bs s cs))

contains-images_of_groups :
    (gs : List (List Build)) (s : String) (cs : List Context)
    → contains (images_of_groups gs cs) s ≡ asked gs s cs
unfolding images_of_groups
contains-images_of_groups [] s cs = refl
contains-images_of_groups (g ∷ gs) s cs =
    rw
      (
        contains-append (images_of_all g cs) (images_of_groups gs cs) s,
        contains-images_of_all g s cs,
      )
      (ap (◌||◌ (asked_in g s cs)) (contains-images_of_groups gs s cs))

-- Every image that a matching step of the pipeline names for a build of the groups is listed once,
-- and no other image is.
pub images-count :
    (groups : List (List Build)) (steps : List Context) (s : String)
    → count s (images groups steps) ≡ (if asked groups s steps then 1 else 0)
unfolding images
images-count groups steps s =
    ap (count s) (unique_strings-first_occurrences (images_of_groups groups steps))
    ∙ count-first_occurrences s (images_of_groups groups steps)
    ∙ rw (contains-images_of_groups groups s steps)
