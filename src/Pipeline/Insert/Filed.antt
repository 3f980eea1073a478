-- ===== src/Pipeline/Insert/Filed.antt =====
-- Pipelines filed by category, and where the loop over the later categories ends in them.
use engine_ci.Base.{
  String, false, none, some, List, [], ◌∷◌, ◌++◌, ◌==◌, ◌≡◌, refl, length, All, arith, eq_iff,
  append-nil,
}
use engine_ci.Pipeline.Step.{Context}
use engine_ci.Pipeline.Insert.{find_first_step_in_category, insert_pos}

-- The steps filed under each category, category after category.
abbrev pub flatten_by : List String → (String → List Context) → List Context
flatten_by [] m = []
flatten_by (c ∷ cs) m = m c ++ flatten_by cs m

abbrev pub IsFiled : (String → List Context) → Type 0
IsFiled m = (c : String) → All (λ (x : Context). x.category ≡ c) (m c)

abbrev pub Distinct : List String → Type 0
Distinct [] = Unit
Distinct (c ∷ cs) = All (λ d. (d == c) ≡ false) cs × Distinct cs

abbrev pub Lacks : String → List Context → Type 0
Lacks c xs = All (λ (x : Context). (x.category == c) ≡ false) xs

pub Lacks-append :
    (c : String) (xs ys : List Context) → Lacks c xs → Lacks c ys → Lacks c (xs ++ ys)
Lacks-append c [] ys h k = k
Lacks-append c (x ∷ xs) ys h k = (h.0, Lacks-append c xs ys h.1 k)

pub Lacks-of_filed :
    (c d : String) (xs : List Context)
    → (d == c) ≡ false
    → All (λ (x : Context). x.category ≡ d) xs
    → Lacks c xs
Lacks-of_filed c d [] ne h = tt
Lacks-of_filed c d (x ∷ xs) ne h = (rw h.0 ne, Lacks-of_filed c d xs ne h.1)

module _ (m : String → List Context) (filed : IsFiled m) where
  Lacks-flatten_by :
      (c : String) (cs : List String) → All (λ d. (d == c) ≡ false) cs → Lacks c (flatten_by cs m)
  Lacks-flatten_by c [] h = tt
  Lacks-flatten_by c (d ∷ ds) h =
      Lacks-append c (m d) (flatten_by ds m) (Lacks-of_filed c d (m d) h.0 (filed d))
        (Lacks-flatten_by c ds h.1)

find-Lacks : (c : String) (xs : List Context) → Lacks c xs → find_first_step_in_category c xs ≡ none
unfolding find_first_step_in_category
find-Lacks c [] h = refl
find-Lacks c (x ∷ xs) h = ground (arith, find-Lacks c xs h.1)

find-middle :
    (c : String) (xs : List Context) (y : Context) (ys : List Context)
    → Lacks c xs
    → y.category ≡ c
    → find_first_step_in_category c (xs ++ y ∷ ys) ≡ some (length xs)
unfolding find_first_step_in_category
find-middle c [] y ys h e = ground (arith, eq_iff y.category c)
find-middle c (x ∷ xs) y ys h e = ground (arith, find-middle c xs y ys h.1 e)

-- The loop over the later categories finds the end of what stands before them.
pub insert_pos-flatten_by :
    (m : String → List Context) (cs : List String) (pre : List Context)
    → IsFiled m
    → Distinct cs
    → All (λ c. Lacks c pre) cs
    → insert_pos cs (pre ++ flatten_by cs m) ≡ length pre
unfolding insert_pos
insert_pos-flatten_by m [] pre filed d h = rw append-nil
insert_pos-flatten_by m (c ∷ cs) pre filed d h =
    go (m c) (filed c) (insert_pos-flatten_by m cs pre filed d.1 h.1)
  where
    go :
        (own : List Context)
        → All (λ (x : Context). x.category ≡ c) own
        → insert_pos cs (pre ++ flatten_by cs m) ≡ length pre
        → insert_pos (c ∷ cs) (pre ++ (own ++ flatten_by cs m)) ≡ length pre
    go [] f later =
        rw
          (
            find-Lacks c (pre ++ flatten_by cs m)
                (Lacks-append c pre (flatten_by cs m) h.0 (Lacks-flatten_by m filed c cs d.0)),
            insert_pos,
          )
          later
    go (x ∷ r) f later = rw (find-middle c pre x (r ++ flatten_by cs m) h.0 f.0, insert_pos) refl
