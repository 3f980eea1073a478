-- ===== src/Pipeline/Insert/Relative.antt =====
-- Insertion next to a named step, and its replacement.
use engine_ci.Base.{
  suc, String, Bool, true, false, none, some, List, [], ◌∷◌, ◌++◌, ◌==◌, ◌≡◌, refl, ap, arith,
  if◌then◌else◌, length, get_elem?, All,
}
use engine_ci.Pipeline.Step.{BuildStep, Context}
use engine_ci.Pipeline.Insert.{insert_at, index_where, insert_relative_to_step, replace}

-- No step of the list has the name.
abbrev pub Unnamed : String → List Context → Type 0
Unnamed name cs = All (λ (c : Context). (c.step.name == name) ≡ false) cs

index-first :
    (name : String) (pre : List Context) (ref : Context) (post : List Context)
    → Unnamed name pre
    → (ref.step.name == name) ≡ true
    → index_where (λ (c : Context). c.step.name == name) (pre ++ ref ∷ post) ≡ some (length pre)
index-first name [] ref post h e = rw e
index-first name (c ∷ pre) ref post h e = ground (arith, index-first name pre ref post h.1 e)

get_elem?-length :
    (pre : List Context) (ref : Context) (post : List Context)
    → get_elem? (pre ++ ref ∷ post) (length pre) ≡ some ref
get_elem?-length [] ref post = refl
get_elem?-length (c ∷ pre) ref post = get_elem?-length pre ref post

insert_before :
    (pre : List Context) (new ref : Context) (post : List Context)
    → insert_at (length pre) new (pre ++ ref ∷ post) ≡ pre ++ (new ∷ ref ∷ post)
unfolding insert_at
insert_before [] new ref post = refl
insert_before (c ∷ pre) new ref post = ap (◌∷◌ c) (insert_before pre new ref post)

insert_behind :
    (pre : List Context) (new ref : Context) (post : List Context)
    → insert_at (suc (length pre)) new (pre ++ ref ∷ post) ≡ pre ++ (ref ∷ new ∷ post)
unfolding insert_at
insert_behind [] new ref post = refl
insert_behind (c ∷ pre) new ref post = ap (◌∷◌ c) (insert_behind pre new ref post)

abbrev pub beside : Context → BuildStep → Bool → Context
beside ref step async = record { step = step; category = ref.category; async = async }

-- insertRelativeToStep puts the new step directly before or behind the first step of the name, in that step's category,
-- and every other step keeps its place.
pub insert_relative-first :
    (name : String) (step : BuildStep) (async before : Bool) (pre : List Context) (ref : Context)
    (post : List Context)
    → Unnamed name pre
    → (ref.step.name == name) ≡ true
    → insert_relative_to_step name step async before (pre ++ ref ∷ post)
      ≡ some (
          if before
          then pre ++ (beside ref step async ∷ ref ∷ post)
          else pre ++ (ref ∷ beside ref step async ∷ post))
unfolding insert_relative_to_step
insert_relative-first name step async true pre ref post h e =
    rw (index-first name pre ref post h e, insert_relative_to_step)
      (rw (get_elem?-length pre ref post, insert_relative_to_step)
        (ap some (insert_before pre (beside ref step async) ref post)))
insert_relative-first name step async false pre ref post h e =
    rw (index-first name pre ref post h e, insert_relative_to_step)
      (rw (get_elem?-length pre ref post, insert_relative_to_step)
        (ap some (insert_behind pre (beside ref step async) ref post)))

-- A step that Replace puts in takes the place and the category of the first step of the name.
pub replace-first :
    (name : String) (step : BuildStep) (pre : List Context) (ref : Context) (post : List Context)
    → Unnamed name pre
    → (ref.step.name == name) ≡ true
    → replace name step (pre ++ ref ∷ post) ≡ some (pre ++ (beside ref step step.is_async ∷ post))
unfolding replace
replace-first name step [] ref post h e = rw e
replace-first name step (c ∷ pre) ref post h e =
    ground (arith, replace-first name step pre ref post h.1 e)

index-Unnamed :
    (name : String) (cs : List Context)
    → Unnamed name cs
    → index_where (λ (c : Context). c.step.name == name) cs ≡ none
index-Unnamed name [] h = refl
index-Unnamed name (c ∷ cs) h = ground (arith, index-Unnamed name cs h.1)

-- Without a step of the name insertRelativeToStep and Replace fail.
pub insert_relative-missing :
    (name : String) (step : BuildStep) (async before : Bool) (cs : List Context)
    → Unnamed name cs
    → (insert_relative_to_step name step async before cs ≡ none) × (replace name step cs ≡ none)
unfolding insert_relative_to_step replace
insert_relative-missing name step async before [] h = (refl, refl)
insert_relative-missing name step async before (c ∷ cs) h = (
  rw (index-Unnamed name (c ∷ cs) h, insert_relative_to_step),
  ground (arith, (insert_relative-missing name step async before cs h.1).1),
)
