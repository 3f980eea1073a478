-- ===== src/Pipeline/Insert.antt =====
-- pkg/build/build.go: the operations that put a step into the pipeline.
pub mod Filed
pub mod Grouped
pub mod Order
pub mod Relative
use engine_ci.Base.{
  ℕ, suc, String, Bool, true, false, Option, none, some, List, [], ◌∷◌, ◌++◌, ◌==◌, if◌then◌else◌,
  length, take, drop, keep, get_elem?,
}
use engine_ci.Pipeline.Step.{BuildStep, Context, BuildSteps, category_order}

-- `ToBuildContexts`
unfoldable pub to_contexts : List BuildStep → List Context
to_contexts [] = []
to_contexts (s ∷ ss) = record { step = s; category = "build"; async = s.is_async } ∷ to_contexts ss

-- `NewBuildSteps`
unfoldable pub new_build_steps : List BuildStep → BuildSteps
unfolding to_contexts
new_build_steps ss = record {
  steps = to_contexts ss;
  initialized = elim ss [ [] ↦ false | x ∷ xs ↦ true ];
}

-- `Add` and `AddAsync`
unfoldable pub add : BuildSteps → BuildStep → Bool → BuildSteps
add bs step async = record bs {
  steps = bs.steps ++ record { step = step; category = "build"; async = async } ∷ [];
}

-- `append(s[:i], append([]T{x}, s[i:]...)...)`
pub insert_at : ℕ → Context → List Context → List Context
insert_at i x xs = take i xs ++ (x ∷ drop i xs)

-- The index of the first context that passes a test; none is the source's -1.
abbrev index_where {ℓ} : {A : Type ℓ} → (A → Bool) → List A → Option ℕ
index_where p [] = none
index_where p (x ∷ xs) =
    let rest = index_where p xs in
    if p x then some 0 else elim rest [ none ↦ none | some i ↦ some (suc i) ]

pub find_first_step_in_category : String → List Context → Option ℕ
find_first_step_in_category category = index_where (λ c. c.category == category)

-- The loop over the later categories; its default is the end of the pipeline.
pub insert_pos : List String → List Context → ℕ
unfolding find_first_step_in_category
insert_pos [] steps = length steps
insert_pos (c ∷ cs) steps =
    let rest = insert_pos cs steps in
    elim (find_first_step_in_category c steps) [ none ↦ rest | some i ↦ i ]

-- The body of `insertAtCategoryEnd` over a category order.
pub insert_by : List String → String → BuildStep → Bool → List Context → Option (List Context)
unfolding insert_pos insert_at
insert_by order category step async steps = elim (index_where (λ c. c == category) order) [
  | none ↦ none
  | some target ↦ some (
      insert_at (insert_pos (drop (suc target) order) steps)
        (record { step = step; category = category; async = async }) steps)
]

-- `insertAtCategoryEnd`; `none` is its error "unknown category".
unfoldable pub insert_at_category_end :
    String → BuildStep → Bool → List Context → Option (List Context)
unfolding insert_by
insert_at_category_end = insert_by category_order

-- A failed insertion leaves the pipeline as it was.
abbrev pub or_unchanged : List Context → Option (List Context) → List Context
or_unchanged steps none = steps
or_unchanged steps (some steps') = steps'

-- The closure `addStep` of InitBuildSteps (cmd/engine.go): AddAsyncToCategory for an asynchronous
-- step and AddToCategory for any other; an error is logged.
unfoldable pub add_step : List Context → String × BuildStep → List Context
unfolding insert_at_category_end
add_step steps (category, step) = or_unchanged steps (
    if step.is_async
    then insert_at_category_end category step true steps
    else insert_at_category_end category step false steps)

unfoldable pub add_steps : List Context → List (String × BuildStep) → List Context
add_steps steps [] = steps
add_steps steps (r ∷ rs) = add_steps (add_step steps r) rs

-- `GetStepsInCategory`
unfoldable pub get_steps_in_category : String → List Context → List Context
get_steps_in_category category = keep (λ c. c.category == category)

-- `Replace`; `none` is its error "not found".
unfoldable pub replace : String → BuildStep → List Context → Option (List Context)
replace name step [] = none
replace name step (c ∷ cs) =
    let rest = replace name step cs in
    if c.step.name == name
    then some (record { step = step; category = c.category; async = step.is_async } ∷ cs)
    else elim rest [ none ↦ none | some cs' ↦ some (c ∷ cs') ]

-- `insertRelativeToStep`, at the index that its loop finds.
insert_near : Bool → Context → ℕ → List Context → List Context
unfolding insert_at
insert_near before x i xs = insert_at (if before then i else suc i) x xs

unfoldable pub insert_relative_to_step :
    String → BuildStep → Bool → Bool → List Context → Option (List Context)
unfolding insert_near
insert_relative_to_step name step async before cs =
    elim (index_where (λ c. c.step.name == name) cs) [
      | none ↦ none
      | some i ↦ elim (get_elem? cs i) [
        | none ↦ none
        | some ref ↦ some (
            insert_near before (record { step = step; category = ref.category; async = async }) i
              cs)
      ]
    ]
