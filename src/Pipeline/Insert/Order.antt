-- ===== src/Pipeline/Insert/Order.antt =====
-- The pipeline that a list of requests builds, and what each category of it holds.
use engine_ci.Base.{
  String, true, false, List, [], ◌∷◌, ◌++◌, ◌==◌, ◌≡◌, refl, sym, ap, ◌∙◌, subst, fun_ext, inl, inr,
  if◌then◌else◌, keep-append, contains, All, arith, eq_iff, append_assoc, append-nil, Bool-cases,
}
use engine_ci.Pipeline.Step.{BuildStep, Context, category_order}
use engine_ci.Pipeline.Insert.{add_step, add_steps, get_steps_in_category}
use engine_ci.Pipeline.Insert.Filed.{flatten_by, IsFiled, Distinct}
use engine_ci.Pipeline.Insert.Grouped.{
  filed_more, filed_more-IsFiled, context_of, insert_by-flatten_by, add_step_lem,
  category_order-Distinct,
}

-- The requests for one category, in their order.
abbrev pub filed : List (String × BuildStep) → String → List Context
filed [] c = []
filed ((category, step) ∷ rs) c =
    let rest = filed rs c in if c == category then context_of category step ∷ rest else rest

add_step-flatten_by :
    (m : String → List Context) (category : String) (step : BuildStep)
    → IsFiled m
    → add_step (flatten_by category_order m) (category, step)
      ≡ flatten_by category_order (filed_more category (context_of category step) m)
add_step-flatten_by m category step f =
    add_step_lem (flatten_by category_order m) category step
    ∙ insert_by-flatten_by category_order m category step category_order-Distinct f

filed_more-filed :
    (m : String → List Context) (category : String) (step : BuildStep)
    (rs : List (String × BuildStep)) (c : String)
    → filed_more category (context_of category step) m c ++ filed rs c
      ≡ m c ++ filed ((category, step) ∷ rs) c
filed_more-filed m category step rs c = elim (Bool-cases (c == category)) [
  | inl e ↦ rw e (append_assoc (m c) _ (filed rs c))
  | inr e ↦ rw e
]

add_steps-flatten_by :
    (m : String → List Context) (rs : List (String × BuildStep))
    → IsFiled m
    → add_steps (flatten_by category_order m) rs
      ≡ flatten_by category_order (λ c. m c ++ filed rs c)
unfolding add_steps
add_steps-flatten_by m [] f = ap (flatten_by category_order) (fun_ext (λ c. sym (append-nil (m c))))
add_steps-flatten_by m ((category, step) ∷ rs) f =
    ap (λ steps. add_steps steps rs) (add_step-flatten_by m category step f)
    ∙ add_steps-flatten_by (filed_more category (context_of category step) m) rs
        (filed_more-IsFiled category (context_of category step) m refl f)
    ∙ ap (flatten_by category_order) (fun_ext (filed_more-filed m category step rs))

-- Whatever steps are requested in whatever order, the pipeline built from nothing holds, category
-- after category, the steps requested for that category in the order of the requests; requests for
-- an unknown category leave no trace.
pub add_steps_lem :
    (rs : List (String × BuildStep)) → add_steps [] rs ≡ flatten_by category_order (filed rs)
add_steps_lem rs = add_steps-flatten_by (λ _. []) rs (λ _. tt)

keep-other :
    (c d : String) (xs : List Context)
    → (d == c) ≡ false
    → All (λ (x : Context). x.category ≡ d) xs
    → get_steps_in_category c xs ≡ []
unfolding get_steps_in_category
keep-other c d [] ne h = refl
keep-other c d (x ∷ xs) ne h = rw (h.0, ne) (keep-other c d xs ne h.1)

keep-own :
    (c : String) (xs : List Context)
    → All (λ (x : Context). x.category ≡ c) xs
    → get_steps_in_category c xs ≡ xs
unfolding get_steps_in_category
keep-own c [] h = refl
keep-own c (x ∷ xs) h = ground (arith, eq_iff x.category c, keep-own c xs h.1)

get_steps-append :
    (c : String) (xs ys : List Context)
    → get_steps_in_category c (xs ++ ys) ≡ get_steps_in_category c xs ++ get_steps_in_category c ys
unfolding get_steps_in_category
get_steps-append c xs ys = keep-append _ xs ys

get_steps-absent :
    (m : String → List Context) (c : String) (cs : List String)
    → IsFiled m
    → All (λ d. (d == c) ≡ false) cs
    → get_steps_in_category c (flatten_by cs m) ≡ []
get_steps-absent m c [] f h = unfold get_steps_in_category in refl
get_steps-absent m c (d ∷ ds) f h =
    get_steps-append c (m d) (flatten_by ds m)
    ∙ rw (keep-other c d (m d) h.0 (f d)) (get_steps-absent m c ds f h.1)

get_steps-flatten_by :
    (m : String → List Context) (c : String) (cs : List String)
    → IsFiled m
    → Distinct cs
    → get_steps_in_category c (flatten_by cs m) ≡ (if contains cs c then m c else [])
get_steps-flatten_by m c [] f d = unfold get_steps_in_category in refl
get_steps-flatten_by m c (k ∷ ks) f d =
    get_steps-append c (m k) (flatten_by ks m) ∙ elim (Bool-cases (k == c)) [
      | inl e ↦
          let same = (eq_iff k c).0 e in
          let absent = subst (λ t. All (λ d. (d == t) ≡ false) ks) same d.0 in
          rw (get_steps-absent m c ks f absent, append-nil, e)
            (subst (λ t. get_steps_in_category t (m k) ≡ m t) same (keep-own k (m k) (f k)))
      | inr e ↦ rw (keep-other c k (m k) e (f k), e) (get_steps-flatten_by m c ks f d.1)
    ]

pub filed-IsFiled : (rs : List (String × BuildStep)) → IsFiled (filed rs)
filed-IsFiled [] c = tt
filed-IsFiled ((category, step) ∷ rs) c = elim (Bool-cases (c == category)) [
  | inl e ↦ rw e (sym ((eq_iff c category).0 e), filed-IsFiled rs c)
  | inr e ↦ rw e (filed-IsFiled rs c)
]

-- Asked for the steps of a known category, a pipeline that was filled from nothing answers the steps
-- requested for it, in the order of the requests.
pub get_steps-add_steps :
    (rs : List (String × BuildStep)) (c : String)
    → contains category_order c ≡ true
    → get_steps_in_category c (add_steps [] rs) ≡ filed rs c
get_steps-add_steps rs c h = rw (add_steps_lem rs) (
    get_steps-flatten_by (filed rs) c category_order (filed-IsFiled rs) category_order-Distinct
    ∙ rw h)
