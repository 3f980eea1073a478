-- ===== src/Pipeline/Images/Categories.antt =====
-- The categories of a pipeline that was filled by category.
use engine_ci.Base.{
  String, Bool, true, false, not, List, [], ◌∷◌, ◌++◌, ◌==◌, ◌≡◌, refl, ap, ◌∙◌, map, arith,
  contains, if◌then◌else◌, keep, eq_comm, eq_refl, All,
}
use engine_ci.Pipeline.Step.{BuildStep, Context, category_order}
use engine_ci.Pipeline.Insert.{add_steps}
use engine_ci.Pipeline.Insert.Filed.{flatten_by, IsFiled, Distinct}
use engine_ci.Pipeline.Insert.Grouped.{category_order-Distinct}
use engine_ci.Pipeline.Insert.Order.{filed, filed-IsFiled, add_steps_lem}
use engine_ci.Pipeline.Images.{unique_from, get_category_order}

abbrev category_of : Context → String
category_of c = c.category

abbrev pub is_nil {ℓ} : {A : Type ℓ} → List A → Bool
is_nil [] = true
is_nil (x ∷ xs) = false

skip_repeated :
    (seen : List String) (c : String) (xs ys : List Context)
    → contains seen c ≡ true
    → All (λ (x : Context). x.category ≡ c) xs
    → unique_from seen (map category_of (xs ++ ys)) ≡ unique_from seen (map category_of ys)
unfolding unique_from
skip_repeated seen c [] ys h k = refl
skip_repeated seen c (x ∷ xs) ys h k = ground (arith, skip_repeated seen c xs ys h k.1)

Unseen-later :
    (seen : List String) (c : String) (cs : List String)
    → All (λ d. (d == c) ≡ false) cs
    → All (λ d. contains seen d ≡ false) cs
    → All (λ d. contains (c ∷ seen) d ≡ false) cs
Unseen-later seen c [] h k = tt
Unseen-later seen c (d ∷ ds) h k = (ground (arith, eq_comm c d), Unseen-later seen c ds h.1 k.1)

unique-flatten_by :
    (m : String → List Context) (seen cs : List String)
    → IsFiled m
    → Distinct cs
    → All (λ c. contains seen c ≡ false) cs
    → unique_from seen (map category_of (flatten_by cs m)) ≡ keep (λ c. not (is_nil (m c))) cs
unfolding unique_from
unique-flatten_by m seen [] f d h = refl
unique-flatten_by m seen (c ∷ cs) f d h =
    go (m c) (f c) (unique-flatten_by m seen cs f d.1 h.1)
      (unique-flatten_by m (c ∷ seen) cs f d.1 (Unseen-later seen c cs d.0 h.1))
  where
    go :
        (own : List Context)
        → All (λ (x : Context). x.category ≡ c) own
        → unique_from seen (map category_of (flatten_by cs m)) ≡ keep (λ k. not (is_nil (m k))) cs
        → unique_from (c ∷ seen) (map category_of (flatten_by cs m))
          ≡ keep (λ k. not (is_nil (m k))) cs
        → unique_from seen (map category_of (own ++ flatten_by cs m)) ≡ (
            if not (is_nil own)
            then c ∷ keep (λ k. not (is_nil (m k))) cs
            else keep (λ k. not (is_nil (m k))) cs)
    go [] k without with_c = without
    go (x ∷ r) k without with_c =
        ground
          (arith, skip_repeated (c ∷ seen) c r (flatten_by cs m) (ground (arith, eq_refl c)) k.1)

All-unseen : (cs : List String) → All (λ c. contains [] c ≡ false) cs
All-unseen [] = tt
All-unseen (c ∷ cs) = (refl, All-unseen cs)

-- GetCategoryOrder of a pipeline that was filled from nothing lists exactly the categories for which
-- a step was requested, in the order of the categories.
pub get_category_order-add_steps :
    (rs : List (String × BuildStep))
    → get_category_order (add_steps [] rs) ≡ keep (λ c. not (is_nil (filed rs c))) category_order
unfolding get_category_order
get_category_order-add_steps rs =
    ap (λ steps. unique_from [] (map category_of steps)) (add_steps_lem rs)
    ∙ unique-flatten_by (filed rs) [] category_order (filed-IsFiled rs) category_order-Distinct
        (All-unseen category_order)
