-- ===== src/Pipeline/Insert/Grouped.antt =====
-- A pipeline filled by category keeps its steps in the order of the categories, and the steps of
-- one category in the order in which they were added.
use engine_ci.Base.{
  ℕ, suc, String, false, none, some, List, [], ◌∷◌, ◌++◌, ◌==◌, ◌≡◌, inl, inr, refl, sym, ◌∙◌,
  subst, if◌then◌else◌, length, drop, All, All-append, arith, eq_iff, eq_comm, append_assoc,
  Bool-cases, Option-cases, take-append_length, drop-append_length,
}
use engine_ci.Pipeline.Step.{BuildStep, Context, category_order}
use engine_ci.Pipeline.Insert.{
  insert_at, index_where, insert_pos, insert_by, or_unchanged, add_step,
}
use engine_ci.Pipeline.Insert.Filed.{
  flatten_by, IsFiled, Distinct, Lacks, Lacks-append, Lacks-of_filed, insert_pos-flatten_by,
}

-- One more step at the end of its category.
abbrev pub filed_more : String → Context → (String → List Context) → String → List Context
filed_more category x m c = if c == category then m c ++ x ∷ [] else m c

flatten_by-filed_more :
    (category : String) (x : Context) (m : String → List Context) (cs : List String)
    → All (λ c. (c == category) ≡ false) cs
    → flatten_by cs (filed_more category x m) ≡ flatten_by cs m
flatten_by-filed_more category x m [] h = refl
flatten_by-filed_more category x m (c ∷ cs) h = rw (h.0, flatten_by-filed_more category x m cs h.1)

Absent_of_eq :
    (c d : String) (cs : List String)
    → c ≡ d
    → All (λ e. (e == c) ≡ false) cs
    → All (λ e. (e == d) ≡ false) cs
Absent_of_eq c d cs e h = subst (λ t. All (λ k. (k == t) ≡ false) cs) e h

-- Lists filed under the category `c` lack every later category.
Lacks-later :
    (c : String) (cs : List String) (xs : List Context)
    → All (λ d. (d == c) ≡ false) cs
    → All (λ (x : Context). x.category ≡ c) xs
    → All (λ d. Lacks d xs) cs
Lacks-later c [] xs d h = tt
Lacks-later c (k ∷ ks) xs d h =
    (Lacks-of_filed k c xs (eq_comm c k ∙ d.0) h, Lacks-later c ks xs d.1 h)

Lacks-both :
    (cs : List String) (xs ys : List Context)
    → All (λ d. Lacks d xs) cs
    → All (λ d. Lacks d ys) cs
    → All (λ d. Lacks d (xs ++ ys)) cs
Lacks-both [] xs ys h k = tt
Lacks-both (c ∷ cs) xs ys h k = (Lacks-append c xs ys h.0 k.0, Lacks-both cs xs ys h.1 k.1)

insert_at-length :
    (x : Context) (xs ys : List Context) → insert_at (length xs) x (xs ++ ys) ≡ xs ++ (x ∷ ys)
unfolding insert_at
insert_at-length x xs ys = rw (take-append_length xs ys, drop-append_length xs ys)

module _ (category : String) (x : Context) (m : String → List Context) (filed : IsFiled m) where
  insert_after :
      (cs : List String) (pre : List Context)
      → Distinct cs
      → All (λ c. Lacks c pre) cs
      → insert_at (insert_pos cs (pre ++ flatten_by cs m)) x (pre ++ flatten_by cs m)
        ≡ pre ++ (x ∷ flatten_by cs m)
  insert_after cs pre d h =
      rw (insert_pos-flatten_by m cs pre filed d h) (insert_at-length x pre (flatten_by cs m))

  insert_grouped :
      (cs : List String) (pre : List Context) (i : ℕ)
      → Distinct cs
      → All (λ c. Lacks c pre) cs
      → index_where (λ c. c == category) cs ≡ some i
      → insert_at (insert_pos (drop (suc i) cs) (pre ++ flatten_by cs m)) x (pre ++ flatten_by cs m)
        ≡ pre ++ flatten_by cs (filed_more category x m)
  insert_grouped [] pre i d h e = cc
  insert_grouped (c ∷ cs) pre i d h e =
      let lacks = Lacks-both cs pre (m c) h.1 (Lacks-later c cs (m c) d.0 (filed c)) in
      elim (Bool-cases (c == category)) [
        | inl is ↦
            let z : i ≡ 0 = ground arith in
            let absent = Absent_of_eq c category cs ((eq_iff c category).0 is) d.0 in
            rw (z, ← append_assoc pre (m c) (flatten_by cs m))
              (rw (insert_after cs (pre ++ m c) d.1 lacks)
                (rw (is, flatten_by-filed_more category x m cs absent) (simp append_assoc)))
        | inr isnt ↦ elim (Option-cases (index_where (λ c. c == category) cs)) [
          | inl q ↦ absurd (ground arith)
          | inr (j, q) ↦
              let z : i ≡ suc j = ground arith in
              rw (z, ← append_assoc pre (m c) (flatten_by cs m))
                (rw (insert_grouped cs (pre ++ m c) j d.1 lacks q)
                  (rw isnt (append_assoc pre (m c) _)))
        ]
      ]

All-nil : (cs : List String) → All (λ c. Lacks c []) cs
All-nil [] = tt
All-nil (c ∷ cs) = (tt, All-nil cs)

pub category_order-Distinct : Distinct category_order
category_order-Distinct = ground arith

pub filed_more-IsFiled :
    (category : String) (x : Context) (m : String → List Context)
    → x.category ≡ category
    → IsFiled m
    → IsFiled (filed_more category x m)
filed_more-IsFiled category x m e f c = elim (Bool-cases (c == category)) [
  | inl is ↦ rw is (
      All-append (λ (y : Context). y.category ≡ c) (m c) (x ∷ []) (f c)
        (e ∙ sym ((eq_iff c category).0 is), tt))
  | inr isnt ↦ rw isnt (f c)
]

index_where-none :
    (category : String) (cs : List String)
    → index_where (λ c. c == category) cs ≡ none
    → All (λ c. (c == category) ≡ false) cs
index_where-none category [] h = tt
index_where-none category (c ∷ cs) h = elim (Option-cases (index_where (λ k. k == category) cs)) [
  | inl q ↦ (ground arith, index_where-none category cs q)
  | inr (j, q) ↦ absurd (ground arith)
]

abbrev pub context_of : String → BuildStep → Context
context_of category step = record { step = step; category = category; async = step.is_async }

-- One insertion into a pipeline filed by category, also one that fails on an unknown category.
pub insert_by-flatten_by :
    (order : List String) (m : String → List Context) (category : String) (step : BuildStep)
    → Distinct order
    → IsFiled m
    → or_unchanged
        (flatten_by order m)
        (insert_by order category step step.is_async (flatten_by order m))
      ≡ flatten_by order (filed_more category (context_of category step) m)
unfolding insert_by
insert_by-flatten_by order m category step d f =
    let x = context_of category step in
    elim (Option-cases (index_where (λ c. c == category) order)) [
      | inl q ↦
          rw (q, insert_by)
            (sym (flatten_by-filed_more category x m order (index_where-none category order q)))
      | inr (i, q) ↦
          rw (q, insert_by) (insert_grouped category x m f order [] i d (All-nil order) q)
    ]

pub add_step_lem :
    (steps : List Context) (category : String) (step : BuildStep)
    → add_step steps (category, step)
      ≡ or_unchanged steps (insert_by category_order category step step.is_async steps)
unfolding add_step
add_step_lem steps category step = elim (Bool-cases step.is_async) [ inl e ↦ rw e | inr e ↦ rw e ]
