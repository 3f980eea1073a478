-- ===== src/Doctor/Parallel.antt =====
-- pkg/doctor/doctor.go: runParallel. Every check runs in a goroutine, which appends its result under
-- the lock; a transition is one such append, of any check that is still running.
use engine_ci.Base.{
  ℕ, ◌+◌, Bool, true, false, List, [], ◌∷◌, ◌++◌, ◌≡◌, refl, ◌∙◌, arith, inl, inr, if◌then◌else◌,
  Bool-cases, text_lt, text_lt-asym, eq_comm, eq_iff, ◌⊎◌, ◌≢◌, ap, String, ◌==◌,
}
use engine_ci.Doctor.Check.{
  Check, CheckResult, run_sequential, comes_before, insert_result, sort_results,
}

pub record Pending : Type 0 where
  pub running : List Check
  pub results : List CheckResult

pub data Step : Pending → Pending → Type 0 where
  append_result :
      (s : Pending) (xs ys : List Check) (c : Check)
      → s.running ≡ xs ++ c ∷ ys
      → Step s (record { running = xs ++ ys; results = s.results ++ c.run ∷ [] })

pub data Reach (s : Pending) : Pending → Type 0 where
  here : Reach s s
  next : {t u : Pending} → Reach s t → Step t u → Reach s u

unfoldable pub launched : List Check → Pending
launched checks = record { running = checks; results = [] }

-- How many results pass a test.
unfoldable pub tally : (CheckResult → Bool) → List CheckResult → ℕ
tally p [] = 0
tally p (r ∷ rs) = let rest = tally p rs in if p r then 1 + rest else rest

-- Two lists hold the same results, each as often: every test finds as many in one as in the other.
abbrev pub SameResults : List CheckResult → List CheckResult → Type 0
SameResults xs ys = (p : CheckResult → Bool) → tally p xs ≡ tally p ys

abbrev Precedes : CheckResult → List CheckResult → Type 0
Precedes r [] = Unit
Precedes r (s ∷ rs) =
    (text_lt s.category r.category ≡ false)
    × ((s.category ≢ r.category) ⊎ (text_lt s.check_name r.check_name ≡ false))

-- Of two neighbours the second has no smaller category, and in the same category no smaller name.
abbrev pub IsSorted : List CheckResult → Type 0
IsSorted [] = Unit
IsSorted (r ∷ rs) = Precedes r rs × IsSorted rs

tally-append :
    (p : CheckResult → Bool) (xs ys : List CheckResult)
    → tally p (xs ++ ys) ≡ tally p xs + tally p ys
unfolding tally
tally-append p [] ys = omega arith
tally-append p (x ∷ xs) ys = ground (arith, tally-append p xs ys)

run_sequential-append :
    (xs ys : List Check) → run_sequential (xs ++ ys) ≡ run_sequential xs ++ run_sequential ys
unfolding run_sequential
run_sequential-append [] ys = refl
run_sequential-append (x ∷ xs) ys = ground (arith, run_sequential-append xs ys)

abbrev found : (CheckResult → Bool) → Pending → ℕ
found p s = tally p s.results + tally p (run_sequential s.running)

found-Step : {s t : Pending} (p : CheckResult → Bool) → Step s t → found p s ≡ found p t
unfolding tally run_sequential
found-Step p (append_result s xs ys c e) = ground (
  arith,
  run_sequential-append xs (c ∷ ys),
  run_sequential-append xs ys,
  tally-append p (run_sequential xs) (run_sequential (c ∷ ys)),
  tally-append p (run_sequential xs) (run_sequential ys),
  tally-append p s.results (c.run ∷ []),
)

found-Reach : {s t : Pending} (p : CheckResult → Bool) → Reach s t → found p s ≡ found p t
found-Reach p here = refl
found-Reach p (next r st) = found-Reach p r ∙ found-Step p st

tally-insert_result :
    (p : CheckResult → Bool) (r : CheckResult) (rs : List CheckResult)
    → tally p (insert_result r rs) ≡ tally p (r ∷ rs)
unfolding insert_result tally
tally-insert_result p r [] = refl
tally-insert_result p r (s ∷ ss) = ground (arith, tally-insert_result p r ss)

tally-sort_results :
    (p : CheckResult → Bool) (rs : List CheckResult) → tally p (sort_results rs) ≡ tally p rs
unfolding sort_results tally
tally-sort_results p [] = refl
tally-sort_results p (r ∷ rs) =
    ground (arith, tally-insert_result p r (sort_results rs), tally-sort_results p rs)

comes_before-asym : (r s : CheckResult) → comes_before r s ≡ true → comes_before s r ≡ false
comes_before-asym r s h = ground (
  arith,
  eq_comm r.category s.category,
  text_lt-asym r.category s.category,
  text_lt-asym r.check_name s.check_name,
)

text_lt_irrefl : (a b : String) → a ≡ b → text_lt a b ≡ false
text_lt_irrefl a b e = elim (Bool-cases (text_lt a b)) [
  | inl y ↦ absurd (ground (arith, text_lt-asym a b y, ap (λ x. text_lt x b) e, ap (text_lt b) e))
  | inr n ↦ n
]

comes_before-Precedes :
    (r s : CheckResult) (ss : List CheckResult) → comes_before s r ≡ false → Precedes r (s ∷ ss)
comes_before-Precedes r s ss h = elim (Bool-cases (s.category == r.category)) [
  | inl e ↦ (
    text_lt_irrefl s.category r.category (ground (arith, eq_iff s.category r.category)),
    inr (ground arith),
  )
  | inr e ↦ (ground arith, inl (λ q. ground (arith, eq_iff s.category r.category)))
]

insert_result-Precedes :
    (r s : CheckResult) (ss : List CheckResult)
    → comes_before r s ≡ false
    → Precedes s ss
    → Precedes s (insert_result r ss)
unfolding insert_result
insert_result-Precedes r s [] e h = comes_before-Precedes s r [] e
insert_result-Precedes r s (t ∷ ss) e h = elim (Bool-cases (comes_before t r)) [
  | inl f ↦ rw f h
  | inr f ↦ rw f (comes_before-Precedes s r (t ∷ ss) e)
]

insert_result-IsSorted :
    (r : CheckResult) (rs : List CheckResult) → IsSorted rs → IsSorted (insert_result r rs)
unfolding insert_result
insert_result-IsSorted r [] h = (tt, tt)
insert_result-IsSorted r (s ∷ ss) h = elim (Bool-cases (comes_before s r)) [
  | inl e ↦
      rw e (
        insert_result-Precedes r s ss (comes_before-asym s r e) h.0,
        insert_result-IsSorted r ss h.1,
      )
  | inr e ↦ rw e (comes_before-Precedes r s ss e, h)
]

sort_results-IsSorted : (rs : List CheckResult) → IsSorted (sort_results rs)
unfolding sort_results
sort_results-IsSorted [] = tt
sort_results-IsSorted (r ∷ rs) =
    insert_result-IsSorted r (sort_results rs) (sort_results-IsSorted rs)

-- Whatever the order in which the goroutines end, the parallel run answers the results of the
-- sequential run, sorted by category and name.
pub parallel_lem :
    (checks : List Check) {t : Pending}
    → Reach (launched checks) t
    → t.running ≡ []
    → SameResults (sort_results t.results) (run_sequential checks)
      × IsSorted (sort_results t.results)
unfolding launched tally run_sequential
parallel_lem checks run done =
    (λ p. tally-sort_results p _ ∙ ground (arith, found-Reach p run), sort_results-IsSorted _)
