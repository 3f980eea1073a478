-- ===== src/Doctor/Summary.antt =====
-- pkg/doctor/result.go: the summary of the results, and the verdict that ends the report.
use engine_ci.Base.{
  ℕ, suc, ◌+◌, ◌≤◌, String, Bool, true, false, ◌&&◌, ◌||◌, List, [], ◌∷◌, ◌==◌, ◌≡◌, ◌≢◌, ◌↔◌, refl,
  ◌∙◌, sym, arith, ltb, if◌then◌else◌, length, All, eq_iff,
}
use engine_ci.Doctor.Check.{CheckResult, Doctor, filter_checks, run_sequential, sort_results}
use engine_ci.Doctor.Parallel.{Pending, Reach, launched, tally, SameResults, parallel_lem}

pub record Summary : Type 0 where
  pub total : ℕ
  pub passed : ℕ
  pub failed : ℕ
  pub warnings : ℕ
  pub skipped : ℕ
  pub critical : ℕ

-- One iteration of the loop of `calculateSummary`; another status counts nowhere.
unfoldable pub count_result : Summary → CheckResult → Summary
count_result s r =
    if r.status == "pass"
    then record s { passed = suc s.passed }
    else if r.status == "fail"
    then (if r.severity == "critical"
        then record s { failed = suc s.failed; critical = suc s.critical }
        else record s { failed = suc s.failed })
    else if r.status == "warning"
    then record s { warnings = suc s.warnings }
    else if r.status == "skipped"
    then record s { skipped = suc s.skipped }
    else s

unfoldable pub summary_loop : Summary → List CheckResult → Summary
summary_loop s [] = s
summary_loop s (r ∷ rs) = summary_loop (count_result s r) rs

-- `calculateSummary`
unfoldable pub calculate_summary : List CheckResult → Summary
calculate_summary rs =
    summary_loop
      (record {
        total = length rs;
        passed = 0;
        failed = 0;
        warnings = 0;
        skipped = 0;
        critical = 0;
      })
      rs

pub data Verdict : Type 0 where
  critical_issues some_failed all_passed : Verdict

-- The end of `printSummary`.
unfoldable pub verdict : Summary → Verdict
verdict s =
    if ltb 0 s.critical then critical_issues else if ltb 0 s.failed then some_failed else all_passed

abbrev pub has_status : String → CheckResult → Bool
has_status status r = r.status == status

abbrev pub is_critical : CheckResult → Bool
is_critical r = r.status == "fail" && r.severity == "critical"

-- The summary counted test by test.
abbrev counted : List CheckResult → Summary
counted rs = record {
  total = tally (λ r. true) rs;
  passed = tally (has_status "pass") rs;
  failed = tally (has_status "fail") rs;
  warnings = tally (has_status "warning") rs;
  skipped = tally (has_status "skipped") rs;
  critical = tally is_critical rs;
}

abbrev plus : Summary → Summary → Summary
plus s t = record {
  total = s.total;
  passed = s.passed + t.passed;
  failed = s.failed + t.failed;
  warnings = s.warnings + t.warnings;
  skipped = s.skipped + t.skipped;
  critical = s.critical + t.critical;
}

Summary-path :
    (s t : Summary)
    → s.total ≡ t.total
    → s.passed ≡ t.passed
    → s.failed ≡ t.failed
    → s.warnings ≡ t.warnings
    → s.skipped ≡ t.skipped
    → s.critical ≡ t.critical
    → s ≡ t
Summary-path s t p q r u v w = λ i. record {
  total = p i;
  passed = q i;
  failed = r i;
  warnings = u i;
  skipped = v i;
  critical = w i;
}

exclusive : (s a b : String) → (a == b) ≡ false → (s == a && s == b) ≡ false
exclusive s a b h = ground (arith, eq_iff s a, eq_iff s b, eq_iff a b)

plus-count_result :
    (s : Summary) (r : CheckResult) (rs : List CheckResult)
    → plus (count_result s r) (counted rs) ≡ plus s (counted (r ∷ rs))
unfolding count_result tally
plus-count_result s r rs =
    let pass_fail = exclusive r.status "pass" "fail" refl in
    Summary-path _ _ (ground arith) (ground arith) (ground (arith, pass_fail))
      (ground
        (arith, exclusive r.status "pass" "warning" refl, exclusive r.status "fail" "warning" refl))
      (ground (
        arith,
        exclusive r.status "pass" "skipped" refl,
        exclusive r.status "fail" "skipped" refl,
        exclusive r.status "warning" "skipped" refl,
      ))
      (ground (arith, pass_fail))

summary_loop_lem : (s : Summary) (rs : List CheckResult) → summary_loop s rs ≡ plus s (counted rs)
unfolding summary_loop tally
summary_loop_lem s [] =
    Summary-path _ _ refl (omega arith) (omega arith) (omega arith) (omega arith) (omega arith)
summary_loop_lem s (r ∷ rs) = summary_loop_lem (count_result s r) rs ∙ plus-count_result s r rs

length-tally : (rs : List CheckResult) → length rs ≡ tally (λ r. true) rs
unfolding tally
length-tally [] = refl
length-tally (r ∷ rs) = ground (arith, length-tally rs)

calculate_summary_lem : (rs : List CheckResult) → calculate_summary rs ≡ counted rs
unfolding calculate_summary
calculate_summary_lem rs =
    summary_loop_lem _ rs
    ∙ Summary-path _ _ (length-tally rs) (omega arith) (omega arith) (omega arith) (omega arith)
        (omega arith)

calculate_summary-same :
    (xs ys : List CheckResult) → SameResults xs ys → calculate_summary xs ≡ calculate_summary ys
calculate_summary-same xs ys h =
    calculate_summary_lem xs
    ∙ Summary-path _ _ (h _) (h _) (h _) (h _) (h _) (h _)
    ∙ sym (calculate_summary_lem ys)

-- The summary does not depend on the mode: whatever the order in which the goroutines of the parallel
-- run end, it is the summary of the sequential run.
pub parallel-summary :
    (d : Doctor) {t : Pending}
    → Reach (launched (filter_checks d)) t
    → t.running ≡ []
    → calculate_summary (sort_results t.results)
      ≡ calculate_summary (run_sequential (filter_checks d))
parallel-summary d run done = calculate_summary-same _ _ (parallel_lem (filter_checks d) run done).0

-- The four statuses of the source.
abbrev pub IsKnown : CheckResult → Type 0
IsKnown r =
    (r.status == "pass" || r.status == "fail" || r.status == "warning" || r.status == "skipped")
    ≡ true

tally-known :
    (rs : List CheckResult)
    → All IsKnown rs
    → tally (has_status "pass") rs
        + tally (has_status "fail") rs
        + tally (has_status "warning") rs
        + tally (has_status "skipped") rs
      ≡ length rs
unfolding tally
tally-known [] h = omega arith
tally-known (r ∷ rs) h = ground (
  arith,
  tally-known rs h.1,
  exclusive r.status "pass" "fail" refl,
  exclusive r.status "pass" "warning" refl,
  exclusive r.status "fail" "warning" refl,
  exclusive r.status "pass" "skipped" refl,
  exclusive r.status "fail" "skipped" refl,
  exclusive r.status "warning" "skipped" refl,
)

tally-critical : (rs : List CheckResult) → tally is_critical rs ≤ tally (has_status "fail") rs
unfolding tally
tally-critical [] = omega arith
tally-critical (r ∷ rs) = ground (arith, tally-critical rs)

-- If every result has one of the four statuses, the four counts add up to the number of results; the
-- critical failures are among the failures; and the report ends with the good verdict exactly if no
-- result failed, with the critical one exactly if a failed result is critical.
pub calculate_summary-verdict :
    (rs : List CheckResult)
    → All IsKnown rs
    → (let s = calculate_summary rs in
        (s.passed + s.failed + s.warnings + s.skipped ≡ length rs)
        × (s.critical ≤ s.failed)
        × ((verdict s ≡ all_passed) ↔ (tally (has_status "fail") rs ≡ 0))
        × ((verdict s ≡ critical_issues) ↔ (tally is_critical rs ≢ 0)))
unfolding verdict
calculate_summary-verdict rs h =
    let e = calculate_summary_lem rs in
    let c = tally-critical rs in
    let k = tally-known rs h in
    rw e (k, c, (λ x. ground arith, λ x. ground arith), (λ x. ground arith, λ x. ground arith))
