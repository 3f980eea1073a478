-- ===== src/Tests/DoctorTests.antt =====
-- The diagnosis of a host on two checks.
use engine_ci.Base.{◌+◌, ◌≤◌, String, true, List, [], ◌∷◌, ◌≡◌, ◌≢◌, ◌↔◌, refl, length}
use engine_ci.Doctor.Check.{
  Check, CheckResult, Doctor, new_check_result, register_check, filter_checks, filter_from,
  run_sequential, sort_results,
}
use engine_ci.Doctor.Parallel.{
  Pending, append_result, Reach, here, next, launched, tally, SameResults, IsSorted, parallel_lem,
}
use engine_ci.Doctor.Summary.{
  calculate_summary, verdict, all_passed, critical_issues, has_status, is_critical,
  calculate_summary-verdict,
}

abbrev result : String → String → CheckResult
result name status = record {
  check_name = name;
  category = "Container Runtime";
  severity = "critical";
  status = status;
  message = "";
  details = [];
  suggestions = [];
}

abbrev check : String → String → Check
check name status = record {
  name = name;
  category = "Container Runtime";
  severity = "critical";
  should_run = true;
  run = result name status;
}

abbrev doctor : Doctor
doctor = record {
  checks = check "Version" "pass" ∷ check "Detection" "fail" ∷ [];
  categories = "Container Runtime" ∷ [];
  parallel = true;
}

blank : (new_check_result (check "Version" "pass")).status ≡ ""
unfolding new_check_result
blank = refl

registered : length (register_check doctor (check "Volume" "pass")).checks ≡ 3
unfolding register_check
registered = refl

abbrev ended : Pending
ended = record { running = []; results = result "Detection" "fail" ∷ result "Version" "pass" ∷ [] }

abbrev one_left : Pending
one_left = record {
  running = check "Version" "pass" ∷ [];
  results = result "Detection" "fail" ∷ [];
}

doctor_run : Reach (launched (filter_checks doctor)) ended
unfolding launched filter_checks filter_from
doctor_run =
    next
      (next here (
        append_result (launched (filter_checks doctor)) (check "Version" "pass" ∷ []) []
          (check "Detection" "fail") refl))
      (append_result one_left [] [] (check "Version" "pass") refl)

parallel_example :
    SameResults (sort_results ended.results) (run_sequential (filter_checks doctor))
    × IsSorted (sort_results ended.results)
parallel_example = parallel_lem (filter_checks doctor) doctor_run refl

abbrev both : List CheckResult
both = result "Version" "pass" ∷ result "Detection" "fail" ∷ []

calculate_summary-verdict_example :
    (let s = calculate_summary both in
      (s.passed + s.failed + s.warnings + s.skipped ≡ length both)
      × (s.critical ≤ s.failed)
      × ((verdict s ≡ all_passed) ↔ (tally (has_status "fail") both ≡ 0))
      × ((verdict s ≡ critical_issues) ↔ (tally is_critical both ≢ 0)))
calculate_summary-verdict_example = calculate_summary-verdict both (refl, (refl, tt))
