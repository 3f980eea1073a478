-- ===== src/Doctor/Check.antt =====
-- pkg/doctor/check.go and doctor.go: the checks, their selection, and the sequential run. What a check
-- does to the host is the field `run`; the metadata and the error of a result are left out, since
-- nothing here reads them.
use engine_ci.Base.{
  String, Bool, false, List, [], ◌∷◌, ◌++◌, ◌==◌, not, if◌then◌else◌, contains, text_lt,
}

-- `CheckSeverity`, `CheckStatus` and `CheckCategory` are texts.
pub record CheckResult : Type 0 where
  pub check_name : String
  pub category : String
  pub severity : String
  pub status : String
  pub message : String
  pub details : List String
  pub suggestions : List String

-- `Check` with the method `Run` of its CheckRunner.
pub record Check : Type 0 where
  pub name : String
  pub category : String
  pub severity : String
  pub should_run : Bool
  pub run : CheckResult

-- `NewCheckResult`
unfoldable pub new_check_result : Check → CheckResult
new_check_result c = record {
  check_name = c.name;
  category = c.category;
  severity = c.severity;
  status = "";
  message = "";
  details = [];
  suggestions = [];
}

pub record Doctor : Type 0 where
  pub checks : List Check
  pub categories : List String
  pub parallel : Bool

-- `RegisterCheck`
unfoldable pub register_check : Doctor → Check → Doctor
register_check d c = record d { checks = d.checks ++ c ∷ [] }

-- No categories given means all of them.
abbrev pub is_wanted : List String → Check → Bool
is_wanted [] c = c.should_run
is_wanted (k ∷ ks) c = if not (contains (k ∷ ks) c.category) then false else c.should_run

-- The loop of `filterChecks`.
unfoldable pub filter_from : List String → List Check → List Check
filter_from wanted [] = []
filter_from wanted (c ∷ cs) =
    let rest = filter_from wanted cs in if is_wanted wanted c then c ∷ rest else rest

unfoldable pub filter_checks : Doctor → List Check
filter_checks d = filter_from d.categories d.checks

-- `runSequential`
unfoldable pub run_sequential : List Check → List CheckResult
run_sequential [] = []
run_sequential (c ∷ cs) = c.run ∷ run_sequential cs

-- The comparison of runParallel.
abbrev pub comes_before : CheckResult → CheckResult → Bool
comes_before r s =
    if not (r.category == s.category)
    then text_lt r.category s.category
    else text_lt r.check_name s.check_name

-- `sort.Slice` by that comparison. It promises no order of two results that agree in category and
-- name; this one is stable.
unfoldable pub insert_result : CheckResult → List CheckResult → List CheckResult
insert_result r [] = r ∷ []
insert_result r (s ∷ ss) =
    let rest = insert_result r ss in if comes_before s r then s ∷ rest else r ∷ s ∷ ss

unfoldable pub sort_results : List CheckResult → List CheckResult
sort_results [] = []
sort_results (r ∷ rs) = insert_result r (sort_results rs)
