-- ===== src/Doctor/VolumeTest/Cleanup.antt =====
-- What the test leaves behind.
use engine_ci.Base.{
  String, ◌⧺◌, Bool, true, false, ◌&&◌, not, Option, none, some, ◌==◌, ◌≡◌, refl, arith,
  if◌then◌else◌, ◌⊎◌, inl, inr, eq_iff, Bool-cases, ap, ◌∙◌,
}
use engine_ci.Container.Action.{
  Outside, State, Action, ◌>>=◌, pure, Outcome, returned, failed, exited, panicked,
}
use engine_ci.Container.Build.{Host}
use engine_ci.Doctor.Check.{CheckResult, new_check_result}
use engine_ci.Doctor.Surroundings.{Surroundings}
use engine_ci.Doctor.VolumeTest.{
  TestRun, content_of, checked_dir, verify_file, test_body, clean_up, run_write_test, judged,
  cleans, remove_test_container, new_volume_write_test_check, after_test, in_directory,
  from_directory,
}
use engine_ci.Doctor.VolumeRun.{run_volume_test, Finished}

-- A result that says whether the test passed, and why it did.
pub record IsJudged (s : Surroundings) (t : TestRun) : Type 0 where
  pub passes : (t.result.status == "pass") ≡ t.test_passed
  pub content :
      t.test_passed ≡ true → s.read_file (t.temp_dir ⧺ "/testfile.txt") ≡ some (content_of s ⧺ "\n")

judged-IsJudged :
    (s : Surroundings) (r : CheckResult) (id dir : String) (found : Option String)
    → s.read_file (dir ⧺ "/testfile.txt") ≡ found
    → IsJudged s (judged s r id dir found)
judged-IsJudged s r id dir none e = record { passes = refl; content = λ t. absurd (ground arith) }
judged-IsJudged s r id dir (some actual) e = elim (Bool-cases (actual == content_of s ⧺ "\n")) [
  | inl b ↦ rw b (record {
    passes = refl;
    content = λ t. e ∙ ap some ((eq_iff actual (content_of s ⧺ "\n")).0 b);
  })
  | inr b ↦ rw b (record { passes = refl; content = λ t. absurd (ground arith) })
]

verify_file-IsJudged :
    (s : Surroundings) (r : CheckResult) (id dir : String) → IsJudged s (verify_file s r id dir)
unfolding verify_file
verify_file-IsJudged s r id dir =
    judged-IsJudged s r id dir (s.read_file (dir ⧺ "/testfile.txt")) refl

-- What may be removed beside a result.
abbrev pub IsSafe : Surroundings → Bool → CheckResult × Option String → Type 0
IsSafe s keep (r, none) = Unit
IsSafe s keep (r, some d) =
    ((r.status == "pass") ≡ true)
    × (keep ≡ false)
    × (s.read_file (d ⧺ "/testfile.txt") ≡ some (content_of s ⧺ "\n"))

-- A predicate of what an operation returns, if it returns.
abbrev pub Ends : {A : Type 0} → (A → Type 0) → Outcome A → Type 0
Ends P (returned a) = P a
Ends P (failed e) = Unit
Ends P (exited n) = Unit
Ends P panicked = Unit

-- The predicate is that of the last operation.
after_first :
    {W A B : Type 0} (P : B → Type 0) (m : Outcome A × State W) (f : A → Action W B)
    → ((a : A) (st : State W) → Ends P (f a st).0)
    → Ends P (((λ st. m) >>= f) m.1).0
after_first P (returned a, st) f h = h a st
after_first P (failed e, st) f h = tt
after_first P (exited n, st) f h = tt
after_first P (panicked, st) f h = tt

Ends-bind :
    {W A B : Type 0} (P : A → Type 0) (Q : B → Type 0) (m : Outcome A × State W)
    (f : A → Action W B)
    → Ends P m.0
    → ((a : A) (st : State W) → P a → Ends Q (f a st).0)
    → Ends Q (((λ st. m) >>= f) m.1).0
Ends-bind P Q (returned a, st) f h k = k a st h
Ends-bind P Q (failed e, st) f h k = tt
Ends-bind P Q (exited n, st) f h k = tt
Ends-bind P Q (panicked, st) f h k = tt

module _ {W : Type 0} (o : Outside W) (h : Host) (s : Surroundings) where
  after_test-IsJudged :
      (r : CheckResult) (dir : String) (f : Finished) → IsJudged s (after_test o h s r dir f)
  after_test-IsJudged r dir (id, some e) = record {
    passes = refl;
    content = λ t. absurd (ground arith);
  }
  after_test-IsJudged r dir (id, none) = elim (Bool-cases (s.runtime == "test")) [
    | inl b ↦ rw b (record { passes = refl; content = λ t. absurd (ground arith) })
    | inr b ↦ rw b (verify_file-IsJudged s r id (checked_dir s dir))
  ]

  in_directory-IsJudged :
      (r : CheckResult) (dir : String) (e : Option String) (st : State W)
      → Ends (IsJudged s) (in_directory o h s r dir e st).0
  unfolding in_directory
  in_directory-IsJudged r dir (some e) st = record {
    passes = refl;
    content = λ t. absurd (ground arith);
  }
  in_directory-IsJudged r dir none st =
      after_first (IsJudged s) (run_volume_test o h s.now dir (content_of s) st)
        (λ f. pure (after_test o h s r dir f)) (λ f st'. after_test-IsJudged r dir f)

  from_directory-IsJudged :
      (r : CheckResult) (d : String ⊎ String) (st : State W)
      → Ends (IsJudged s) (from_directory o h s r d st).0
  unfolding from_directory
  from_directory-IsJudged r (inl dir) st = in_directory-IsJudged r dir s.connect st
  from_directory-IsJudged r (inr e) st = record {
    passes = refl;
    content = λ t. absurd (ground arith);
  }

  test_body-IsJudged : (st : State W) → Ends (IsJudged s) (test_body o h s st).0
  unfolding test_body
  test_body-IsJudged st =
      from_directory-IsJudged (new_check_result (new_volume_write_test_check s)) s.make_temp st

  removed_dir-IsSafe :
      (keep : Bool) (t : TestRun)
      → IsJudged s t
      → IsSafe s keep
          (t.result, if not (t.temp_dir == "") && cleans keep t then some t.temp_dir else none)
  removed_dir-IsSafe keep t j = elim (Bool-cases (not (t.temp_dir == "") && cleans keep t)) [
    | inl b ↦ rw b (j.passes ∙ ground arith, ground arith, j.content (ground arith))
    | inr b ↦ rw b tt
  ]

  clean_up-IsSafe :
      (keep : Bool) (t : TestRun) (st : State W)
      → IsJudged s t
      → Ends (λ removed. IsSafe s keep (t.result, removed)) (clean_up o h s keep t st).0
  unfolding clean_up
  clean_up-IsSafe keep t st j =
      after_first (λ removed. IsSafe s keep (t.result, removed))
        (remove_test_container o h s keep t st)
        (λ u. pure (if not (t.temp_dir == "") && cleans keep t then some t.temp_dir else none))
        (λ u st'. removed_dir-IsSafe keep t j)

  -- However the runtime behaves: if the write test returns, a directory is removed only if the result
  -- is a pass, the containers are not to be kept, and the test file in that directory held the content
  -- that was asked for and a line feed.
  pub run_write_test-IsSafe :
      (keep : Bool) (st : State W) → Ends (IsSafe s keep) (run_write_test o h s keep st).0
  unfolding run_write_test
  run_write_test-IsSafe keep st =
      Ends-bind (IsJudged s) (IsSafe s keep) (test_body o h s st)
        (λ t. clean_up o h s keep t >>= λ removed. pure (t.result, removed)) (test_body-IsJudged st)
        (λ t st' j.
          Ends-bind (λ removed. IsSafe s keep (t.result, removed)) (IsSafe s keep)
            (clean_up o h s keep t st') (λ removed. pure (t.result, removed))
            (clean_up-IsSafe keep t st' j) (λ removed st'' k. k))
