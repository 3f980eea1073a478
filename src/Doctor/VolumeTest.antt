-- ===== src/Doctor/VolumeTest.antt =====
-- pkg/doctor/volume.go: what the host finds in the directory that the container wrote to, and what is
-- removed afterwards.
pub mod Advice
pub mod Cleanup
use engine_ci.Base.{
  String, ◌⧺◌, Bool, true, false, ◌&&◌, ◌||◌, not, Option, none, some, inl, inr, ◌⊎◌, List, [], ◌∷◌,
  ◌==◌, if◌then◌else◌, has_text,
}
use engine_ci.Cri.Platform.{Platform}
use engine_ci.Cri.Manager.{
  Manager, Result, ok, err, crash, ContainerConfig, blank, PlatformChoice, no_platform,
  auto_platform, this_platform, Volume,
}
use engine_ci.Container.Action.{
  Container, Outside, State, Outcome, returned, failed, exited, panicked, Action, ◌>>=◌, ◌>>◌, pure,
  exit, panic, gets, or_panic, call, attempt, modify,
}
use engine_ci.Container.Build.{Build, Host, set_defaults}
use engine_ci.Container.Service.{empty_build}
use engine_ci.Container.Lifecycle.{create, start, inspect, wait, get_id}
use engine_ci.Container.Images.{pull}
use engine_ci.Doctor.Check.{Check, CheckResult, new_check_result}
use engine_ci.Doctor.Surroundings.{Surroundings, described_check, concluded, runtime_known}
use engine_ci.Doctor.VolumeRun.{Finished, run_volume_test, get_suggestions}

-- `NewVolumeWriteTestCheck`
unfoldable pub new_volume_write_test_check : Surroundings → Check
new_volume_write_test_check s =
    described_check "Volume Write Permission Test" "User Permissions" "critical" (runtime_known s)

-- What `Run` knows when it returns: the variables that its deferred function reads.
pub record TestRun : Type 0 where
  pub result : CheckResult
  pub container_id : String
  pub temp_dir : String
  pub test_passed : Bool

abbrev pub content_of : Surroundings → String
content_of s = "engine-ci-volume-test-" ⧺ s.now

abbrev verified : CheckResult → String → String → Bool → TestRun
verified r id temp_dir passed = record {
  result = r;
  container_id = id;
  temp_dir = temp_dir;
  test_passed = passed;
}

-- The verdict on what the file holds, if it is there.
abbrev pub judged : Surroundings → CheckResult → String → String → Option String → TestRun
judged s r id temp_dir none =
    verified
      (concluded r "fail" "Test file was not created on host filesystem"
        ("Container executed successfully but file is missing"
          ∷ ("Expected file: " ⧺ temp_dir ⧺ "/testfile.txt")
          ∷ [])
        ("Volume mounting may not be working correctly"
          ∷ "Check SELinux/AppArmor policies if on Linux" ∷ "Verify mount propagation settings"
          ∷ []))
      id temp_dir false
judged s r id temp_dir (some actual) =
    if not (actual == content_of s ⧺ "\n")
    then verified
        (concluded r "fail" "Test file content does not match expected"
          (("Expected: " ⧺ content_of s) ∷ ("Got: " ⧺ actual) ∷ [])
          ("Volume data corruption or caching issue" ∷ []))
        id temp_dir false
    else verified (concluded r "pass" "Volume write permissions working correctly" [] []) id
        temp_dir true

-- What is found in the directory once the container has ended.
unfoldable pub verify_file : Surroundings → CheckResult → String → String → TestRun
verify_file s r id temp_dir = judged s r id temp_dir (s.read_file (temp_dir ⧺ "/testfile.txt"))

abbrev failed_with : CheckResult → String → String → List String → CheckResult
failed_with r message e suggestions = concluded r "fail" message (("Error: " ⧺ e) ∷ []) suggestions

abbrev pub ended : CheckResult → String → String → TestRun
ended r id temp_dir = verified r id temp_dir false

-- The directory in which the file is looked for.
abbrev pub checked_dir : Surroundings → String → String
checked_dir s temp_dir = if s.runtime == "host" then temp_dir ⧺ "/src" else temp_dir

-- `shouldCleanup`
abbrev pub cleans : Bool → TestRun → Bool
cleans keep t = t.test_passed && not keep

module _ {W : Type 0} (o : Outside W) (h : Host) (s : Surroundings) where
  abbrev pub after_test : CheckResult → String → Finished → TestRun
  after_test r temp_dir (id, some e) =
      ended (failed_with r "Volume write test failed" e (get_suggestions e)) id temp_dir
  after_test r temp_dir (id, none) =
      if s.runtime == "test"
      then ended (concluded r "skipped" "Volume write test skipped for test runtime" [] []) id
          temp_dir
      else verify_file s r id (checked_dir s temp_dir)

  -- The test in the directory that was made, given the error of the connection.
  unfoldable pub in_directory : CheckResult → String → Option String → Action W TestRun
  unfolding verify_file
  in_directory r temp_dir (some e) = pure (
      ended
        (failed_with r "Failed to initialize container runtime" e (
          "Check runtime connectivity with 'Runtime API Connectivity' check"
          ∷ "Verify Docker/Podman daemon is running" ∷ []))
        "" temp_dir)
  in_directory r temp_dir none = run_volume_test o h s.now temp_dir (content_of s) >>= λ finished.
      pure (after_test r temp_dir finished)

  unfoldable pub from_directory : CheckResult → String ⊎ String → Action W TestRun
  unfolding in_directory
  from_directory r (inr e) = pure (
      ended
        (failed_with r "Failed to create temporary directory" e
          ("Check disk space: df -h" ∷ "Check temp directory permissions" ∷ []))
        "" "")
  from_directory r (inl temp_dir) = in_directory r temp_dir s.connect

  -- `VolumeWriteTestCheck.Run` up to its deferred function.
  unfoldable pub test_body : Action W TestRun
  unfolding from_directory new_volume_write_test_check new_check_result
  test_body = from_directory (new_check_result (new_volume_write_test_check s)) s.make_temp

  unfoldable pub remove_test_container : Bool → TestRun → Action W (Unit {0})
  remove_test_container keep t =
      if not (t.container_id == "") && cleans keep t
      then elim s.connect [
        | some e ↦ pure tt
        | none ↦ do removed ← call (o.manager.remove_container t.container_id); pure tt
      ]
      else pure tt

  -- The deferred function: the container is removed, and the directory that is removed is answered.
  unfoldable pub clean_up : Bool → TestRun → Action W (Option String)
  clean_up keep t = remove_test_container keep t >>= λ u.
      pure (if not (t.temp_dir == "") && cleans keep t then some t.temp_dir else none)

  -- `VolumeWriteTestCheck.Run`, with the option KeepTestContainers; beside the result stands the
  -- directory that is removed.
  unfoldable pub run_write_test : Bool → Action W (CheckResult × Option String)
  unfolding test_body clean_up remove_test_container
  run_write_test keep = do t ← test_body; removed ← clean_up keep t; pure (t.result, removed)
