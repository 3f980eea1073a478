-- ===== src/Tests/VolumeTests.antt =====
-- The test of a mounted directory, with the runtime in memory.
use engine_ci.Base.{
  String, true, false, none, some, Option, [], pos, cut, split, lookup, join, has_char, ◌∷◌, ◌≡◌,
  refl, inl, has_text, has_prefix, strip_prefix?,
}
use engine_ci.Cri.Manager.{Manager, ok, blank, this_platform}
use engine_ci.Cri.Platform.{Platform, spec, to_string, get_platform_spec}
use engine_ci.Cri.Image.{name_and_tag, match_from, parse_docker_image}
use engine_ci.Container.Action.{Outside, State, Outcome, returned, failed, exited, panicked}
use engine_ci.Container.Build.{set_defaults}
use engine_ci.Container.Lifecycle.{
  create, create_new, describe, find_named, get_containify_host, inspect, parse_image_tag,
  safe_short, slice_front, start, wait, registry_auth_base64,
}
use engine_ci.Container.Images.{pull, ensure_images_exist, ensure_image, container_platform}
use engine_ci.Utils.Environment.{get_value_of}
use engine_ci.Doctor.Check.{CheckResult, new_check_result}
use engine_ci.Doctor.Surroundings.{Surroundings}
use engine_ci.Doctor.Runtime.{run_detection}
use engine_ci.Doctor.VolumeConfig.{run_volume_config, new_volume_config_check}
use engine_ci.Doctor.VolumeTest.{
  run_write_test, test_body, from_directory, in_directory, new_volume_write_test_check, clean_up,
  remove_test_container, verify_file, after_test, TestRun,
}
use engine_ci.Doctor.VolumeRun.{run_volume_test, new_with_manager, get_suggestions}
use engine_ci.Doctor.VolumeTest.Cleanup.{run_write_test-IsSafe, Ends, IsSafe}
use engine_ci.Tests.Samples.{host, outside, idle}

-- A host with a runtime of some kind, on which every file that is read holds the expected content.
abbrev around : String → Surroundings
around runtime = record {
  runtime = runtime;
  connect = none;
  go_os = "linux";
  env = λ name. "";
  file_exists = λ path. true;
  daemon_json = some (some (("userns-remap", "default") ∷ []));
  output = λ cmd. ok "27.1\n";
  make_temp = inl "/tmp/doctor";
  read_file = λ path. some "engine-ci-volume-test-7\n";
  now = "7";
}

abbrev judge : String → TestRun
judge runtime =
    after_test outside host (around runtime) (new_check_result new_volume_config_check)
      "/tmp/doctor" ("abc", none)

write_test : ((judge "docker").result.status ≡ "pass") × ((judge "docker").temp_dir ≡ "/tmp/doctor")
unfolding verify_file
write_test = (refl, refl)

-- On the host runtime it is not the directory that was made which is removed.
host_test : ((judge "host").result.status ≡ "pass") × ((judge "host").temp_dir ≡ "/tmp/doctor/src")
unfolding verify_file
host_test = (refl, refl)

skipped_test : ((judge "test").result.status ≡ "skipped") × ((judge "test").test_passed ≡ false)
skipped_test = (refl, refl)

-- A platform with a container of its own.
abbrev linux : Platform
linux = record { host = some (spec "linux" "amd64"); container = some (spec "linux" "amd64") }

-- A runtime that has every image and on which every container ends well.
abbrev well : Manager (Unit {0})
well = record {
  create_container = λ c a w. (ok "abcdef", w);
  start_container = λ id w. (ok tt, w);
  stop_container = λ id g w. (ok tt, w);
  commit_container = λ id c w. (ok "", w);
  remove_container = λ id w. (ok tt, w);
  container_list = λ all w. (ok [], w);
  container_logs = λ id w. (ok "", w);
  copy_content_to = λ id c d w. (ok tt, w);
  copy_directory_to = λ id c d w. (ok tt, w);
  copy_file_to = λ id c d w. (ok tt, w);
  copy_file_from = λ id f w. (ok "", w);
  exec_container = λ id c t w. (ok "", w);
  inspect_container = λ id w. (ok (record blank { platform = this_platform linux }), w);
  wait_container = λ id c w. (ok (some (pos 0)), w);
  build_image = λ a b c w. (ok "", w);
  build_multi_arch_image = λ a b c d e w. (ok ("", []), w);
  list_image = λ i w. (ok (i ∷ []), w);
  pull_image = λ i a p w. (ok "", w);
  tag_image = λ a b w. (ok tt, w);
  push_image = λ a b w. (ok "", w);
  remove_image = λ i w. (ok tt, w);
  inspect_image = λ i w. (ok (record { platform = some (spec "linux" "amd64"); id = "" }), w);
}

abbrev well_outside : Outside (Unit {0})
well_outside = record {
  manager = well;
  world = outside.world;
  go_os = "linux";
  go_arch = "amd64";
  encode_auth = λ a. "";
  contains_domain = λ s. false;
  format_int = λ i. "0";
}

abbrev fresh : State (Unit {0})
fresh = record { container = idle.container; runtime = tt; log = []; streams = [] }

abbrev status_of : Outcome (CheckResult × Option String) → Option (String × Option String)
status_of (returned (r, d)) = some (r.status, d)
status_of (failed e) = some (e, none)
status_of (exited n) = some ("exited", none)
status_of panicked = none

-- The run of the example passes, and removes its directory.
run_passes :
    status_of (run_write_test well_outside host (around "docker") false fresh).0
    ≡ some ("pass", some "/tmp/doctor")
unfolding run_write_test test_body from_directory in_directory new_volume_write_test_check
    new_check_result run_volume_test new_with_manager set_defaults pull ensure_images_exist
    ensure_image container_platform create create_new describe find_named get_containify_host
    inspect parse_image_tag safe_short slice_front start wait to_string clean_up
    remove_test_container verify_file registry_auth_base64 parse_docker_image name_and_tag
    match_from get_platform_spec lookup join has_char get_value_of has_text has_prefix strip_prefix?
    cut split
run_passes = refl

run_write_test-IsSafe_example :
    Ends
      (IsSafe (around "docker") false)
      (run_write_test well_outside host (around "docker") false fresh).0
run_write_test-IsSafe_example =
    run_write_test-IsSafe well_outside host (around "docker") false fresh

-- The message of a container that ended with an error meets no branch of its own.
advice_test :
    get_suggestions "failed to wait for container: container alpine exited with status 1"
    ≡ get_suggestions "something else"
unfolding get_suggestions has_text has_prefix strip_prefix?
advice_test = refl

version_message : (run_detection (around "docker")).message ≡ "Detected container runtime: docker"
unfolding run_detection
version_message = refl

config_test :
    (run_volume_config (around "docker")).details
    ≡ "Platform: Linux (docker)" ∷ "/etc/subuid: exists" ∷ "/etc/subgid: exists"
      ∷ "daemon.json: userns-remap=default" ∷ []
unfolding run_volume_config
config_test = refl
