-- ===== src/Doctor/VolumeRun.antt =====
-- pkg/doctor/volume.go: the container that writes into a mounted directory, and the advice for its
-- errors.
use engine_ci.Base.{
  String, ◌⧺◌, true, ◌&&◌, ◌||◌, Option, none, some, List, [], ◌∷◌, if◌then◌else◌, has_text,
}
use engine_ci.Cri.Manager.{
  ok, err, crash, ContainerConfig, blank, PlatformChoice, no_platform, auto_platform, this_platform,
}
use engine_ci.Container.Action.{
  Container, Outside, Action, ◌>>=◌, ◌>>◌, pure, exit, panic, or_panic, attempt, modify,
}
use engine_ci.Container.Build.{Host, set_defaults}
use engine_ci.Container.Service.{empty_build}
use engine_ci.Container.Lifecycle.{create, start, inspect, wait, get_id}
use engine_ci.Container.Images.{pull}

-- `NewWithManager` (pkg/container/container.go)
unfoldable pub new_with_manager : Host → Container
unfolding set_defaults
new_with_manager h = record {
  id = "";
  name = "";
  image = "";
  prefix = "";
  opts = blank;
  build = set_defaults h empty_build;
  stream_logs = true;
}

abbrev test_image : String
test_image = "alpine:latest"

abbrev test_config : String → String → String → ContainerConfig
test_config name temp_dir content = record blank {
  name = name;
  image = test_image;
  cmd =
      "/bin/sh"
      ∷ "-c"
      ∷ ("echo '" ⧺ content ⧺ "' > /src/testfile.txt && cat /src/testfile.txt && sleep 1")
      ∷ [];
  volumes = record { type = "bind"; source = temp_dir; target = "/src" } ∷ [];
}

-- The fields of the inspected container's platform that are read for the log.
abbrev container_platform : PlatformChoice → Option (Unit {0})
container_platform no_platform = none
container_platform auto_platform = none
container_platform (this_platform p) = elim p.container [ none ↦ none | some spec ↦ some tt ]

abbrev pub Finished : Type 0
Finished = String × Option String

module _ {W : Type 0} (o : Outside W) where
  abbrev gone_wrong : String → Action W Finished
  gone_wrong message = do id ← get_id o; pure (id, some message)

  -- The test from its start on: the inspection that fails ends the process.
  abbrev after_create : Action W Finished
  after_create = do
    started ← attempt (start o)
    elim started [
      | err e ↦ gone_wrong ("failed to start container: " ⧺ e)
      | crash ↦ panic
      | ok u ↦ do
        info ← attempt (inspect o)
        elim info [
          | err e ↦ exit
          | crash ↦ panic
          | ok i ↦ do
            or_panic (container_platform i.platform)
            waited ← attempt (wait o)
            elim waited [
              | err e ↦ gone_wrong ("failed to wait for container: " ⧺ e)
              | crash ↦ panic
              | ok u ↦ do id ← get_id o; pure (id, none)
            ]
        ]
    ]

  -- `runVolumeTest`: the identifier of the container and the error.
  unfoldable pub run_volume_test : Host → String → String → String → Action W Finished
  unfolding new_with_manager pull create start inspect wait
  run_volume_test h now temp_dir content = do
    modify (λ c. record (new_with_manager h) {
      name = "engine-ci-doctor-volume-test-" ⧺ now;
      image = test_image;
    })
    pulled ← attempt (pull o (test_image ∷ []))
    elim pulled [
      | err e ↦ pure ("", some ("image not found and pull failed: " ⧺ e))
      | crash ↦ panic
      | ok u ↦ do
        created ←
            attempt
              (create o (test_config ("engine-ci-doctor-volume-test-" ⧺ now) temp_dir content))
        elim created [
          | err e ↦ pure ("", some ("failed to create container after image pull: " ⧺ e))
          | crash ↦ panic
          | ok u ↦ after_create
        ]
    ]

-- `getSuggestions`, for an error that is not nil.
unfoldable pub get_suggestions : String → List String
unfolding has_text
get_suggestions message =
    if has_text message "No such image" || has_text message "image not found"
    then "Test image (alpine:latest) not found locally"
      ∷ "Check network connectivity to pull images"
      ∷ "Try manually pulling: docker pull alpine:latest"
      ∷ "If behind a proxy, configure Docker proxy settings" ∷ []
    else if has_text message "pull" && has_text message "failed"
    then "Failed to pull test image from registry" ∷ "Check network connectivity"
      ∷ "Verify Docker Hub or registry is accessible"
      ∷ "If behind a firewall, check registry access" ∷ []
    else if has_text message "permission denied" || has_text message "access denied"
    then "Volume mount permissions may be incorrect"
      ∷ "Check user namespace configuration if on Linux"
      ∷ "If using Docker, verify userns-remap settings" ∷ "Try running: engine-ci github_actions"
      ∷ []
    else if has_text message "exited with code"
    then "Container failed to execute write test" ∷ "Volume mount may not be writable"
      ∷ "Check SELinux/AppArmor policies if on Linux"
      ∷ "Verify mount permissions with: ls -la <temp-dir>" ∷ []
    else "Volume write test encountered an error" ∷ "Check runtime logs for more details"
      ∷ "Verify Docker/Podman daemon is healthy" ∷ []
