-- ===== src/Doctor/Runtime.antt =====
-- pkg/doctor/runtime.go: is there a container runtime, does it answer, and which version is it.
use engine_ci.Base.{
  String, ◌⧺◌, true, false, Option, none, some, List, [], ◌∷◌, ◌==◌, if◌then◌else◌, trim_space,
}
use engine_ci.Cri.Manager.{Manager, Result, ok, err, crash, Listed}
use engine_ci.Container.Action.{Outcome, returned, panicked}
use engine_ci.Doctor.Check.{Check, CheckResult, new_check_result}
use engine_ci.Doctor.Surroundings.{Surroundings, described_check, concluded, runtime_known}

-- `NewRuntimeDetectionCheck`
unfoldable pub new_runtime_detection_check : Check
new_runtime_detection_check =
    described_check "Container Runtime Detection" "Container Runtime" "critical" true

-- `runtimeDetectionCheck.Run`
unfoldable pub run_detection : Surroundings → CheckResult
unfolding new_runtime_detection_check new_check_result
run_detection s =
    let r = new_check_result new_runtime_detection_check in
    if s.runtime == "unknown"
    then concluded r "fail" "No container runtime detected"
        ("Neither Docker nor Podman was found in PATH"
          ∷ "Engine-CI requires a container runtime to function" ∷ [])
        ("Install Docker: https://docs.docker.com/engine/install/"
          ∷ "Or install Podman: https://podman.io/getting-started/installation"
          ∷ "Ensure the runtime binary is in your PATH" ∷ [])
    else concluded r "pass" ("Detected container runtime: " ⧺ s.runtime) [] []

-- `NewRuntimeConnectivityCheck`
unfoldable pub new_runtime_connectivity_check : Surroundings → Check
new_runtime_connectivity_check s =
    described_check "Runtime API Connectivity" "Runtime Connectivity" "critical" (runtime_known s)

abbrev connection_advice : String → List String
connection_advice runtime =
    if runtime == "docker"
    then "Check if Docker daemon is running: systemctl status docker"
      ∷ "Verify Docker socket exists: ls -la /var/run/docker.sock"
      ∷ "Check socket permissions: docker ps"
      ∷ "Add your user to docker group: sudo usermod -aG docker $USER"
      ∷ "Restart your session after adding to docker group" ∷ []
    else if runtime == "podman"
    then "Check if Podman socket is running: systemctl --user status podman.socket"
      ∷ "Start Podman socket: systemctl --user start podman.socket"
      ∷ "Verify Podman connection: podman info" ∷ []
    else "Check runtime daemon/service status" ∷ "Verify socket accessibility" ∷ []

-- The end of the check, once the runtime has listed its containers.
abbrev after_list : Surroundings → Result (List Listed) → Outcome CheckResult
after_list s (ok containers) = returned (
    concluded (new_check_result (new_runtime_connectivity_check s)) "pass"
      (s.runtime ⧺ " API is accessible and working") [] [])
after_list s (err e) = returned (
    concluded (new_check_result (new_runtime_connectivity_check s)) "warning"
      ("Connected to " ⧺ s.runtime ⧺ " but API call failed")
      (("Error listing containers: " ⧺ e) ∷ [])
      ("Check runtime logs for errors" ∷ "Verify runtime daemon is healthy" ∷ []))
after_list s crash = panicked

-- `RuntimeConnectivityCheck.Run`
unfoldable pub run_connectivity :
    {W : Type 0} → Surroundings → Manager W → W → Outcome CheckResult × W
unfolding new_runtime_connectivity_check new_check_result
run_connectivity s manager w = elim s.connect [
  | some e ↦ (
    returned (
        concluded (new_check_result (new_runtime_connectivity_check s)) "fail"
          ("Failed to connect to " ⧺ s.runtime) (("Error: " ⧺ e) ∷ [])
          (connection_advice s.runtime)),
    w,
  )
  | none ↦ (let (listed, w') = manager.container_list false w in (after_list s listed, w'))
]

-- `NewRuntimeVersionCheck`
unfoldable pub new_runtime_version_check : Surroundings → Check
new_runtime_version_check s =
    described_check "Runtime Version Check" "Container Runtime" "warning" (runtime_known s)

abbrev version_command : String → Option (List String)
version_command runtime =
    if runtime == "docker"
    then some ("docker" ∷ "version" ∷ "--format" ∷ "{{.Server.Version}}" ∷ [])
    else if runtime == "podman"
    then some ("podman" ∷ "version" ∷ "--format" ∷ "{{.Version}}" ∷ [])
    else none

-- `RuntimeVersionCheck.Run`
unfoldable pub run_version : Surroundings → Outcome CheckResult
unfolding new_runtime_version_check new_check_result trim_space
run_version s =
    let r = new_check_result (new_runtime_version_check s) in
    elim (version_command s.runtime) [
      | none ↦ returned (concluded r "skipped" "Version check not supported for this runtime" [] [])
      | some cmd ↦ elim (s.output cmd) [
        | ok out ↦ returned (concluded r "pass" (s.runtime ⧺ " version: " ⧺ trim_space out) [] [])
        | err e ↦ returned (
            concluded r "warning" "Could not determine runtime version" (("Error: " ⧺ e) ∷ []) (
              ("Verify " ⧺ s.runtime ⧺ " is properly installed")
              ∷ ("Try running: " ⧺ s.runtime ⧺ " version")
              ∷ []))
        | crash ↦ panicked
      ]
    ]
