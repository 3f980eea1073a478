-- ===== src/Doctor/VolumeConfig.antt =====
-- pkg/doctor/volume.go: the configuration of volume mounts.
use engine_ci.Base.{
  String, ◌⧺◌, true, Option, none, some, List, [], ◌∷◌, ◌++◌, ◌==◌, if◌then◌else◌, lookup, Dict,
}
use engine_ci.Doctor.Check.{Check, CheckResult, new_check_result}
use engine_ci.Doctor.Surroundings.{Surroundings, described_check, concluded}

-- `NewVolumeConfigCheck`
unfoldable pub new_volume_config_check : Check
new_volume_config_check =
    described_check "Volume Mount Configuration" "User Permissions" "warning" true

abbrev presence : Surroundings → String → String
presence s path = if s.file_exists path then path ⧺ ": exists" else path ⧺ ": not found"

abbrev daemon_details : Option (Option (Dict String)) → List String × List String
daemon_details none = (
  "daemon.json: not found" ∷ [],
  "Consider running 'engine-ci github_actions' to configure volume permissions for GitHub Actions"
      ∷ [],
)
daemon_details (some none) = ("daemon.json: parse error" ∷ [], [])
daemon_details (some (some config)) = elim (lookup "userns-remap" config) [
  | some value ↦ (("daemon.json: userns-remap=" ⧺ value) ∷ [], [])
  | none ↦ ("daemon.json: no userns-remap configured" ∷ [], [])
]

-- `checkLinuxDockerConfig`: the details and the suggestions that it adds.
unfoldable pub check_linux_docker_config : Surroundings → List String × List String
unfolding lookup
check_linux_docker_config s =
    let (details, suggestions) = daemon_details s.daemon_json in
    (presence s "/etc/subuid" ∷ presence s "/etc/subgid" ∷ details, suggestions)

abbrev linux_details : Surroundings → List String × List String
linux_details s =
    let platform = "Platform: Linux (" ⧺ s.runtime ⧺ ")" in
    let (details, suggestions) = check_linux_docker_config s in
    if s.runtime == "docker"
    then (platform ∷ details, suggestions)
    else if s.runtime == "podman"
    then (
      platform ∷ "Podman uses different permission model - user namespace checks not applicable"
          ∷ [],
      [],
    )
    else (platform ∷ [], [])

abbrev darwin_details : String → List String
darwin_details runtime =
    if runtime == "docker"
    then "Platform: macOS (Docker Desktop)" ∷ "Docker Desktop manages volume permissions via VM"
      ∷ "No host configuration needed - handled by Docker Desktop" ∷ []
    else if runtime == "podman"
    then "Platform: macOS (Podman)" ∷ "Podman on macOS runs in a VM (similar to Docker Desktop)"
      ∷ "Volume permissions handled by Podman machine VM" ∷ []
    else ("Platform: macOS (" ⧺ runtime ⧺ ")")
      ∷ "Volume permissions handled by container runtime"
      ∷ []

abbrev windows_details : String → List String
windows_details runtime =
    if runtime == "docker"
    then "Platform: Windows (Docker Desktop)" ∷ "Volume permissions handled by Docker Desktop/WSL2"
      ∷ []
    else if runtime == "podman"
    then "Platform: Windows (Podman)" ∷ "Podman on Windows runs in WSL2 VM"
      ∷ "Volume permissions handled by WSL2" ∷ []
    else ("Platform: Windows (" ⧺ runtime ⧺ ")")
      ∷ "Volume permissions handled by container runtime"
      ∷ []

abbrev platform_details : Surroundings → List String × List String
platform_details s =
    if s.go_os == "linux"
    then linux_details s
    else if s.go_os == "darwin"
    then (darwin_details s.runtime, [])
    else if s.go_os == "windows"
    then (windows_details s.runtime, [])
    else (("Platform: " ⧺ s.go_os ⧺ " (unknown)") ∷ [], [])

abbrev privileged_details : String → List String
privileged_details value = if value == "" then [] else ("CONTAINER_PRIVILGED: " ⧺ value) ∷ []

-- `VolumeConfigCheck.Run`
unfoldable pub run_volume_config : Surroundings → CheckResult
unfolding check_linux_docker_config new_volume_config_check new_check_result
run_volume_config s =
    let (details, suggestions) = platform_details s in
    concluded (new_check_result new_volume_config_check) "pass"
      ("Volume configuration checked on " ⧺ s.go_os)
      (privileged_details (s.env "CONTAINER_PRIVILGED") ++ details) suggestions
