-- ===== src/Cri/Manager.antt =====
-- pkg/cri/manager.go and pkg/cri/types: the interface to a container runtime. A runtime is a state of a
-- type of its own, and an operation a function of that state; a reader is the text that it reads.
use engine_ci.Base.{
  Dict, ℕ, String, Bool, Option, none, some, List, [], ℤ, ◌==◌, if◌then◌else◌, not, ◌≡◌, refl, ◌⊎◌,
  inl, inr,
}
use engine_ci.Cri.Platform.{PlatformSpec, Platform}

-- A value, the message of an error, or neither.
pub data Result {ℓ} (A : Type ℓ) : Type ℓ where
  ok : A → Result A
  err : String → Result A
  -- the runtime itself panics
  crash : Result A

pub Result-cases {ℓ} :
    {A : Type ℓ} (r : Result A)
    → ((a : A) × (r ≡ ok a)) ⊎ (((e : String) × (r ≡ err e)) ⊎ (r ≡ crash))
Result-cases (ok a) = inl (a, refl)
Result-cases (err e) = inr (inl (e, refl))
Result-cases crash = inr (inr refl)

-- `types.Container`
pub record Listed : Type 0 where
  pub id : String
  pub image : String
  pub image_id : String
  pub names : List String

-- `Volume`, without its options, which only the podman manager reads.
pub record Volume : Type 0 where
  pub type : String
  pub source : String
  pub target : String

-- `*types.Platform` in a configuration: `types.AutoPlatform` is compared as a pointer.
pub data PlatformChoice : Type 0 where
  no_platform auto_platform : PlatformChoice
  this_platform : Platform → PlatformChoice

pub record ReadinessProbe : Type 0 where
  pub validate : Option (String → Bool)
  pub endpoint : String
  pub timeout : ℕ

-- `ContainerConfig`, without the ports, which no step that is modelled sets.
pub record ContainerConfig : Type 0 where
  pub readiness : Option ReadinessProbe
  pub secrets : Dict String
  pub platform : PlatformChoice
  pub working_dir : String
  pub image : String
  pub name : String
  pub script : String
  pub user : String
  pub cmd : List String
  pub entrypoint : List String
  pub env : List String
  pub volumes : List Volume
  pub memory : ℕ
  pub cpu : ℕ
  pub tty : Bool

-- `types.ContainerConfig{}`
abbrev pub blank : ContainerConfig
blank = record {
  readiness = none;
  secrets = [];
  platform = no_platform;
  working_dir = "";
  image = "";
  name = "";
  script = "";
  user = "";
  cmd = [];
  entrypoint = [];
  env = [];
  volumes = [];
  memory = 0;
  cpu = 0;
  tty = Bool.false;
}

-- `types.ImageInfo`; the platform is a pointer that may be nil.
pub record ImageInfo : Type 0 where
  pub platform : Option PlatformSpec
  pub id : String

pub record CommitOptions : Type 0 where
  pub reference : String
  pub comment : String
  pub changes : List String

-- `ContainerManager`
pub record Manager (W : Type 0) : Type 0 where
  pub create_container : ContainerConfig → String → W → Result String × W
  pub start_container : String → W → Result (Unit {0}) × W
  pub stop_container : String → String → W → Result (Unit {0}) × W
  pub commit_container : String → CommitOptions → W → Result String × W
  pub remove_container : String → W → Result (Unit {0}) × W
  pub container_list : Bool → W → Result (List Listed) × W
  pub container_logs : String → W → Result String × W
  pub copy_content_to : String → String → String → W → Result (Unit {0}) × W
  pub copy_directory_to : String → String → String → W → Result (Unit {0}) × W
  pub copy_file_to : String → String → String → W → Result (Unit {0}) × W
  pub copy_file_from : String → String → W → Result String × W
  pub exec_container : String → List String → Bool → W → Result String × W
  pub inspect_container : String → W → Result ContainerConfig × W
  pub wait_container : String → String → W → Result (Option ℤ) × W
  pub build_image : String → String → String → W → Result String × W
  pub build_multi_arch_image :
      String → Option String → String → List String → String → W → Result (String × List String) × W
  pub list_image : String → W → Result (List String) × W
  pub pull_image : String → String → String → W → Result String × W
  pub tag_image : String → String → W → Result (Unit {0}) × W
  pub push_image : String → String → W → Result String × W
  pub remove_image : String → W → Result (Unit {0}) × W
  pub inspect_image : String → W → Result ImageInfo × W

-- `DetectContainerRuntime`, on the variable CONTAINER_RUNTIME and whether docker and podman are on the
-- path; none is the end of the process.
unfoldable pub detect_container_runtime : String → Bool → Bool → Option String
detect_container_runtime runtime docker podman =
    if not (runtime == "")
    then (if runtime == "docker"
        then some "docker"
        else if runtime == "podman"
        then some "podman"
        else if runtime == "test"
        then some "test"
        else if runtime == "host"
        then some "host"
        else none)
    else if docker
    then some "docker"
    else if podman
    then some "podman"
    else some "unknown"
