-- ===== src/Tests/Samples.antt =====
-- The data that the tests share.
use engine_ci.Base.{ℕ, String, Bool, true, false, Option, none, some, List, [], ◌∷◌}
use engine_ci.Cri.Platform.{unset}
use engine_ci.Container.Build.{Build, Host}
use engine_ci.Pipeline.Step.{BuildStep, Context}
use engine_ci.Cri.Manager.{blank, no_platform}
use engine_ci.Cri.Mock.{MockRuntime, new_mock}
use engine_ci.Cri.Mock.Runtime.{mock_manager}
use engine_ci.Container.Action.{Outside, State}
use engine_ci.Utils.Environment.{World}

abbrev pub host : Host
host = record { getenv = λ k. ""; go_os = "linux"; go_arch = "amd64" }

abbrev pub build : Build
build = record {
  platform = unset;
  custom = ("tags", "netgo" ∷ []) ∷ [];
  registries = none;
  secret = [];
  secrets = none;
  container_files = [];
  containify_registry = "";
  runtime = "docker";
  image = "app";
  image_tag = "v1";
  file = "/src/main.go";
  env = "";
  folder = "";
  repository = "";
  organization = "";
  app = "app";
  build_type = "GoLang";
  builder_function = "";
  registry = "";
  source_packages = "proto" ∷ [];
  source_files = "proto/a.proto" ∷ "proto/b.proto" ∷ [];
  verbose = true;
  defaults = false;
}

abbrev pub step : String → Bool → Option String → BuildStep
step name async err = record {
  alias = name;
  build_type = some "GoLang";
  name = name;
  images = λ b. "alpine" ∷ name ∷ [];
  intermediate_images = λ b. [];
  is_async = async;
  matches = λ b. true;
  run_with_build = λ b. (name, err);
}

abbrev pub compile : BuildStep
compile = step "compile" false none

abbrev pub lint : BuildStep
lint = step "lint" true (some "lint failed")

abbrev pub scan : BuildStep
scan = step "scan" false (some "scan failed")

abbrev pub in_category : String → BuildStep → Context
in_category c s = record { step = s; category = c; async = s.is_async }

abbrev pub pipeline : List Context
pipeline = in_category "build" compile ∷ in_category "quality" lint ∷ []

abbrev pub ids : ℕ → String
ids n = "abcdef"

abbrev pub world : World
world = record { env = λ k. ""; output = λ c. none; store = [] }

abbrev pub outside : Outside MockRuntime
outside = record {
  manager = mock_manager ids no_platform;
  world = world;
  go_os = "linux";
  go_arch = "amd64";
  encode_auth = λ a. "";
  contains_domain = λ s. false;
  format_int = λ i. "2";
}

-- A container before it is created.
abbrev pub idle : State MockRuntime
idle = record {
  container = record {
    id = "";
    name = "";
    image = "";
    prefix = "";
    opts = blank;
    build = build;
    stream_logs = false;
  };
  runtime = new_mock;
  log = [];
  streams = [];
}
