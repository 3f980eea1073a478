-- ===== src/Doctor/Surroundings.antt =====
-- What the checks of pkg/doctor/runtime.go and volume.go ask the host, and what they share.
use engine_ci.Base.{String, Bool, not, Option, ◌⊎◌, List, [], ◌==◌, Dict}
use engine_ci.Cri.Manager.{Result}
use engine_ci.Doctor.Check.{Check, CheckResult}

-- `runtime` is what `cri.DetectContainerRuntime` answers; `connect` the error of
-- `cri.InitContainerRuntime`, which is the same for every call; `daemon_json` the file
-- /etc/docker/daemon.json: none if it cannot be read, and its parsed content if it can be parsed, with
-- the values as `%v` prints them; `output` what a program prints; `make_temp` the directory that
-- `os.MkdirTemp` makes, or its error; `now` the time in seconds.
pub record Surroundings : Type 0 where
  pub runtime : String
  pub connect : Option String
  pub go_os : String
  pub env : String → String
  pub file_exists : String → Bool
  pub daemon_json : Option (Option (Dict String))
  pub output : List String → Result String
  pub make_temp : String ⊎ String
  pub read_file : String → Option String
  pub now : String

-- A check before its methods are known: the result that is filled in stands for all of it.
abbrev pub described_check : String → String → String → Bool → Check
described_check name category severity should_run = record {
  name = name;
  category = category;
  severity = severity;
  should_run = should_run;
  run = record {
    check_name = name;
    category = category;
    severity = severity;
    status = "";
    message = "";
    details = [];
    suggestions = [];
  };
}

abbrev pub concluded : CheckResult → String → String → List String → List String → CheckResult
concluded r status message details suggestions = record r {
  status = status;
  message = message;
  details = details;
  suggestions = suggestions;
}

abbrev pub runtime_known : Surroundings → Bool
runtime_known s = not (s.runtime == "unknown")
