-- ===== src/Golang/Script.antt =====
-- pkg/golang/buildscript/buildscript.go. What the templates of the package text/template write is written
-- out: no name holds a template action. `detect` is detectGoGenerate, which walks the file system. The
-- platforms are not nil.
pub mod Artifacts
use engine_ci.Base.{
  String, ◌⧺◌, Bool, true, false, List, [], ◌∷◌, ◌++◌, ◌==◌, if◌then◌else◌, join, map,
}
use engine_ci.Cri.Platform.{PlatformSpec}

-- `BuildScript`
pub record BuildScript : Type 0 where
  pub app_name : String
  pub main_file : String
  pub folder : String
  -- whether `Output` and `FileName` are set; they are the same templates in every script
  pub has_output : Bool
  pub coverage_mode : String
  pub tags : List String
  pub platforms : List PlatformSpec
  pub artifacts : List String
  pub verbose : Bool
  pub no_coverage : Bool
  pub should_generate : Bool

unfoldable pub should_generate : (String → Bool) → String → String → Bool
should_generate detect mode folder =
    if mode == "enabled" then true else if mode == "disabled" then false else detect folder

-- `NewBuildScript`
unfoldable pub new_build_script :
    (String → Bool)
    → String
    → String
    → String
    → List String
    → Bool
    → Bool
    → String
    → String
    → List PlatformSpec
    → BuildScript
new_build_script detect app main_file given tags verbose no_coverage coverage_mode mode platforms =
    let folder = if given == "" then "." else given in
    record {
      app_name = app;
      main_file = if main_file == "" then "./..." else main_file;
      folder = folder;
      has_output = if main_file == "" then false else true;
      coverage_mode = coverage_mode;
      tags = tags;
      platforms = platforms;
      artifacts = [];
      verbose = verbose;
      no_coverage = no_coverage;
      should_generate = should_generate detect mode folder;
    }

-- `FileName` for a platform.
unfoldable pub file_name : BuildScript → PlatformSpec → String
file_name bs p = bs.app_name ⧺ "-" ⧺ p.os ⧺ "-" ⧺ p.architecture

-- `Output` for a platform.
unfoldable pub output : BuildScript → PlatformSpec → String
unfolding file_name
output bs p =
    if bs.has_output
    then (if bs.folder == "."
        then "-o /src/" ⧺ file_name bs p
        else "-o /src/" ⧺ bs.folder ⧺ "/" ⧺ file_name bs p)
    else ""

abbrev pub tags_flag : List String → String
tags_flag [] = ""
tags_flag (t ∷ ts) = " -tags " ⧺ join "," (t ∷ ts)

-- `renderCompileCommand`
unfoldable pub compile_command : BuildScript → PlatformSpec → String
unfolding output
compile_command bs p =
    "env GOOS="
    ⧺ p.os
    ⧺ " GOARCH="
    ⧺ p.architecture
    ⧺ " go build"
    ⧺ tags_flag bs.tags
    ⧺ (if bs.verbose then " -x" else "")
    ⧺ " "
    ⧺ output bs p
    ⧺ " "
    ⧺ bs.main_file

-- The artifact that it adds.
unfoldable pub compiled : PlatformSpec → BuildScript → BuildScript
unfolding file_name
compiled p bs =
    if bs.has_output then record bs { artifacts = bs.artifacts ++ file_name bs p ∷ [] } else bs

unfoldable pub coverage : Bool → String → String
coverage no_coverage mode =
    if no_coverage
    then ""
    else if mode == "binary"
    then " -args -test.gocoverdir=${PWD}/.coverdata/unit"
    else " -cover -coverprofile coverage.txt"

-- `renderTestCommand`
unfoldable pub test_command : BuildScript → String
unfolding coverage
test_command bs =
    let flags = (if bs.verbose then " -v" else "") ⧺ " -timeout 120s" ⧺ tags_flag bs.tags in
    let cover = coverage bs.no_coverage bs.coverage_mode in
    if bs.coverage_mode == "binary"
    then "mkdir -p ${PWD}/.coverdata/unit\ngo test" ⧺ flags ⧺ " -cover ./..." ⧺ cover
    else "go test" ⧺ flags ⧺ cover ⧺ " ./..."

-- The loop of `goBuildCmds`: the commands, and the script with the artifacts that it has added.
unfoldable pub compile_all : List PlatformSpec → BuildScript → List String × BuildScript
unfolding compiled compile_command
compile_all [] bs = ([], bs)
compile_all (p ∷ ps) bs =
    let rest = compile_all ps (compiled p bs) in (compile_command bs p ∷ rest.0, rest.1)

unfoldable pub go_build_cmds : BuildScript → String × BuildScript
unfolding compile_all test_command
go_build_cmds bs =
    let commands = compile_all bs.platforms bs in
    (join "\n" (commands.0 ++ test_command commands.1 ∷ []), commands.1)

-- `String`: the text of the script, and the script with its artifacts.
unfoldable pub script : BuildScript → String × BuildScript
script bs =
    let commands = go_build_cmds bs in
    (
      "#!/bin/sh\nset -xe\nmkdir -p ~/.ssh\nssh-keyscan github.com >> ~/.ssh/known_hosts\ngit config --global url.\"ssh://git@github.com/.insteadOf\" \"https://github.com/\"\ncd "
          ⧺ bs.folder
          ⧺ "\n"
          ⧺ (if bs.should_generate then "go generate ./...\n" else "")
          ⧺ commands.0
          ⧺ "\n",
      commands.1,
    )
