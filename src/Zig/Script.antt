-- ===== src/Zig/Script.antt =====
-- pkg/zig/buildscript.go: the script that builds and tests a Zig project.
use engine_ci.Base.{String, ◌⧺◌, Bool, [], ◌∷◌, ◌==◌, if◌then◌else◌, join, ◌||◌}

abbrev pub option_flag : String → String → String
option_flag flag value = if value == "" then "" else flag ⧺ value

-- The commands of `zigBuildCmds`.
unfoldable pub build_cmd : String → String → Bool → String
build_cmd optimize target verbose =
    "zig build --color off --summary all"
    ⧺ option_flag " -Doptimize=" optimize
    ⧺ option_flag " -Dtarget=" target
    ⧺ (if verbose then " --verbose" else "")

unfoldable pub test_cmd : String → Bool → String
test_cmd folder verbose =
    "zig test "
    ⧺ (if folder == "" || folder == "." then "*" else folder ⧺ "/*.zig")
    ⧺ (if verbose then " 2>&1 | cat" else "")

unfoldable pub zig_build_cmds : String → String → String → Bool → String
unfolding build_cmd test_cmd
zig_build_cmds folder optimize target verbose = join "\n" (
    build_cmd optimize target verbose
    ∷ test_cmd folder verbose
    ∷ ("zig build test --summary all" ⧺ option_flag " -Dtarget=" target)
    ∷ [])

-- `NewBuildScript` and `Script`: the script sets the cache unless it is empty.
unfoldable pub script : String → String → String → Bool → String → String
unfolding zig_build_cmds
script folder optimize target verbose cache_dir =
    "#!/bin/sh\n"
    ⧺ (if verbose then "set -xe" else "set -e")
    ⧺ option_flag "\nexport ZIG_GLOBAL_CACHE_DIR=" cache_dir
    ⧺ "\n"
    ⧺ zig_build_cmds (if folder == "" then "." else folder) optimize target verbose
