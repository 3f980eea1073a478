-- ===== src/Tests/CacheTests.antt =====
-- The cache of two images, of which the second cannot be saved.
use engine_ci.Base.{
  String, ◌==◌, Option, none, some, List, [], ◌∷◌, ◌≡◌, refl, if◌then◌else◌, arith, SameTexts, true,
}
use engine_ci.Cri.Image.{DockerImage}
use engine_ci.Engine.Cache.{
  CacheState, initial, save_plan, load_runtime, save_command, start_command, end_command,
  fail_command, close, Reach, here, next, IsFinal,
}
use engine_ci.Engine.Cache.Collected.{errors_of, commands_of}
use engine_ci.Engine.Cache.Ends.{cache_ends, cache-collected}
use engine_ci.Container.Action.{failed}

abbrev parse : String → Option DockerImage
parse image =
    if image == "bad"
    then none
    else some (record { server = "docker.io"; registry = ""; image = image; tag = "latest" })

abbrev shell : String → Option String
shell c = if c == save_command "zig" "zig" then some "exit status 1" else none

abbrev both : List String
both = "go" ∷ "zig" ∷ []

abbrev go_command : String
go_command = save_command "go" "go"

abbrev zig_command : String
zig_command = save_command "zig" "zig"

begun :
    Reach
      (save_plan parse)
      shell
      both
      (initial both)
      (record (initial both) { waiting = "zig" ∷ []; running = go_command ∷ []; wait_group = 1 })
unfolding initial save_plan
begun = next here (start_command _ "go" ("zig" ∷ []) go_command refl refl refl)

abbrev two_running : CacheState
two_running = record (initial both) {
  waiting = [];
  running = go_command ∷ zig_command ∷ [];
  wait_group = 2;
}

launched : Reach (save_plan parse) shell both (initial both) two_running
unfolding initial save_plan
launched = next begun (start_command _ "zig" [] zig_command refl refl refl)

abbrev collected : CacheState
collected = record (initial both) { waiting = []; errs = "exit status 1" ∷ []; closed = true }

saved : Reach (save_plan parse) shell both (initial both) collected
unfolding initial save_plan
saved =
    next
      (next
        (next launched (
          fail_command _ (go_command ∷ []) zig_command [] "exit status 1" refl refl refl
            (ground arith)))
        (end_command _ [] go_command [] refl refl refl))
      (close _ refl refl refl refl)

cache_ends_example : (u : CacheState) × Reach (save_plan parse) shell both two_running u × IsFinal u
cache_ends_example = cache_ends (save_plan parse) shell both two_running launched

cache-collected_example :
    SameTexts collected.errs
      (errors_of (save_plan parse) shell (commands_of (save_plan parse) shell both))
    × (collected.running ≡ [])
unfolding initial
cache-collected_example = cache-collected (save_plan parse) shell both collected saved refl

load_test : load_runtime ([] ∷ []) ≡ failed "no builds found in first build group for cache load"
unfolding load_runtime
load_test = refl
