-- ===== src/Engine/Cache.antt =====
-- cmd/cache.go: SaveCache and LoadCache, which run a shell command for every image and collect what
-- fails in a channel. The goroutines are steps of a transition system. Parameters: how an image is
-- taken apart, and the error of a command, if it fails.
pub mod Collected
pub mod Ends
use engine_ci.Base.{
  ℕ, zero, suc, ◌+◌, ◌-◌, ◌<◌, String, ◌⧺◌, Bool, true, false, Option, none, some, List, [], ◌∷◌,
  ◌++◌, ◌==◌, ◌≡◌, ◌⊎◌, if◌then◌else◌, length,
}
use engine_ci.Cri.Image.{DockerImage}
use engine_ci.Container.Action.{Outcome, returned, failed}
use engine_ci.Container.Build.{Build}

-- What the loop does for one image.
pub data Launch : Type 0 where
  in_background : String → Launch
  at_once : String → Launch
  left_out : Launch

-- `wait_group` counts the commands that are not done, `errs` is the channel, `closed` says that the
-- loops have ended and the channel was closed.
pub record CacheState : Type 0 where
  pub waiting : List String
  pub running : List String
  pub wait_group : ℕ
  pub errs : List String
  pub closed : Bool
  pub exited : Option ℕ

unfoldable pub initial : List String → CacheState
initial images = record {
  waiting = images;
  running = [];
  wait_group = 0;
  errs = [];
  closed = false;
  exited = none;
}

-- `make(chan error, len(images)+1)`
abbrev pub capacity : List String → ℕ
capacity images = suc (length images)

abbrev pub save_command : String → String → String
save_command image name =
    "\n\tset -x\n\tdocker pull " ⧺ image ⧺ "\n\tdocker save -o ~/image-cache/" ⧺ name ⧺ ".tar "
    ⧺ image ⧺ "\n\t"

abbrev pub load_command : String → String → String
load_command program name =
    "\n\tset -x\n\t" ⧺ program ⧺ " load -i ~/image-cache/" ⧺ name ⧺ ".tar\n\t"

module _ (parse : String → Option DockerImage) where
  -- The loop of `SaveCache`; none is the end of the process.
  unfoldable pub save_plan : String → Option Launch
  save_plan image = elim (parse image) [
    | none ↦ none
    | some info ↦ some (in_background (save_command image info.image))
  ]

  -- The loop of `LoadCache`, on the runtime of the first build.
  unfoldable pub load_plan : String → String → Option Launch
  load_plan runtime image = elim (parse image) [
    | none ↦ none
    | some info ↦ some (
        if runtime == "docker"
        then in_background (load_command "docker" info.image)
        else if runtime == "podman"
        then at_once (load_command "podman" info.image)
        else left_out)
  ]

-- What `LoadCache` tests before it looks at the images: the runtime of the first build.
unfoldable pub load_runtime : List (List Build) → Outcome String
load_runtime [] = failed "no build groups found in cache load"
load_runtime ([] ∷ groups) = failed "no builds found in first build group for cache load"
load_runtime ((b ∷ bs) ∷ groups) = returned b.runtime

module _ (plan : String → Option Launch) (run : String → Option String) (images : List String) where
  pub data Step : CacheState → CacheState → Type 0 where
    -- the loop adds to the wait group and starts a goroutine
    start_command :
        (s : CacheState) (image : String) (rest : List String) (c : String)
        → s.exited ≡ none
        → s.waiting ≡ image ∷ rest
        → plan image ≡ some (in_background c)
        → Step s (record s {
          waiting = rest;
          running = s.running ++ c ∷ [];
          wait_group = suc s.wait_group;
        })
    -- the loop runs the command itself, and sends its error
    run_now :
        (s : CacheState) (image : String) (rest : List String) (c : String)
        → s.exited ≡ none
        → s.waiting ≡ image ∷ rest
        → plan image ≡ some (at_once c)
        → run c ≡ none
        → Step s (record s { waiting = rest })
    fail_now :
        (s : CacheState) (image : String) (rest : List String) (c e : String)
        → s.exited ≡ none
        → s.waiting ≡ image ∷ rest
        → plan image ≡ some (at_once c)
        → run c ≡ some e
        → length s.errs < capacity images
        → Step s (record s { waiting = rest; errs = s.errs ++ e ∷ [] })
    leave_out :
        (s : CacheState) (image : String) (rest : List String)
        → s.exited ≡ none
        → s.waiting ≡ image ∷ rest
        → plan image ≡ some left_out
        → Step s (record s { waiting = rest })
    -- an image that cannot be taken apart ends the process
    give_up :
        (s : CacheState) (image : String) (rest : List String)
        → s.exited ≡ none
        → s.waiting ≡ image ∷ rest
        → plan image ≡ none
        → Step s (record s { exited = some 1 })
    -- some goroutine ends, and is done with the wait group
    end_command :
        (s : CacheState) (xs : List String) (c : String) (ys : List String)
        → s.exited ≡ none
        → s.running ≡ xs ++ c ∷ ys
        → run c ≡ none
        → Step s (record s { running = xs ++ ys; wait_group = s.wait_group - 1 })
    fail_command :
        (s : CacheState) (xs : List String) (c : String) (ys : List String) (e : String)
        → s.exited ≡ none
        → s.running ≡ xs ++ c ∷ ys
        → run c ≡ some e
        → length s.errs < capacity images
        → Step s (record s {
          running = xs ++ ys;
          wait_group = s.wait_group - 1;
          errs = s.errs ++ e ∷ [];
        })
    -- `wg.Wait()` returns, and the channel is closed
    close :
        (s : CacheState)
        → s.exited ≡ none
        → s.closed ≡ false
        → s.waiting ≡ []
        → s.wait_group ≡ 0
        → Step s (record s { closed = true })

  pub data Reach (s : CacheState) : CacheState → Type 0 where
    here : Reach s s
    next : {t u : CacheState} → Reach s t → Step t u → Reach s u

-- Where the run may stop: the process has ended, or the errors can be read.
abbrev pub IsFinal : CacheState → Type 0
IsFinal s = ((s.exited ≡ some 1) ⊎ (s.closed ≡ true))
