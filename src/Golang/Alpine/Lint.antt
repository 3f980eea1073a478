-- ===== src/Golang/Alpine/Lint.antt =====
-- pkg/golang/alpine/golang.go: Lint; pkg/golang/alpine/golangcilint.go.
use engine_ci.Base.{
  String, ◌⧺◌, Bool, true, false, Option, none, some, List, [], ◌∷◌, ◌==◌, if◌then◌else◌, join,
  trim_suffix,
}
use engine_ci.Cri.Manager.{ContainerConfig, blank}
use engine_ci.Container.Build.{custom_strings}
use engine_ci.Container.Action.{Outside, Action, ◌>>=◌, ◌>>◌, or_exit, or_end, attempt}
use engine_ci.Container.Lifecycle.{get_build, get_id, create, start, wait, copy_content_to}
use engine_ci.Golang.Alpine.{Toolchain, go_image, forward, cache, bind_mount}

-- `customGCL.Defaults`, and the path of the binary.
unfoldable pub custom_gcl_path : String × String → String
custom_gcl_path c =
    (if c.0 == "" then "." else trim_suffix c.0 "/")
    ⧺ "/"
    ⧺ (if c.1 == "" then "custom-gcl" else c.1)

module _ (t : Toolchain) where
  -- `LintScript`, with the command; a test for .golangci.yml does not show in it.
  unfoldable pub lint_script : List String → String → Option String
  lint_script tags folder =
      let flags = if no_tags tags then "" else "--build-tags " ⧺ join "," tags in
      let head : String =
        "#!/bin/sh\nset -x\nmkdir -p ~/.ssh\nssh-keyscan github.com >> ~/.ssh/known_hosts\n" in
      let path = t.join_path folder ".custom-gcl.yml" in
      if t.file_exists path
      then elim (t.custom_gcl path) [
        | none ↦ none
        | some c ↦ some (head ⧺ "golangci-lint custom\n" ⧺ custom_gcl_path c ⧺ " run " ⧺ flags)
      ]
      else some (head ⧺ "golangci-lint -v run " ⧺ flags ⧺ " --timeout=5m")
    where
      no_tags : List String → Bool
      no_tags [] = true
      no_tags (x ∷ xs) = false

  abbrev pub lint_opts : String → String → Bool → String → ContainerConfig
  lint_opts image folder verbose cache_dir = record blank {
    image = image;
    env =
        "GOMODCACHE=/go/pkg/" ∷ "GOCACHE=/go/pkg/build-cache"
        ∷ "GOLANGCI_LINT_CACHE=/go/pkg/lint-cache" ∷ [];
    cmd = "sh" ∷ "/tmp/script.sh" ∷ (if verbose then "-v" ∷ [] else []);
    working_dir = "/src";
    volumes =
        bind_mount (t.absolute (if folder == "" then "." else folder)) "/src"
        ∷ bind_mount cache_dir "/go/pkg"
        ∷ [];
  }

module _ {W : Type 0} (o : Outside W) (t : Toolchain) where
  -- `Lint`
  unfoldable pub lint : Action W String
  lint = do
    b ← get_build o
    image ← or_exit (go_image t b)
    folder ← cache o t
    opts ← forward o t (lint_opts t image b.folder b.verbose folder)
    or_end (← attempt (create o opts))
    text ← or_exit (lint_script t (custom_strings b.custom "tags") b.folder)
    or_end (← attempt (copy_content_to o text "/tmp/script.sh"))
    or_end (← attempt (start o))
    wait o
    get_id o
