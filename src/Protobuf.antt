-- ===== src/Protobuf.antt =====
-- pkg/protobuf: the step that generates Go code from protobuf files. Not in the model: the values of
-- build.Stepper.
pub mod Script
use engine_ci.Base.{
  String, ◌⧺◌, Bool, true, false, ◌&&◌, not, Option, none, some, List, [], ◌∷◌, ◌++◌, ◌==◌,
  if◌then◌else◌, eqb, length,
}
use engine_ci.Cri.Platform.{get_platforms}
use engine_ci.Cri.Manager.{Result, ContainerConfig, blank, auto_platform}
use engine_ci.Cri.Image.{image_uri_of}
use engine_ci.Container.Build.{Build}
use engine_ci.Container.Action.{
  Outside, Outcome, returned, failed, exited, panicked, Action, ◌>>=◌, ◌>>◌, pure, fail, exit,
  panic, or_panic, or_end, attempt,
}
use engine_ci.Container.Lifecycle.{
  get_build, get_id, create, start, wait, copy_content_to, property, first_value,
}
use engine_ci.Container.Images.{pull}
use engine_ci.Container.Intermediate.{build_intermediate}
use engine_ci.Golang.Alpine.{bind_mount}
use engine_ci.Protobuf.Script.{BuildScript, script}

-- The embedded Dockerfile, SHA-256 in hexadecimal, absolute paths, and the archive of a source that goes
-- with a Dockerfile, if there is one.
pub record ProtobufProject : Type 0 where
  pub dockerfile : String
  pub checksum : String → String
  pub absolute : String → String
  pub source : Option (Result String)

-- `Matches`
unfoldable pub matches : Build → Bool
matches b = b.build_type == "GoLang" && not (eqb (length b.source_files) 0)

-- `Images`, which lists the one image of `Image`.
unfoldable pub protobuf_image : ProtobufProject → Build → String
protobuf_image p b = image_uri_of b.containify_registry "protobuf" (p.checksum p.dockerfile)

unfoldable pub protobuf_images : ProtobufProject → Build → List String
unfolding protobuf_image
protobuf_images p b = protobuf_image p b ∷ []

-- A property's first value, with a default for a property that is not there; none is the panic.
abbrev pub value_or : String → String → Build → Option String
value_or key default b = elim (property key b) [ none ↦ some default | some v ↦ first_value v ]

-- The script for what `newC` reads of a build.
unfoldable pub new_script : Build → Option BuildScript
new_script b = elim (value_or "protobuf_cmd" "protoc" b) [
  | none ↦ none
  | some command ↦ elim (value_or "withHttp" "" b) [
    | none ↦ none
    | some http ↦ elim (value_or "withTag" "" b) [
      | none ↦ none
      | some tag ↦ some (record {
        command = command;
        target_packages = b.source_packages;
        source_files = b.source_files;
        with_http = http == "true";
        with_tag = tag == "true";
      })
    ]
  ]
]

module _ {W : Type 0} (o : Outside W) (p : ProtobufProject) where
  -- `Pull`, which logs an error only.
  unfoldable pub pull_image : Action W (Unit {0})
  pull_image = do b ← get_build o; pulled ← attempt (pull o (protobuf_image p b ∷ [])); pure tt

  abbrev the_script : Outcome String → Action W String
  the_script (returned s) = pure s
  the_script (failed e) = fail e
  the_script (exited n) = exit
  the_script panicked = panic

  -- `CopyBuildScript`
  unfoldable pub copy_build_script : BuildScript → Action W (Unit {0})
  unfolding script
  copy_build_script bs = do
    text ← the_script (script bs)
    or_end (← attempt (copy_content_to o text "/tmp/script.sh"))

  abbrev pub generate_opts : Build → ContainerConfig
  generate_opts b = record blank {
    image = protobuf_image p b;
    cmd = "sh" ∷ "/tmp/script.sh" ∷ [];
    platform = auto_platform;
    working_dir = "/src";
    volumes = bind_mount (p.absolute ".") "/src" ∷ [];
  }

  -- `Generate`
  unfoldable pub generate : BuildScript → Action W (Unit {0})
  unfolding copy_build_script
  generate bs = do
    b ← get_build o
    or_end (← attempt (create o (generate_opts b)))
    or_end (← attempt (copy_build_script bs))
    or_end (← attempt (start o))
    or_end (← attempt (wait o))

  -- `Build`
  unfoldable pub build : Action W (Unit {0})
  build = do
    b ← get_build o
    platforms ← or_panic (get_platforms b.platform)
    build_intermediate o p.source (protobuf_image p b) p.dockerfile platforms

  abbrev run_with : BuildScript → Action W String
  run_with bs =
      if eqb (length bs.target_packages) 0 && eqb (length bs.source_files) 0
      then pure ""
      else (do pull_image; or_end (← attempt build); generate bs; get_id o)

  -- `newC` and `Run`
  unfoldable pub run : Action W String
  unfolding new_script
  run = do b ← get_build o; bs ← or_panic (new_script b); run_with bs
