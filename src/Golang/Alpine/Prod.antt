-- ===== src/Golang/Alpine/Prod.antt =====
-- pkg/golang/alpine/golang.go: Prod.
use engine_ci.Base.{
  String, ◌⧺◌, Bool, true, false, Option, none, some, [], ◌∷◌, ◌==◌, if◌then◌else◌,
}
use engine_ci.Cri.Platform.{PlatformSpec}
use engine_ci.Cri.Manager.{ContainerConfig, blank, auto_platform, this_platform}
use engine_ci.Cri.Image.{image_uri_of}
use engine_ci.Container.Build.{custom_bool}
use engine_ci.Container.Action.{Outside, Action, ◌>>=◌, ◌>>◌, pure, or_panic, or_end, attempt}
use engine_ci.Container.Lifecycle.{
  get_build, get_id, create, start, stop, exec, inspect, commit, copy_file_to,
}
use engine_ci.Container.Images.{push}
use engine_ci.Container.Intermediate.{build_custom_prod_image}
use engine_ci.Golang.Alpine.{Toolchain}

-- The platform of a container that was inspected.
abbrev pub inspected_platform : ContainerConfig → Option PlatformSpec
inspected_platform info = elim info.platform [ this_platform p ↦ p.container | _ ↦ none ]

module _ {W : Type 0} (o : Outside W) (t : Toolchain) where
  abbrev pub prod_opts : ContainerConfig
  prod_opts = record blank {
    image = "alpine";
    cmd = "sleep" ∷ "300" ∷ [];
    platform = auto_platform;
    working_dir = "/src";
  }

  -- The part of `Prod` that puts the program into a container and commits it: the image's identifier.
  unfoldable pub pack : Action W String
  pack = do
    b ← get_build o
    or_end (← attempt (create o prod_opts))
    or_end (← attempt (start o))
    or_end (← attempt (exec o ("addgroup" ∷ "-g" ∷ "11211" ∷ "app" ∷ [])))
    or_end (← attempt (exec o ("adduser" ∷ "-D" ∷ "-u" ∷ "1121" ∷ "-G" ∷ "app" ∷ "app" ∷ [])))
    info ← or_end (← attempt (inspect o))
    p ← or_panic (inspected_platform info)
    or_end
        (← attempt (
          copy_file_to o (b.folder ⧺ "/" ⧺ b.app ⧺ "-" ⧺ p.os ⧺ "-" ⧺ p.architecture)
            ("/app/" ⧺ b.app)))
    id ←
        or_end
          (← attempt (
            commit o (b.image ⧺ ":" ⧺ b.image_tag) "Created from container"
              (("CMD [\"/app/" ⧺ b.app ⧺ "\"]") ∷ "USER app" ∷ "WORKDIR /app" ∷ [])))
    or_end (← attempt (stop o))
    pure id

  abbrev push_packaged : String → Action W String
  push_packaged id = do
    b ← get_build o
    or_end (← attempt (push o id (image_uri_of b.registry b.image b.image_tag) (some false)))
    get_id o

  abbrev pack_and_push : Action W String
  pack_and_push = do
    id ← pack
    b ← get_build o
    is_pushed ← or_panic (custom_bool b.custom "push" true)
    if is_pushed then push_packaged id else get_id o

  abbrev or_pack : String → Action W String
  or_pack image = if image == "" then pack_and_push else pure image

  -- `return "", nil`
  abbrev pub unless : Bool → Action W String → Action W String
  unless skipped m = if skipped then pure "" else m

  -- `Prod`
  unfoldable pub prod : Action W String
  prod = do
    b ← get_build o
    unless (b.env == "local")
        (unless (b.image == "") (build_custom_prod_image o t.source >>= or_pack))
