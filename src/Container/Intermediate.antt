-- ===== src/Container/Intermediate.antt =====
-- pkg/container/container.go: BuildingContainer, BuildIntermidiateContainer, BuildCustomProdImage, Apply.
pub mod Decision
use engine_ci.Base.{
  ℕ, suc, String, ◌⧺◌, Bool, true, false, Option, none, some, List, [], ◌∷◌, ◌++◌, ◌==◌,
  if◌then◌else◌, length, lookup, eqb,
}
use engine_ci.Cri.Platform.{get_platforms}
use engine_ci.Cri.Manager.{Result, ok, err, crash, ContainerConfig}
use engine_ci.Container.Build.{Build, image_uri}
use engine_ci.Utils.Environment.{get_env}
use engine_ci.Container.Action.{
  Outside, Action, ◌>>=◌, ◌>>◌, pure, fail, exit, panic, gets, or_panic, or_exit, or_end, attempt,
}
use engine_ci.Container.Lifecycle.{get_build, property, create, copy_content_to, start, wait}
use engine_ci.Container.Images.{
  image_exists, pull_by_platform, container_platform, build_image, build_image_by_platforms, push,
  is_nil,
}

module _ {W : Type 0} (o : Outside W) where
  -- The lines that export the secrets, read one after the other.
  unfoldable pub exports : List String → Action W String
  exports [] = pure ""
  exports (secret ∷ secrets) = do
    v ← or_exit (get_env o.world secret "build")
    rest ← exports secrets
    pure ("export " ⧺ secret ⧺ "=" ⧺ v ⧺ "\n" ⧺ rest)

  abbrev copy_secrets : Option (List String) → Action W (Unit {0})
  copy_secrets none = pure tt
  copy_secrets (some secrets) = do
    lines ← exports secrets
    or_end (← attempt (copy_content_to o ("#!/bin/sh\nset +xe\n" ⧺ lines) "/tmp/secrets.sh"))

  -- `BuildingContainer`
  unfoldable pub building_container : ContainerConfig → Action W (Unit {0})
  building_container opts = do
    or_end (← attempt (create o (record opts { cmd = "sh" ∷ "/tmp/script.sh" ∷ [] })))
    or_end (← attempt (copy_content_to o opts.script "/tmp/script.sh"))
    b ← get_build o
    copy_secrets (property "secrets" b)
    or_end (← attempt (start o))
    wait o

  abbrev one_more : Result (Unit {0}) → ℕ → ℕ
  one_more (ok a) n = n
  one_more (err e) n = suc n
  one_more crash n = suc n

  -- The pulls of the image for every platform: how many fail.
  unfoldable pub pull_all : String → List String → Action W ℕ
  pull_all image [] = pure 0
  pull_all image (p ∷ ps) = do
    r ← attempt (pull_by_platform o p (image ∷ []))
    n ← pull_all image ps
    pure (one_more r n)

  -- The branch for one platform: build the image, and push it.
  unfoldable pub build_and_push : String → String → Action W (Unit {0})
  build_and_push image dockerfile = do
    or_end (← attempt (build_image o dockerfile image))
    or_end (← attempt (push o image image (some false)))

  abbrev or_build :
      Option (Result String)
      → String
      → String
      → List String
      → Result (Unit {0})
      → Action W (Unit {0})
  or_build source image dockerfile platforms (ok a) = pure tt
  or_build source image dockerfile platforms crash = panic
  or_build source image dockerfile platforms (err e) = elim source [
    | none ↦ build_archive none
    | some r ↦ do archive ← or_end r; build_archive (some archive)
  ]
    where
      build_archive : Option String → Action W (Unit {0})
      build_archive archive = do
        ids ← or_end (← attempt (build_image_by_platforms o dockerfile archive image platforms))
        pure tt

  -- The branch for several platforms; `source` is what TarDir makes of the source, if there is one.
  unfoldable pub build_multi :
      Option (Result String) → String → String → List String → Action W (Unit {0})
  build_multi source image dockerfile platforms = do
    platform ← container_platform o
    r ← attempt (pull_by_platform o platform (image ∷ []))
    or_build source image dockerfile platforms r

  abbrev platforms_or : List String → Action W (List String)
  platforms_or [] = do p ← container_platform o; pure (p ∷ [])
  platforms_or (p ∷ ps) = pure (p ∷ ps)

  abbrev pull_or_build :
      Option (Result String) → String → String → List String → Action W (Unit {0})
  pull_or_build source image dockerfile platforms = do
    failures ← pull_all image platforms
    if eqb failures 0
        then pure tt
        else if eqb (length platforms) 1
        then build_and_push image dockerfile
        else build_multi source image dockerfile platforms

  abbrev look_up : Option (Result String) → String → String → List String → Action W (Unit {0})
  look_up source image dockerfile platforms = do
    exists ← or_end (← attempt (image_exists o image platforms))
    if exists then pure tt else pull_or_build source image dockerfile platforms

  -- `BuildIntermidiateContainer`
  unfoldable pub build_intermediate :
      Option (Result String) → String → String → List String → Action W (Unit {0})
  build_intermediate source image dockerfile given = do
    platforms ← platforms_or given
    look_up source image dockerfile platforms

  abbrev pub wrapped : String → Result (Unit {0}) → Action W (Unit {0})
  wrapped message (ok a) = pure a
  wrapped message (err e) = fail (message ⧺ e)
  wrapped message crash = panic

  -- `BuildCustomProdImage`
  unfoldable pub build_custom_prod_image : Option (Result String) → Action W String
  build_custom_prod_image source = do
    b ← get_build o
    elim (lookup "prod" b.container_files) [
      | none ↦ pure ""
      | some file ↦ do
        let image = b.image ⧺ ":" ⧺ b.image_tag
        platforms ← or_panic (get_platforms b.platform)
        wrapped "build prod image from custom Dockerfile: "
            (← attempt (build_intermediate source image file.content platforms))
        wrapped "push prod image: " (← attempt (push o image (image_uri b) (some false)))
        pure image
    ]

  -- The lines that `Apply` adds to the environment.
  unfoldable pub env_lines : List String → Action W (List String)
  env_lines [] = pure []
  env_lines (e ∷ es) = do
    v ← or_exit (get_env o.world e "build")
    rest ← env_lines es
    pure ((e ⧺ "=" ⧺ v) ∷ rest)

  unfoldable pub apply_envs : ContainerConfig → Action W ContainerConfig
  apply_envs opts = do
    b ← get_build o
    elim (property "envs" b) [
      | none ↦ pure opts
      | some envs ↦ do lines ← env_lines envs; pure (record opts { env = opts.env ++ lines })
    ]
