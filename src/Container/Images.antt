-- ===== src/Container/Images.antt =====
-- pkg/container/container.go: Pull, Tag, Push, BuildImage, ImageExists and their kin. A build's output is
-- written to the terminal, which is left out.
pub mod Ensured
pub mod Existing
use engine_ci.Base.{
  ℕ, String, ◌⧺◌, Bool, true, false, ◌&&◌, not, Option, none, some, List, [], ◌∷◌, ◌++◌, ◌==◌,
  if◌then◌else◌, Dict, lookup, insert, contains,
}
use engine_ci.Cri.Platform.{PlatformSpec, Platform, to_string}
use engine_ci.Cri.Manager.{Manager, Result, ok, err, ImageInfo}
use engine_ci.Container.Action.{
  Outside, Action, ◌>>=◌, ◌>>◌, pure, fail, panic, gets, or_panic, call, or_fail, attempt, copy_out,
}
use engine_ci.Container.Lifecycle.{get_build, registry_auth_base64}

abbrev pub platform_text : Option PlatformSpec → Option String
platform_text none = none
platform_text (some p) = some (to_string p)

abbrev pub is_nil {ℓ} : {A : Type ℓ} → List A → Bool
is_nil [] = true
is_nil (x ∷ xs) = false

-- The map `foundByPlatform` as the list of the platforms that are marked as found.
abbrev pub all_found : List String → List String → Bool
all_found [] found = true
all_found (p ∷ ps) found = contains found p && all_found ps found

abbrev pub mark : String → List String → List String → List String
mark platform platforms found = if contains platforms platform then platform ∷ found else found

-- The `Remove` of the first option, or its default for the runtime.
abbrev pub removes : Option Bool → String → Bool
removes (some r) runtime = r
removes none runtime = not (runtime == "podman")

module _ {W : Type 0} (o : Outside W) where
  -- PullImage, and the copy of its output into the log.
  unfoldable pub pull_image : String → String → Action W (Unit {0})
  pull_image image platform = do
    auth ← registry_auth_base64 o image
    out ← or_fail (← call (o.manager.pull_image image auth platform))
    copy_out out

  check_image : String → String → Action W Bool
  unfolding pull_image
  check_image platform image = do
    info ← or_fail (← call (o.manager.inspect_image image))
    found ← or_panic (platform_text info.platform)
    if not (found == platform) then (pull_image image platform >> pure false) else pure true

  -- What is done for one image: whether the loop goes on behind it.
  unfoldable pub ensure_image : String → String → Action W Bool
  unfolding check_image
  ensure_image platform image = do
    images ← or_fail (← call (o.manager.list_image image))
    if is_nil images then (pull_image image platform >> pure true) else check_image platform image

  -- The loop of `ensureImagesExists`: a pull for another platform ends it with `return nil`.
  unfoldable pub ensure_images_exist : String → List String → Action W (Unit {0})
  ensure_images_exist platform [] = pure tt
  ensure_images_exist platform (image ∷ images) = do
    goes_on ← ensure_image platform image
    if goes_on then ensure_images_exist platform images else pure tt

  -- `c.GetBuild().Platform.Container.String()`
  unfoldable pub container_platform : Action W String
  container_platform = do b ← get_build o; or_panic (platform_text b.platform.container)

  unfoldable pub pull : List String → Action W (Unit {0})
  pull images = do platform ← container_platform; ensure_images_exist platform images

  unfoldable pub pull_by_platform : String → List String → Action W (Unit {0})
  pull_by_platform platform images = ensure_images_exist platform images

  unfoldable pub pull_default : List String → Action W (Unit {0})
  pull_default images = pull_by_platform "" images

  unfoldable pub tag : String → String → Action W (Unit {0})
  tag source target = do or_fail (← call (o.manager.tag_image source target))

  abbrev remove_image : String → Action W (Unit {0})
  remove_image image = do or_fail (← call (o.manager.remove_image image))

  -- `Push`
  unfoldable pub push : String → String → Option Bool → Action W (Unit {0})
  push source target opts = do
    b ← get_build o
    tag source target
    auth ← registry_auth_base64 o target
    out ← or_fail (← call (o.manager.push_image target auth))
    copy_out out
    if removes opts b.runtime then remove_image target else pure tt

  unfoldable pub build_image_by_platform : String → String → String → Action W (Unit {0})
  build_image_by_platform dockerfile image platform = do
    out ← or_fail (← call (o.manager.build_image dockerfile image platform))
    pure tt

  unfoldable pub build_image : String → String → Action W (Unit {0})
  build_image dockerfile image = do
    platform ← container_platform
    build_image_by_platform dockerfile image platform

  -- `BuildImageByPlatforms`; the archive is none without a source.
  unfoldable pub build_image_by_platforms :
      String → Option String → String → List String → Action W (List String)
  build_image_by_platforms dockerfile archive image platforms = do
    auth ← registry_auth_base64 o image
    out ←
        or_fail (← call (o.manager.build_multi_arch_image dockerfile archive image platforms auth))
    pure out.1

  -- The loop of `ImageExists` over the images that are listed.
  exists_loop : String → List String → List String → List String → Action W Bool
  exists_loop image platforms found [] = pure (all_found platforms found)
  exists_loop image platforms found (i ∷ is) =
      let skipped = exists_loop image platforms found is in
      let next = λ (f : List String). exists_loop image platforms f is in
      if i == image
      then (if is_nil platforms then pure true else (do
        info ← or_fail (← call (o.manager.inspect_image image))
        platform ← or_panic (platform_text info.platform)
        next (mark platform platforms found)))
      else skipped

  -- `ImageExists`
  unfoldable pub image_exists : String → List String → Action W Bool
  unfolding exists_loop
  image_exists image platforms = do
    images ← or_fail (← call (o.manager.list_image image))
    exists_loop image platforms [] images
