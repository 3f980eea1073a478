-- ===== src/Container/Images/Ensured.antt =====
-- ensureImagesExists: what happens with the images behind one that had to be pulled for another platform.
use engine_ci.Base.{
  String, true, false, none, some, List, [], ◌∷◌, ◌++◌, ◌==◌, ◌≡◌, refl, arith, All,
}
use engine_ci.Cri.Platform.{PlatformSpec, to_string}
use engine_ci.Cri.Manager.{ok, ImageInfo}
use engine_ci.Logger.Message.{copy}
use engine_ci.Container.Action.{Outside, State, returned}
use engine_ci.Container.Lifecycle.{registry_auth_base64}
use engine_ci.Container.Images.{ensure_images_exist, ensure_image, pull_image, check_image}

-- The state in which the runtime is `w`.
abbrev pub at : {W : Type 0} → W → State W → State W
at w s = record s { runtime = w }

module _ {W : Type 0} (o : Outside W) (platform : String) where
  -- An image that is there for another platform is pulled for this one, and then no image behind it is
  -- looked at.
  pub ensure-stops :
      (image : String) (rest : List String) (s : State W) (name : String) (names : List String)
      (info : ImageInfo) (spec : PlatformSpec) (auth out : String) (listed shown pulled : W)
      → o.manager.list_image image s.runtime ≡ (ok (name ∷ names), listed)
      → o.manager.inspect_image image listed ≡ (ok info, shown)
      → info.platform ≡ some spec
      → to_string spec == platform ≡ false
      → registry_auth_base64 o image (at shown s) ≡ (returned auth, at shown s)
      → o.manager.pull_image image auth platform shown ≡ (ok out, pulled)
      → (copy out).1 ≡ none
      → ensure_images_exist o platform (image ∷ rest) s
        ≡ (returned tt, record s { runtime = pulled; log = s.log ++ (copy out).0 })
  unfolding ensure_images_exist ensure_image check_image pull_image
  ensure-stops image rest s name names info spec auth out listed shown pulled l i p d a u c =
      ground arith

  -- An image that is there for the platform, and the looks at which change nothing.
  pub IsPresent : W → String → Type 0
  IsPresent w image =
      (name : String) × (names : List String) × (info : ImageInfo) × (spec : PlatformSpec)
      × (o.manager.list_image image w ≡ (ok (name ∷ names), w))
      × (o.manager.inspect_image image w ≡ (ok info, w))
      × (info.platform ≡ some spec)
      × (to_string spec == platform ≡ true)

  -- If every image is there for the platform, then nothing is pulled and nothing changes.
  pub ensure-present :
      (images : List String) (s : State W)
      → All (IsPresent s.runtime) images
      → ensure_images_exist o platform images s ≡ (returned tt, s)
  unfolding ensure_images_exist ensure_image check_image IsPresent
  ensure-present [] s h = refl
  ensure-present (image ∷ images) s (((name, names, info, spec, l, i, p, d), hs)) =
      ground (arith, ensure-present images s hs)
