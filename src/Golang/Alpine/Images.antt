-- ===== src/Golang/Alpine/Images.antt =====
-- Which of the Go steps takes a build, and with which image.
use engine_ci.Base.{
  String, ◌⧺◌, Bool, true, false, ◌&&◌, Option, none, some, List, [], ◌∷◌, ◌==◌, ◌≡◌, refl, arith,
  lookup, eq_iff, Option-cases, inl, inr,
}
use engine_ci.Container.Build.{Build, ContainerFile}
use engine_ci.Golang.Alpine.{
  Toolchain, matches, matches_variant, docker_file, go_image, go_images, from_matches,
}

one_name : (from a b : String) → (a == b) ≡ false → ((from == a) && (from == b)) ≡ false
one_name from a b h = ground (arith, h, eq_iff from a, eq_iff from b, eq_iff a b)

from_matches-exclusive :
    (default : Bool) (a b : String) (from : Option (List String))
    → (a == b) ≡ false
    → (from_matches default a from && from_matches false b from) ≡ false
from_matches-exclusive default a b none h = ground arith
from_matches-exclusive default a b (some []) h = ground arith
from_matches-exclusive default a b (some (from ∷ rest)) h = one_name from a b h

-- No build is taken by two of the steps for Alpine, for Debian and for Debian with cgo.
pub matches-exclusive :
    (b : Build)
    → ((matches b && matches_variant "debian" b) ≡ false)
      × ((matches b && matches_variant "debiancgo" b) ≡ false)
      × ((matches_variant "debian" b && matches_variant "debiancgo" b) ≡ false)
unfolding matches matches_variant
matches-exclusive b =
    let from = lookup "from" b.custom in
    (
      ground (arith, from_matches-exclusive true "alpine" "debian" from refl),
      ground (arith, from_matches-exclusive true "alpine" "debiancgo" from refl),
      ground (arith, from_matches-exclusive false "debian" "debiancgo" from refl),
    )

-- The image in which a build runs is the last of those that the step lists, behind the Go image of the
-- version of the same Dockerfile.
pub go_images-go_image :
    (t : Toolchain) (b : Build) (image : String)
    → go_image t b ≡ some image
    → (file : ContainerFile) × (version : String) × (docker_file t b ≡ some (file, version))
      × (go_images t b ≡ some (("golang:" ⧺ version) ∷ "alpine:latest" ∷ image ∷ []))
unfolding go_image go_images
go_images-go_image t b image h = elim (Option-cases (docker_file t b)) [
  | inl e ↦ absurd (ground (arith, e, h))
  | inr ((file, version), e) ↦ (file, version, e, ground (arith, e, h))
]
