-- ===== src/Cri/Platform/Conversion.antt =====
-- Which platforms an image is built for, and which one a container runs on.
use engine_ci.Base.{
  String, ◌⧺◌, some, [], ◌∷◌, ◌==◌, ◌≡◌, ◌≢◌, ◌⊎◌, arith, eq_iff, eq_refl, if◌then◌else◌,
  Bool-cases, inl, inr,
}
use engine_ci.Cri.Platform.{
  PlatformSpec, Platform, spec, to_string, get_container_platform, get_platforms,
}

-- On a host that is not macOS the image is built for the host's own platform alone.
pub get_platforms-host :
    (p : Platform) (host : PlatformSpec)
    → p.host ≡ some host
    → host.os ≢ "darwin"
    → get_platforms p ≡ some (to_string host ∷ [])
unfolding get_platforms
get_platforms-host p host e ne =
    ground (arith, eq_iff host.os "darwin", eq_refl host.os, eq_refl host.architecture)

abbrev pub other_arch : String → String
other_arch arch = if arch == "arm64" then "amd64" else "arm64"

-- On a macOS host of one of the two known architectures an image is built for Linux on that
-- architecture first, and then for Linux on the other one.
pub get_platforms-darwin :
    (p : Platform) (arch v : String)
    → p.host ≡ some (record { os = "darwin"; architecture = arch; variant = v })
    → (arch ≡ "arm64") ⊎ (arch ≡ "amd64")
    → get_platforms p
      ≡ some (to_string (spec "linux" arch) ∷ to_string (spec "linux" (other_arch arch)) ∷ [])
unfolding get_platforms
get_platforms-darwin p arch v e (inl a) = rw (e, a)
get_platforms-darwin p arch v e (inr a) = rw (e, a)

-- The container's platform is settled by one conversion.
pub get_container_platform_idem :
    (host : PlatformSpec)
    → get_container_platform (get_container_platform host) ≡ get_container_platform host
unfolding get_container_platform
get_container_platform_idem host =
    let key = host.os ⧺ "/" ⧺ host.architecture in
    elim (Bool-cases (key == "darwin/amd64")) [
      | inl e ↦ rw e
      | inr e ↦ elim (Bool-cases (key == "darwin/arm64")) [
        | inl f ↦ rw (e, f)
        | inr f ↦ rw (e, f) (rw (e, f))
      ]
    ]
