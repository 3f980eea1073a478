-- ===== src/Container/Intermediate/Decision.antt =====
-- BuildIntermidiateContainer: how it ends. Every error of a call is turned into the end of the process.
use engine_ci.Base.{
  ℕ, String, Option, none, some, List, [], ◌∷◌, ◌≡◌, ◌≢◌, refl, inl, inr, ◌⊎◌, arith,
}
use engine_ci.Cri.Manager.{Result, ok, err, crash}
use engine_ci.Container.Action.{
  Outside, State, Action, Outcome, returned, failed, exited, panicked, ◌>>=◌, pure, or_end,
  or_panic, attempt, panic,
}
use engine_ci.Container.Images.{container_platform, image_exists, pull_by_platform}
use engine_ci.Container.Intermediate.{
  build_intermediate, look_up, pull_or_build, platforms_or, pull_all, build_and_push, build_multi,
  or_build,
}

Outcome-cases :
    {A : Type 0} (r : Outcome A)
    → ((a : A) × (r ≡ returned a))
      ⊎ (((e : String) × (r ≡ failed e)) ⊎ (((n : ℕ) × (r ≡ exited n)) ⊎ (r ≡ panicked)))
Outcome-cases (returned a) = inl (a, refl)
Outcome-cases (failed e) = inr (inl (e, refl))
Outcome-cases (exited n) = inr (inr (inl (n, refl)))
Outcome-cases panicked = inr (inr (inr refl))

-- An operation that never answers an error: it returns, ends the process or panics.
abbrev pub NeverFails : {W A : Type 0} → Action W A → Type 0
NeverFails {W} m = (s : State W) (e : String) → (m s).0 ≢ failed e

module _ {W A : Type 0} where
  pure-NeverFails : (a : A) → NeverFails (pure {W = W} a)
  pure-NeverFails a s e h = ground (arith, h)

  or_end-NeverFails : (r : Result A) → NeverFails (or_end {W = W} r)
  or_end-NeverFails (ok a) s e h = ground (arith, h)
  or_end-NeverFails (err f) s e h = ground (arith, h)
  or_end-NeverFails crash s e h = ground (arith, h)

  or_panic-NeverFails : (r : Option A) → NeverFails (or_panic {W = W} r)
  or_panic-NeverFails none s e h = ground (arith, h)
  or_panic-NeverFails (some a) s e h = ground (arith, h)

  attempt-NeverFails : (m : Action W A) → NeverFails (attempt m)
  attempt-NeverFails m s e h = ground (arith, h)

  panic-NeverFails : NeverFails (panic {W = W} {A = A})
  panic-NeverFails s e h = ground (arith, h)

  bind-NeverFails :
      {B : Type 0} (m : Action W A) (f : A → Action W B)
      → NeverFails m
      → ((a : A) → NeverFails (f a))
      → NeverFails (m >>= f)
  bind-NeverFails m f h k s e g = elim (Outcome-cases (m s).0) [
    | inl (a, r) ↦ k a (m s).1 e (ground (arith, r, g))
    | inr (inl (e', r)) ↦ h s e' r
    | inr (inr (inl (n, r))) ↦ absurd (ground (arith, r, g))
    | inr (inr (inr r)) ↦ absurd (ground (arith, r, g))
  ]

module _ {W : Type 0} (o : Outside W) where
  container_platform-NeverFails : NeverFails (container_platform o)
  unfolding container_platform
  container_platform-NeverFails s e h = ground (arith, h)

  build_and_push-NeverFails :
      (image dockerfile : String) → NeverFails (build_and_push o image dockerfile)
  unfolding build_and_push
  build_and_push-NeverFails image dockerfile s e h = ground (arith, h)

  or_build-NeverFails :
      (source : Option (Result String)) (image dockerfile : String) (platforms : List String)
      (r : Result (Unit {0}))
      → NeverFails (or_build o source image dockerfile platforms r)
  or_build-NeverFails source image dockerfile platforms (ok a) s e h = ground (arith, h)
  or_build-NeverFails source image dockerfile platforms crash s e h = ground (arith, h)
  or_build-NeverFails none image dockerfile platforms (err f) s e h = ground (arith, h)
  or_build-NeverFails (some r) image dockerfile platforms (err f) s e h = ground (arith, h)

  build_multi-NeverFails :
      (source : Option (Result String)) (image dockerfile : String) (platforms : List String)
      → NeverFails (build_multi o source image dockerfile platforms)
  unfolding build_multi
  build_multi-NeverFails source image dockerfile platforms s e h = ground (
    arith,
    h,
    container_platform-NeverFails s e,
    or_build-NeverFails source image dockerfile platforms,
  )

  pull_all-NeverFails :
      (image : String) (platforms : List String) → NeverFails (pull_all o image platforms)
  unfolding pull_all
  pull_all-NeverFails image [] s e h = ground (arith, h)
  pull_all-NeverFails image (p ∷ ps) s e h =
      ground
        (arith, h, pull_all-NeverFails image ps (attempt (pull_by_platform o p (image ∷ [])) s).1 e)

  platforms_or-NeverFails : (given : List String) → NeverFails (platforms_or o given)
  platforms_or-NeverFails [] s e h = ground (arith, h, container_platform-NeverFails s e)
  platforms_or-NeverFails (p ∷ ps) s e h = ground (arith, h)

  pull_or_build-NeverFails :
      (source : Option (Result String)) (image dockerfile : String) (platforms : List String)
      → NeverFails (pull_or_build o source image dockerfile platforms)
  pull_or_build-NeverFails source image dockerfile platforms s e h =
      let pulled = (pull_all o image platforms s).1 in
      ground (
        arith,
        h,
        pull_all-NeverFails image platforms s e,
        build_and_push-NeverFails image dockerfile pulled e,
        build_multi-NeverFails source image dockerfile platforms pulled e,
      )

  -- The decision once the platforms are known.
  look_up-NeverFails :
      (source : Option (Result String)) (image dockerfile : String) (platforms : List String)
      → NeverFails (look_up o source image dockerfile platforms)
  look_up-NeverFails source image dockerfile platforms s e h = ground (
    arith,
    h,
    pull_or_build-NeverFails source image dockerfile platforms
        (attempt (image_exists o image platforms) s).1 e,
  )

  -- BuildIntermidiateContainer never answers an error, although its callers wrap one.
  pub build_intermediate-NeverFails :
      (source : Option (Result String)) (image dockerfile : String) (given : List String)
      → NeverFails (build_intermediate o source image dockerfile given)
  unfolding build_intermediate
  build_intermediate-NeverFails source image dockerfile given =
      bind-NeverFails (platforms_or o given) (look_up o source image dockerfile)
        (platforms_or-NeverFails given) (look_up-NeverFails source image dockerfile)
