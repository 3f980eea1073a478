-- ===== src/Container/Build/Defaulted.antt =====
-- What `Defaults` leaves behind.
use engine_ci.Base.{
  String, false, none, ◌==◌, ◌≡◌, ◌≢◌, refl, arith, if◌then◌else◌, eq_iff, subst, sym, Bool-cases,
  inl, inr,
}
use engine_ci.Cri.Platform.{Platform, unset, get_platform_spec}
use engine_ci.Container.Build.{
  Build, Host, image_uri, set_defaults, or_default, fill, or_host_platform,
}

-- A second call of `Defaults` changes nothing.
pub set_defaults_idem :
    (h : Host) (b : Build) → set_defaults h (set_defaults h b) ≡ set_defaults h b
unfolding set_defaults
set_defaults_idem h b = ground arith

-- Every text that a build step reads without a test is there.
pub record IsComplete (b : Build) : Type 0 where
  pub env : b.env ≢ ""
  pub folder : b.folder ≢ ""
  pub registry : b.registry ≢ ""
  pub containify_registry : b.containify_registry ≢ ""
  pub organization : b.organization ≢ ""
  pub registries : b.registries ≢ none
  pub secrets : b.secrets ≢ none
  pub platform : b.platform ≢ unset
  pub repository : b.image ≢ "" → b.repository ≢ ""

or_default-ne : (s d : String) → d ≢ "" → or_default s d ≢ ""
or_default-ne s d h = ground (arith, eq_iff s "")

or_host_platform-ne : (h : Host) (p : Platform) → or_host_platform h p ≢ unset
unfolding or_host_platform get_platform_spec
or_host_platform-ne h p = ground arith

ne_empty : (s : String) → (s == "") ≡ false → s ≢ ""
ne_empty s h = ground (arith, eq_iff s "")

fill-IsComplete : (h : Host) (b : Build) → IsComplete (fill h b)
unfolding fill
fill-IsComplete h b = record {
  env = or_default-ne b.env "build" (ne_empty "build" refl);
  folder = or_default-ne b.folder "." (ne_empty "." refl);
  registry = or_default-ne b.registry "containifyci" (ne_empty "containifyci" refl);
  containify_registry =
      or_default-ne b.containify_registry "containifyci" (ne_empty "containifyci" refl);
  organization = or_default-ne b.organization "containifyci" (ne_empty "containifyci" refl);
  registries = ground arith;
  secrets = ground arith;
  platform = or_host_platform-ne h b.platform;
  repository = or_default-ne b.repository b.image;
}

-- A build whose defaults were not set yet is complete after `Defaults`, whatever it held.
pub set_defaults-IsComplete :
    (h : Host) (b : Build) → b.defaults ≡ false → IsComplete (set_defaults h b)
unfolding set_defaults
set_defaults-IsComplete h b e =
    subst (λ t. IsComplete (if t then b else fill h b)) (sym e) (fill-IsComplete h b)

-- The call keeps every text that was set, and the fields that have no default.
pub record Keeps (old new : Build) : Type 0 where
  pub env : old.env ≢ "" → new.env ≡ old.env
  pub folder : old.folder ≢ "" → new.folder ≡ old.folder
  pub registry : old.registry ≢ "" → new.registry ≡ old.registry
  pub organization : old.organization ≢ "" → new.organization ≡ old.organization
  pub repository : old.repository ≢ "" → new.repository ≡ old.repository
  pub registries : old.registries ≢ none → new.registries ≡ old.registries
  pub secrets : old.secrets ≢ none → new.secrets ≡ old.secrets
  pub host : old.platform.host ≢ none → new.platform ≡ old.platform
  pub image : image_uri new ≡ image_uri old
  pub image_name : new.image ≡ old.image
  pub app : new.app ≡ old.app
  pub builder_function : new.builder_function ≡ old.builder_function
  pub build_type : new.build_type ≡ old.build_type
  pub custom : new.custom ≡ old.custom

or_default-kept : (s d : String) → s ≢ "" → or_default s d ≡ s
or_default-kept s d h = ground (arith, eq_iff s "")

fill-Keeps : (h : Host) (b : Build) → Keeps b (fill h b)
unfolding fill image_uri
fill-Keeps h b = record {
  env = or_default-kept b.env "build";
  folder = or_default-kept b.folder ".";
  registry = or_default-kept b.registry "containifyci";
  organization = or_default-kept b.organization "containifyci";
  repository = or_default-kept b.repository b.image;
  registries = λ ne. ground arith;
  secrets = λ ne. ground arith;
  host = λ ne. ground arith;
  image = refl;
  image_name = refl;
  app = refl;
  builder_function = refl;
  build_type = refl;
  custom = refl;
}

Keeps-refl : (b : Build) → Keeps b b
Keeps-refl b = record {
  env = λ _. refl;
  folder = λ _. refl;
  registry = λ _. refl;
  organization = λ _. refl;
  repository = λ _. refl;
  registries = λ _. refl;
  secrets = λ _. refl;
  host = λ _. refl;
  image = refl;
  image_name = refl;
  app = refl;
  builder_function = refl;
  build_type = refl;
  custom = refl;
}

-- `Defaults` never overwrites what the caller gave, whether or not it ran before.
pub set_defaults-Keeps : (h : Host) (b : Build) → Keeps b (set_defaults h b)
unfolding set_defaults
set_defaults-Keeps h b = elim (Bool-cases b.defaults) [
  | inl e ↦ subst (λ t. Keeps b (if t then b else fill h b)) (sym e) (Keeps-refl b)
  | inr e ↦ subst (λ t. Keeps b (if t then b else fill h b)) (sym e) (fill-Keeps h b)
]
