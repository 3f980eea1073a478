-- ===== src/Discovery/Collection/Groups.antt =====
-- The groups of builds that are made of the projects.
use engine_ci.Base.{
  String, false, List, [], ◌∷◌, ◌≡◌, ◌≢◌, refl, sym, ap, ◌∙◌, All, if◌then◌else◌, arith, eq_iff,
  inl, inr, subst, ◌⊎◌,
}
use engine_ci.Container.Action.{returned}
use engine_ci.Container.Build.{Build, Host, set_defaults}
use engine_ci.Container.Build.Defaulted.{IsComplete, set_defaults-IsComplete, set_defaults-Keeps}
use engine_ci.Container.Service.{
  service_build_of, new_service_build, new_go_service_build, new_maven_service_build,
  new_python_service_build,
}
use engine_ci.Discovery.Project.{
  Project, ProtoBuildType, go_lang, maven, python, to_build, builder_function_of,
  go_project_to_build, python_project_to_build, java_project_to_build, or_value, described,
  with_main, with_sources,
}
use engine_ci.Discovery.Collection.{groups_of}
use engine_ci.Utils.Files.{FileSystem, find_files}

-- The three languages that are searched for, with the name of each as a BuildType.
pub data IsSupported : ProtoBuildType → String → Type 0 where
  supports_go : IsSupported go_lang "GoLang"
  supports_maven : IsSupported maven "Maven"
  supports_python : IsSupported python "Python"

abbrev pub HasLanguage : Project → Type 0
HasLanguage p = (name : String) × IsSupported p.build_type name

-- What the build of a project is to say.
pub record IsBuildFor (p : Project) (b : Build) : Type 0 where
  pub app : b.app ≡ p.app_name
  pub image : b.image ≡ (if p.is_service then p.app_name else "")
  pub language : IsSupported p.build_type b.build_type
  pub builder : builder_function_of p ≡ returned b.builder_function
  pub folder : p.module_path ≢ "" → b.folder ≡ p.module_path
  pub complete : IsComplete b

-- One group for each project, in order, which holds the build of the project alone.
pub data AreGroupsFor : List Project → List (List Build) → Type 0 where
  no_groups : AreGroupsFor [] []
  group_for :
      {ps : List Project} {gs : List (List Build)} (p : Project) (b : Build)
      → IsBuildFor p b
      → AreGroupsFor ps gs
      → AreGroupsFor (p ∷ ps) ((b ∷ []) ∷ gs)

-- A build that has not got its defaults yet.
record IsDraft (p : Project) (f : String) (b : Build) : Type 0 where
  app : b.app ≡ p.app_name
  image : b.image ≡ (if p.is_service then p.app_name else "")
  language : IsSupported p.build_type b.build_type
  builder : b.builder_function ≡ f
  folder : b.folder ≡ or_value p.module_path ""
  defaults : b.defaults ≡ false

or_value-same : (s t : String) → s ≢ "" → or_value s t ≡ s
or_value-same s t h = ground (arith, eq_iff s "")

IsDraft-IsBuildFor :
    (h : Host) (p : Project) (f : String) (b : Build)
    → builder_function_of p ≡ returned f
    → IsDraft p f b
    → IsBuildFor p (set_defaults h b)
IsDraft-IsBuildFor h p f b e d =
    let kept = set_defaults-Keeps h b in
    record {
      app = kept.app ∙ d.app;
      image = kept.image_name ∙ d.image;
      language = subst (IsSupported p.build_type) (sym kept.build_type) d.language;
      builder = e ∙ ap returned (sym (kept.builder_function ∙ d.builder));
      folder = λ ne.
          let same = d.folder ∙ or_value-same p.module_path "" ne in
          kept.folder (λ empty. ne (sym same ∙ empty)) ∙ same;
      complete = set_defaults-IsComplete h b d.defaults;
    }

supported_cases :
    (t : ProtoBuildType) (name : String)
    → IsSupported t name
    → (t ≡ go_lang) ⊎ ((t ≡ python) ⊎ (t ≡ maven))
supported_cases _ _ supports_go = inl refl
supported_cases _ _ supports_python = inr (inl refl)
supported_cases _ _ supports_maven = inr (inr refl)

module _ (h : Host) (fs : FileSystem) (protos : List String) where
  new_service_build-returns :
      (name type_ : String)
      → find_files fs "file_cache.yaml" "." ".proto" ≡ returned protos
      → new_service_build fs name type_ ≡ returned (service_build_of fs name type_ protos)
  unfolding new_service_build
  new_service_build-returns name type_ found = rw found refl

  go-returns :
      (p : Project)
      → p.build_type ≡ go_lang
      → find_files fs "file_cache.yaml" "." ".proto" ≡ returned protos
      → (b : Build) × (to_build fs p ≡ returned b) × IsBuildFor p (set_defaults h b)
  unfolding to_build go_project_to_build new_go_service_build builder_function_of service_build_of
  go-returns p l found =
      let f = if p.is_service then "NewGoServiceBuild" else "NewGoLibraryBuild" in
      let s = service_build_of fs p.app_name "GoLang" protos in
      (
        with_sources p.proto_files (with_main p (described p f s)),
        rw (l, new_service_build-returns p.app_name "GoLang" found) refl,
        IsDraft-IsBuildFor h p f _ (rw l refl) (record {
          app = refl;
          image = ground arith;
          language = rw l supports_go;
          builder = refl;
          folder = refl;
          defaults = refl;
        }),
      )

  python-returns :
      (p : Project)
      → p.build_type ≡ python
      → find_files fs "file_cache.yaml" "." ".proto" ≡ returned protos
      → (b : Build) × (to_build fs p ≡ returned b) × IsBuildFor p (set_defaults h b)
  unfolding to_build python_project_to_build new_python_service_build builder_function_of
      service_build_of
  python-returns p l found =
      let f = if p.is_service then "NewPythonServiceBuild" else "NewPythonLibraryBuild" in
      let s = service_build_of fs p.app_name "Python" protos in
      (
        with_sources p.source_files (with_main p (described p f s)),
        rw (l, new_service_build-returns p.app_name "Python" found) refl,
        IsDraft-IsBuildFor h p f _ (rw l refl) (record {
          app = refl;
          image = ground arith;
          language = rw l supports_python;
          builder = refl;
          folder = refl;
          defaults = refl;
        }),
      )

  maven-returns :
      (p : Project)
      → p.build_type ≡ maven
      → find_files fs "file_cache.yaml" "." ".proto" ≡ returned protos
      → (b : Build) × (to_build fs p ≡ returned b) × IsBuildFor p (set_defaults h b)
  unfolding to_build java_project_to_build new_maven_service_build builder_function_of
      service_build_of
  maven-returns p l found =
      let f = if p.is_service then "NewMavenServiceBuild" else "NewMavenLibraryBuild" in
      let s = service_build_of fs p.app_name "Maven" protos in
      (
        described p f s,
        rw (l, new_service_build-returns p.app_name "Maven" found) refl,
        IsDraft-IsBuildFor h p f _ (rw l refl) (record {
          app = refl;
          image = ground arith;
          language = rw l supports_maven;
          builder = refl;
          folder = refl;
          defaults = refl;
        }),
      )

  to_build-returns :
      (p : Project)
      → HasLanguage p
      → find_files fs "file_cache.yaml" "." ".proto" ≡ returned protos
      → (b : Build) × (to_build fs p ≡ returned b) × IsBuildFor p (set_defaults h b)
  to_build-returns p (name, l) found = elim (supported_cases p.build_type name l) [
    | inl e ↦ go-returns p e found
    | inr (inl e) ↦ python-returns p e found
    | inr (inr e) ↦ maven-returns p e found
  ]

  pub groups_of-returns :
      (ps : List Project)
      → All HasLanguage ps
      → find_files fs "file_cache.yaml" "." ".proto" ≡ returned protos
      → (gs : List (List Build)) × (groups_of h fs (to_build fs) ps ≡ returned gs)
        × AreGroupsFor ps gs
  unfolding groups_of
  groups_of-returns [] l found = ([], refl, no_groups)
  groups_of-returns (p ∷ ps) l found =
      let (b, eb, kb) = to_build-returns p l.0 found in
      let (gs, es, ks) = groups_of-returns ps l.1 found in
      ((set_defaults h b ∷ []) ∷ gs, rw (eb, es) refl, group_for p (set_defaults h b) kb ks)
