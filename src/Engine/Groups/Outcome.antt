-- ===== src/Engine/Groups/Outcome.antt =====
-- When the engine ends normally, and with which identifiers.
use engine_ci.Base.{
  ℕ, ◌+◌, String, none, some, List, [], ◌∷◌, ◌++◌, ◌≡◌, ◌≢◌, ◌↔◌, ◌⊎◌, inl, inr, Option-cases, refl,
  arith, count, count-append, SameTexts,
}
use engine_ci.Container.Build.{Build}
use engine_ci.Pipeline.Run.{BuildResult, stop, continue}
use engine_ci.Engine.Groups.{
  EngineState, initial, after_run, Step, start_group, end_build, Reach, here, next, IsDone,
}

-- The build has an error, or asks for no further builds.
abbrev ends_process : BuildResult → ℕ
ends_process r = elim r.error [ some e ↦ 1 | none ↦ elim r.loop [ stop ↦ 1 | continue ↦ 0 ] ]

module _ (outcome : Build → BuildResult) where
  abbrev ending : List Build → ℕ
  ending [] = 0
  ending (b ∷ bs) = ends_process (outcome b) + ending bs

  abbrev pub all_ending : List (List Build) → ℕ
  all_ending [] = 0
  all_ending (g ∷ gs) = ending g + all_ending gs

  abbrev ids_of : List Build → List String
  ids_of [] = []
  ids_of (b ∷ bs) = (outcome b).ids ++ ids_of bs

  abbrev pub all_ids : List (List Build) → List String
  all_ids [] = []
  all_ids (g ∷ gs) = ids_of g ++ all_ids gs

  ending-append : (xs ys : List Build) → ending (xs ++ ys) ≡ ending xs + ending ys
  ending-append [] ys = omega arith
  ending-append (x ∷ xs) ys = omega (arith, ending-append xs ys)

  count-ids_of :
      (a : String) (xs ys : List Build)
      → count a (ids_of (xs ++ ys)) ≡ count a (ids_of xs) + count a (ids_of ys)
  unfolding count
  count-ids_of a [] ys = omega arith
  count-ids_of a (x ∷ xs) ys = omega (
    arith,
    count-append a (outcome x).ids (ids_of (xs ++ ys)),
    count-append a (outcome x).ids (ids_of xs),
    count-ids_of a xs ys,
  )

  abbrev pending : EngineState → ℕ
  pending s = ending s.running + all_ending s.waiting

  abbrev total : EngineState → String → ℕ
  total s a = count a s.ids + count a (ids_of s.running) + count a (all_ids s.waiting)

  -- As long as the process runs, every build that ended was fine and left its identifiers; once it
  -- has exited, some build was not fine.
  pub record Sound (groups : List (List Build)) (s : EngineState) : Type 0 where
    pub fine : s.exited ≡ none → pending s ≡ all_ending groups
    pub ids : (a : String) → s.exited ≡ none → total s a ≡ count a (all_ids groups)
    pub not_fine : s.exited ≢ none → all_ending groups ≢ 0

  Sound-initial : (groups : List (List Build)) → Sound groups (initial groups)
  unfolding initial count
  Sound-initial groups = record {
    fine = λ _. omega arith;
    ids = λ a _. omega arith;
    not_fine = λ h. absurd (h refl);
  }

  Sound-Step :
      {groups : List (List Build)} {s t : EngineState}
      → Step outcome s t
      → Sound groups s
      → Sound groups t
  unfolding after_run count
  Sound-Step (start_group s g gs e r w) v = record {
    fine = λ _. ground (arith, v.fine e);
    ids = λ a _. ground (arith, v.ids a e, count-append a (ids_of g) (all_ids gs));
    not_fine = λ h. absurd (h e);
  }
  Sound-Step (end_build s xs b ys e r) v = record {
    fine = λ h. ground (arith, v.fine e, ending-append xs (b ∷ ys), ending-append xs ys);
    ids = λ a h. ground (
      arith,
      v.ids a e,
      count-ids_of a xs (b ∷ ys),
      count-ids_of a xs ys,
      count-append a (outcome b).ids (ids_of ys),
      count-append a s.ids (outcome b).ids,
    );
    not_fine = λ h. ground (arith, v.fine e, ending-append xs (b ∷ ys), ending-append xs ys);
  }

  Sound-Reach :
      {groups : List (List Build)} {s t : EngineState}
      → Reach outcome s t
      → Sound groups s
      → Sound groups t
  Sound-Reach here v = v
  Sound-Reach (next r st) v = Sound-Step st (Sound-Reach r v)

module _ (outcome : Build → BuildResult) (groups : List (List Build)) {t : EngineState}
    (run : Reach outcome (initial groups) t) where
  sound : Sound outcome groups t
  sound = Sound-Reach outcome run (Sound-initial outcome groups)

  -- A process that went through all groups or exited has not exited exactly if no build of any
  -- group failed or asked to stop.
  pub engine_normal :
      IsDone t ⊎ (t.exited ≢ none) → ((t.exited ≡ none) ↔ (all_ending outcome groups ≡ 0))
  engine_normal (inl done) = (
    λ e. ground (arith, sound.fine e, done.0, done.1),
    λ z. elim (Option-cases t.exited) [
      | inl e ↦ e
      | inr (c, e) ↦ absurd (sound.not_fine (λ n. cc) z)
    ],
  )
  engine_normal (inr exited) = (λ e. absurd (exited e), λ z. absurd (sound.not_fine exited z))

  -- A process that went through all groups and has not exited holds the identifiers of all builds of all groups.
  pub engine-ids : IsDone t → t.exited ≡ none → SameTexts t.ids (all_ids outcome groups)
  unfolding count
  engine-ids done e a = ground (arith, sound.ids a e, done.0, done.1)
