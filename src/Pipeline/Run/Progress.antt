-- ===== src/Pipeline/Run/Progress.antt =====
-- A run never blocks and always ends.
use engine_ci.Base.{
  ℕ, zero, suc, ◌+◌, ◌*◌, ◌≤◌, ◌<◌, String, none, some, List, [], ◌∷◌, ◌++◌, ◌≡◌, refl, arith,
  length, length-append, ◌⊎◌, inl, inr, Bool-cases,
}
use engine_ci.Container.Build.{Build}
use engine_ci.Pipeline.Step.{Context}
use engine_ci.Pipeline.Run.{
  Task, started, sending, RunState, is_selected, Step, skip, sync, launch, report, send, Reach,
  here, next, initial, IsFinal,
}

-- The channel has room for every goroutine that may still send.
abbrev HasRoom : ℕ → RunState → Type 0
HasRoom capacity s = length s.err_ch + length s.running + length s.rest ≤ capacity

abbrev weight : List Task → ℕ
weight [] = 0
weight (started id e ∷ ts) = 2 + weight ts
weight (sending e ∷ ts) = 1 + weight ts

weight-append : (xs ys : List Task) → weight (xs ++ ys) ≡ weight xs + weight ys
weight-append [] ys = omega arith
weight-append (started id e ∷ xs) ys = omega (arith, weight-append xs ys)
weight-append (sending e ∷ xs) ys = omega (arith, weight-append xs ys)

-- The atomic pieces that are still to come, at most.
abbrev pub work : RunState → ℕ
work s = 3 * length s.rest + weight s.running

module _ (arg : Build) (names : List String) (capacity : ℕ) where
  Step-HasRoom :
      {s t : RunState} → Step arg names capacity s t → HasRoom capacity s → HasRoom capacity t
  Step-HasRoom (skip s c cs r n) h = ground arith
  Step-HasRoom (sync s c cs id err r y n o) h = ground arith
  Step-HasRoom (launch s c cs id err r y n o) h = ground arith
  Step-HasRoom (report s xs ys id none r) h =
      ground (arith, length-append xs (started id none ∷ ys), length-append xs ys)
  Step-HasRoom (report s xs ys id (some e) r) h =
      ground (arith, length-append xs (started id (some e) ∷ ys), length-append xs (sending e ∷ ys))
  Step-HasRoom (send s xs ys e r room) h = ground (
    arith,
    length-append xs (sending e ∷ ys),
    length-append xs ys,
    length-append s.err_ch (e ∷ []),
  )

  -- Every transition of a run leaves less work than there was, so that no run goes on forever.
  pub work-Step : {s t : RunState} → Step arg names capacity s t → work t < work s
  work-Step (skip s c cs r n) = ground arith
  work-Step (sync s c cs id err r y n o) = ground arith
  work-Step (launch s c cs id err r y n o) = ground arith
  work-Step (report s xs ys id none r) =
      ground (arith, weight-append xs (started id none ∷ ys), weight-append xs ys)
  work-Step (report s xs ys id (some e) r) =
      ground (arith, weight-append xs (started id (some e) ∷ ys), weight-append xs (sending e ∷ ys))
  work-Step (send s xs ys e r room) =
      ground (arith, weight-append xs (sending e ∷ ys), weight-append xs ys)

  -- With room in the channel there is a next transition, until the run is done.
  enabled :
      (s : RunState)
      → HasRoom capacity s
      → IsFinal s ⊎ ((t : RunState) × Step arg names capacity s t)
  enabled s h = go s.running s.rest refl refl
    where
      go :
          (ts : List Task) (cs : List Context)
          → s.running ≡ ts
          → s.rest ≡ cs
          → IsFinal s ⊎ ((t : RunState) × Step arg names capacity s t)
      go [] [] r q = inl (q, r)
      go (started id e ∷ ts) cs r q = inr (_, report s [] ts id e r)
      go (sending e ∷ ts) cs r q = inr (_, send s [] ts e r (ground arith))
      go [] (c ∷ cs) r q = elim (Bool-cases (is_selected arg names c)) [
        | inl y ↦
            let out = c.step.run_with_build arg in
            elim (Bool-cases c.step.is_async) [
              | inl n ↦ inr (_, launch s c cs out.0 out.1 q y n refl)
              | inr n ↦ inr (_, sync s c cs out.0 out.1 q y n refl)
            ]
        | inr n ↦ inr (_, skip s c cs q n)
      ]

  Reach-HasRoom :
      {s t : RunState} → Reach arg names capacity s t → HasRoom capacity s → HasRoom capacity t
  Reach-HasRoom here h = h
  Reach-HasRoom (next r st) h = Step-HasRoom st (Reach-HasRoom r h)

  -- On as much fuel as there is work the run ends.
  ends :
      (fuel : ℕ) (s t : RunState)
      → work t ≤ fuel
      → Reach arg names capacity s t
      → HasRoom capacity t
      → (u : RunState) × Reach arg names capacity s u × IsFinal u
  ends zero s t w r h = elim (enabled t h) [
    | inl done ↦ (t, r, done)
    | inr (u, st) ↦ absurd (omega (arith, work-Step st))
  ]
  ends (suc fuel) s t w r h = elim (enabled t h) [
    | inl done ↦ (t, r, done)
    | inr (u, st) ↦ ends fuel s u (omega (arith, work-Step st)) (next r st) (Step-HasRoom st h)
  ]

-- With the capacity that the source gives the channel, no reachable state of a run is stuck: the run is done,
-- or a transition is enabled.
pub run_progress :
    (arg : Build) (names : List String) (steps : List Context) (t : RunState)
    → Reach arg names (length steps) (initial steps) t
    → IsFinal t ⊎ ((u : RunState) × Step arg names (length steps) t u)
unfolding initial
run_progress arg names steps t r =
    enabled arg names (length steps) t (Reach-HasRoom arg names (length steps) r (omega arith))

-- From every reachable state the run can be brought to its end.
pub run_ends :
    (arg : Build) (names : List String) (steps : List Context) (t : RunState)
    → Reach arg names (length steps) (initial steps) t
    → (u : RunState) × Reach arg names (length steps) t u × IsFinal u
unfolding initial
run_ends arg names steps t r =
    ends arg names (length steps) (work t) t t (omega arith) here
      (Reach-HasRoom arg names (length steps) r (omega arith))
