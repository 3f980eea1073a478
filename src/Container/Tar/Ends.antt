-- ===== src/Container/Tar/Ends.antt =====
-- TarDirConcurrent comes to its end: no goroutine waits for room in the channel or for its token, the
-- wait group comes to zero, and the channel is closed.
use engine_ci.Base.{
  ℕ, zero, suc, ◌+◌, ◌*◌, ◌<◌, ◌≤◌, ltb, Bool, true, false, none, List, [], ◌∷◌, ◌++◌, ◌≡◌, refl,
  ap, ◌∙◌, arith, length, length-append, ◌⊎◌, inl, inr, Option-cases, Bool-cases,
}
use engine_ci.Container.Tar.{Entry, done, failed, Processed, process}
use engine_ci.Container.Tar.Concurrent.{
  Worker, starting, reading, ending, Collecting, initial, Step, launch, acquire, pass_by, send,
  release, leave, close, receive, give_up, Reach, here, next, Ended, gave_up, drained,
}
use engine_ci.Container.Tar.Sound.{IsSound, Step-IsSound, Reach-IsSound, initial-IsSound}

abbrev weight : List Worker → ℕ
weight [] = 0
weight (starting i f ∷ ws) = 5 + weight ws
weight (reading h i f ∷ ws) = 4 + weight ws
weight (ending true ∷ ws) = 2 + weight ws
weight (ending false ∷ ws) = 1 + weight ws

weight-append : (xs ys : List Worker) → weight (xs ++ ys) ≡ weight xs + weight ys
weight-append [] ys = omega arith
weight-append (starting i f ∷ xs) ys = omega (arith, weight-append xs ys)
weight-append (reading h i f ∷ xs) ys = omega (arith, weight-append xs ys)
weight-append (ending true ∷ xs) ys = omega (arith, weight-append xs ys)
weight-append (ending false ∷ xs) ys = omega (arith, weight-append xs ys)

abbrev one_if_open : Bool → ℕ
one_if_open true = 0
one_if_open false = 1

-- The transitions that are still to come, at most.
abbrev work : Collecting → ℕ
work s = 6 * length s.rest + weight s.running + length s.result_chan + one_if_open s.closed

module _ (max_workers capacity : ℕ) where
  work-Step : {s t : Collecting} → Step max_workers capacity s t → work t < work s
  work-Step (launch s fs i f e) = ground arith
  work-Step (acquire s xs ys i f e k) =
      ground (arith, weight-append xs (starting i f ∷ ys), weight-append xs (reading true i f ∷ ys))
  work-Step (pass_by s xs ys i f e k) =
      ground
        (arith, weight-append xs (starting i f ∷ ys), weight-append xs (reading false i f ∷ ys))
  work-Step (send s xs ys true i f e k) = ground (
    arith,
    weight-append xs (reading true i f ∷ ys),
    weight-append xs (ending true ∷ ys),
    length-append s.result_chan ((i, process f) ∷ []),
  )
  work-Step (send s xs ys false i f e k) = ground (
    arith,
    weight-append xs (reading false i f ∷ ys),
    weight-append xs (ending false ∷ ys),
    length-append s.result_chan ((i, process f) ∷ []),
  )
  work-Step (release s xs ys e k) =
      ground (arith, weight-append xs (ending true ∷ ys), weight-append xs (ending false ∷ ys))
  work-Step (leave s xs ys e) =
      ground (arith, weight-append xs (ending false ∷ ys), weight-append xs ys)
  work-Step (close s e k o) = ground arith
  work-Step (receive s queue i part e k q) = ground arith
  work-Step (give_up s queue i m e k q) = ground arith

  abbrev CanStep : Collecting → Type 0
  CanStep s = (t : Collecting) × Step max_workers capacity s t

  -- The first goroutine can always go on.
  worker-CanStep :
      (s : Collecting) (w : Worker) (ws : List Worker)
      → IsSound capacity s
      → s.running ≡ w ∷ ws
      → CanStep s
  worker-CanStep s (starting i f) ws h e = elim (Bool-cases (ltb s.tokens max_workers)) [
    | inl y ↦ (_, acquire s [] ws i f e (ground arith))
    | inr n ↦ (_, pass_by s [] ws i f e (ground arith))
  ]
  worker-CanStep s (reading b i f) ws h e = (_, send s [] ws b i f e (ground (arith, h.room)))
  worker-CanStep s (ending true) ws h e = (_, release s [] ws e (ground (arith, h.semaphore)))
  worker-CanStep s (ending false) ws h e = (_, leave s [] ws e)

  queue-CanStep :
      (s : Collecting) (xs : List (ℕ × Processed))
      → s.rest ≡ []
      → s.failure ≡ none
      → s.closed ≡ true
      → s.result_chan ≡ xs
      → Ended s ⊎ CanStep s
  queue-CanStep s [] r n c q = inl (drained n c q)
  queue-CanStep s ((i, done part) ∷ xs) r n c q = inr (_, receive s xs i part r n q)
  queue-CanStep s ((i, failed e) ∷ xs) r n c q = inr (_, give_up s xs i e r n q)

  progress : (s : Collecting) → IsSound capacity s → Ended s ⊎ CanStep s
  progress s h = elim (Option-cases s.failure) [
    | inr (e, f) ↦ inl (gave_up e f)
    | inl n ↦ go n s.rest s.running refl refl
  ]
    where
      go :
          s.failure ≡ none
          → (fs : List (ℕ × Entry)) (ws : List Worker) → s.rest ≡ fs
          → s.running ≡ ws
          → Ended s ⊎ CanStep s
      go n ((i, f) ∷ fs) ws r e = inr (_, launch s fs i f r)
      go n [] (w ∷ ws) r e = inr (worker-CanStep s w ws h e)
      go n [] [] r e = elim (Bool-cases s.closed) [
        | inl c ↦ queue-CanStep s s.result_chan r n c refl
        | inr o ↦ inr (_, close s r (h.group ∙ ap length e) o)
      ]

  -- On as much fuel as there is work, a sound state is brought to its end.
  ends :
      (fuel : ℕ) (s t : Collecting)
      → work t ≤ fuel
      → IsSound capacity t
      → Reach max_workers capacity s t
      → (u : Collecting) × Reach max_workers capacity s u × Ended u
  ends zero s t w h r = elim (progress t h) [
    | inl last ↦ (t, r, last)
    | inr (u, st) ↦ absurd (omega (arith, work-Step st))
  ]
  ends (suc fuel) s t w h r = elim (progress t h) [
    | inl last ↦ (t, r, last)
    | inr (u, st) ↦
        ends fuel s u (omega (arith, work-Step st)) (Step-IsSound max_workers capacity st h)
          (next r st)
  ]

-- Whatever the number of workers, from every state that TarDirConcurrent can reach, it can go on to an
-- end of its loop: an error, or the closed and empty channel.
pub tar_ends :
    (max_workers : ℕ) (files : List Entry) (t : Collecting)
    → Reach max_workers (length files) (initial files) t
    → (u : Collecting) × Reach max_workers (length files) t u × Ended u
tar_ends max_workers files t r =
    ends max_workers (length files) (work t) t t (omega arith)
      (Reach-IsSound max_workers (length files) r (initial-IsSound files)) here
