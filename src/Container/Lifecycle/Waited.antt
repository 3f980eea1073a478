-- ===== src/Container/Lifecycle/Waited.antt =====
-- Wait: when it succeeds, and what it answers and logs when the container has failed.
use engine_ci.Base.{◌⧺◌, true, false, Option, some, [], ◌∷◌, ◌++◌, ◌≡◌, arith, ℤ, pos, ◌↔◌}
use engine_ci.Cri.Manager.{Result, ok, err, crash, ContainerConfig}
use engine_ci.Container.Action.{Outside, State, Outcome, returned, panicked, failed}
use engine_ci.Logger.Message.{LogMessage}
use engine_ci.Container.Lifecycle.{wait, is_zero}

abbrev pub failure_message : {W : Type 0} → State W → LogMessage
failure_message s = record {
  routine_id = s.container.prefix;
  message = "Container exited with non 0";
  is_done = true;
  is_failed = true;
}

module _ {W : Type 0} (o : Outside W) where
  abbrev pub waited : State W → Result (Option ℤ) × W
  waited s = o.manager.wait_container s.container.id "not-running" s.runtime

  -- What Wait answers for a status other than 0, by what inspecting the container answers.
  abbrev pub status_answer : ℤ → Result ContainerConfig → Outcome (Unit {0})
  status_answer code (ok info) =
      failed ("container " ⧺ info.image ⧺ " exited with status " ⧺ o.format_int code)
  status_answer code (err e) = panicked
  status_answer code crash = panicked

  -- Wait succeeds exactly if the runtime reports the status 0.
  pub wait-returned_iff :
      (s : State W) → ((wait o s).0 ≡ returned tt) ↔ ((waited s).0 ≡ ok (some (pos 0)))
  unfolding wait
  wait-returned_iff s = (λ h. ground arith, λ h. ground arith)

  -- If the container ended with another status, then Wait logs its failure, and answers an error that names
  -- the image and the status; it panics if the container cannot be inspected.
  pub wait-status :
      (s : State W) (code : ℤ) (w : W)
      → waited s ≡ (ok (some code), w)
      → is_zero code ≡ false
      → ((wait o s).0 ≡ status_answer code (o.manager.inspect_container s.container.id w).0)
        × ((wait o s).1.log ≡ s.log ++ failure_message s ∷ [])
  unfolding wait
  wait-status s code w h z = (ground arith, ground arith)
