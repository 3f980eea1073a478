-- ===== src/Pipeline/Run/Results.antt =====
-- What a run answers once the loop and every goroutine are done, whatever the schedule was.
use engine_ci.Base.{
  ℕ, String, Option, none, some, List, [], ◌∷◌, ◌++◌, ◌≡◌, ◌≢◌, ◌↔◌, refl, sym, ap, ◌∙◌, arith,
  count, SameTexts, eq_refl,
}
use engine_ci.Container.Build.{Build}
use engine_ci.Pipeline.Step.{Context}
use engine_ci.Pipeline.Run.{RunState, Reach, initial, IsFinal, finish, first_async, or_async}
use engine_ci.Pipeline.Run.Counts.{
  option_list, selected_ids, async_errors, sync_errors, last_of, last_of-option_list, Conserved,
  Reach-Conserved,
}

SameTexts-nil : (xs : List String) → SameTexts xs [] → xs ≡ []
unfolding count
SameTexts-nil [] h = refl
SameTexts-nil (x ∷ xs) h = absurd (ground (arith, h x, eq_refl x))

no_last : (xs : List String) → last_of xs ≡ none → xs ≡ []
no_last [] h = refl
no_last (x ∷ []) h = cc
no_last (x ∷ y ∷ xs) h = absurd (some_last y xs h)
  where
    some_last : (y : String) (xs : List String) → last_of (y ∷ xs) ≢ none
    some_last y [] e = cc
    some_last y (z ∷ zs) e = some_last z zs e

or_async-none :
    (b : Option String) (errs : List String) → or_async b errs ≡ none → (b ≡ none) × (errs ≡ [])
or_async-none none [] h = (refl, refl)
or_async-none none (e ∷ es) h = cc
or_async-none (some e) errs h = cc

count-first : (e : String) (errs : List String) → first_async errs ≡ some e → count e errs ≢ 0
unfolding count
count-first e [] h = cc
count-first e (x ∷ xs) h = ground (arith, eq_refl e)

module _ (arg : Build) (names : List String) (capacity : ℕ) (steps : List Context) {t : RunState}
    (run : Reach arg names capacity (initial steps) t) (final : IsFinal t) where
  conserved : Conserved arg names capacity (initial steps) t
  conserved = Reach-Conserved arg names capacity run

  -- Whatever the schedule, the identifiers of a run are those of the selected steps, each as often as it was answered.
  pub finish-ids : SameTexts (finish t).ids (selected_ids arg names steps)
  unfolding finish initial count
  finish-ids a = ground (arith, conserved.ids a, final.0, final.1)

  err_ch-SameTexts : SameTexts t.err_ch (async_errors arg names steps)
  unfolding initial count
  err_ch-SameTexts a = ground (arith, conserved.errors a, final.0, final.1)

  build_err-last : t.build_err ≡ last_of (sync_errors arg names steps)
  unfolding initial
  build_err-last =
      sym (last_of-option_list t.build_err)
      ∙ ap (λ cs. last_of (option_list t.build_err ++ sync_errors arg names cs)) (sym final.0)
      ∙ sym conserved.sync_error

  -- Whatever the schedule, a run reports the error of the last selected synchronous step that failed,
  -- before every asynchronous one.
  pub finish-sync_error :
      (e : String) → last_of (sync_errors arg names steps) ≡ some e → (finish t).error ≡ some e
  unfolding finish
  finish-sync_error e h = ground (arith, build_err-last)

  -- Whatever the schedule, a run reports no error exactly if no selected step failed.
  pub finish-no_error :
      ((finish t).error ≡ none)
      ↔ ((sync_errors arg names steps ≡ []) × (async_errors arg names steps ≡ []))
  unfolding finish
  finish-no_error = (
    λ h.
        let parts = or_async-none t.build_err t.err_ch h in
        (
          no_last (sync_errors arg names steps) (sym build_err-last ∙ parts.0),
          SameTexts-nil (async_errors arg names steps)
              (λ a. sym (err_ch-SameTexts a) ∙ ap (count a) parts.1),
        ),
    λ h.
        let quiet = SameTexts-nil t.err_ch (λ a. err_ch-SameTexts a ∙ ap (count a) h.1) in
        ground (arith, build_err-last, ap last_of h.0, quiet),
  )

  -- If no selected synchronous step failed, the error of a run is one of those of the selected
  -- asynchronous steps.
  pub finish-async_error :
      (e : String)
      → sync_errors arg names steps ≡ []
      → (finish t).error ≡ some e
      → count e (async_errors arg names steps) ≢ 0
  unfolding finish
  finish-async_error e h k =
      let first : first_async t.err_ch ≡ some e = ground (arith, build_err-last, ap last_of h) in
      λ z. count-first e t.err_ch first (err_ch-SameTexts e ∙ z)
