-- ===== src/Container/Tar/Same.antt =====
-- TarDirConcurrent against TarDirSequential: what is written from the slots once nothing is left to
-- receive.
use engine_ci.Base.{
  ℕ, zero, suc, ◌<◌, String, Bool, true, false, Option, none, some, List, [], ◌∷◌, ◌≡◌, refl, arith,
  sym, ap, subst, if◌then◌else◌, inl, inr, ◌⊎◌, ◌∙◌, length, fun_ext,
}
use engine_ci.Cri.Manager.{Result, ok, err, crash}
use engine_ci.Container.Tar.{
  Entry, Attempt, done, failed, Archive, ◌+>◌, Processed, process, collect_files,
  tar_dir_sequential, with_header, with_info, with_visit, visit_then, collect_file,
}
use engine_ci.Container.Tar.Concurrent.{
  Collecting, store, numbered, initial, Reach, written, finish, or_written, Ended, gave_up, drained,
}
use engine_ci.Container.Tar.Indexed.{Slots, filled, processed, any_failed, to_send}
use engine_ci.Container.Tar.Sound.{HasLeft, Reach-IsSound, initial-IsSound}
use engine_ci.Container.Tar.Kept.{
  IsLive, Kept, live, over, outstanding, outstanding-nil, Kept-Reach,
}

-- The archive of the parts in the order of the files; the first error ends it.
abbrev gather : List Processed → Result Archive
gather [] = ok []
gather (done part ∷ ps) = part +> gather ps
gather (failed e ∷ ps) = err e

abbrev pub all_done : List Processed → Bool
all_done [] = true
all_done (done part ∷ ps) = all_done ps
all_done (failed e ∷ ps) = false

written-store :
    (n i j : ℕ) (part : String × String) (r : Slots)
    → i < j
    → written n j (store i part r) ≡ written n j r
unfolding written
written-store zero i j part r h = refl
written-store (suc n) i j part r h =
    ground (arith, written-store n i (suc j) part r (omega (arith, h)))

written-part :
    (p : Processed) (i n : ℕ) (ps : List Processed) (xs : List (ℕ × Processed)) (r : Slots)
    → (all_done ps ≡ true → written n (suc i) (filled xs r) ≡ gather ps)
    → all_done (p ∷ ps) ≡ true
    → written (suc n) i (filled ((i, p) ∷ xs) r) ≡ gather (p ∷ ps)
unfolding written
written-part (done part) i n ps xs r k h =
    ground (arith, written-store n i (suc i) part (filled xs r) (omega arith), k h)
written-part (failed e) i n ps xs r k h = ground (arith, h)

written-filled :
    (i : ℕ) (fs : List Entry) (r : Slots)
    → all_done (processed fs) ≡ true
    → written (length fs) i (filled (to_send (numbered i fs)) r) ≡ gather (processed fs)
unfolding written processed
written-filled i [] r h = refl
written-filled i (f ∷ fs) r h =
    written-part (process f) i (length fs) (processed fs) (to_send (numbered (suc i) fs)) r
      (written-filled (suc i) fs r) h

any_failed-numbered :
    (i : ℕ) (fs : List Entry)
    → any_failed (to_send (numbered i fs)) ≡ false
    → all_done (processed fs) ≡ true
unfolding processed
any_failed-numbered i [] h = refl
any_failed-numbered i (f ∷ fs) h = ground (arith, any_failed-numbered (suc i) fs)

all_done-numbered :
    (i : ℕ) (fs : List Entry)
    → any_failed (to_send (numbered i fs)) ≡ true
    → all_done (processed fs) ≡ false
unfolding processed
all_done-numbered i [] h = ground (arith, h)
all_done-numbered i (f ∷ fs) h = ground (arith, all_done-numbered (suc i) fs)

-- The archive is that of the files, if each of them can be sent.
abbrev Fits : Result (List Entry) → Result Archive → Type 0
Fits (ok files) archive = all_done (processed files) ≡ true → archive ≡ gather (processed files)
Fits (err e) archive = Unit
Fits crash archive = Unit

with_header-gather :
    (f : Entry) (fs : List Entry) (archive : Result Archive)
    → (all_done (processed fs) ≡ true → archive ≡ gather (processed fs))
    → all_done (processed (f ∷ fs)) ≡ true
    → with_header f.header f.open_error f.content archive ≡ gather (processed (f ∷ fs))
unfolding processed process
with_header-gather f fs archive k d = ground (arith, k)

collect_file-Fits :
    (f : Entry) (size : Attempt ℕ) (r : Result (List Entry)) (archive : Result Archive)
    → Fits r archive
    → Fits
        (collect_file f size r)
        (with_info size (with_header f.header f.open_error f.content archive))
collect_file-Fits f (done n) (ok fs) archive k = with_header-gather f fs archive k
collect_file-Fits f (done n) (err e) archive k = tt
collect_file-Fits f (done n) crash archive k = tt
collect_file-Fits f (failed e) r archive k = tt

visit_then-Fits :
    (e : Option String) (r : Result (List Entry)) (archive : Result Archive)
    → Fits r archive
    → Fits (visit_then e r) (with_visit e archive)
visit_then-Fits none r archive k = k
visit_then-Fits (some e) r archive k = tt

file-Fits :
    (is_dir : Bool) (f : Entry) (r : Result (List Entry)) (archive : Result Archive)
    → Fits r archive
    → Fits (if is_dir then r else collect_file f f.size r) (
        if is_dir
        then archive
        else with_info f.size (with_header f.header f.open_error f.content archive))
file-Fits true f r archive k = k
file-Fits false f r archive k = collect_file-Fits f f.size r archive k

sequential-Fits : (entries : List Entry) → Fits (collect_files entries) (tar_dir_sequential entries)
unfolding collect_files tar_dir_sequential processed
sequential-Fits [] = λ d. refl
sequential-Fits (f ∷ fs) =
    visit_then-Fits f.visit_error _ _ (file-Fits f.is_dir f _ _ (sequential-Fits fs))

module _ (entries : List Entry) {files : List Entry}
    (collected : collect_files entries ≡ ok files) where
  -- Once every part is received, the answer is that of the sequential walk.
  finish-drained :
      (t : Collecting)
      → t.failure ≡ none
      → IsLive files (outstanding t) t.results
      → outstanding t ≡ []
      → (all_done (processed files) ≡ true) × (finish files t ≡ tar_dir_sequential entries)
  unfolding finish
  finish-drained t none_yet k d =
      let drained_slots : t.results ≡ filled (to_send (numbered 0 files)) (λ i. none) =
        fun_ext (λ j. ap (λ l. filled l t.results j) (sym d) ∙ k.slots j) in
      let complete = any_failed-numbered 0 files (sym k.failing ∙ ap any_failed d) in
      (
        complete,
        ap (λ e. or_written e (written (length files) 0 t.results)) none_yet
            ∙ ap (written (length files) 0) drained_slots
            ∙ written-filled 0 files (λ i. none) complete
            ∙ sym (
                subst (λ r. Fits r (tar_dir_sequential entries)) collected (sequential-Fits entries)
                  complete),
      )

  finish-over :
      {t : Collecting} (e : String)
      → t.failure ≡ some e
      → Kept files t
      → (all_done (processed files) ≡ false) × ((e : String) × finish files t ≡ err e)
  unfolding finish
  finish-over {t} e h (live n k) = absurd (ground (arith, h, n))
  finish-over {t} e h (over m k a) = (
    all_done-numbered 0 files a,
    (e, ap (λ x. or_written x (written (length files) 0 t.results)) h),
  )

  -- However the goroutines are scheduled, a run of TarDirConcurrent that has ended answers the archive of
  -- TarDirSequential if every file that was collected can be sent, and an error otherwise.
  pub finish-sequential :
      (max_workers : ℕ) {t : Collecting}
      → Reach max_workers (length files) (initial files) t
      → Ended t
      → (all_done (processed files) ≡ true × finish files t ≡ tar_dir_sequential entries)
        ⊎ (all_done (processed files) ≡ false × ((e : String) × finish files t ≡ err e))
  finish-sequential max_workers {t} r (gave_up e h) = inr (finish-over e h (Kept-Reach files r))
  finish-sequential max_workers {t} r (drained none_yet c q) = go (Kept-Reach files r)
    where
      left : HasLeft t
      left = (Reach-IsSound max_workers (length files) r (initial-IsSound files)).ended c

      nothing : outstanding t ≡ []
      nothing = outstanding-nil t q left

      go :
          Kept files t
          → (all_done (processed files) ≡ true × finish files t ≡ tar_dir_sequential entries)
            ⊎ (all_done (processed files) ≡ false × ((e : String) × finish files t ≡ err e))
      go (live n k) = inl (finish-drained t n k nothing)
      go (over e n a) = absurd (ground (arith, none_yet, n))
