-- ===== src/Engine/Cache/Ends.antt =====
-- Every run of the cache commands ends, and what it has collected then.
use engine_ci.Base.{
  ℕ, zero, suc, ◌+◌, ◌*◌, ◌≤◌, ◌<◌, String, Option, none, some, List, [], ◌∷◌, ◌≡◌, refl, ap, ◌∙◌,
  arith, length, length-append, ◌⊎◌, inl, inr, Bool-cases, Option-cases, count, SameTexts, true,
  false, Bool,
}
use engine_ci.Engine.Cache.{
  Launch, in_background, at_once, left_out, CacheState, initial, Step, start_command, run_now,
  fail_now, leave_out, give_up, end_command, fail_command, close, Reach, here, next, IsFinal,
}
use engine_ci.Engine.Cache.Collected.{
  errors_of, commands_of, IsSound, initial-IsSound, Step-done, Step-room, Step-tally,
}

no_length : (xs : List String) → length xs ≡ 0 → xs ≡ []
no_length [] h = refl
no_length (x ∷ xs) h = absurd (ground arith)

module _ (plan : String → Option Launch) (run : String → Option String) (images : List String) where
  Step-ended :
      {s t : CacheState}
      → Step plan run images s t
      → s.wait_group ≡ length s.running
      → (s.closed ≡ true → (s.waiting ≡ []) × (s.running ≡ []))
      → t.closed ≡ true
      → (t.waiting ≡ []) × (t.running ≡ [])
  Step-ended (start_command s i is c x w p) d h e = absurd (ground (arith, (h e).0))
  Step-ended (run_now s i is c x w p r) d h e = absurd (ground (arith, (h e).0))
  Step-ended (fail_now s i is c e' x w p r k) d h e = absurd (ground (arith, (h e).0))
  Step-ended (leave_out s i is x w p) d h e = absurd (ground (arith, (h e).0))
  Step-ended (give_up s i is x w p) d h e = h e
  Step-ended (end_command s xs c ys x r k) d h e =
      absurd (ground (arith, (h e).1, ap length r, length-append xs (c ∷ ys)))
  Step-ended (fail_command s xs c ys e' x r k l) d h e =
      absurd (ground (arith, (h e).1, ap length r, length-append xs (c ∷ ys)))
  Step-ended (close s x c w g) d h e = (w, no_length s.running (ground arith))

  Step-IsSound :
      {s t : CacheState}
      → Step plan run images s t
      → IsSound plan run images s
      → IsSound plan run images t
  Step-IsSound step i = record {
    done = Step-done plan run images step i.done;
    room = Step-room plan run images step i.room;
    same = λ e. Step-tally plan run images e step ∙ i.same e;
    ended = Step-ended step i.done i.ended;
  }

  Reach-IsSound :
      {s t : CacheState}
      → Reach plan run images s t
      → IsSound plan run images s
      → IsSound plan run images t
  Reach-IsSound here i = i
  Reach-IsSound (next r step) i = Step-IsSound step (Reach-IsSound r i)

  enabled :
      (s : CacheState)
      → IsSound plan run images s
      → s.exited ≡ none
      → s.closed ≡ false
      → (t : CacheState) × Step plan run images s t
  enabled s i x c = go s.running s.waiting refl refl
    where
      go :
          (rs is : List String)
          → s.running ≡ rs
          → s.waiting ≡ is
          → (t : CacheState) × Step plan run images s t
      go [] [] r w = (_, close s x c w (i.done ∙ ap length r))
      go (c' ∷ rs) is r w = elim (Option-cases (run c')) [
        | inl n ↦ (_, end_command s [] c' rs x r n)
        | inr (e, k) ↦ (_, fail_command s [] c' rs e x r k (ground (arith, i.room)))
      ]
      go [] (image ∷ is) r w = elim (Option-cases (plan image)) [
        | inl n ↦ (_, give_up s image is x w n)
        | inr (in_background c', p) ↦ (_, start_command s image is c' x w p)
        | inr (left_out, p) ↦ (_, leave_out s image is x w p)
        | inr (at_once c', p) ↦ elim (Option-cases (run c')) [
          | inl n ↦ (_, run_now s image is c' x w p n)
          | inr (e, k) ↦ (_, fail_now s image is c' e x w p k (ground (arith, i.room)))
        ]
      ]

abbrev one_if_none : Option ℕ → ℕ
one_if_none none = 1
one_if_none (some n) = 0

abbrev one_if_open : Bool → ℕ
one_if_open true = 0
one_if_open false = 1

-- The steps that are still to come, at most.
abbrev work : CacheState → ℕ
work s = 2 * length s.waiting + length s.running + one_if_open s.closed + one_if_none s.exited

module _ (plan : String → Option Launch) (run : String → Option String) (images : List String) where
  work-Step : {s t : CacheState} → Step plan run images s t → work t < work s
  work-Step (start_command s i is c x w p) = ground (arith, length-append s.running (c ∷ []))
  work-Step (run_now s i is c x w p r) = ground arith
  work-Step (fail_now s i is c e' x w p r k) = ground arith
  work-Step (leave_out s i is x w p) = ground arith
  work-Step (give_up s i is x w p) = ground arith
  work-Step (end_command s xs c ys x r k) =
      ground (arith, length-append xs (c ∷ ys), length-append xs ys)
  work-Step (fail_command s xs c ys e' x r k l) =
      ground (arith, length-append xs (c ∷ ys), length-append xs ys)
  work-Step (close s x c w g) = ground arith

  Step-exited :
      {s t : CacheState} → Step plan run images s t → (t.exited ≡ none) ⊎ (t.exited ≡ some 1)
  Step-exited (start_command s i is c x w p) = inl x
  Step-exited (run_now s i is c x w p k) = inl x
  Step-exited (fail_now s i is c e' x w p k l) = inl x
  Step-exited (leave_out s i is x w p) = inl x
  Step-exited (give_up s i is x w p) = inr refl
  Step-exited (end_command s xs c ys x k l) = inl x
  Step-exited (fail_command s xs c ys e' x k l m) = inl x
  Step-exited (close s x c w g) = inl x

  -- The process ended with status 1, if at all.
  Reach-exited :
      {t : CacheState}
      → Reach plan run images (initial images) t
      → (t.exited ≡ none) ⊎ (t.exited ≡ some 1)
  unfolding initial
  Reach-exited here = inl refl
  Reach-exited (next r st) = Step-exited st

  from_initial-IsSound :
      {t : CacheState} → Reach plan run images (initial images) t → IsSound plan run images t
  from_initial-IsSound r = Reach-IsSound plan run images r (initial-IsSound plan run images)

  next_step :
      {t : CacheState}
      → Reach plan run images (initial images) t
      → IsFinal t ⊎ ((u : CacheState) × Step plan run images t u)
  next_step {t} r = elim (Reach-exited r) [
    | inr e ↦ inl (inl e)
    | inl e ↦ elim (Bool-cases t.closed) [
      | inl c ↦ inl (inr c)
      | inr c ↦ inr (enabled plan run images t (from_initial-IsSound r) e c)
    ]
  ]

  -- On as much fuel as there are steps to come, a reachable state is brought to its end.
  ends :
      (fuel : ℕ) (s t : CacheState)
      → work t ≤ fuel
      → Reach plan run images (initial images) t
      → Reach plan run images s t
      → (u : CacheState) × Reach plan run images s u × IsFinal u
  ends zero s t w r q = elim (next_step r) [
    | inl done ↦ (t, q, done)
    | inr (u, st) ↦ absurd (omega (arith, work-Step st))
  ]
  ends (suc fuel) s t w r q = elim (next_step r) [
    | inl done ↦ (t, q, done)
    | inr (u, st) ↦ ends fuel s u (omega (arith, work-Step st)) (next r st) (next q st)
  ]

  -- From every state that a run of SaveCache or LoadCache can reach, it can be brought to its end: no
  -- command waits for room in the channel, and the wait group is not waited for in vain. The end is the
  -- closed channel, or the exit for an image that cannot be taken apart.
  pub cache_ends :
      (t : CacheState)
      → Reach plan run images (initial images) t
      → (u : CacheState) × Reach plan run images t u × IsFinal u
  cache_ends t r = ends (work t) t t (omega arith) r here

  -- When the channel is closed, whatever the order in which the commands ended, it holds the errors of
  -- exactly the commands that fail, each as often as it occurs, and no command is running.
  pub cache-collected :
      (t : CacheState)
      → Reach plan run images (initial images) t
      → t.closed ≡ true
      → SameTexts t.errs (errors_of plan run (commands_of plan run images)) × (t.running ≡ [])
  unfolding count
  cache-collected t r c =
      let i = from_initial-IsSound r in
      let (w, k) = i.ended c in (λ e. ground (arith, i.same e, w, k), k)
