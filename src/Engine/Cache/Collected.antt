-- ===== src/Engine/Cache/Collected.antt =====
-- No command of the cache blocks, and the channel ends with the errors of all commands that fail.
use engine_ci.Base.{
  ℕ, ◌+◌, ◌≤◌, String, Option, none, some, List, [], ◌∷◌, ◌++◌, ◌≡◌, refl, arith, length,
  length-append, count, count-append, true,
}
use engine_ci.Engine.Cache.{
  Launch, in_background, at_once, left_out, CacheState, initial, Step, start_command, run_now,
  fail_now, leave_out, give_up, end_command, fail_command, close,
}

module _ (plan : String → Option Launch) (run : String → Option String) where
  -- The errors of a list of commands, in order.
  abbrev pub errors_of : List String → List String
  errors_of [] = []
  errors_of (c ∷ cs) = elim (run c) [ none ↦ errors_of cs | some e ↦ e ∷ errors_of cs ]

  -- The commands that the loop runs for a list of images.
  abbrev pub commands_of : List String → List String
  commands_of [] = []
  commands_of (i ∷ is) = elim (plan i) [
    | none ↦ commands_of is
    | some l ↦ elim l [
      | in_background c ↦ c ∷ commands_of is
      | at_once c ↦ c ∷ commands_of is
      | left_out ↦ commands_of is
    ]
  ]

  errors_of-append : (xs ys : List String) → errors_of (xs ++ ys) ≡ errors_of xs ++ errors_of ys
  errors_of-append [] ys = refl
  errors_of-append (c ∷ xs) ys = ground (arith, errors_of-append xs ys)

  -- How often an error is in the channel, or is still to come.
  abbrev pub tally : String → CacheState → ℕ
  tally e s =
      count e s.errs + count e (errors_of s.running) + count e (errors_of (commands_of s.waiting))

  pub record IsSound (images : List String) (s : CacheState) : Type 0 where
    pub done : s.wait_group ≡ length s.running
    pub room : length s.errs + length s.running + length s.waiting ≤ length images
    pub same : (e : String) → tally e s ≡ count e (errors_of (commands_of images))
    pub ended : s.closed ≡ true → (s.waiting ≡ []) × (s.running ≡ [])

  pub initial-IsSound : (images : List String) → IsSound images (initial images)
  unfolding initial count
  initial-IsSound images = record {
    done = refl;
    room = ground arith;
    same = λ e. ground arith;
    ended = λ c. absurd (ground arith);
  }

  pub Step-done :
      (images : List String) {s t : CacheState}
      → Step plan run images s t
      → s.wait_group ≡ length s.running
      → t.wait_group ≡ length t.running
  Step-done images (start_command s i is c x w p) h =
      ground (arith, length-append s.running (c ∷ []))
  Step-done images (run_now s i is c x w p r) h = h
  Step-done images (fail_now s i is c e x w p r k) h = h
  Step-done images (leave_out s i is x w p) h = h
  Step-done images (give_up s i is x w p) h = h
  Step-done images (end_command s xs c ys x r k) h =
      ground (arith, length-append xs (c ∷ ys), length-append xs ys)
  Step-done images (fail_command s xs c ys e x r k l) h =
      ground (arith, length-append xs (c ∷ ys), length-append xs ys)
  Step-done images (close s x c w g) h = h

  pub Step-room :
      (images : List String) {s t : CacheState}
      → Step plan run images s t
      → length s.errs + length s.running + length s.waiting ≤ length images
      → length t.errs + length t.running + length t.waiting ≤ length images
  Step-room images (start_command s i is c x w p) h =
      ground (arith, length-append s.running (c ∷ []))
  Step-room images (run_now s i is c x w p r) h = ground arith
  Step-room images (fail_now s i is c e x w p r k) h = ground (arith, length-append s.errs (e ∷ []))
  Step-room images (leave_out s i is x w p) h = ground arith
  Step-room images (give_up s i is x w p) h = h
  Step-room images (end_command s xs c ys x r k) h =
      ground (arith, length-append xs (c ∷ ys), length-append xs ys)
  Step-room images (fail_command s xs c ys e x r k l) h =
      ground (arith, length-append xs (c ∷ ys), length-append xs ys, length-append s.errs (e ∷ []))
  Step-room images (close s x c w g) h = h

  pub Step-tally :
      (images : List String) (e : String) {s t : CacheState}
      → Step plan run images s t
      → tally e t ≡ tally e s
  unfolding count
  Step-tally images a (start_command s i is c x w p) = ground (
    arith,
    errors_of-append s.running (c ∷ []),
    count-append a (errors_of s.running) (errors_of (c ∷ [])),
  )
  Step-tally images a (run_now s i is c x w p r) = ground arith
  Step-tally images a (fail_now s i is c e x w p r k) =
      ground (arith, count-append a s.errs (e ∷ []))
  Step-tally images a (leave_out s i is x w p) = ground arith
  Step-tally images a (give_up s i is x w p) = refl
  Step-tally images a (end_command s xs c ys x r k) = ground (
    arith,
    errors_of-append xs (c ∷ ys),
    errors_of-append xs ys,
    count-append a (errors_of xs) (errors_of (c ∷ ys)),
    count-append a (errors_of xs) (errors_of ys),
  )
  Step-tally images a (fail_command s xs c ys e x r k l) = ground (
    arith,
    errors_of-append xs (c ∷ ys),
    errors_of-append xs ys,
    count-append a (errors_of xs) (errors_of (c ∷ ys)),
    count-append a (errors_of xs) (errors_of ys),
    count-append a s.errs (e ∷ []),
  )
  Step-tally images a (close s x c w g) = refl
