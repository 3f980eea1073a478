-- ===== src/Container/Tar/Sound.antt =====
-- What every state of TarDirConcurrent satisfies: the wait group and the tokens count the goroutines, and
-- the channel has room for every result that is still to be sent.
use engine_ci.Base.{
  ℕ, suc, ◌+◌, ◌≤◌, Bool, true, false, List, [], ◌∷◌, ◌++◌, ◌≡◌, refl, arith, ap, sym, ◌∙◌, ◌≢◌,
  length, length-append,
}
use engine_ci.Container.Tar.{Entry, process}
use engine_ci.Container.Tar.Concurrent.{
  Worker, starting, reading, ending, Collecting, numbered, initial, Step, launch, acquire, pass_by,
  send, release, leave, close, receive, give_up, Reach, here, next,
}

abbrev bit : Bool → ℕ
bit true = 1
bit false = 0

-- The tokens that the goroutines hold.
abbrev pub held_tokens : List Worker → ℕ
held_tokens [] = 0
held_tokens (starting i f ∷ ws) = held_tokens ws
held_tokens (reading h i f ∷ ws) = bit h + held_tokens ws
held_tokens (ending h ∷ ws) = bit h + held_tokens ws

held_tokens-append :
    (xs ys : List Worker) → held_tokens (xs ++ ys) ≡ held_tokens xs + held_tokens ys
held_tokens-append [] ys = omega arith
held_tokens-append (starting i f ∷ xs) ys = omega (arith, held_tokens-append xs ys)
held_tokens-append (reading h i f ∷ xs) ys = omega (arith, held_tokens-append xs ys)
held_tokens-append (ending h ∷ xs) ys = omega (arith, held_tokens-append xs ys)

-- The results that the goroutines have still to send.
abbrev pub unsent : List Worker → ℕ
unsent [] = 0
unsent (starting i f ∷ ws) = 1 + unsent ws
unsent (reading h i f ∷ ws) = 1 + unsent ws
unsent (ending h ∷ ws) = unsent ws

unsent-append : (xs ys : List Worker) → unsent (xs ++ ys) ≡ unsent xs + unsent ys
unsent-append [] ys = omega arith
unsent-append (starting i f ∷ xs) ys = omega (arith, unsent-append xs ys)
unsent-append (reading h i f ∷ xs) ys = omega (arith, unsent-append xs ys)
unsent-append (ending h ∷ xs) ys = omega (arith, unsent-append xs ys)

abbrev pub HasLeft : Collecting → Type 0
HasLeft s = (s.rest ≡ []) × (s.running ≡ [])

pub record IsSound (capacity : ℕ) (s : Collecting) : Type 0 where
  pub group : s.wait_group ≡ length s.running
  pub semaphore : s.tokens ≡ held_tokens s.running
  pub room : length s.result_chan + unsent s.running + length s.rest ≤ capacity
  pub ended : s.closed ≡ true → HasLeft s

no_length : (ws : List Worker) → length ws ≡ 0 → ws ≡ []
no_length [] h = refl
no_length (w ∷ ws) h = absurd (ground arith)

no_middle : (xs ys : List Worker) (w : Worker) → xs ++ w ∷ ys ≢ []
no_middle [] ys w e = cc
no_middle (x ∷ xs) ys w e = cc

module _ (max_workers capacity : ℕ) where
  -- A transition of a goroutine keeps the channel open.
  still_open :
      (s : Collecting) (xs ys : List Worker) (w : Worker)
      → IsSound capacity s
      → s.running ≡ xs ++ w ∷ ys
      → s.closed ≢ true
  still_open s xs ys w h e c = no_middle xs ys w (sym e ∙ (h.ended c).1)

  pub Step-IsSound :
      {s t : Collecting} → Step max_workers capacity s t → IsSound capacity s → IsSound capacity t
  Step-IsSound (launch s fs i f e) h = record {
    group = ground (arith, h.group);
    semaphore = h.semaphore;
    room = ground (arith, h.room);
    ended = λ c. absurd (ground (arith, (h.ended c).0));
  }
  Step-IsSound (acquire s xs ys i f e k) h = record {
    group = ground (
      arith,
      h.group,
      length-append xs (starting i f ∷ ys),
      length-append xs (reading true i f ∷ ys),
    );
    semaphore = ground (
      arith,
      h.semaphore,
      held_tokens-append xs (starting i f ∷ ys),
      held_tokens-append xs (reading true i f ∷ ys),
    );
    room = ground (
      arith,
      h.room,
      unsent-append xs (starting i f ∷ ys),
      unsent-append xs (reading true i f ∷ ys),
    );
    ended = λ c. absurd (still_open s xs ys (starting i f) h e c);
  }
  Step-IsSound (pass_by s xs ys i f e k) h = record {
    group = ground (
      arith,
      h.group,
      length-append xs (starting i f ∷ ys),
      length-append xs (reading false i f ∷ ys),
    );
    semaphore = ground (
      arith,
      h.semaphore,
      held_tokens-append xs (starting i f ∷ ys),
      held_tokens-append xs (reading false i f ∷ ys),
    );
    room = ground (
      arith,
      h.room,
      unsent-append xs (starting i f ∷ ys),
      unsent-append xs (reading false i f ∷ ys),
    );
    ended = λ c. absurd (still_open s xs ys (starting i f) h e c);
  }
  Step-IsSound (send s xs ys b i f e k) h = record {
    group =
        ground
          (arith, h.group, length-append xs (reading b i f ∷ ys), length-append xs (ending b ∷ ys));
    semaphore = ground (
      arith,
      h.semaphore,
      held_tokens-append xs (reading b i f ∷ ys),
      held_tokens-append xs (ending b ∷ ys),
    );
    room = ground (
      arith,
      h.room,
      unsent-append xs (reading b i f ∷ ys),
      unsent-append xs (ending b ∷ ys),
      length-append s.result_chan ((i, process f) ∷ []),
    );
    ended = λ c. absurd (still_open s xs ys (reading b i f) h e c);
  }
  Step-IsSound (release s xs ys e k) h = record {
    group =
        ground (
          arith,
          h.group,
          length-append xs (ending true ∷ ys),
          length-append xs (ending false ∷ ys),
        );
    semaphore = ground (
      arith,
      h.semaphore,
      held_tokens-append xs (ending true ∷ ys),
      held_tokens-append xs (ending false ∷ ys),
    );
    room =
        ground (
          arith,
          h.room,
          unsent-append xs (ending true ∷ ys),
          unsent-append xs (ending false ∷ ys),
        );
    ended = λ c. absurd (still_open s xs ys (ending true) h e c);
  }
  Step-IsSound (leave s xs ys e) h = record {
    group = ground (arith, h.group, length-append xs (ending false ∷ ys), length-append xs ys);
    semaphore =
        ground
          (arith, h.semaphore, held_tokens-append xs (ending false ∷ ys), held_tokens-append xs ys);
    room = ground (arith, h.room, unsent-append xs (ending false ∷ ys), unsent-append xs ys);
    ended = λ c. absurd (still_open s xs ys (ending false) h e c);
  }
  Step-IsSound (close s e k o) h = record {
    group = h.group;
    semaphore = h.semaphore;
    room = h.room;
    ended = λ c. (e, no_length s.running (sym h.group ∙ k));
  }
  Step-IsSound (receive s queue i part e k q) h = record {
    group = h.group;
    semaphore = h.semaphore;
    room = ground (arith, h.room);
    ended = h.ended;
  }
  Step-IsSound (give_up s queue i m e k q) h = record {
    group = h.group;
    semaphore = h.semaphore;
    room = ground (arith, h.room);
    ended = h.ended;
  }

  pub Reach-IsSound :
      {s t : Collecting} → Reach max_workers capacity s t → IsSound capacity s → IsSound capacity t
  Reach-IsSound here h = h
  Reach-IsSound (next r st) h = Step-IsSound st (Reach-IsSound r h)

length-numbered : (i : ℕ) (files : List Entry) → length (numbered i files) ≡ length files
length-numbered i [] = refl
length-numbered i (f ∷ fs) = ap suc (length-numbered (suc i) fs)

pub initial-IsSound : (files : List Entry) → IsSound (length files) (initial files)
unfolding initial
initial-IsSound files = record {
  group = refl;
  semaphore = refl;
  room = omega (arith, length-numbered 0 files);
  ended = λ c. absurd (ground arith);
}
