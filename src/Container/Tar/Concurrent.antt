-- ===== src/Container/Tar/Concurrent.antt =====
-- pkg/container/container.go: the goroutines of TarDirConcurrent, its semaphore, its wait group and its
-- channel of results, with the loop that receives from it. A goroutine that reads a file and makes its
-- header does both in one transition with the sending; those still running when the function has
-- returned go on.
use engine_ci.Base.{
  ℕ, zero, suc, ◌-◌, ◌<◌, ◌≤◌, eqb, String, Bool, true, false, Option, none, some, List, [], ◌∷◌,
  ◌++◌, ◌≡◌, if◌then◌else◌, length,
}
use engine_ci.Cri.Manager.{Result, ok, err, crash}
use engine_ci.Container.Tar.{Entry, done, failed, Archive, ◌+>◌, Processed, process}

-- A goroutine before its select, then with or without a token of the semaphore, and once it has sent
-- its result, with what its deferred functions still have to do.
pub data Worker : Type 0 where
  starting : ℕ → Entry → Worker
  reading : Bool → ℕ → Entry → Worker
  ending : Bool → Worker

-- `rest` are the files without a goroutine so far, `tokens` the elements in the semaphore. `results` are
-- the slots of the slice of that name, and `failure` is set once the loop has returned an error.
pub record Collecting : Type 0 where
  pub rest : List (ℕ × Entry)
  pub running : List Worker
  pub tokens : ℕ
  pub wait_group : ℕ
  pub result_chan : List (ℕ × Processed)
  pub closed : Bool
  pub results : ℕ → Option (String × String)
  pub failure : Option String

abbrev pub store :
    ℕ → String × String → (ℕ → Option (String × String)) → ℕ → Option (String × String)
store i part results j = if eqb i j then some part else results j

abbrev pub numbered : ℕ → List Entry → List (ℕ × Entry)
numbered i [] = []
numbered i (f ∷ fs) = (i, f) ∷ numbered (suc i) fs

unfoldable pub initial : List Entry → Collecting
initial files = record {
  rest = numbered 0 files;
  running = [];
  tokens = 0;
  wait_group = 0;
  result_chan = [];
  closed = false;
  results = λ i. none;
  failure = none;
}

-- The semaphore has room for `max_workers` tokens, the channel for `capacity` results.
pub data Step (max_workers capacity : ℕ) : Collecting → Collecting → Type 0 where
  -- `wg.Add(1)` and `go func(...)`
  launch :
      (s : Collecting) (fs : List (ℕ × Entry)) (i : ℕ) (f : Entry)
      → s.rest ≡ (i, f) ∷ fs
      → Step max_workers capacity s (record s {
        rest = fs;
        running = starting i f ∷ s.running;
        wait_group = suc s.wait_group;
      })
  -- `case semaphore <- struct{}{}`
  acquire :
      (s : Collecting) (xs ys : List Worker) (i : ℕ) (f : Entry)
      → s.running ≡ xs ++ starting i f ∷ ys
      → s.tokens < max_workers
      → Step max_workers capacity s
          (record s { running = xs ++ reading true i f ∷ ys; tokens = suc s.tokens })
  -- `default`
  pass_by :
      (s : Collecting) (xs ys : List Worker) (i : ℕ) (f : Entry)
      → s.running ≡ xs ++ starting i f ∷ ys
      → max_workers ≤ s.tokens
      → Step max_workers capacity s (record s { running = xs ++ reading false i f ∷ ys })
  -- `resultChan <- ...`
  send :
      (s : Collecting) (xs ys : List Worker) (held : Bool) (i : ℕ) (f : Entry)
      → s.running ≡ xs ++ reading held i f ∷ ys
      → length s.result_chan < capacity
      → Step max_workers capacity s (record s {
        running = xs ++ ending held ∷ ys;
        result_chan = s.result_chan ++ (i, process f) ∷ [];
      })
  -- `<-semaphore`
  release :
      (s : Collecting) (xs ys : List Worker)
      → s.running ≡ xs ++ ending true ∷ ys
      → 1 ≤ s.tokens
      → Step max_workers capacity s
          (record s { running = xs ++ ending false ∷ ys; tokens = s.tokens - 1 })
  -- `wg.Done()`
  leave :
      (s : Collecting) (xs ys : List Worker)
      → s.running ≡ xs ++ ending false ∷ ys
      → Step max_workers capacity s (record s { running = xs ++ ys; wait_group = s.wait_group - 1 })
  -- `wg.Wait()` and `close(resultChan)`
  close :
      (s : Collecting)
      → s.rest ≡ []
      → s.wait_group ≡ 0
      → s.closed ≡ false
      → Step max_workers capacity s (record s { closed = true })
  -- `results[result.index] = result`
  receive :
      (s : Collecting) (queue : List (ℕ × Processed)) (i : ℕ) (part : String × String)
      → s.rest ≡ []
      → s.failure ≡ none
      → s.result_chan ≡ (i, done part) ∷ queue
      → Step max_workers capacity s
          (record s { result_chan = queue; results = store i part s.results })
  -- `return nil, result.err`
  give_up :
      (s : Collecting) (queue : List (ℕ × Processed)) (i : ℕ) (e : String)
      → s.rest ≡ []
      → s.failure ≡ none
      → s.result_chan ≡ (i, failed e) ∷ queue
      → Step max_workers capacity s (record s { result_chan = queue; failure = some e })

pub data Reach (max_workers capacity : ℕ) (s : Collecting) : Collecting → Type 0 where
  here : Reach max_workers capacity s s
  next :
      {t u : Collecting}
      → Reach max_workers capacity s t
      → Step max_workers capacity t u
      → Reach max_workers capacity s u

-- The loop has ended: it has met an error, or the channel is closed and empty.
pub data Ended (t : Collecting) : Type 0 where
  gave_up : (e : String) → t.failure ≡ some e → Ended t
  drained : t.failure ≡ none → t.closed ≡ true → t.result_chan ≡ [] → Ended t

-- The parts in the order of the files. A slot that was never stored holds no header to write.
abbrev pub read_slot : Option (String × String) → Result Archive → Result Archive
read_slot none rest = crash
read_slot (some part) rest = part +> rest

unfoldable pub written : ℕ → ℕ → (ℕ → Option (String × String)) → Result Archive
written zero i results = ok []
written (suc n) i results = read_slot (results i) (written n (suc i) results)

abbrev pub or_written : Option String → Result Archive → Result Archive
or_written (some e) archive = err e
or_written none archive = archive

-- What TarDirConcurrent answers for the files, from the state in which its loop ends.
unfoldable pub finish : List Entry → Collecting → Result Archive
finish files s = or_written s.failure (written (length files) 0 s.results)
